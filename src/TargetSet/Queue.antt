-- ===== src/TargetSet/Queue.antt =====
-- include/ns/target_set.h: what the calls of a target set give, as a queue of targets.
use nodescan.Prelude.{◌≡◌, List, [], ◌∷◌, ret}
use nodescan.Target.{PortApi, Target, end_target}
use nodescan.TargetSet.{TargetSet, gives}

-- The front of a queue, and `Target::end()` from an empty one.
abbrev pub pop_front : {P : Type 0} ⦃api : PortApi P⦄ → List (Target P) → Target P × List (Target P)
pop_front [] = (end_target, [])
pop_front (t ∷ ts) = (t, ts)

-- A target set that has a queue of targets to come while it is ready: `next_target` takes the front,
-- and the end of a target leaves the queue.
pub record Queue {P S H : Type 0} ⦃api : PortApi P⦄ (set : TargetSet P S H) : Type 1 where
  pub IsReady : S → Type 0
  pub upcoming : S → List (Target P)
  pub next :
      (x : S)
      → IsReady x
      → (x' : S) × (set.next_target x ≡ ret (gives (pop_front (upcoming x)).0, x'))
        × IsReady x'
        × (upcoming x' ≡ (pop_front (upcoming x)).1)
  pub finished : (t : Target P) (h : H) (x : S) → IsReady x → IsReady (set.target_finished t h x).2
  pub kept : (t : Target P) (h : H) (x : S) → upcoming (set.target_finished t h x).2 ≡ upcoming x
