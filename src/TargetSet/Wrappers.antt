-- ===== src/TargetSet/Wrappers.antt =====
-- include/ns/target_set.h: `RepeatableTargetSet<T>` and `ReinjectableTargetSet<T>`, over any set.
pub mod Repeat
pub mod Inject
pub mod Tests
use nodescan.Prelude.{ℕ, Bool, true, false, List, [], ◌∷◌, ◌++◌, Exec, ret, ◌>>=◌, if◌then◌else◌}
use nodescan.Target.{PortApi, Target, is_end}
use nodescan.TargetSet.{TargetSet, Next, gives, blocks}

-- A base set with the targets that were added to it, the oldest first.
pub record Reinjectable (P S : Type 0) : Type 0 where
  pub targets : List (Target P)
  pub base : S

-- `emplace_target` and `add_target` put a target at the back of the queue.
unfoldable pub add_target : {P S : Type 0} → Target P → Reinjectable P S → Reinjectable P S
add_target t r = record r { targets = r.targets ++ (t ∷ []) }

module _ {P S H : Type 0} ⦃api : PortApi P⦄ (set : TargetSet P S H) where
  again : Next P × S → Exec (Next P × S)
  again (blocks, s) = ret (blocks, s)
  again (gives t, s) = if is_end t then set.next_target (set.init s) else ret (gives t, s)

  -- `RepeatableTargetSet<T>::next_target`
  unfoldable pub repeat_next : S → Exec (Next P × S)
  unfolding again
  repeat_next s = set.next_target s >>= again

  -- `RepeatableTargetSet<T>`: the base with this `next_target`.
  pub repeatable_set : TargetSet P S H
  repeatable_set = record set { next_target = repeat_next }

  -- `ReinjectableTargetSet<T>::next_target`
  unfoldable pub inject_next : Reinjectable P S → Exec (Next P × Reinjectable P S)
  inject_next r = elim r.targets [
    | t ∷ ts ↦ ret (gives t, record r { targets = ts })
    | [] ↦ set.next_target r.base >>= λ p. ret (p.0, record r { base = p.1 })
  ]
