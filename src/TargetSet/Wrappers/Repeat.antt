-- ===== src/TargetSet/Wrappers/Repeat.antt =====
-- `RepeatableTargetSet<SimpleTargetSet>`: the set is given over and over.
use nodescan.Prelude.{◌≡◌, ap, ◌∙◌, true, false, List, [], ◌∷◌, ret, arith}
use nodescan.Target.{PortApi, PortLaws, Target, is_end, end_target}
use nodescan.Target.Order.{is_end-end}
use nodescan.TargetSet.{gives}
use nodescan.TargetSet.Simple.{SimpleTargetSet, simple_set, init, next_target}
use nodescan.TargetSet.Queue.{pop_front}
use nodescan.TargetSet.Simple.Drain.{IsValid, upcoming, next_target-pop_front, init-IsValid}
use nodescan.TargetSet.Wrappers.{repeat_next}

module _ {P : Type 0} ⦃api : PortApi P⦄ where
  -- No target of the list is an end.
  abbrev pub NoEnd : List (Target P) → Type 0
  NoEnd [] = Unit {0}
  NoEnd (t ∷ ts) = (is_end t ≡ false) × NoEnd ts

  -- What is to come, or the whole set again.
  abbrev pub refill : List (Target P) → List (Target P) → List (Target P)
  refill [] all = all
  refill (t ∷ ts) all = t ∷ ts

  -- On a valid set of which no target to come is an end, and with the laws of the ports, `next_target`
  -- returns and keeps the set and its validity. While targets are to come it takes their front; once
  -- none is, it begins the set again and takes the front of the whole set, or `Target::end()` if the
  -- set is empty.
  pub repeat_next-refill :
      (H : Type 0) (s : SimpleTargetSet P)
      → PortLaws api
      → IsValid s
      → NoEnd (upcoming s)
      → (r : Target P × SimpleTargetSet P) × (repeat_next (simple_set {H = H}) s
          ≡ ret (gives r.0, r.1))
        × IsValid r.1
        × (r.1.targets ≡ s.targets)
        × ((r.0, upcoming r.1) ≡ pop_front (refill (upcoming s) s.targets))
  unfolding repeat_next simple_set
  repeat_next-refill H s laws v h =
      let (r, e, w, same, front) = next_target-pop_front s v in go r e w same (upcoming s) h front
    where
      go :
          (r : Target P × SimpleTargetSet P)
          → next_target s ≡ ret r
          → IsValid r.1
          → r.1.targets ≡ s.targets
          → (up : List (Target P)) → NoEnd up
          → (r.0, upcoming r.1) ≡ pop_front up
          → (q : Target P × SimpleTargetSet P) × (repeat_next (simple_set {H = H}) s
              ≡ ret (gives q.0, q.1))
            × IsValid q.1
            × (q.1.targets ≡ s.targets)
            × ((q.0, upcoming q.1) ≡ pop_front (refill up s.targets))
      go r e w same (t ∷ ts) h front =
          let f : r.0 ≡ t = ap (λ q. q.0) front in
          let g : is_end r.0 ≡ false = rw f h.0 in (r, ground (arith, e, g), w, same, front)
      go r e w same [] h front =
          let f : r.0 ≡ end_target = ap (λ q. q.0) front in
          let g : is_end r.0 ≡ true = rw f (is_end-end laws) in
          let (v', up, kept) = init-IsValid r.1 w.ascends in
          let (q, e', w', same', front') = next_target-pop_front (init r.1) v' in
          (q, ground (arith, e, g, e'), w', same' ∙ kept ∙ same, front' ∙ ap pop_front (up ∙ same))
