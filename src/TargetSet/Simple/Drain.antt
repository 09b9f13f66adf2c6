-- ===== src/TargetSet/Simple/Drain.antt =====
-- `SimpleTargetSet`: what the iterator has before it, and what the calls of `next_target` give.
use nodescan.Prelude.{
  ℕ, zero, suc, ◌≡◌, refl, ap, ◌∙◌, List, [], ◌∷◌, ◌++◌, if◌then◌else◌, arith, none, some, Exec,
  ret, ◌>>=◌, length, replicate, ◌+◌,
}
use nodescan.Target.{PortApi, Target, target_lt, end_target}
use nodescan.Target.Order.{target_lt-asymm}
use nodescan.TargetSet.Queue.{pop_front}
use nodescan.TargetSet.Simple.{
  SimpleTargetSet, Iter, unset, at, past_end, first, insert, from_element, find, init, next_target,
  add_target,
}
use nodescan.TargetSet.Simple.Order.{
  Above, Ascends, insert-Ascends, from_element-next, from_element_first, from_element-insert,
}

module _ {P : Type 0} ⦃api : PortApi P⦄ where
  abbrev pub pending : Iter P → List (Target P) → List (Target P)
  pending unset xs = []
  pending past_end xs = []
  pending (at t) xs = from_element t xs

  -- The targets that the iterator has before it.
  abbrev pub upcoming : SimpleTargetSet P → List (Target P)
  upcoming s = pending s.it s.targets

  -- The iterator stands at an element of the set, or past its end.
  pub data Stands : Iter P → List (Target P) → Type 0 where
    at_end : {xs : List (Target P)} → Stands past_end xs
    on :
        {t : Target P} {xs : List (Target P)} (ys : List (Target P))
        → from_element t xs ≡ t ∷ ys
        → Stands (at t) xs

  pub record IsValid (s : SimpleTargetSet P) : Type 0 where
    pub ascends : Ascends s.targets
    pub stands : Stands s.it s.targets

  first-Stands : (xs : List (Target P)) → Stands (first xs) xs
  first-Stands [] = at_end
  first-Stands (x ∷ xs) = on xs (from_element_first x xs)

  pending-first : (xs : List (Target P)) → pending (first xs) xs ≡ xs
  pending-first [] = refl
  pending-first (x ∷ xs) = from_element_first x xs

  -- `init` makes the set valid again, with all its targets to come.
  pub init-IsValid :
      (s : SimpleTargetSet P)
      → Ascends s.targets
      → IsValid (init s) × (upcoming (init s) ≡ s.targets) × ((init s).targets ≡ s.targets)
  unfolding init
  init-IsValid s a =
      (record { ascends = a; stands = first-Stands s.targets }, pending-first s.targets, refl)

  behind :
      (t : Target P) (xs ys : List (Target P))
      → Ascends xs
      → from_element t xs ≡ t ∷ ys
      → Stands (first ys) xs × (pending (first ys) xs ≡ ys)
  behind t xs [] a e = (at_end, refl)
  behind t xs (y ∷ ys) a e = let f = from_element-next t y xs ys a e in (on ys f, f)

  abbrev Popped : SimpleTargetSet P → Exec (Target P × SimpleTargetSet P) → Type 0
  Popped s e =
      (r : Target P × SimpleTargetSet P) × (e ≡ ret r)
      × IsValid r.1
      × (r.1.targets ≡ s.targets)
      × ((r.0, upcoming r.1) ≡ pop_front (upcoming s))

  popped :
      (xs : List (Target P)) (i : Iter P)
      → Ascends xs
      → Stands i xs
      → (let s : SimpleTargetSet P = record { targets = xs; it = i } in Popped s (next_target s))
  unfolding next_target
  popped xs unset a x = elim x [ ]
  popped xs past_end a at_end = (
    (end_target, record { targets = xs; it = past_end }),
    refl,
    record { ascends = a; stands = at_end },
    refl,
    refl,
  )
  popped xs (at t) a (on ys e) =
      let b = behind t xs ys a e in
      (
        (t, record { targets = xs; it = first ys }),
        (rw (e, next_target)),
        record { ascends = a; stands = b.0 },
        refl,
        rw (e, b.1),
      )

  -- On a valid set `next_target` returns, keeps the set and its validity, and takes the front of the
  -- targets to come, or `Target::end()` if there is none.
  pub next_target-pop_front :
      (s : SimpleTargetSet P)
      → IsValid s
      → (r : Target P × SimpleTargetSet P) × (next_target s ≡ ret r)
        × IsValid r.1
        × (r.1.targets ≡ s.targets)
        × ((r.0, upcoming r.1) ≡ pop_front (upcoming s))
  next_target-pop_front s v = popped s.targets s.it v.ascends v.stands

  -- `n` calls of `next_target`, with what they return.
  pub drain : ℕ → SimpleTargetSet P → Exec (List (Target P))
  drain zero s = ret []
  drain (suc n) s = next_target s >>= λ r. drain n r.1 >>= λ ts. ret (r.0 ∷ ts)

  pub pops : ℕ → List (Target P) → List (Target P)
  pops zero ts = []
  pops (suc n) ts = let r = pop_front ts in r.0 ∷ pops n r.1

  drain-pops : (n : ℕ) (s : SimpleTargetSet P) → IsValid s → drain n s ≡ ret (pops n (upcoming s))
  unfolding drain pops
  drain-pops zero s v = refl
  drain-pops (suc n) s v =
      let (r, e, w, same, front) = next_target-pop_front s v in
      let ih = drain-pops n r.1 w in rw (e, ih) (ap (λ q. ret (q.0 ∷ pops n q.1)) front)

  pops_all : (k : ℕ) (ts : List (Target P)) → pops (length ts + k) ts ≡ ts ++ replicate k end_target
  unfolding pops
  pops_all zero [] = refl
  pops_all (suc k) [] =
      let e : 0 + suc k ≡ suc (0 + k) = omega arith in
      rw e (ap (λ us. end_target ∷ us) (pops_all k []))
  pops_all k (t ∷ ts) =
      let e : suc (length ts) + k ≡ suc (length ts + k) = omega arith in
      rw e (ap (λ us. t ∷ us) (pops_all k ts))

  -- From `init`, the calls give the targets of the set in ascending order, each once, and then
  -- `Target::end()` for ever.
  pub drain-init :
      (s : SimpleTargetSet P) (k : ℕ)
      → Ascends s.targets
      → drain (length s.targets + k) (init s) ≡ ret (s.targets ++ replicate k end_target)
  drain-init s k a =
      let (v, up, _) = init-IsValid s a in
      drain-pops (length s.targets + k) (init s) v
      ∙ ap (λ ts. ret (pops (length s.targets + k) ts)) up
      ∙ ap ret (pops_all k s.targets)

  -- A target added while the iterator stands at an element is to come exactly if it is above that
  -- element; the targets that were to come still are, in order.
  pub add_target-upcoming :
      (s : SimpleTargetSet P) (t x : Target P) (ys : List (Target P))
      → Ascends s.targets
      → s.it ≡ at x
      → upcoming s ≡ x ∷ ys
      → Ascends (add_target t s).targets
        × (upcoming (add_target t s) ≡ (if target_lt x t then x ∷ insert t ys else x ∷ ys))
  unfolding add_target
  add_target-upcoming s t x ys a e h =
      let g : from_element x s.targets ≡ x ∷ ys = rw e at h in
      (insert-Ascends t s.targets a, rw e (from_element-insert x t s.targets a ys g))

  find-Above : (t : Target P) (xs : List (Target P)) → Above t xs → find t xs ≡ none
  unfolding find
  find-Above t [] a = refl
  find-Above t (x ∷ xs) a = ground (arith, find-Above t xs a.1)

  again :
      (t : Target P) (xs : List (Target P))
      → Above t xs
      → pending (elim (find t xs) [ none ↦ at t | some x ↦ at x ]) (insert t xs) ≡ t ∷ xs
  unfolding insert find
  again t [] a = from_element_first t []
  again t (x ∷ xs) a =
      ground (arith, find-Above t xs a.1, target_lt-asymm t x a.0, from_element_first t (x ∷ xs))

  -- A target below every other that is added after the iteration has ended comes with all the
  -- others behind it, though they were given before.
  pub add_target_again :
      (s : SimpleTargetSet P) (t : Target P)
      → Above t s.targets
      → s.it ≡ past_end
      → upcoming (add_target t s) ≡ t ∷ s.targets
  unfolding add_target
  add_target_again s t a e = rw e (again t s.targets a)
