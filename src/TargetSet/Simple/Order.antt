-- ===== src/TargetSet/Simple/Order.antt =====
-- The ordered list of `SimpleTargetSet`: what an iterator has before it under insertion and removal.
use nodescan.Prelude.{
  Bool-cases, inl, inr, ◌∙◌, true, ◌||◌, ◌≡◌, List, [], ◌∷◌, if◌then◌else◌, arith,
}
use nodescan.Target.{PortApi, Target, target_lt}
use nodescan.Target.Order.{target_lt_irrefl, target_lt_trans, target_lt-asymm}
use nodescan.TargetSet.Simple.{insert, erase, from_element}

module _ {P : Type 0} ⦃api : PortApi P⦄ where
  abbrev pub Above : Target P → List (Target P) → Type 0
  Above t [] = Unit {0}
  Above t (x ∷ xs) = (target_lt t x ≡ true) × Above t xs

  -- The elements of a `std::set` ascend strictly.
  abbrev pub Ascends : List (Target P) → Type 0
  Ascends [] = Unit {0}
  Ascends (x ∷ xs) = Above x xs × Ascends xs

  pub Above-trans :
      (t u : Target P) (xs : List (Target P)) → target_lt t u ≡ true → Above u xs → Above t xs
  Above-trans t u [] h a = tt
  Above-trans t u (x ∷ xs) h a = (target_lt_trans t u x h a.0, Above-trans t u xs h a.1)

  pub insert-Above :
      (t u : Target P) (xs : List (Target P))
      → target_lt t u ≡ true
      → Above t xs
      → Above t (insert u xs)
  unfolding insert
  insert-Above t u [] h a = (h, tt)
  insert-Above t u (x ∷ xs) h a = ground (arith, insert-Above t u xs h a.1)

  pub insert-Ascends : (t : Target P) (xs : List (Target P)) → Ascends xs → Ascends (insert t xs)
  unfolding insert
  insert-Ascends t [] a = (tt, tt)
  insert-Ascends t (x ∷ xs) a =
      ground (arith, insert-Ascends t xs a.1, insert-Above x t xs, Above-trans t x xs)

  pub erase-Above : (t u : Target P) (xs : List (Target P)) → Above t xs → Above t (erase u xs)
  unfolding erase
  erase-Above t u [] a = tt
  erase-Above t u (x ∷ xs) a = ground (arith, erase-Above t u xs a.1)

  pub erase-Ascends : (t : Target P) (xs : List (Target P)) → Ascends xs → Ascends (erase t xs)
  unfolding erase
  erase-Ascends t [] a = tt
  erase-Ascends t (x ∷ xs) a = ground (arith, erase-Ascends t xs a.1, erase-Above x t xs)

  from_element-Above :
      (t x y : Target P) (xs ys : List (Target P))
      → Above x xs
      → from_element t xs ≡ y ∷ ys
      → target_lt x y ≡ true
  unfolding from_element
  from_element-Above t x y [] ys a h = cc
  from_element-Above t x y (z ∷ zs) ys a h = ground (arith, from_element-Above t x y zs ys a.1)

  from_element_self : (t : Target P) (xs : List (Target P)) → from_element t (t ∷ xs) ≡ t ∷ xs
  unfolding from_element
  from_element_self t xs = rw (target_lt_irrefl t)

  from_element_skip :
      (t x : Target P) (xs : List (Target P))
      → target_lt x t ≡ true
      → from_element t (x ∷ xs) ≡ from_element t xs
  unfolding from_element
  from_element_skip t x xs h = rw h

  -- The element behind the one at which an iterator stands.
  pub from_element-next :
      (t y : Target P) (xs ys : List (Target P))
      → Ascends xs
      → from_element t xs ≡ t ∷ y ∷ ys
      → from_element y xs ≡ y ∷ ys
  unfolding from_element
  from_element-next t y [] ys a h = cc
  from_element-next t y (x ∷ xs) ys a h = elim (Bool-cases (target_lt x t || target_lt t x)) [
    | inl skip ↦
        let g : from_element t xs ≡ t ∷ y ∷ ys = rw skip at h in
        let r = from_element-next t y xs ys a.1 g in
        from_element_skip y x xs (from_element-Above y x y xs ys a.0 r) ∙ r
    | inr stop ↦
        let g : x ∷ xs ≡ t ∷ y ∷ ys = rw stop at h in
        let e : xs ≡ y ∷ ys = cc in
        let above : target_lt x y ≡ true = (rw e at a.0).0 in
        from_element_skip y x xs above ∙ (rw e (from_element_self y ys))
  ]

  -- The first element is where an iteration begins.
  pub from_element_first : (x : Target P) (xs : List (Target P)) → from_element x (x ∷ xs) ≡ x ∷ xs
  from_element_first = from_element_self

  -- An insertion shows up behind an iterator exactly if the new element is above the one at which
  -- the iterator stands.
  pub from_element-insert :
      (x t : Target P) (xs : List (Target P))
      → Ascends xs
      → (ys : List (Target P)) → from_element x xs ≡ x ∷ ys
      → from_element x (insert t xs) ≡ (if target_lt x t then x ∷ insert t ys else x ∷ ys)
  unfolding from_element insert
  from_element-insert x t [] a ys h = cc
  from_element-insert x t (z ∷ zs) a ys h = elim (Bool-cases (target_lt z x || target_lt x z)) [
    | inl skip ↦
        let g : from_element x zs ≡ x ∷ ys = rw skip at h in
        let above = from_element-Above x z x zs ys a.0 g in
        ground (
          arith,
          from_element-insert x t zs a.1 ys g,
          above,
          target_lt_trans z x t above,
          target_lt_trans t z x,
          target_lt-asymm x t,
          g,
        )
    | inr stop ↦
        let g : z ∷ zs ≡ x ∷ ys = rw stop at h in
        ground (arith, target_lt_irrefl x, target_lt-asymm t x)
  ]
