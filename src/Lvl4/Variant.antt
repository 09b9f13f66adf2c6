-- ===== src/Lvl4/Variant.antt =====
-- include/ns/static_max_size.h and data_trigger_variant.h: the storage of a trigger, in place.
use nodescan.Prelude.{
  ℕ, ◌≤◌, ◌≡◌, refl, sym, ◌∙◌, List, [], ◌∷◌, ◌++◌, ltb, if◌then◌else◌, arith, ◌⊎◌, inl, inr, subst,
  Bool-cases,
}
use mathlib.Core.List.{append_assoc, append-nil}

-- `boost::static_unsigned_max`
abbrev static_unsigned_max : ℕ → ℕ → ℕ
static_unsigned_max a b = if ltb a b then b else a

-- `static_max_size<T0, Types...>::value`, of the sizes of the types.
unfoldable pub static_max_size : ℕ → List ℕ → ℕ
static_max_size t0 [] = t0
static_max_size t0 (t1 ∷ types) = static_unsigned_max t0 (static_max_size t1 types)

abbrev pub OneOf : ℕ → ℕ → List ℕ → Type 0
OneOf n t0 [] = n ≡ t0
OneOf n t0 (t1 ∷ types) = (n ≡ t0) ⊎ OneOf n t1 types

-- Every type fits in the storage, and the storage is no larger than the largest of them.
pub static_max_size-OneOf :
    (t0 : ℕ) (types : List ℕ)
    → ((n : ℕ) → OneOf n t0 types → n ≤ static_max_size t0 types)
      × OneOf (static_max_size t0 types) t0 types
unfolding static_max_size
static_max_size-OneOf t0 [] = (λ n h. omega (arith, h), refl)
static_max_size-OneOf t0 (t1 ∷ types) =
    let (bound, one) = static_max_size-OneOf t1 types in
    let top = static_max_size t1 types in
    (
      λ n h. elim h [
        | inl same ↦ ground (arith, same)
        | inr later ↦ (let below = bound n later in ground (arith, below))
      ],
      elim (Bool-cases (ltb t0 top)) [
        | inl less ↦
            let grown : static_unsigned_max t0 top ≡ top = ground (arith, less) in
            inr (subst (λ n. OneOf n t1 types) (sym grown) one)
        | inr more ↦ inl (ground (arith, more))
      ],
    )

-- The object that is in the storage, and those whose destructors have been called, in order.
pub record DataTriggerVariant (A : Type 0) : Type 0 where
  pub storage : A
  pub destroyed : List A

module _ {A : Type 0} where
  -- `DataTriggerVariant()`: the storage has a `DataTrigger`.
  abbrev pub data_trigger_variant : A → DataTriggerVariant A
  data_trigger_variant base = record { storage = base; destroyed = [] }

  -- `set<T>(args)`
  unfoldable pub set : A → DataTriggerVariant A → DataTriggerVariant A
  set t v = record { storage = t; destroyed = v.destroyed ++ (v.storage ∷ []) }

  -- `~DataTriggerVariant()`: the objects whose destructors have been called by its end.
  unfoldable pub destruct : DataTriggerVariant A → List A
  destruct v = v.destroyed ++ (v.storage ∷ [])

  abbrev pub set_all : List A → DataTriggerVariant A → DataTriggerVariant A
  set_all [] v = v
  set_all (t ∷ ts) v = set_all ts (set t v)

  -- Each object that was put into the storage is destroyed once, in the order in which they were put.
  pub destruct-set_all :
      (ts : List A) (v : DataTriggerVariant A) → destruct (set_all ts v) ≡ destruct v ++ ts
  unfolding set destruct
  destruct-set_all [] v = sym (append-nil (destruct v))
  destruct-set_all (t ∷ ts) v =
      destruct-set_all ts (set t v) ∙ append_assoc (destruct v) (t ∷ []) ts
