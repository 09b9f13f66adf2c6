-- ===== src/TargetSet/Simple.antt =====
-- include/ns/target_set.h, `SimpleTargetSet`: an ordered set of targets with an iterator into it.
-- The set is the list of its elements in iteration order; the iterator is the element that it
-- stands at, which insertions and the removal of other elements leave valid.
pub mod Order
pub mod Drain
pub mod Queue
use nodescan.Prelude.{
  ℕ, Bool, true, false, ◌||◌, Option, none, some, List, [], ◌∷◌, Exec, ret, fault, if◌then◌else◌,
}
use mathlib.Core.List.{tail}
use nodescan.Target.{PortApi, Target, target_lt, end_target}
use nodescan.TargetSet.{TargetSet, Next, gives}

-- `unset` is a default-constructed iterator: it equals no other, and following it is a fault.
pub data Iter (P : Type 0) : Type 0 where
  unset : Iter P
  at : Target P → Iter P
  past_end : Iter P

pub record SimpleTargetSet (P : Type 0) : Type 0 where
  pub targets : List (Target P)
  pub it : Iter P

abbrev pub fresh_set : {P : Type 0} → SimpleTargetSet P
fresh_set = record { targets = []; it = unset }

abbrev pub first : {P : Type 0} → List (Target P) → Iter P
first [] = past_end
first (x ∷ xs) = at x

module _ {P : Type 0} ⦃api : PortApi P⦄ where
  -- `std::set::insert`, and the element that its iterator stands at.
  unfoldable pub insert : Target P → List (Target P) → List (Target P)
  insert t [] = t ∷ []
  insert t (x ∷ xs) =
      if target_lt x t then x ∷ insert t xs else if target_lt t x then t ∷ x ∷ xs else x ∷ xs

  unfoldable pub find : Target P → List (Target P) → Option (Target P)
  find t [] = none
  find t (x ∷ xs) = if target_lt x t || target_lt t x then find t xs else some x

  unfoldable pub erase : Target P → List (Target P) → List (Target P)
  erase t [] = []
  erase t (x ∷ xs) = if target_lt x t || target_lt t x then x ∷ erase t xs else xs

  -- The elements from the one at which an iterator stands.
  unfoldable pub from_element : Target P → List (Target P) → List (Target P)
  from_element t [] = []
  from_element t (x ∷ xs) = if target_lt x t || target_lt t x then from_element t xs else x ∷ xs

  -- `++_it` at an element.
  abbrev pub next_iter : Target P → List (Target P) → Iter P
  next_iter t xs = first (tail (from_element t xs))

  unfoldable pub add_target : Target P → SimpleTargetSet P → SimpleTargetSet P
  add_target t s = record {
    targets = insert t s.targets;
    it = elim s.it [
      | past_end ↦ (elim (find t s.targets) [ none ↦ at t | some x ↦ at x ])
      | unset ↦ unset
      | at x ↦ at x
    ];
  }

  abbrev removed_at : Target P → Target P → List (Target P) → Iter P
  removed_at t x xs = if target_lt x t || target_lt t x then at x else next_iter x xs

  unfoldable pub remove_target : Target P → SimpleTargetSet P → SimpleTargetSet P
  remove_target t s = elim (find t s.targets) [
    | none ↦ s
    | some y ↦ record {
      targets = erase t s.targets;
      it = elim s.it [ unset ↦ unset | past_end ↦ past_end | at x ↦ removed_at y x s.targets ];
    }
  ]

  unfoldable pub init : SimpleTargetSet P → SimpleTargetSet P
  init s = record s { it = first s.targets }

  unfoldable pub next_target : SimpleTargetSet P → Exec (Target P × SimpleTargetSet P)
  next_target s = elim s.it [
    | past_end ↦ ret (end_target, s)
    | at t ↦ ret (t, record s { it = next_iter t s.targets })
    | unset ↦ fault
  ]

  -- The set as an implementation of the interface.
  unfoldable pub simple_set : {H : Type 0} → TargetSet P (SimpleTargetSet P) H
  simple_set = record {
    init = init;
    init_shrd = λ idx count s. s;
    next_target = λ s. elim (next_target s) [
      | ret p ↦ ret (gives p.0, p.1)
      | fault ↦ fault
      | Exec.out_of_fuel ↦ Exec.out_of_fuel
    ];
    target_finished = λ t h s. (true, h, s);
    init_host_sm = λ t h s. h;
  }
