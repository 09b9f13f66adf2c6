-- ===== src/Prelude/Maps/Keys.antt =====
-- The keys of a map, and what the operations do to them.
use mathlib.Core.Path.{◌≡◌, refl, ap, sym, ◌∙◌}
use mathlib.Core.Logic.{inl, inr}
use mathlib.Core.Option.{none, some}
use mathlib.Core.List.{List, [], ◌∷◌}
use Prim.Native.Nat.{ℕ, suc}
use native.Mathlib.Omega.{arith}
use nodescan.Prelude.Tests.{Bool-cases, ltb, ◌==◌, if◌then◌else◌}
use nodescan.Prelude.Maps.{find, insert, assign, erase, Ascends}

abbrev pub keys {ℓ} : {V : Type ℓ} → List (ℕ × V) → List ℕ
keys [] = []
keys ((k, v) ∷ m) = k ∷ keys m

insert_key : ℕ → List ℕ → List ℕ
insert_key k [] = k ∷ []
insert_key k (j ∷ js) =
    if j == k then j ∷ js else if ltb k j then k ∷ j ∷ js else j ∷ insert_key k js

erase_key : ℕ → List ℕ → List ℕ
erase_key k [] = []
erase_key k (j ∷ js) = if j == k then js else j ∷ erase_key k js

module _ {ℓ} {V : Type ℓ} where
  keys-insert : (k : ℕ) (v : V) (m : List (ℕ × V)) → keys (insert k v m) ≡ insert_key k (keys m)
  unfolding insert insert_key
  keys-insert k v [] = refl
  keys-insert k v ((j, w) ∷ m) = ground (arith, keys-insert k v m)

  keys-erase : (k : ℕ) (m : List (ℕ × V)) → keys (erase k m) ≡ erase_key k (keys m)
  unfolding erase erase_key
  keys-erase k [] = refl
  keys-erase k ((j, w) ∷ m) = ground (arith, keys-erase k m)

  pub keys-assign : (k : ℕ) (v : V) (m : List (ℕ × V)) → keys (assign k v m) ≡ keys m
  unfolding assign
  keys-assign k v [] = refl
  keys-assign k v ((j, w) ∷ m) = ground (arith, keys-assign k v m)

  pub erase-none : (k : ℕ) (m : List (ℕ × V)) → find k m ≡ none → erase k m ≡ m
  unfolding find erase
  erase-none k [] h = refl
  erase-none k ((j, w) ∷ m) h = ground (arith, erase-none k m)

  pub erase-insert :
      (k b : ℕ) (v : V) (m : List (ℕ × V))
      → Ascends b m
      → find k m ≡ none
      → erase k (insert k v m) ≡ m
  unfolding find insert erase
  erase-insert k b v [] a h = ground arith
  erase-insert k b v ((j, w) ∷ m) a h =
      ground (arith, erase-insert k (suc j) v m a.1, erase-none k m)

  pub keys-insert-erase :
      (k b : ℕ) (v w : V) (m : List (ℕ × V))
      → Ascends b m
      → find k m ≡ some v
      → keys (insert k w (erase k m)) ≡ keys m
  unfolding find insert erase
  keys-insert-erase k b v w [] a h = cc
  keys-insert-erase k b v w ((j, x) ∷ []) a h = ground arith
  keys-insert-erase k b v w ((j, x) ∷ (i, y) ∷ m) a h =
      ground (arith, a, keys-insert-erase k (suc j) v w ((i, y) ∷ m) a.1)

module _ {ℓ κ} {V : Type ℓ} {W : Type κ} where
  pub keys-insert_both :
      (k : ℕ) (v : V) (w : W) (m : List (ℕ × V)) (n : List (ℕ × W))
      → keys m ≡ keys n
      → keys (insert k v m) ≡ keys (insert k w n)
  keys-insert_both k v w m n e = keys-insert k v m ∙ ap (insert_key k) e ∙ sym (keys-insert k w n)

  pub keys-erase_both :
      (k : ℕ) (m : List (ℕ × V)) (n : List (ℕ × W))
      → keys m ≡ keys n
      → keys (erase k m) ≡ keys (erase k n)
  keys-erase_both k m n e = keys-erase k m ∙ ap (erase_key k) e ∙ sym (keys-erase k n)

  pub find-keys :
      (k : ℕ) (v : V) (m : List (ℕ × V)) (n : List (ℕ × W))
      → keys m ≡ keys n
      → find k m ≡ some v
      → (w : W) × (find k n ≡ some w)
  unfolding find
  find-keys k v [] n e h = cc
  find-keys k v (x ∷ m) [] e h = cc
  find-keys k v ((i, x) ∷ m) ((j, y) ∷ n) e h = elim (Bool-cases (j == k)) [
    | inl here ↦ (y, ground (arith, here))
    | inr other ↦
        let rest : keys m ≡ keys n = ground (arith, e) in
        let found : find k m ≡ some v = ground (arith, e, other, h) in
        let (w, q) = find-keys k v m n rest found in (w, ground (arith, other, q))
  ]

  pub find-none-keys :
      (k : ℕ) (m : List (ℕ × V)) (n : List (ℕ × W))
      → keys m ≡ keys n
      → find k m ≡ none
      → find k n ≡ none
  unfolding find
  find-none-keys k [] [] e h = refl
  find-none-keys k [] (y ∷ n) e h = cc
  find-none-keys k (x ∷ m) [] e h = cc
  find-none-keys k ((i, x) ∷ m) ((j, y) ∷ n) e h = ground (arith, e, find-none-keys k m n)
