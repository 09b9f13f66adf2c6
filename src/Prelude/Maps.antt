-- ===== src/Prelude/Maps.antt =====
-- `std::map` with `ℕ` keys, as its entries in iteration order.
pub mod Keys
use mathlib.Core.Path.{◌≡◌, refl}
use mathlib.Core.Logic.{◌≢◌}
use mathlib.Core.Option.{Option, none, some}
use mathlib.Core.List.{List, [], ◌∷◌}
use Prim.Native.Nat.{ℕ, suc, ◌≤◌, ◌<◌}
use native.Mathlib.Omega.{arith}
use nodescan.Prelude.Tests.{ltb, ◌==◌, if◌then◌else◌}
use nodescan.Prelude.Lists.{length}

module _ {ℓ} {V : Type ℓ} where
  unfoldable pub find : ℕ → List (ℕ × V) → Option V
  find k [] = none
  find k ((j, v) ∷ m) = if j == k then some v else find k m

  -- `insert` keeps the entry that is there.
  unfoldable pub insert : ℕ → V → List (ℕ × V) → List (ℕ × V)
  insert k v [] = (k, v) ∷ []
  insert k v ((j, w) ∷ m) =
      if j == k then (j, w) ∷ m else if ltb k j then (k, v) ∷ (j, w) ∷ m else (j, w) ∷ insert k v m

  -- An assignment through the reference that `find`, `insert` or `operator[]` gives.
  unfoldable pub assign : ℕ → V → List (ℕ × V) → List (ℕ × V)
  assign k v [] = []
  assign k v ((j, w) ∷ m) = if j == k then (j, v) ∷ m else (j, w) ∷ assign k v m

  unfoldable pub erase : ℕ → List (ℕ × V) → List (ℕ × V)
  erase k [] = []
  erase k ((j, w) ∷ m) = if j == k then m else (j, w) ∷ erase k m

  -- Keys ascend strictly, from a lower bound on.
  abbrev pub Ascends : ℕ → List (ℕ × V) → Type 0
  Ascends b [] = Unit {0}
  Ascends b ((j, w) ∷ m) = (b ≤ j) × Ascends (suc j) m

  pub Ascends-mono : {b c : ℕ} (m : List (ℕ × V)) → b ≤ c → Ascends c m → Ascends b m
  Ascends-mono [] h a = tt
  Ascends-mono ((j, w) ∷ m) h a = (omega arith, a.1)

  pub find_below : (k : ℕ) {b : ℕ} (m : List (ℕ × V)) → k < b → Ascends b m → find k m ≡ none
  unfolding find
  find_below k [] h a = refl
  find_below k ((j, w) ∷ m) h a = ground (arith, find_below k m (omega arith) a.1)

  pub insert-Ascends :
      (k : ℕ) (v : V) {b : ℕ} (m : List (ℕ × V)) → b ≤ k → Ascends b m → Ascends b (insert k v m)
  unfolding insert
  insert-Ascends k v [] h a = (h, tt)
  insert-Ascends k v ((j, w) ∷ m) h a =
      ground (arith, λ (p : j < k). insert-Ascends k v {b = suc j} m (omega arith) a.1)

  pub assign-Ascends :
      (k : ℕ) (v : V) (b : ℕ) (m : List (ℕ × V)) → Ascends b m → Ascends b (assign k v m)
  unfolding assign
  assign-Ascends k v b [] a = tt
  assign-Ascends k v b ((j, w) ∷ m) a = ground (arith, assign-Ascends k v (suc j) m a.1)

  pub erase-Ascends : (k : ℕ) (b : ℕ) (m : List (ℕ × V)) → Ascends b m → Ascends b (erase k m)
  unfolding erase
  erase-Ascends k b [] a = tt
  erase-Ascends k b ((j, w) ∷ m) a =
      ground
        (arith, erase-Ascends k (suc j) m a.1, Ascends-mono {b = b} {c = suc j} m (omega arith) a.1)

  pub find-insert_self :
      (k : ℕ) (v : V) (m : List (ℕ × V)) → find k m ≡ none → find k (insert k v m) ≡ some v
  unfolding find insert
  find-insert_self k v [] h = ground arith
  find-insert_self k v ((j, w) ∷ m) h = ground (arith, find-insert_self k v m)

  pub find-insert_ne :
      (k i : ℕ) (v : V) (m : List (ℕ × V)) → i ≢ k → find i (insert k v m) ≡ find i m
  unfolding find insert
  find-insert_ne k i v [] h = ground arith
  find-insert_ne k i v ((j, w) ∷ m) h = ground (arith, find-insert_ne k i v m h)

  pub length-insert :
      (k : ℕ) (v : V) (m : List (ℕ × V)) → find k m ≡ none → length (insert k v m) ≡ suc (length m)
  unfolding find insert
  length-insert k v [] h = refl
  length-insert k v ((j, w) ∷ m) h = ground (arith, length-insert k v m)

  pub find-erase_ne : (k i : ℕ) (m : List (ℕ × V)) → i ≢ k → find i (erase k m) ≡ find i m
  unfolding find erase
  find-erase_ne k i [] h = refl
  find-erase_ne k i ((j, w) ∷ m) h = ground (arith, find-erase_ne k i m h)

  pub find-erase-none : (k i : ℕ) (m : List (ℕ × V)) → find i m ≡ none → find i (erase k m) ≡ none
  unfolding find erase
  find-erase-none k i [] h = refl
  find-erase-none k i ((j, w) ∷ m) h = ground (arith, find-erase-none k i m)

  pub find-erase_self : (k b : ℕ) (m : List (ℕ × V)) → Ascends b m → find k (erase k m) ≡ none
  unfolding find erase
  find-erase_self k b [] a = refl
  find-erase_self k b ((j, w) ∷ m) a =
      ground
        (arith, find-erase_self k (suc j) m a.1, λ (e : j ≡ k). find_below k m (omega arith) a.1)

  pub length-erase :
      (k : ℕ) (v : V) (m : List (ℕ × V)) → find k m ≡ some v → suc (length (erase k m)) ≡ length m
  unfolding find erase
  length-erase k v [] h = cc
  length-erase k v ((j, w) ∷ m) h = ground (arith, length-erase k v m)

  pub find-assign_ne :
      (k i : ℕ) (v : V) (m : List (ℕ × V)) → i ≢ k → find i (assign k v m) ≡ find i m
  unfolding find assign
  find-assign_ne k i v [] h = refl
  find-assign_ne k i v ((j, w) ∷ m) h = ground (arith, find-assign_ne k i v m h)

  pub length-assign : (k : ℕ) (v : V) (m : List (ℕ × V)) → length (assign k v m) ≡ length m
  unfolding assign
  length-assign k v [] = refl
  length-assign k v ((j, w) ∷ m) = ground (arith, length-assign k v m)

  pub le_of_find : (k b : ℕ) (v : V) (m : List (ℕ × V)) → Ascends b m → find k m ≡ some v → b ≤ k
  unfolding find
  le_of_find k b v [] a h = cc
  le_of_find k b v ((j, w) ∷ m) a h = ground (arith, le_of_find k (suc j) v m a.1)

  pub insert-some :
      (k : ℕ) (v w : V) (b : ℕ) (m : List (ℕ × V))
      → Ascends b m
      → find k m ≡ some w
      → insert k v m ≡ m
  unfolding find insert
  insert-some k v w b [] a h = cc
  insert-some k v w b ((j, u) ∷ m) a h = ground (
    arith,
    insert-some k v w (suc j) m a.1,
    λ (p : k < j). find_below k {b = suc j} m (omega arith) a.1,
  )
