-- ===== src/Lvl4/Dialog/Pieces.antt =====
-- Pieces and beginnings of pieces, as lists of bytes.
use nodescan.Prelude.{
  ℕ, ◌<◌, ◌≤◌, ◌≡◌, refl, none, some, List, [], ◌∷◌, ◌++◌, length, arith, length-append,
  Option-cases, inl, inr,
}
use nodescan.Lvl4.{Trigger, no_trigger, size_trigger, char_trigger, python_trigger}
use nodescan.Lvl4.Process.{find_byte}
use nodescan.Lvl4.Dialog.{Waits, Piece}

-- Of two beginnings of one list, the shorter begins the longer.
pub append_split :
    (xs rest ys zs : List ℕ)
    → ys ++ zs ≡ xs ++ rest
    → length xs ≤ length ys
    → (us : List ℕ) × (ys ≡ xs ++ us) × (us ++ zs ≡ rest)
append_split [] rest ys zs e le = (ys, refl, e)
append_split (x ∷ xs) rest [] zs e le = absurd (omega arith)
append_split (x ∷ xs) rest (y ∷ ys) zs e le =
    let (us, a, b) = append_split xs rest ys zs (cc) (omega arith) in (us, cc, b)

pub append-nil_left : (xs ys : List ℕ) → xs ++ ys ≡ [] → xs ≡ []
append-nil_left [] ys e = refl
append-nil_left (x ∷ xs) ys e = cc

pub find_byte-append_some :
    (c n : ℕ) (xs ys : List ℕ) → find_byte c xs ≡ some n → find_byte c (xs ++ ys) ≡ some n
unfolding find_byte
find_byte-append_some c n [] ys h = cc
find_byte-append_some c n (x ∷ xs) ys h = elim (Option-cases (find_byte c xs)) [
  | inl e ↦ ground (arith, e)
  | inr (i, e) ↦ ground (arith, e, find_byte-append_some c i xs ys e)
]

-- A list that ends before the first `c` of another has none.
pub find_byte-before :
    (c n : ℕ) (xs rest ys zs : List ℕ)
    → find_byte c xs ≡ some n
    → ys ++ zs ≡ xs ++ rest
    → length ys ≤ n
    → find_byte c ys ≡ none
unfolding find_byte
find_byte-before c n xs rest [] zs h e le = refl
find_byte-before c n [] rest (y ∷ ys) zs h e le = cc
find_byte-before c n (x ∷ xs) rest (y ∷ ys) zs h e le =
    let same : x ≡ y = cc in
    let tails : ys ++ zs ≡ xs ++ rest = cc in
    elim (Option-cases (find_byte c xs)) [
      | inl f ↦ ground (arith, f, same)
      | inr (i, f) ↦ ground (arith, f, same, find_byte-before c i xs rest ys zs f tails)
    ]

module _ {F : Type 0} where
  pub Waits-before :
      (tr : Trigger F) (f : F) (n : ℕ) (xs rest ys zs : List ℕ)
      → Piece tr f n xs
      → ys ++ zs ≡ xs ++ rest
      → length ys < length xs
      → Waits tr ys
  Waits-before no_trigger f n xs rest ys zs p e lt = tt
  Waits-before (size_trigger m g) f n xs rest ys zs p e lt = omega arith
  Waits-before (char_trigger c g) f n xs rest ys zs p e lt =
      find_byte-before c n xs rest ys zs p.1 e (omega arith)
  Waits-before (python_trigger g) f n xs rest ys zs p e lt = p

  pub not-Waits :
      (tr : Trigger F) (f : F) (n : ℕ) (xs rest : List ℕ)
      → Piece tr f n xs
      → ¬ Waits tr (xs ++ rest)
  not-Waits no_trigger f n xs rest p w = p
  not-Waits (size_trigger m g) f n xs rest p w = omega (arith, length-append xs rest)
  not-Waits (char_trigger c g) f n xs rest p w = cc (find_byte-append_some c n xs rest p.1)
  not-Waits (python_trigger g) f n xs rest p w = w

  pub Piece-pos : (tr : Trigger F) (f : F) (n : ℕ) (xs : List ℕ) → Piece tr f n xs → 0 < length xs
  Piece-pos no_trigger f n xs p = absurd p
  Piece-pos (size_trigger m g) f n xs p = omega arith
  Piece-pos (char_trigger c g) f n xs p = omega arith
  Piece-pos (python_trigger g) f n xs p = absurd p
