-- ===== src/Lvl4/Framing/Delimiters.antt =====
-- Bytes without a delimiter.
use nodescan.Prelude.{ℕ, ◌≡◌, ◌≢◌, refl, none, List, [], ◌∷◌, ◌++◌, length, arith}
use nodescan.Lvl4.Process.{find_byte}
use nodescan.Lvl4.Framing.{shift, find_byte-append_none}

-- A byte is in no place of a list.
abbrev pub Free : ℕ → List ℕ → Type 0
Free c [] = Unit {0}
Free c (x ∷ xs) = (x ≢ c) × Free c xs

pub Free-append : (c : ℕ) (xs ys : List ℕ) → Free c xs → Free c ys → Free c (xs ++ ys)
Free-append c [] ys h g = g
Free-append c (x ∷ xs) ys h g = (h.0, Free-append c xs ys h.1 g)

pub find_byte-none : (c : ℕ) (xs : List ℕ) → Free c xs → find_byte c xs ≡ none
unfolding find_byte
find_byte-none c [] h = refl
find_byte-none c (x ∷ xs) h = ground (arith, find_byte-none c xs h.1)

pub find_byte-after :
    (c : ℕ) (xs ys : List ℕ)
    → Free c xs
    → find_byte c (xs ++ ys) ≡ shift (length xs) (find_byte c ys)
find_byte-after c xs ys h = find_byte-append_none c xs ys (find_byte-none c xs h)
