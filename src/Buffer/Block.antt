-- ===== src/Buffer/Block.antt =====
-- Blocks of heap memory: unset bytes, `realloc`, `memmove` and `memcpy`.
use nodescan.Prelude.{
  ℕ, zero, suc, ◌+◌, ◌-◌, ◌≤◌, ◌≡◌, refl, ap, ◌∙◌, List, [], ◌∷◌, ◌++◌, take, drop, length, arith,
  length-append, length-take, length-drop,
}

module _ {ℓ} {A : Type ℓ} where
  unfoldable pub tabulate : (ℕ → A) → ℕ → ℕ → List A
  tabulate f i zero = []
  tabulate f i (suc n) = f i ∷ tabulate f (suc i) n

  -- `realloc`: the common prefix stays.
  unfoldable pub resize : (ℕ → A) → ℕ → List A → List A
  resize f n xs = take n xs ++ tabulate f (length xs) (n - length xs)

  -- `memmove(p, p + n, rem)`.
  unfoldable pub move_down : List A → ℕ → ℕ → List A
  move_down xs n rem = take rem (drop n xs) ++ drop rem xs

  -- `bytes` are written from index `i` on.
  unfoldable pub put_at : ℕ → List A → List A → List A
  put_at i bytes xs = take i xs ++ (bytes ++ drop (i + length bytes) xs)

  pub length-tabulate : (f : ℕ → A) (i n : ℕ) → length (tabulate f i n) ≡ n
  unfolding tabulate
  length-tabulate f i zero = refl
  length-tabulate f i (suc n) = ap suc (length-tabulate f (suc i) n)

  pub length-resize : (f : ℕ → A) (n : ℕ) (xs : List A) → length (resize f n xs) ≡ n
  unfolding resize
  length-resize f n xs = omega (
    arith,
    length-append (take n xs) (tabulate f (length xs) (n - length xs)),
    length-take n xs,
    length-tabulate f (length xs) (n - length xs),
  )

  pub take-append_le : (k : ℕ) (xs ys : List A) → k ≤ length xs → take k (xs ++ ys) ≡ take k xs
  take-append_le zero xs ys h = refl
  take-append_le (suc k) [] ys h = absurd (omega arith)
  take-append_le (suc k) (x ∷ xs) ys h = ap (λ t. x ∷ t) (take-append_le k xs ys (omega arith))

  pub take-append_add : (k : ℕ) (xs ys : List A) → take (length xs + k) (xs ++ ys) ≡ xs ++ take k ys
  take-append_add k [] ys = ap (λ n. take n ys) (omega arith)
  take-append_add k (x ∷ xs) ys =
      let e : suc (length xs) + k ≡ suc (length xs + k) = omega arith in
      rw e (ap (λ t. x ∷ t) (take-append_add k xs ys))

  pub take-take : (k n : ℕ) (xs : List A) → k ≤ n → take k (take n xs) ≡ take k xs
  take-take zero n xs h = refl
  take-take (suc k) zero xs h = absurd (omega arith)
  take-take (suc k) (suc n) [] h = refl
  take-take (suc k) (suc n) (x ∷ xs) h = ap (λ t. x ∷ t) (take-take k n xs (omega arith))

  pub take_all : (n : ℕ) (xs : List A) → length xs ≤ n → take n xs ≡ xs
  take_all zero [] h = refl
  take_all zero (x ∷ xs) h = absurd (omega arith)
  take_all (suc n) [] h = refl
  take_all (suc n) (x ∷ xs) h = ap (λ t. x ∷ t) (take_all n xs (omega arith))

  take-nil : (n : ℕ) → take {A = A} n [] ≡ []
  take-nil zero = refl
  take-nil (suc n) = refl

  pub take-drop : (n k : ℕ) (xs : List A) → take k (drop n xs) ≡ drop n (take (n + k) xs)
  take-drop zero k xs = ap (λ m. take m xs) (omega arith)
  take-drop (suc n) k [] = rw (take-nil, take-nil)
  take-drop (suc n) k (x ∷ xs) =
      let e : suc n + k ≡ suc (n + k) = omega arith in rw e (take-drop n k xs)

  pub drop-append_add : (xs ys : List A) (k : ℕ) → drop (length xs + k) (xs ++ ys) ≡ drop k ys
  drop-append_add [] ys k = ap (λ n. drop n ys) (omega arith)
  drop-append_add (x ∷ xs) ys k =
      let e : suc (length xs) + k ≡ suc (length xs + k) = omega arith in
      rw e (drop-append_add xs ys k)

  -- What `memmove` has brought to the front.
  pub take-move_down :
      (xs : List A) (n rem : ℕ)
      → n + rem ≤ length xs
      → take rem (move_down xs n rem) ≡ drop n (take (n + rem) xs)
  unfolding move_down
  take-move_down xs n rem h =
      take-append_le rem (take rem (drop n xs)) (drop rem xs)
        (omega (arith, length-take rem (drop n xs), length-drop n xs))
      ∙ take-take rem rem (drop n xs) (omega arith)
      ∙ take-drop n rem xs

  pub length-move_down :
      (xs : List A) (n rem : ℕ) → n + rem ≤ length xs → length (move_down xs n rem) ≡ length xs
  unfolding move_down
  length-move_down xs n rem h = omega (
    arith,
    length-append (take rem (drop n xs)) (drop rem xs),
    length-take rem (drop n xs),
    length-drop n xs,
    length-drop rem xs,
  )

  pub length-put_at :
      (i : ℕ) (bytes xs : List A)
      → i + length bytes ≤ length xs
      → length (put_at i bytes xs) ≡ length xs
  unfolding put_at
  length-put_at i bytes xs h = omega (
    arith,
    length-append (take i xs) (bytes ++ drop (i + length bytes) xs),
    length-append bytes (drop (i + length bytes) xs),
    length-take i xs,
    length-drop (i + length bytes) xs,
  )

  -- The bytes up to the end of those written.
  pub take-put_at :
      (i k : ℕ) (bytes xs : List A)
      → i + length bytes ≤ length xs
      → take (i + k) (put_at i bytes xs) ≡ take i xs ++ take k (bytes ++ drop (i + length bytes) xs)
  unfolding put_at
  take-put_at i k bytes xs h =
      let e : i ≡ length (take i xs) = omega (arith, length-take i xs) in
      ap (λ n. take (n + k) (take i xs ++ (bytes ++ drop (i + length bytes) xs))) e
      ∙ take-append_add k (take i xs) (bytes ++ drop (i + length bytes) xs)
