-- ===== src/Ipstr/Reading.antt =====
-- How the text of an address is read back.
use nodescan.Prelude.{
  ℕ, ◌+◌, ◌-◌, ◌*◌, ◌/◌, ◌%◌, ◌^◌, ◌<◌, ◌≤◌, ◌≡◌, ap, ◌∙◌, List, [], ◌∷◌, ◌++◌, length, take, ltb,
  ◌==◌, if◌then◌else◌, arith, length-append, sym, Bool-cases, inl, inr,
}
use mathlib.Core.List.{append-nil}
use nodescan.Buffer.Block.{take_all}
use nodescan.Ipstr.{decimal, dotted, ipstr}

-- The numbers of a text, split at the points.
unfoldable pub numbers : ℕ → List ℕ → List ℕ
numbers cur [] = cur ∷ []
numbers cur (c ∷ cs) = if c == 46 then cur ∷ numbers 0 cs else numbers (10 * cur + (c - 48)) cs

-- The address of four numbers.
abbrev pub address : List ℕ → ℕ
address [] = 0
address (n ∷ ns) = n * 256 ^ length ns + address ns

numbers-digit : (cur d : ℕ) (cs : List ℕ) → numbers cur ((48 + d) ∷ cs) ≡ numbers (10 * cur + d) cs
unfolding numbers
numbers-digit cur d cs = ground (arith, ap (λ k. numbers k cs) (minus cur d))
  where
    minus : (cur d : ℕ) → 10 * cur + (48 + d - 48) ≡ 10 * cur + d
    minus cur d = omega arith

-- The digits of a number, whatever stands behind them.
numbers-decimal : (n : ℕ) (cs : List ℕ) → n < 1000 → numbers 0 (decimal n ++ cs) ≡ numbers n cs
unfolding decimal
numbers-decimal n cs h = elim (Bool-cases (ltb n 10)) [
  | inl one ↦
      let whole : 10 * 0 + n ≡ n = omega arith in
      let shape : decimal n ≡ (48 + n) ∷ [] = ground (arith, one) in
      ap (λ us. numbers 0 (us ++ cs)) shape ∙ numbers-digit 0 n cs ∙ ap (λ k. numbers k cs) whole
  | inr more ↦ elim (Bool-cases (ltb n 100)) [
    | inl two ↦
        let whole : 10 * (10 * 0 + n / 10) + n % 10 ≡ n = omega arith in
        let step =
          numbers-digit 0 (n / 10) ((48 + n % 10) ∷ cs)
          ∙ numbers-digit (10 * 0 + n / 10) (n % 10) cs
          ∙ ap (λ k. numbers k cs) whole in
        let shape : decimal n ≡ (48 + n / 10) ∷ (48 + n % 10) ∷ [] = ground (arith, more, two) in
        ap (λ us. numbers 0 (us ++ cs)) shape ∙ step
    | inr three ↦
        let whole : 10 * (10 * (10 * 0 + n / 100) + n / 10 % 10) + n % 10 ≡ n = omega (arith, h) in
        let step =
          numbers-digit 0 (n / 100) ((48 + n / 10 % 10) ∷ (48 + n % 10) ∷ cs)
          ∙ numbers-digit (10 * 0 + n / 100) (n / 10 % 10) ((48 + n % 10) ∷ cs)
          ∙ numbers-digit (10 * (10 * 0 + n / 100) + n / 10 % 10) (n % 10) cs
          ∙ ap (λ k. numbers k cs) whole in
        let shape : decimal n ≡ (48 + n / 100) ∷ (48 + n / 10 % 10) ∷ (48 + n % 10) ∷ [] =
          ground (arith, more, three) in
        ap (λ us. numbers 0 (us ++ cs)) shape ∙ step
  ]
]

-- A number that a point follows.
numbers-decimal_point :
    (n : ℕ) (cs : List ℕ) → n < 1000 → numbers 0 (decimal n ++ (46 ∷ cs)) ≡ n ∷ numbers 0 cs
unfolding numbers
numbers-decimal_point n cs h = numbers-decimal n (46 ∷ cs) h

numbers-decimal_last : (n : ℕ) → n < 1000 → numbers 0 (decimal n) ≡ n ∷ []
unfolding numbers
numbers-decimal_last n h = ap (numbers 0) (sym (append-nil (decimal n))) ∙ numbers-decimal n [] h

length-decimal : (n : ℕ) → length (decimal n) ≤ 3
unfolding decimal
length-decimal n = ground arith

length-dotted : (ip : ℕ) → length (dotted ip) ≤ 15
unfolding dotted
length-dotted ip =
    let a = decimal (ip / 2 ^ 24) in
    let b = decimal (ip / 2 ^ 16 % 256) in
    let c = decimal (ip / 2 ^ 8 % 256) in
    let d = decimal (ip % 256) in
    omega (
      arith,
      length-append a (46 ∷ (b ++ (46 ∷ (c ++ (46 ∷ d))))),
      length-append b (46 ∷ (c ++ (46 ∷ d))),
      length-append c (46 ∷ d),
      length-decimal (ip / 2 ^ 24),
      length-decimal (ip / 2 ^ 16 % 256),
      length-decimal (ip / 2 ^ 8 % 256),
      length-decimal (ip % 256),
    )

numbers-dotted :
    (ip : ℕ)
    → ip < 2 ^ 32
    → numbers 0 (dotted ip) ≡ ip / 2 ^ 24 ∷ ip / 2 ^ 16 % 256 ∷ ip / 2 ^ 8 % 256 ∷ ip % 256 ∷ []
unfolding dotted
numbers-dotted ip h =
    let a = ip / 2 ^ 24 in
    let b = ip / 2 ^ 16 % 256 in
    let c = ip / 2 ^ 8 % 256 in
    let d = ip % 256 in
    numbers-decimal_point a (decimal b ++ (46 ∷ (decimal c ++ (46 ∷ decimal d)))) (omega (arith, h))
    ∙ ap (λ ns. a ∷ ns) (numbers-decimal_point b (decimal c ++ (46 ∷ decimal d)) (omega arith))
    ∙ ap (λ ns. a ∷ b ∷ ns) (numbers-decimal_point c (decimal d) (omega arith))
    ∙ ap (λ ns. a ∷ b ∷ c ∷ ns) (numbers-decimal_last d (omega arith))

-- The 18 bytes are enough for every address, and the numbers between the points of its text are those
-- of the address.
pub ipstr-address :
    (ip : ℕ) → ip < 2 ^ 32 → (length (ipstr ip) ≤ 15) × (address (numbers 0 (ipstr ip)) ≡ ip)
unfolding ipstr
ipstr-address ip h =
    let short = length-dotted ip in
    let all : take 17 (dotted ip) ≡ dotted ip = take_all 17 (dotted ip) (omega (arith, short)) in
    let sum : address (ip / 2 ^ 24 ∷ ip / 2 ^ 16 % 256 ∷ ip / 2 ^ 8 % 256 ∷ ip % 256 ∷ []) ≡ ip =
      omega (arith, h) in
    (
      omega (arith, short, ap length all),
      ap (λ us. address (numbers 0 us)) all ∙ ap address (numbers-dotted ip h) ∙ sum,
    )
