-- ===== src/Sip/Headers.antt =====
-- protocols/sip.cpp: what the header callback is given.
use nodescan.Prelude.{
  ℕ, suc, ◌+◌, ◌-◌, ◌≡◌, refl, ap, sym, ◌∙◌, Bool, some, List, [], ◌∷◌, ◌++◌, length, take, drop,
  set, get_elem?, Exec, ret, arith, ◌==◌, if◌then◌else◌, get_elem?-append_add, Bool-cases, inl, inr,
}
use nodescan.Buffer.Block.{drop-append_add}
use nodescan.Lvl4.{Lvl4Sm}
use nodescan.Lvl4.Process.{find_byte}
use nodescan.Lvl4.Framing.Delimiters.{Free}
use nodescan.Sip.{Sip, c_string, value_pointer, holding, on_line}

-- The value that the client passes on: it drops the first byte if the second is a space.
abbrev pub passed : List ℕ → List ℕ
passed [] = []
passed (x ∷ []) = x ∷ []
passed (x ∷ y ∷ xs) = if y == 32 then y ∷ xs else x ∷ y ∷ xs

pub set-append : (xs ys : List ℕ) (i v : ℕ) → set (xs ++ ys) (length xs + i) v ≡ xs ++ set ys i v
set-append [] ys i v = let e : 0 + i ≡ i = omega arith in ap (λ n. set ys n v) e
set-append (x ∷ xs) ys i v =
    let e : suc (length xs) + i ≡ suc (length xs + i) = omega arith in
    ap (λ n. set (x ∷ (xs ++ ys)) n v) e ∙ ap (λ zs. x ∷ zs) (set-append xs ys i v)

pub set_first : (xs ys : List ℕ) → set (xs ++ ys) (length xs) 0 ≡ xs ++ set ys 0 0
set_first [] ys = refl
set_first (x ∷ xs) ys = ap (λ zs. x ∷ zs) (set_first xs ys)

c_string-append : (xs ys : List ℕ) → Free 0 xs → c_string (xs ++ (0 ∷ ys)) ≡ ret xs
c_string-append [] ys h = refl
c_string-append (x ∷ xs) ys h = ground (arith, c_string-append xs ys h.1)

find_byte-Free :
    (c n : ℕ) (xs ys : List ℕ)
    → Free c xs
    → find_byte c (take (length xs + suc n) (xs ++ (c ∷ ys))) ≡ some (length xs)
unfolding find_byte
find_byte-Free c n [] ys h =
    let e : 0 + suc n ≡ suc n = omega arith in
    ap (λ k. find_byte c (take k (c ∷ ys))) e ∙ ground arith
find_byte-Free c n (x ∷ xs) ys h =
    let e : suc (length xs) + suc n ≡ suc (length xs + suc n) = omega arith in
    ap (λ k. find_byte c (take k (x ∷ (xs ++ (c ∷ ys))))) e
    ∙ ground (arith, find_byte-Free c n xs ys h.1)

value_lem :
    (key value rest : List ℕ)
    → Free 0 value
    → let buf = key ++ (0 ∷ (value ++ (0 ∷ rest))) in
      (p : ℕ) × (value_pointer buf (length key + 1) ≡ ret p)
      × (c_string (drop p buf) ≡ ret (passed value))
unfolding value_pointer
value_lem key [] rest h = (
  length key + 1,
  ground (arith, get_elem?-append_add key (0 ∷ 0 ∷ rest) 1),
  ap c_string (drop-append_add key (0 ∷ 0 ∷ rest) 1),
)
value_lem key (x ∷ []) rest h = (
  length key + 1,
  ground (
    arith,
    get_elem?-append_add key (0 ∷ x ∷ 0 ∷ rest) 1,
    get_elem?-append_add key (0 ∷ x ∷ 0 ∷ rest) 2,
  ),
  ap c_string (drop-append_add key (0 ∷ x ∷ 0 ∷ rest) 1) ∙ c_string-append (x ∷ []) rest h,
)
value_lem key (x ∷ y ∷ value) rest h =
    let zs = x ∷ y ∷ (value ++ (0 ∷ rest)) in
    let first = get_elem?-append_add key (0 ∷ zs) 1 in
    let second = get_elem?-append_add key (0 ∷ zs) 2 in
    elim (Bool-cases (y == 32)) [
      | inl space ↦ (
        length key + 2,
        ground (arith, first, second, space),
        ap c_string (drop-append_add key (0 ∷ zs) 2)
            ∙ c_string-append (y ∷ value) rest h.1
            ∙ ap (λ b. ret (if b then y ∷ value else x ∷ y ∷ value)) (sym space),
      )
      | inr other ↦ (
        length key + 1,
        ground (arith, first, second, other),
        ap c_string (drop-append_add key (0 ∷ zs) 1)
            ∙ c_string-append (x ∷ y ∷ value) rest h
            ∙ ap (λ b. ret (if b then y ∷ value else x ∷ y ∷ value)) (sym other),
      )
    ]

module _ {F T W : Type 0} (step : F) (send : T → List ℕ → W → W) (sip : Sip F T W) (t : T) (w : W)
    (sm : Lvl4Sm F) where
  -- A line that is a key without a colon, a colon, a value and a carriage return, with no 0 in key or
  -- value: the callback for headers is given the key, and the value but for its first byte if the
  -- second is a space. The connection's buffer then has 0 in the places of the colon and of the
  -- carriage return, and what the callback returns is what the line gives.
  pub on_line-passed :
      (key value rest : List ℕ)
      {action : T → List ℕ → List ℕ → W → Lvl4Sm F → Exec (Bool × W × Lvl4Sm F)}
      → Free 0 key
      → Free 58 key
      → Free 0 value
      → sip.on_header ≡ some action
      → on_line step send sip t
          (key ++ (58 ∷ (value ++ (13 ∷ rest))))
          (length key + (2 + length value))
          w
          sm
        ≡ action t key (passed value) w (holding (key ++ (0 ∷ (value ++ (0 ∷ rest)))) sm)
  unfolding on_line
  on_line-passed key value rest key0 key58 value0 has =
      let buf = key ++ (58 ∷ (value ++ (13 ∷ rest))) in
      let buf1 = key ++ (58 ∷ (value ++ (0 ∷ rest))) in
      let buf2 = key ++ (0 ∷ (value ++ (0 ∷ rest))) in
      let size = length key + (2 + length value) in
      let at_end : size - 1 ≡ length key + suc (length value + 0) = omega arith in
      let as_suc : size ≡ length key + suc (suc (length value)) = omega arith in
      let last : get_elem? buf (size - 1) ≡ some 13 =
        ap (get_elem? buf) at_end
        ∙ get_elem?-append_add key (58 ∷ (value ++ (13 ∷ rest))) (suc (length value + 0))
        ∙ get_elem?-append_add value (13 ∷ rest) 0 in
      let cut : set buf (size - 1) 0 ≡ buf1 =
        ap (λ n. set buf n 0) at_end
        ∙ set-append key (58 ∷ (value ++ (13 ∷ rest))) (suc (length value + 0)) 0
        ∙ ap (λ xs. key ++ (58 ∷ xs)) (set-append value (13 ∷ rest) 0 0) in
      let colon : find_byte 58 (take size (set buf (size - 1) 0)) ≡ some (length key) =
        ap (λ xs. find_byte 58 (take size xs)) cut
        ∙ ap (λ n. find_byte 58 (take n buf1)) as_suc
        ∙ find_byte-Free 58 (suc (length value)) key (value ++ (0 ∷ rest)) key58 in
      let split : set (set buf (size - 1) 0) (length key) 0 ≡ buf2 =
        ap (λ xs. set xs (length key) 0) cut ∙ set_first key (58 ∷ (value ++ (0 ∷ rest))) in
      let (p, starts, text) = value_lem key value rest value0 in
      ground (
        arith,
        last,
        colon,
        split,
        starts,
        text,
        c_string-append key (value ++ (0 ∷ rest)) key0,
        has,
      )
