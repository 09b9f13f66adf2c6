-- ===== src/Sip/Lines.antt =====
-- protocols/sip.cpp: the lines of a server's answer, and the buffer under the zeros that are written.
use mathlib.Core.List.{append_assoc}
use nodescan.Prelude.{
  ℕ, suc, ◌+◌, ◌≤◌, ◌≡◌, sym, ap, ◌∙◌, Option, none, some, List, [], ◌∷◌, ◌++◌, take, drop, length,
  arith, length-append,
}
use nodescan.Buffer.{Buffer, contents, put_at}
use nodescan.Buffer.Block.{take-put_at, length-put_at, take-append_le, take_all}
use nodescan.Buffer.Laws.{IsValid}
use nodescan.Lvl4.Process.{find_byte}
use nodescan.Sip.{sip_20, overwrite}
use nodescan.Lvl4.Framing.Delimiters.{Free, find_byte-after}

-- What is written over the bytes of a valid buffer is what it then holds.
pub overwrite-IsValid :
    (xs : List ℕ) (b : Buffer)
    → IsValid b
    → length xs ≡ b.buf_pos
    → IsValid (overwrite xs b) × (contents (overwrite xs b) ≡ xs)
overwrite-IsValid xs b = by_block b.buffer b.buf_size b.buf_pos
  where
    by_block :
        (p : Option (List ℕ)) (size pos : ℕ)
        → (let b : Buffer = record { buffer = p; buf_size = size; buf_pos = pos } in
            IsValid b
            → length xs ≡ pos
            → IsValid (overwrite xs b) × (contents (overwrite xs b) ≡ xs))
    by_block none size pos v same =
        let e : pos ≡ 0 = omega arith in (omega arith, rw e (take_all 0 xs (omega arith)))
    by_block (some ys) size pos v same =
        let fits : 0 + length xs ≤ length ys = omega arith in
        let at_zero : 0 + pos ≡ pos = omega arith in
        (
          omega (arith, length-put_at 0 xs ys fits),
          ap (λ n. take n (put_at 0 xs ys)) (sym at_zero)
              ∙ take-put_at 0 pos xs ys fits
              ∙ take-append_le pos xs (drop (0 + length xs) ys) (omega arith)
              ∙ take_all pos xs (omega arith),
        )

-- A header line, the first line, and the blank line, as they are sent.
abbrev pub header_line : List ℕ → List ℕ → List ℕ
header_line key value = key ++ (58 ∷ (value ++ (13 ∷ 10 ∷ [])))

abbrev pub status_line : List ℕ → List ℕ
status_line text = (sip_20 ++ text) ++ (13 ∷ 10 ∷ [])

abbrev pub blank_line : List ℕ
blank_line = 13 ∷ 10 ∷ []

unfoldable pub header_lines : List (List ℕ × List ℕ) → List ℕ
header_lines [] = []
header_lines ((key, value) ∷ hs) = header_line key value ++ header_lines hs

-- No 0, no colon in a key, and no end of line.
abbrev pub Plain : List (List ℕ × List ℕ) → Type 0
Plain [] = Unit {0}
Plain ((key, value) ∷ hs) =
    Free 0 key × Free 58 key × Free 10 key × Free 0 value × Free 10 value × Plain hs

pub header_line-found :
    (key value : List ℕ)
    → Free 10 key
    → Free 10 value
    → (find_byte 10 (header_line key value) ≡ some (length key + (2 + length value)))
      × (length (header_line key value) ≡ suc (length key + (2 + length value)))
unfolding find_byte
header_line-found key value h g = (
  ground (
    arith,
    find_byte-after 10 key (58 ∷ (value ++ (13 ∷ 10 ∷ []))) h,
    find_byte-after 10 value (13 ∷ 10 ∷ []) g,
  ),
  omega (
    arith,
    length-append key (58 ∷ (value ++ (13 ∷ 10 ∷ []))),
    length-append value (13 ∷ 10 ∷ []),
  ),
)

pub around :
    (xs ys zs rest : List ℕ) (a b : ℕ)
    → (xs ++ (a ∷ (ys ++ (b ∷ zs)))) ++ rest ≡ xs ++ (a ∷ (ys ++ (b ∷ (zs ++ rest))))
around xs ys zs rest a b =
    append_assoc xs (a ∷ (ys ++ (b ∷ zs))) rest
    ∙ ap (λ us. xs ++ (a ∷ us)) (append_assoc ys (b ∷ zs) rest)
