-- ===== src/Buffer/Receive.antt =====
-- `grow_by(n)` followed by a `read` of `n` bytes to the position that it returns.
use nodescan.Prelude.{ℕ, ◌+◌, ◌^◌, ◌<◌, ◌≡◌, sym, ap, ◌∙◌, List, ◌++◌, length, ret, arith}
use nodescan.Buffer.{Buffer, contents, grow_by, store}
use nodescan.Buffer.Block.{take_all}
use nodescan.Buffer.Laws.{IsValid, length-contents, grow_by-IsValid, store-IsValid}

-- A valid buffer that is grown by the number of some bytes, to less than 2 ^ 30 elements, and to which
-- these are stored at the place that `grow_by` gives: the bytes stand behind those that were there.
pub receive-IsValid :
    (uninit : ℕ → ℕ) (bytes : List ℕ) (b : Buffer)
    → IsValid b
    → b.buf_pos + length bytes < 2 ^ 30
    → let (i, g) = grow_by uninit (length bytes) b in
      (b' : Buffer) × (store i bytes g ≡ ret b') × IsValid b' × (contents b' ≡ contents b ++ bytes)
receive-IsValid uninit bytes b v small =
    let (gv, at_old, grown, kept) = grow_by-IsValid uninit (length bytes) b v small in
    let g = (grow_by uninit (length bytes) b).1 in
    let (b', se, bv, same, stored) = store-IsValid b.buf_pos bytes g gv (omega arith) in
    (
      b',
      ap (λ i. store i bytes g) at_old ∙ se,
      bv,
      sym (take_all (b.buf_pos + length bytes) (contents b') (omega (arith, length-contents b' bv)))
          ∙ stored
          ∙ ap (λ xs. xs ++ bytes) kept,
    )
