-- ===== src/Buffer/Tests.antt =====
-- tests/buffer.cpp, and the theorems at small buffers.
use nodescan.Prelude.{ℕ, ◌+◌, ◌^◌, ◌<◌, ◌≡◌, refl, some, [], ◌∷◌, ◌++◌, length, arith, ret}
use nodescan.Buffer.{
  Buffer, block, empty, contents, grow_by, allocate, pop_by, store, tabulate, move_down,
}
use nodescan.Buffer.Laws.{IsValid}
use nodescan.Buffer.Receive.{receive-IsValid}
use nodescan.Buffer.Overflow.{grow_by_overflow}

abbrev pub zeros : ℕ → ℕ
zeros i = 0

-- Three bytes in a block of the twelve that `size_buf(3)` gives, four for each element.
abbrev pub abc : Buffer
abc = record {
  buffer = some (97 ∷ 98 ∷ 99 ∷ 0 ∷ 0 ∷ 0 ∷ 0 ∷ 0 ∷ 0 ∷ 0 ∷ 0 ∷ 0 ∷ []);
  buf_size = 3;
  buf_pos = 3;
}

pub abc-IsValid : IsValid abc
abc-IsValid = omega arith

pop_by_one :
    pop_by 1 abc
    ≡ ret (record abc {
      buffer = some (98 ∷ 99 ∷ 99 ∷ 0 ∷ 0 ∷ 0 ∷ 0 ∷ 0 ∷ 0 ∷ 0 ∷ 0 ∷ 0 ∷ []);
      buf_pos = 2;
    })
unfolding pop_by move_down
pop_by_one = refl

grow_by_two : contents (grow_by zeros 2 abc).1 ≡ 97 ∷ 98 ∷ 99 ∷ 0 ∷ 0 ∷ []
unfolding grow_by allocate tabulate
grow_by_two = refl

grow_by_overflow_example :
    let (_, b) = grow_by zeros (2 ^ 30 + 1) empty in
    (b.buf_pos ≡ 2 ^ 30 + 1) × (length (block b.buffer) < b.buf_pos)
grow_by_overflow_example = grow_by_overflow zeros 1 (omega arith)

receive-IsValid_example :
    let (i, g) = grow_by zeros 2 abc in
    (b' : Buffer) × (store i (7 ∷ 8 ∷ []) g ≡ ret b')
    × IsValid b'
    × (contents b' ≡ contents abc ++ (7 ∷ 8 ∷ []))
receive-IsValid_example = receive-IsValid zeros (7 ∷ 8 ∷ []) abc abc-IsValid (omega arith)
