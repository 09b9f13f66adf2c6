-- ===== src/Buffer/Laws.antt =====
-- include/ns/buffer.h: the operations on valid buffers, by the bytes that a buffer holds.
use nodescan.Prelude.{
  ℕ, ◌+◌, ◌-◌, ◌^◌, ◌≤◌, ◌<◌, ◌≡◌, refl, ◌∙◌, Option, none, some, List, ◌++◌, take, drop, length,
  add32, arith, ret, length-take,
}
use nodescan.Buffer.{
  Buffer, block, contents, size_buf, empty, allocate, grow_by, copy, pop_by, store, tabulate,
}
use nodescan.Buffer.Block.{
  length-tabulate, length-resize, take-append_le, take-move_down, length-move_down, length-put_at,
  take-put_at, resize, move_down, put_at, take-take, take_all,
}

-- The block has the size that `_buf_size` stands for, and `size_buf` has not wrapped.
pub record IsValid (b : Buffer) : Type 0 where
  pub sized : length (block b.buffer) ≡ size_buf b.buf_size
  pub small : b.buf_size < 2 ^ 30
  pub within : b.buf_pos ≤ b.buf_size

pub IsValid-empty : IsValid empty
IsValid-empty = omega arith

pub length-contents : (b : Buffer) → IsValid b → length (contents b) ≡ b.buf_pos
length-contents b v = omega (arith, length-take b.buf_pos (block b.buffer))

-- What `allocate(n)` gives: room for `n` bytes, and the same bytes.
record Holds (n : ℕ) (b b' : Buffer) : Type 0 where
  valid : IsValid b'
  room : n ≤ b'.buf_size
  pos : b'.buf_pos ≡ b.buf_pos
  bytes : contents b' ≡ contents b

-- The bytes at the start of a block that others were copied over.
copied :
    (k : ℕ) (from to : List ℕ)
    → k ≤ length from
    → length from ≤ length to
    → take k (put_at 0 from to) ≡ take k from
unfolding put_at
copied k from to h g = take-append_le k from (drop (0 + length from) to) h

module _ (uninit : ℕ → ℕ) where
  contents-resize :
      (k n : ℕ) (xs : List ℕ) → k ≤ length xs → k ≤ n → take k (resize uninit n xs) ≡ take k xs
  unfolding resize
  contents-resize k n xs h g =
      take-append_le k (take n xs) (tabulate uninit (length xs) (n - length xs))
        (omega (arith, length-take n xs))
      ∙ take-take k n xs g

  allocate-Holds :
      (n : ℕ) (p : Option (List ℕ)) (size pos : ℕ)
      → (let b : Buffer = record { buffer = p; buf_size = size; buf_pos = pos } in
          IsValid b → n < 2 ^ 30 → Holds n b (allocate uninit n b))
  unfolding allocate
  allocate-Holds n none size pos v h = record {
    valid = omega (arith, length-tabulate uninit 0 (size_buf n));
    room = omega arith;
    pos = refl;
    bytes = let e : pos ≡ 0 = omega arith in rw e;
  }
  allocate-Holds n (some xs) size pos v h =
      ground (arith, length-resize uninit (size_buf n) xs, contents-resize pos (size_buf n) xs)

  -- `grow_by` keeps the bytes, adds `n` of unknown value behind them, and returns where they begin.
  pub grow_by-IsValid :
      (n : ℕ) (b : Buffer)
      → IsValid b
      → b.buf_pos + n < 2 ^ 30
      → let (old_pos, b') = grow_by uninit n b in
        IsValid b'
        × (old_pos ≡ b.buf_pos)
        × (b'.buf_pos ≡ b.buf_pos + n)
        × (take b.buf_pos (contents b') ≡ contents b)
  unfolding grow_by
  grow_by-IsValid n b v h =
      let a = allocate-Holds (add32 b.buf_pos n) b.buffer b.buf_size b.buf_pos v (omega arith) in
      ground (
        arith,
        a,
        take-take b.buf_pos (b.buf_pos + n) (block (allocate uninit (add32 b.buf_pos n) b).buffer),
      )

  -- `copy(o)` returns, and the destination then holds the bytes of `o`.
  pub copy-IsValid :
      (o b : Buffer)
      → IsValid o
      → IsValid b
      → (b' : Buffer) × (copy uninit o b ≡ ret b') × IsValid b' × (contents b' ≡ contents o)
  unfolding copy
  copy-IsValid o b vo vb =
      let a = allocate-Holds o.buf_pos b.buffer b.buf_size b.buf_pos vb (omega arith) in
      let to = block (allocate uninit o.buf_pos b).buffer in
      let from = take (size_buf o.buf_pos) (block o.buffer) in
      let n = length-take (size_buf o.buf_pos) (block o.buffer) in
      (
        record (allocate uninit o.buf_pos b) {
          buffer = some (put_at 0 from to);
          buf_pos = o.buf_pos;
        },
        ground (arith, a),
        ground (arith, a, n, length-put_at 0 from to),
        ground (
          arith,
          a,
          n,
          copied o.buf_pos from to,
          take-take o.buf_pos (size_buf o.buf_pos) (block o.buffer),
        ),
      )

-- `pop_by(n)` removes the first `n` bytes and keeps the order of the others.
pub pop_by-IsValid :
    (n : ℕ) (b : Buffer)
    → IsValid b
    → n ≤ b.buf_pos
    → (b' : Buffer) × (pop_by n b ≡ ret b') × IsValid b' × (contents b' ≡ drop n (contents b))
unfolding pop_by
pop_by-IsValid n b v h = by_block b.buffer b.buf_size b.buf_pos v h
  where
    by_block :
        (p : Option (List ℕ)) (size pos : ℕ)
        → (let b : Buffer = record { buffer = p; buf_size = size; buf_pos = pos } in
            IsValid b
            → n ≤ pos
            → (b' : Buffer) × (pop_by n b ≡ ret b')
              × IsValid b'
              × (contents b' ≡ drop n (contents b)))
    by_block none size pos v h =
        let e : pos ≡ 0 = omega arith in
        let f : n ≡ 0 = omega arith in
        (
          record { buffer = none; buf_size = size; buf_pos = pos - n },
          ground arith,
          omega arith,
          rw (e, f),
        )
    by_block (some xs) size pos v h = (
      record { buffer = some (move_down xs n (pos - n)); buf_size = size; buf_pos = pos - n },
      ground arith,
      ground (arith, length-move_down xs n (pos - n)),
      ground (arith, take-move_down xs n (pos - n)),
    )

-- Bytes stored behind the first `i`.
pub store-IsValid :
    (i : ℕ) (bytes : List ℕ) (b : Buffer)
    → IsValid b
    → i + length bytes ≤ b.buf_pos
    → (b' : Buffer) × (store i bytes b ≡ ret b')
      × IsValid b'
      × (b'.buf_pos ≡ b.buf_pos)
      × (take (i + length bytes) (contents b') ≡ take i (contents b) ++ bytes)
unfolding store
store-IsValid i bytes b v h =
    let to = block b.buffer in
    (
      record b { buffer = some (put_at i bytes to) },
      ground arith,
      ground (arith, length-put_at i bytes to),
      refl,
      ground (
        arith,
        take-take (i + length bytes) b.buf_pos (put_at i bytes to),
        take-take i b.buf_pos to,
        take-put_at i (length bytes) bytes to,
        take-append_le (length bytes) bytes (drop (i + length bytes) to),
        take_all (length bytes) bytes,
      ),
    )
