-- ===== src/Buffer.antt =====
-- include/ns/buffer.h and include/ns/lvl4_buffer.h: the growable byte buffer `Buffer<unsigned char,
-- uint32_t>`, its only instantiation. A block of the heap is the list of its bytes; what `malloc`
-- and `realloc` leave unset is the parameter `uninit`, a byte for each index. An assertion that
-- fails, and an access outside a block, is a fault.
pub mod Block
pub mod Laws
pub mod Overflow
pub mod Receive
pub mod Assign
pub mod Tests
unfoldable pub use Block.{tabulate, move_down, put_at}
use Block.{resize}
use nodescan.Prelude.{
  ℕ, ◌+◌, ◌-◌, Option, none, some, List, [], take, length, add32, sub32, mul32, ltb, leb, ◌&&◌,
  if◌then◌else◌, Exec, ret, fault,
}

-- `_buffer`, `_buf_size` and `_buf_pos`; `none` is the null pointer.
pub record Buffer : Type 0 where
  pub buffer : Option (List ℕ)
  pub buf_size : ℕ
  pub buf_pos : ℕ

-- `Buffer()`
abbrev pub empty : Buffer
empty = record { buffer = none; buf_size = 0; buf_pos = 0 }

-- The bytes of the block, or none at all.
abbrev pub block : Option (List ℕ) → List ℕ
block none = []
block (some xs) = xs

-- The bytes from `begin()` to `end()`.
abbrev pub contents : Buffer → List ℕ
contents b = take b.buf_pos (block b.buffer)

-- `free()`, the member function.
abbrev pub free : Buffer → Buffer
free b = elim b.buffer [ none ↦ b | some xs ↦ empty ]

-- The product is computed in `size_t` and returned as `uint32_t`; `sizeof(size_type)` is 4.
abbrev pub size_buf : ℕ → ℕ
size_buf n = mul32 n 4

module _ (uninit : ℕ → ℕ) where
  unfoldable pub allocate : ℕ → Buffer → Buffer
  unfolding resize
  allocate n b = elim b.buffer [
    | some xs ↦
        if ltb b.buf_size n
        then record b { buffer = some (resize uninit (size_buf n) xs); buf_size = n }
        else b
    | none ↦ record b { buffer = some (tabulate uninit 0 (size_buf n)); buf_size = n }
  ]

  -- Returns the index of the position before the growth beside the buffer.
  unfoldable pub grow_by : ℕ → Buffer → ℕ × Buffer
  grow_by n b =
      let old_pos = b.buf_pos in
      let b' = allocate (add32 b.buf_pos n) b in
      (old_pos, record b' { buf_pos = add32 b'.buf_pos n })

  -- `copy(o)`: `memcpy` moves `size_buf(o.size())` bytes from block to block.
  unfoldable pub copy : Buffer → Buffer → Exec Buffer
  copy o b =
      let b' = allocate o.buf_pos b in
      let n = size_buf o.buf_pos in
      if leb n (length (block o.buffer)) && leb n (length (block b'.buffer))
      then ret (record b' {
        buffer = some (put_at 0 (take n (block o.buffer)) (block b'.buffer));
        buf_pos = o.buf_pos;
      })
      else fault

-- `move(o)`: what the destination becomes, and what is left of the source.
unfoldable pub move : Buffer → Buffer → Buffer × Buffer
move o b = (record { buffer = o.buffer; buf_size = o.buf_size; buf_pos = o.buf_pos }, empty)

-- `memmove` copies `rem` bytes, read and written inside the block.
unfoldable pub pop_by : ℕ → Buffer → Exec Buffer
pop_by n b =
    if leb n b.buf_pos && leb b.buf_pos (length (block b.buffer))
    then (let rem = sub32 b.buf_pos n in
        ret (record b {
          buffer = elim b.buffer [ none ↦ none | some xs ↦ some (move_down xs n rem) ];
          buf_pos = sub32 b.buf_pos n;
        }))
    else fault

-- Bytes that `read` stores at an index of the block.
unfoldable pub store : ℕ → List ℕ → Buffer → Exec Buffer
store i bytes b =
    if leb (i + length bytes) (length (block b.buffer))
    then ret (record b { buffer = some (put_at i bytes (block b.buffer)) })
    else fault
