-- ===== src/Buffer/Overflow.antt =====
-- include/ns/buffer.h: `size_buf` truncates its product to `uint32_t`.
use nodescan.Prelude.{ℕ, ◌+◌, ◌*◌, ◌^◌, ◌<◌, ◌≡◌, length, arith, add32}
use nodescan.Buffer.{block, empty, size_buf, grow_by, allocate}
use nodescan.Buffer.Block.{length-tabulate}

module _ (uninit : ℕ → ℕ) where
  -- Growing an empty buffer by 2 ^ 30 + k bytes, with 3 * k below 2 ^ 30, allocates fewer bytes
  -- than the size that the buffer then reports.
  pub grow_by_overflow :
      (k : ℕ)
      → 3 * k < 2 ^ 30
      → let (_, b) = grow_by uninit (2 ^ 30 + k) empty in
        (b.buf_pos ≡ 2 ^ 30 + k) × (length (block b.buffer) < b.buf_pos)
  unfolding grow_by allocate
  grow_by_overflow k h = omega (arith, length-tabulate uninit 0 (size_buf (add32 0 (2 ^ 30 + k))))
