-- ===== src/TargetSet/File.antt =====
-- include/ns/target_file.h and target_file.cpp, `TargetAsyncFile`: targets are read from a descriptor
-- that does not block, one address for each line.
--
-- What `select`, `ioctl` and `read` answer to one call of `next_target` is an argument; `ipv4toi` is
-- leeloo's, and gives no address when it finds the line not valid.
pub mod Lines
pub mod Calls
pub mod Tests
use nodescan.Prelude.{
  ℕ, ◌+◌, Bool, true, false, Option, none, some, List, [], take, length, ltb, ◌==◌, if◌then◌else◌,
  Exec, ret, ◌>>=◌,
}
use nodescan.Buffer.{Buffer, empty, contents, grow_by, store, pop_by}
use nodescan.Lvl4.Process.{find_byte}
use nodescan.Target.{PortApi, Target, target_eq, target_ne, end_target}
use nodescan.TargetSet.{Next, gives, blocks}

-- `sel_ret`, `navail` and the bytes of `read`; `none` is an answer of -1.
pub record Input : Type 0 where
  pub sel_ret : Option ℕ
  pub navail : Option ℕ
  pub got : Option (List ℕ)

pub record TargetAsyncFile (P : Type 0) : Type 0 where
  pub buf : Buffer
  pub fd : ℕ
  pub def_port : P

-- `TargetAsyncFile(fd, port)`
abbrev pub async_file : {P : Type 0} → ℕ → P → TargetAsyncFile P
async_file fd port = record { buf = empty; fd = fd; def_port = port }

-- `TargetStdin(def_port)`: `STDIN_FILENO` is 0.
abbrev pub target_stdin : {P : Type 0} → P → TargetAsyncFile P
target_stdin def_port = async_file 0 def_port

module _ {P : Type 0} ⦃api : PortApi P⦄ (ipv4toi : List ℕ → Option ℕ) where
  -- The target that a line stands for, `Target::end()` if it is no address.
  abbrev pub line_target : P → List ℕ → Target P
  line_target port line = elim (ipv4toi line) [
    | none ↦ end_target
    | some ipv4 ↦ record { ipv4 = ipv4; port = port }
  ]

  -- `next_target_in_buf()`: the newline is byte 10.
  unfoldable pub next_target_in_buf : TargetAsyncFile P → Exec (Target P × TargetAsyncFile P)
  next_target_in_buf s = elim (find_byte 10 (contents s.buf)) [
    | none ↦ ret (end_target, s)
    | some size ↦ pop_by (size + 1) s.buf >>= λ b.
        ret (line_target s.def_port (take size (contents s.buf)), record s { buf = b })
  ]

  module _ (uninit : ℕ → ℕ) where
    -- The end of `next_target`, from `grow_by(navail)` on.
    unfoldable pub read_target :
        ℕ → Option (List ℕ) → TargetAsyncFile P → Exec (Next P × TargetAsyncFile P)
    read_target navail got s =
        let (buf_read, grown) = grow_by uninit navail s.buf in
        elim got [
          | none ↦ ret (gives end_target, record s { buf = grown })
          | some bytes ↦
              if length bytes == 0
              then ret (gives end_target, record s { buf = grown })
              else (store buf_read bytes grown >>= λ b.
                  next_target_in_buf (record s { buf = b }) >>= λ r.
                  ret (if target_eq r.0 end_target then blocks else gives r.0, r.1))
        ]

    -- What follows the test of the buffer.
    unfoldable pub await_target : Input → TargetAsyncFile P → Exec (Next P × TargetAsyncFile P)
    unfolding read_target
    await_target a s = elim a.sel_ret [
      | none ↦ ret (gives end_target, s)
      | some ready ↦ if ready == 0 then ret (blocks, s) else elim a.navail [
        | none ↦ ret (gives end_target, s)
        | some navail ↦
            if navail == 0 then ret (gives end_target, s) else read_target navail a.got s
      ]
    ]

    -- `next_target()`
    unfoldable pub next_target : Input → TargetAsyncFile P → Exec (Next P × TargetAsyncFile P)
    unfolding await_target
    next_target a s =
        if ltb 0 s.buf.buf_pos
        then (next_target_in_buf s >>= λ r.
            if target_ne r.0 end_target then ret (gives r.0, r.1) else await_target a r.1)
        else await_target a s

-- `target_finished`
abbrev pub target_finished :
    {P H : Type 0} → Target P → H → TargetAsyncFile P → Bool × H × TargetAsyncFile P
target_finished t h s = (true, h, s)
