-- ===== src/TargetSet.antt =====
-- include/ns/target_set.h and target_set.cpp: where the engine's targets come
-- from. `TargetSet` is the interface that the engine calls.
pub mod Queue
pub mod Files
pub mod Simple
pub mod Ipv4
pub mod File
pub mod Wrappers
use nodescan.Prelude.{ℕ, Bool, Exec}
use nodescan.Target.{Target}

-- What `next_target` does: it returns a target, `Target::end()` included, or it throws
-- `NextTargetWouldBlock`.
pub data Next (P : Type 0) : Type 0 where
  gives : Target P → Next P
  blocks : Next P

-- The class `TargetSet`, over the state `S` of the set and the host state machine `H`. The streams
-- of `save_state` and `restore_state` are left out.
pub record TargetSet (P S H : Type 0) : Type 0 where
  pub init : S → S
  pub init_shrd : ℕ → ℕ → S → S
  pub next_target : S → Exec (Next P × S)
  pub target_finished : Target P → H → S → Bool × H × S
  pub init_host_sm : Target P → H → S → H
