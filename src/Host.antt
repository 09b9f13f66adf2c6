-- ===== src/Host.antt =====
-- include/ns/host_state_machine.h and host_state_machine.cpp: what a host's ports have done. leeloo's
-- `port_list_intervals` is a parameter of type `L`.
use nodescan.Prelude.{ℕ, ltb, if◌then◌else◌, Option, none, some, Exec, ret, ◌>>=◌, deref}
use nodescan.Lvl4.{StateMachine, new_state_machine}

pub record PortListApi (L P : Type 0) : Type 0 where
  pub add : P → L → L
  pub aggregate : L → L
  pub size : L → ℕ
  pub intervals_size : L → ℕ

-- The members of `HostSM`; an empty `std::function` is `none`.
pub record HostSm (L F : Type 0) : Type 0 where
  pub machine : StateMachine
  pub on_alive : Option F
  pub ports_done : L
  pub rand_idx_ip : ℕ

module _ {L F : Type 0} where
  -- `HostSM()`: the ports are a new list, and the index of the address is not set, but what the memory
  -- has there.
  abbrev pub new_host_sm : L → ℕ → ℕ → HostSm L F
  new_host_sm no_ports uninit now = record {
    machine = new_state_machine now;
    on_alive = none;
    ports_done = no_ports;
    rand_idx_ip = uninit;
  }

  abbrev pub set_on_alive : F → HostSm L F → HostSm L F
  set_on_alive f h = record h { on_alive = some f }

  -- `on_alive()`: the call of an empty function throws. `call` is what the action does, which may change
  -- the world and the host.
  abbrev pub on_alive :
      {W : Type 0} → (F → HostSm L F → W → W × HostSm L F) → HostSm L F → W → Exec (W × HostSm L F)
  on_alive call h w = deref h.on_alive >>= λ f. ret (call f h w)

module _ {L F P : Type 0} (list : PortListApi L P) where
  -- `port_done(port)`: above 100 intervals they are merged.
  unfoldable pub port_done : P → HostSm L F → HostSm L F
  port_done port h =
      let l = list.add port h.ports_done in
      record h { ports_done = if ltb 100 (list.intervals_size l) then list.aggregate l else l }

  abbrev pub ports_done_count : HostSm L F → ℕ
  ports_done_count h = list.size h.ports_done
