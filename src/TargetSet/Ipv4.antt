-- ===== src/TargetSet/Ipv4.antt =====
-- target_set.cpp, `IPV4TargetSet`: every address of a list with every port of another, in an order that
-- leeloo's random iterators give. The iterators are parameters, of types `A` over the addresses and
-- `R` over the ports; `G` is the generator `g_mt_rand_ports`, which each `init` moves on.
pub mod Walk
pub mod State
pub mod Hosts
pub mod Queue
pub mod Tests
use nodescan.Prelude.{ℕ, Bool, true, false, ◌==◌, List, [], ◌∷◌, if◌then◌else◌}
use nodescan.Target.{PortApi, Target, end_target}
use nodescan.Host.{PortListApi, HostSm, port_done, ports_done_count}

-- The operations of `_rand_v4`, of type `list_intervals_random_promise`.
pub record AddressApi (A : Type 0) : Type 0 where
  pub end : A → Bool
  pub next : A → A
  pub get_current : A → ℕ
  pub get_current_step : A → ℕ
  pub step_done : ℕ → A → A

-- The operations of `_rand_port`, of type `list_intervals_random`, at the list `_ports`; `call` is
-- `operator()`, which gives an element and moves on.
pub record PortsApi (R G P : Type 0) : Type 0 where
  pub init : G → R × G
  pub end : R → Bool
  pub call : R → P × R
  pub size_original : R → ℕ

-- The members of the set that change, with the generator.
pub record Ipv4TargetSet (A R G : Type 0) : Type 0 where
  pub rand_v4 : A
  pub rand_port : R
  pub generator : G

module _ {A R G P : Type 0} ⦃api : PortApi P⦄ (v4 : AddressApi A) (ports : PortsApi R G P) where
  -- The first test of `next_target`: with no port left, the next address with all ports again.
  next_address : Ipv4TargetSet A R G → Ipv4TargetSet A R G
  next_address s =
      let (r, g) = ports.init s.generator in
      if ports.end s.rand_port
      then record { rand_v4 = v4.next s.rand_v4; rand_port = r; generator = g }
      else s

  unfoldable pub next_target : Ipv4TargetSet A R G → Target P × Ipv4TargetSet A R G
  unfolding next_address
  next_target s0 =
      let s = next_address s0 in
      let (p, r) = ports.call s.rand_port in
      if v4.end s.rand_v4
      then (end_target, s)
      else (record { ipv4 = v4.get_current s.rand_v4; port = p }, record s { rand_port = r })

  module _ {L F : Type 0} (list : PortListApi L P) where
    -- `ports_count()` is the size of the list that `_rand_port` was started on.
    unfoldable pub target_finished :
        Target P → HostSm L F → Ipv4TargetSet A R G → Bool × HostSm L F × Ipv4TargetSet A R G
    target_finished t h s =
        let h' = port_done list t.port h in
        if ports_done_count list h' == ports.size_original s.rand_port
        then (true, h', record s { rand_v4 = v4.step_done h'.rand_idx_ip s.rand_v4 })
        else (false, h', s)

    unfoldable pub init_host_sm : Target P → HostSm L F → Ipv4TargetSet A R G → HostSm L F
    init_host_sm t h s = record h { rand_idx_ip = v4.get_current_step s.rand_v4 }
