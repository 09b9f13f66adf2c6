-- ===== src/TargetSet/Ipv4/Queue.antt =====
-- `IPV4TargetSet` as an implementation of the interface, and as a queue of its addresses with their
-- ports.
use nodescan.Prelude.{
  ℕ, ◌≡◌, ap, sym, ◌∙◌, refl, Bool, true, false, ◌==◌, ret, subst, arith, Bool-cases,
}
use nodescan.Host.{PortListApi, HostSm, port_done, ports_done_count}
use nodescan.Target.{PortApi, Target}
use nodescan.TargetSet.{TargetSet, gives}
use nodescan.TargetSet.Queue.{Queue}
use nodescan.TargetSet.Ipv4.{
  AddressApi, PortsApi, Ipv4TargetSet, next_target, target_finished, init_host_sm,
}
use nodescan.TargetSet.Ipv4.State.{IntervalsApi, RandomApi, Members, init}
use nodescan.TargetSet.Ipv4.Walk.{
  Iterators, HasPorts, Live, upcoming, next_target-pop, upcoming_same,
}

-- The members that the calls for targets change.
abbrev moving : {I Q A R G : Type 0} → Members I Q A R G → Ipv4TargetSet A R G
moving m = record { rand_v4 = m.rand_v4; rand_port = m.rand_port; generator = m.rand_ports }

abbrev moved_on : {I Q A R G : Type 0} → Ipv4TargetSet A R G → Members I Q A R G → Members I Q A R G
moved_on s m = record m { rand_v4 = s.rand_v4; rand_port = s.rand_port; rand_ports = s.generator }

-- The set after an address is done, if it is.
abbrev after :
    {A R G : Type 0} → AddressApi A → Bool → ℕ → Ipv4TargetSet A R G → Ipv4TargetSet A R G
after v4 true i s = record s { rand_v4 = v4.step_done i s.rand_v4 }
after v4 false i s = s

module _ {A R G P L F : Type 0} ⦃api : PortApi P⦄ (v4 : AddressApi A) (ports : PortsApi R G P)
    (list : PortListApi L P) (t : Target P) (h : HostSm L F) (s : Ipv4TargetSet A R G) where
  abbrev is_done : Bool
  is_done = ports_done_count list (port_done list t.port h) == ports.size_original s.rand_port

  target_finished-after :
      (target_finished v4 ports list t h s).2
      ≡ after v4 is_done (port_done list t.port h).rand_idx_ip s
  unfolding target_finished
  target_finished-after = ground (arith, Bool-cases is_done)

-- An address that is done stays in the order of the addresses.
module _ {A R G P : Type 0} ⦃api : PortApi P⦄ {v4 : AddressApi A} {ports : PortsApi R G P}
    (it : Iterators v4 ports)
    (kept : (i : ℕ) (a : A) → it.addresses (v4.step_done i a) ≡ it.addresses a) where
  after-Live :
      (done : Bool) (i : ℕ) (s : Ipv4TargetSet A R G) → Live it s → Live it (after v4 done i s)
  after-Live false i s live = live
  after-Live true i s live = rw (kept i s.rand_v4) live

  upcoming-after :
      (done : Bool) (i : ℕ) (s : Ipv4TargetSet A R G)
      → upcoming it (after v4 done i s) ≡ upcoming it s
  upcoming-after false i s = refl
  upcoming-after true i s = upcoming_same it (v4.step_done i s.rand_v4) s (kept i s.rand_v4)

module _ {I Q A R G X Y P L F : Type 0} ⦃api : PortApi P⦄ (is : IntervalsApi I)
    (qs : IntervalsApi Q) (addresses : RandomApi I A G X) (port_starts : RandomApi Q R G Y)
    (v4 : AddressApi A) (ports : Q → PortsApi R G P) (list : PortListApi L P) where
  -- The operations of `_rand_port` are those at a list of ports, which stays from `init` on.
  unfoldable pub ipv4_set : TargetSet P (Members I Q A R G) (HostSm L F)
  ipv4_set = record {
    init = init is qs addresses (record port_starts { init = λ q. (ports q).init });
    init_shrd = λ idx count m. m;
    next_target = λ m.
        let (t, s) = next_target v4 (ports m.port_list) (moving m) in ret (gives t, moved_on s m);
    target_finished = λ t h m.
        let (done, h', s) = target_finished v4 (ports m.port_list) list t h (moving m) in
        (done, h', moved_on s m);
    init_host_sm = λ t h m. init_host_sm v4 (ports m.port_list) list t h (moving m);
  }

  module _ (q : Q) (it : Iterators v4 (ports q)) (some_port : HasPorts it)
      (kept : (i : ℕ) (a : A) → it.addresses (v4.step_done i a) ≡ it.addresses a) where
    pub ipv4_set-Queue : Queue ipv4_set
    unfolding ipv4_set
    ipv4_set-Queue = record {
      IsReady = λ m. (m.port_list ≡ q) × Live it (moving m);
      upcoming = λ m. upcoming it (moving m);
      next = λ m h.
          let n = next_target v4 (ports q) (moving m) in
          let (front, rest, live) = next_target-pop it (moving m) some_port h.1 in
          (
            moved_on n.1 m,
            ap (λ k. let n = next_target v4 (ports k) (moving m) in ret (gives n.0, moved_on n.1 m))
                  h.0
                ∙ ap (λ t. ret (gives t, moved_on n.1 m)) front,
            (h.0, live),
            rest,
          );
      finished = λ t h m ready.
          let api_of = ports m.port_list in
          (
            ready.0,
            subst (Live it) (sym (target_finished-after v4 api_of list t h (moving m))) (
                after-Live it kept (is_done v4 api_of list t h (moving m))
                  (port_done list t.port h).rand_idx_ip (moving m) ready.1),
          );
      kept = λ t h m.
          let api_of = ports m.port_list in
          ap (upcoming it) (target_finished-after v4 api_of list t h (moving m))
          ∙ upcoming-after it kept (is_done v4 api_of list t h (moving m))
              (port_done list t.port h).rand_idx_ip (moving m);
    }
