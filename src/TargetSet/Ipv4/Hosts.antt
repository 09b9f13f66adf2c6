-- ===== src/TargetSet/Ipv4/Hosts.antt =====
-- `IPV4TargetSet::target_finished`: the ports of one address, finished one after the other.
use nodescan.Prelude.{
  ℕ, suc, ◌+◌, ◌≡◌, ◌≢◌, refl, Bool, true, false, List, [], ◌∷◌, length, arith, ◌==◌, ltb,
  if◌then◌else◌,
}
use nodescan.Target.{PortApi}
use nodescan.Host.{PortListApi, HostSm, port_done}
use nodescan.TargetSet.Ipv4.{AddressApi, PortsApi, Ipv4TargetSet, target_finished}

-- The port is none of these.
abbrev pub Absent : {P : Type 0} → P → List P → Type 0
Absent p [] = Unit {0}
Absent p (q ∷ qs) = (p ≢ q) × Absent p qs

-- What leeloo's list of ports holds: a port that was not there counts as one more, and merging the
-- intervals leaves it as it is.
pub record PortListLaws {L P : Type 0} (list : PortListApi L P) : Type 1 where
  pub Holds : List P → L → Type 0
  pub holds-add :
      (p : P) (ps : List P) (l : L) → Holds ps l → Absent p ps → Holds (p ∷ ps) (list.add p l)
  pub holds-aggregate : (ps : List P) (l : L) → Holds ps l → Holds ps (list.aggregate l)
  pub size-holds : (ps : List P) (l : L) → Holds ps l → list.size l ≡ length ps

module _ {A R G P : Type 0} (ports : PortsApi R G P) where
  -- Each port is none of those before it, and the set has `n` ports all the time.
  abbrev pub Each : ℕ → List P → List (P × Ipv4TargetSet A R G) → Type 0
  Each n seen [] = Unit {0}
  Each n seen ((p, s) ∷ xs) =
      Absent p seen × (ports.size_original s.rand_port ≡ n) × Each n (p ∷ seen) xs

module _ {A R G P : Type 0} (v4 : AddressApi A) where
  -- Only the last one ends the host, and only there the address is taken for done.
  abbrev pub done_at_last : ℕ → List (P × Ipv4TargetSet A R G) → List (Bool × Ipv4TargetSet A R G)
  done_at_last idx [] = []
  done_at_last idx ((p, s) ∷ []) = (true, record s { rand_v4 = v4.step_done idx s.rand_v4 }) ∷ []
  done_at_last idx ((p, s) ∷ x ∷ xs) = (false, s) ∷ done_at_last idx (x ∷ xs)

-- Either way the list holds the same.
if_Holds :
    {L P : Type 0} (list : PortListApi L P) (laws : PortListLaws list) (many : Bool) (ps : List P)
    (l : L)
    → laws.Holds ps l
    → laws.Holds ps (if many then list.aggregate l else l)
if_Holds list laws true ps l held = laws.holds-aggregate ps l held
if_Holds list laws false ps l held = held

module _ {A R G P L F : Type 0} ⦃api : PortApi P⦄ (v4 : AddressApi A) (ports : PortsApi R G P)
    (list : PortListApi L P) where
  -- The targets of an address that are finished, each with the set as it is then.
  pub finish_ports :
      ℕ
      → List (P × Ipv4TargetSet A R G)
      → HostSm L F
      → List (Bool × Ipv4TargetSet A R G) × HostSm L F
  finish_ports ip [] h = ([], h)
  finish_ports ip ((p, s) ∷ xs) h =
      let (done, h1, s1) = target_finished v4 ports list (record { ipv4 = ip; port = p }) h s in
      let (rest, h2) = finish_ports ip xs h1 in ((done, s1) ∷ rest, h2)

  module _ (laws : PortListLaws list) where
    port_done-Holds :
        (p : P) (ps : List P) (h : HostSm L F)
        → laws.Holds ps h.ports_done
        → Absent p ps
        → laws.Holds (p ∷ ps) (port_done list p h).ports_done
    unfolding port_done
    port_done-Holds p ps h holds absent =
        let l = list.add p h.ports_done in
        if_Holds list laws (ltb 100 (list.intervals_size l)) (p ∷ ps) l
          (laws.holds-add p ps h.ports_done holds absent)

    -- One port more: the host is done if it is the last of the `n` that the set has.
    target_finished_lem :
        (ip n : ℕ) (seen : List P) (p : P) (s : Ipv4TargetSet A R G) (h : HostSm L F)
        → laws.Holds seen h.ports_done
        → Absent p seen
        → ports.size_original s.rand_port ≡ n
        → target_finished v4 ports list (record { ipv4 = ip; port = p }) h s ≡ (
            if suc (length seen) == n
            then (
              true,
              port_done list p h,
              record s { rand_v4 = v4.step_done h.rand_idx_ip s.rand_v4 },
            )
            else (false, port_done list p h, s))
    unfolding target_finished port_done
    target_finished_lem ip n seen p s h holds absent size =
        let counted =
          laws.size-holds (p ∷ seen) (port_done list p h).ports_done
            (port_done-Holds p seen h holds absent) in
        rw (counted, size) refl

    -- Let the host have done the ports `seen`, and let the targets of its address be finished one after
    -- the other, each with a port that is none of those before, as many with `seen` as the set has,
    -- whatever the set does between them. `target_finished` says no for all but the last and leaves the
    -- set; for the last it says that the host is done, and takes its address for done.
    pub finish_ports-done_at_last :
        (ip n : ℕ) (seen : List P) (xs : List (P × Ipv4TargetSet A R G)) (h : HostSm L F)
        → laws.Holds seen h.ports_done
        → Each ports n seen xs
        → length xs + length seen ≡ n
        → (finish_ports ip xs h).0 ≡ done_at_last v4 h.rand_idx_ip xs
    unfolding finish_ports port_done
    finish_ports-done_at_last ip n seen [] h holds each all = refl
    finish_ports-done_at_last ip n seen ((p, s) ∷ []) h holds each all =
        ground (arith, target_finished_lem ip n seen p s h holds each.0 each.1)
    finish_ports-done_at_last ip n seen ((p, s) ∷ x ∷ xs) h holds each all = ground (
      arith,
      target_finished_lem ip n seen p s h holds each.0 each.1,
      finish_ports-done_at_last ip n (p ∷ seen) (x ∷ xs) (port_done list p h)
          (port_done-Holds p seen h holds each.0) each.2 (omega (arith, all)),
    )
