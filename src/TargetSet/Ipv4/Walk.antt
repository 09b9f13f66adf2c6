-- ===== src/TargetSet/Ipv4/Walk.antt =====
-- The order in which an `IPV4TargetSet` gives its targets.
use nodescan.Prelude.{
  ℕ, ◌+◌, ◌<◌, ◌≡◌, refl, ap, sym, subst, Bool, true, false, List, [], ◌∷◌, ◌++◌, map, length,
  arith,
}
use nodescan.Target.{PortApi, Target, end_target}
use nodescan.TargetSet.Queue.{pop_front}
use nodescan.TargetSet.Ipv4.{AddressApi, PortsApi, Ipv4TargetSet, next_target}

abbrev pub is_empty : {A : Type 0} → List A → Bool
is_empty [] = true
is_empty (x ∷ xs) = false

-- What leeloo's iterators do: an iterator has a list of elements that are left, it is at its end when
-- there are none, and it moves on by one.
pub record Iterators {A R G P : Type 0} (v4 : AddressApi A) (ports : PortsApi R G P) : Type 0 where
  pub addresses : A → List ℕ
  pub left : R → List P
  pub v4-end : (a : A) → v4.end a ≡ is_empty (addresses a)
  pub v4-next :
      (a : A) (ip : ℕ) (ips : List ℕ) → addresses a ≡ ip ∷ ips → addresses (v4.next a) ≡ ips
  pub v4-current : (a : A) (ip : ℕ) (ips : List ℕ) → addresses a ≡ ip ∷ ips → v4.get_current a ≡ ip
  pub ports-end : (r : R) → ports.end r ≡ is_empty (left r)
  pub ports-call :
      (r : R) (p : P) (ps : List P)
      → left r ≡ p ∷ ps
      → ((ports.call r).0 ≡ p) × (left (ports.call r).1 ≡ ps)

-- The list of ports is not empty, so that each start of the ports has one. The code does not check it.
abbrev pub HasPorts :
    {A R G P : Type 0} {v4 : AddressApi A} {ports : PortsApi R G P} → Iterators v4 ports → Type 0
HasPorts {G} {P} {ports} it =
    (g : G) → (p : P) × (ps : List P) × (it.left (ports.init g).0 ≡ p ∷ ps)

module _ {A R G P : Type 0} ⦃api : PortApi P⦄ {v4 : AddressApi A} {ports : PortsApi R G P}
    (it : Iterators v4 ports) where
  -- One address with each of some ports.
  abbrev pub row : ℕ → List P → List (Target P)
  row ip ps = map (λ p. record { ipv4 = ip; port = p }) ps

  -- Each address with all ports, in the orders that the generator gives one after the other.
  pub walk : List ℕ → G → List (Target P)
  walk [] g = []
  walk (ip ∷ ips) g = row ip (it.left (ports.init g).0) ++ walk ips (ports.init g).1

  -- What is to come at some addresses and ports that are left.
  pub to_come : List ℕ → List P → G → List (Target P)
  to_come [] ps g = []
  to_come (ip ∷ ips) ps g = row ip ps ++ walk ips g

  pub upcoming : Ipv4TargetSet A R G → List (Target P)
  upcoming s = to_come (it.addresses s.rand_v4) (it.left s.rand_port) s.generator

  -- An address or a port is left.
  abbrev pub Live : Ipv4TargetSet A R G → Type 0
  Live s = 0 < length (it.addresses s.rand_v4) + length (it.left s.rand_port)

  -- What a call gives and leaves, as a target and what is to come then.
  abbrev pub Gives : Target P × Ipv4TargetSet A R G → Target P → List (Target P) → Type 0
  Gives n t ts = (n.0 ≡ t) × (upcoming n.1 ≡ ts) × Live n.1

  module _ (a : A) (r : R) (g : G) where
    abbrev here : Ipv4TargetSet A R G
    here = record { rand_v4 = a; rand_port = r; generator = g }

    current :
        (ip : ℕ) (ips : List ℕ) (p : P) (ps : List P)
        → it.addresses a ≡ ip ∷ ips
        → it.left r ≡ p ∷ ps
        → Gives
            (next_target v4 ports here)
            (record { ipv4 = ip; port = p })
            (row ip ps ++ walk ips g)
    unfolding next_target upcoming to_come
    current ip ips p ps ea er =
        let c = it.ports-call r p ps er in
        (
          rw (it.ports-end r, er, it.v4-end a, ea, it.v4-current a ip ips ea, c.0),
          rw (it.ports-end r, er, it.v4-end a, ea, ea, c.1),
          rw (it.ports-end r, er, it.v4-end a, ea, ea) (omega arith),
        )

    over :
        (p : P) (ps : List P)
        → it.addresses a ≡ []
        → it.left r ≡ p ∷ ps
        → Gives (next_target v4 ports here) end_target []
    unfolding next_target upcoming to_come
    over p ps ea er = (
      rw (it.ports-end r, er, it.v4-end a, ea),
      rw (it.ports-end r, er, it.v4-end a, ea, ea),
      rw (it.ports-end r, er, it.v4-end a, ea, er) (omega arith),
    )

    -- With no port left, the call is that of the next address with all ports.
    moved :
        (ip : ℕ) (ips : List ℕ)
        → HasPorts it
        → it.addresses a ≡ ip ∷ ips
        → it.left r ≡ []
        → next_target v4 ports here
          ≡ next_target v4 ports (record {
            rand_v4 = v4.next a;
            rand_port = (ports.init g).0;
            generator = (ports.init g).1;
          })
    unfolding next_target
    moved ip ips some_port ea er =
        let (p, ps, some_left) = some_port g in
        rw (it.ports-end r, er, it.ports-end (ports.init g).0, some_left)

  -- The call on the next address, when the ports are started again.
  restarted :
      (a : A) (g : G) (ips : List ℕ)
      → HasPorts it
      → it.addresses a ≡ ips
      → let (r, g') = ports.init g in
        let left = to_come ips (it.left r) g' in
        Gives (next_target v4 ports (here a r g')) (pop_front left).0 (pop_front left).1
  unfolding to_come
  restarted a g [] some_port ea =
      let (p, ps, e) = some_port g in over a (ports.init g).0 (ports.init g).1 p ps ea e
  restarted a g (ip ∷ ips) some_port ea =
      let (r, g') = ports.init g in
      let (p, ps, e) = some_port g in
      subst
        (λ xs.
          Gives (next_target v4 ports (here a r g')) (pop_front (row ip xs ++ walk ips g')).0
            (pop_front (row ip xs ++ walk ips g')).1)
        (sym e) (current a r g' ip ips p ps ea e)

  walk-to_come :
      (ips : List ℕ) (g : G) → walk ips g ≡ to_come ips (it.left (ports.init g).0) (ports.init g).1
  unfolding walk to_come
  walk-to_come [] g = refl
  walk-to_come (ip ∷ ips) g = refl

  gives :
      (a : A) (r : R) (g : G) (ips : List ℕ) (ps : List P)
      → HasPorts it
      → it.addresses a ≡ ips
      → it.left r ≡ ps
      → 0 < length ips + length ps
      → Gives
          (next_target v4 ports (here a r g))
          (pop_front (to_come ips ps g)).0
          (pop_front (to_come ips ps g)).1
  unfolding to_come
  gives a r g [] [] some_port ea er live = absurd (omega arith)
  gives a r g [] (p ∷ ps) some_port ea er live = over a r g p ps ea er
  gives a r g (ip ∷ ips) (p ∷ ps) some_port ea er live = current a r g ip ips p ps ea er
  gives a r g (ip ∷ ips) [] some_port ea er live =
      let (r', g') = ports.init g in
      subst (λ n. Gives n (pop_front (walk ips g)).0 (pop_front (walk ips g)).1)
        (sym (moved a r g ip ips some_port ea er))
        (subst
          (λ ts.
            Gives (next_target v4 ports (here (v4.next a) r' g')) (pop_front ts).0 (pop_front ts).1)
          (sym (walk-to_come ips g))
          (restarted (v4.next a) g ips some_port (it.v4-next a ip ips ea)))

  -- On a list of ports that is not empty, while an address or a port is left, a call gives the first of the targets that are to come, or the
  -- end, and leaves the others to come: the ports that are left with the current address, then each
  -- further address with all ports, in the orders in which the generator starts them. Afterwards an
  -- address or a port is left again, so this holds for every later call too.
  pub next_target-pop :
      (s : Ipv4TargetSet A R G)
      → HasPorts it
      → Live s
      → Gives (next_target v4 ports s) (pop_front (upcoming s)).0 (pop_front (upcoming s)).1
  unfolding upcoming
  next_target-pop s some_port live =
      gives s.rand_v4 s.rand_port s.generator (it.addresses s.rand_v4) (it.left s.rand_port)
        some_port refl refl live

  -- What is to come depends on the addresses that are left, not on how the iterator holds them.
  pub upcoming_same :
      (a : A) (s : Ipv4TargetSet A R G)
      → it.addresses a ≡ it.addresses s.rand_v4
      → upcoming (record s { rand_v4 = a }) ≡ upcoming s
  unfolding upcoming
  upcoming_same a s same = ap (λ ips. to_come ips (it.left s.rand_port) s.generator) same
