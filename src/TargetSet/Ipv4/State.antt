-- ===== src/TargetSet/Ipv4/State.antt =====
-- target_set.cpp, `IPV4TargetSet`: how the set is started, and its saved states. An archive is the list
-- of the items that are put into it; the lists and the iterators are leeloo's, and parameters.
use nodescan.Prelude.{ℕ, ◌≡◌, refl, Option, none, some, List, [], ◌∷◌}

-- What the set calls of a list of intervals.
pub record IntervalsApi (L : Type 0) : Type 0 where
  pub aggregate : L → L
  pub create_index_cache : ℕ → L → L

-- What it calls of a random iterator over such a list: it takes numbers of a generator.
pub record RandomApi (L A G X : Type 0) : Type 0 where
  pub init : L → G → A × G
  pub save_state : A → X
  pub restore_state : X → L → G → A × G

pub data Item (I Q X Y : Type 0) : Type 0 where
  ipv4s : I → Item I Q X Y
  ports : Q → Item I Q X Y
  v4_state : X → Item I Q X Y
  port_state : Y → Item I Q X Y

-- The lists, the iterators, and the generators `g_mt_rand_ips` and `g_mt_rand_ports`.
pub record Members (I Q A R G : Type 0) : Type 0 where
  pub ip_list : I
  pub port_list : Q
  pub rand_v4 : A
  pub rand_port : R
  pub rand_ips : G
  pub rand_ports : G

module _ {I Q A R G X Y : Type 0} (is : IntervalsApi I) (qs : IntervalsApi Q)
    (v4 : RandomApi I A G X) (port : RandomApi Q R G Y) where
  -- `init()`
  unfoldable pub init : Members I Q A R G → Members I Q A R G
  init m =
      let ips = is.create_index_cache 256 (is.aggregate m.ip_list) in
      let qs' = qs.create_index_cache 16 (qs.aggregate m.port_list) in
      let (a, g) = v4.init ips m.rand_ips in
      let (r, h) = port.init qs' m.rand_ports in
      record {
        ip_list = ips;
        port_list = qs';
        rand_v4 = a;
        rand_port = r;
        rand_ips = g;
        rand_ports = h;
      }

  -- `save_state(os)`
  unfoldable pub save_state : Members I Q A R G → List (Item I Q X Y)
  save_state m =
      ipv4s m.ip_list
      ∷ ports m.port_list
      ∷ v4_state (v4.save_state m.rand_v4)
      ∷ port_state (port.save_state m.rand_port)
      ∷ []

  -- `restore_state(is)`: the archive throws when an item is not the one that is asked for.
  unfoldable pub restore_state :
      List (Item I Q X Y) → Members I Q A R G → Option (Members I Q A R G)
  restore_state (ipv4s i ∷ ports q ∷ v4_state x ∷ port_state y ∷ rest) m =
      let (a, g) = v4.restore_state x i m.rand_ips in
      let (r, h) = port.restore_state y q m.rand_ports in
      some (record {
        ip_list = is.create_index_cache 256 i;
        port_list = qs.create_index_cache 16 q;
        rand_v4 = a;
        rand_port = r;
        rand_ips = g;
        rand_ports = h;
      })
  restore_state items m = none

  -- Where leeloo restores an iterator from what it has saved of it, a set that is restored has the
  -- lists, with their caches, and the iterators of the one that was saved.
  pub restore_state-save_state :
      (m m' : Members I Q A R G)
      → ((i : I) (g : G) → (v4.restore_state (v4.save_state m.rand_v4) i g).0 ≡ m.rand_v4)
      → ((q : Q) (g : G) → (port.restore_state (port.save_state m.rand_port) q g).0 ≡ m.rand_port)
      → (r : Members I Q A R G) × (restore_state (save_state m) m' ≡ some r)
        × (r.ip_list ≡ is.create_index_cache 256 m.ip_list)
        × (r.port_list ≡ qs.create_index_cache 16 m.port_list)
        × (r.rand_v4 ≡ m.rand_v4)
        × (r.rand_port ≡ m.rand_port)
  unfolding restore_state save_state
  restore_state-save_state m m' v4_back port_back = (
    record {
      ip_list = is.create_index_cache 256 m.ip_list;
      port_list = qs.create_index_cache 16 m.port_list;
      rand_v4 = (v4.restore_state (v4.save_state m.rand_v4) m.ip_list m'.rand_ips).0;
      rand_port = (port.restore_state (port.save_state m.rand_port) m.port_list m'.rand_ports).0;
      rand_ips = (v4.restore_state (v4.save_state m.rand_v4) m.ip_list m'.rand_ips).1;
      rand_ports = (port.restore_state (port.save_state m.rand_port) m.port_list m'.rand_ports).1;
    },
    refl,
    refl,
    refl,
    v4_back m.ip_list m'.rand_ips,
    port_back m.port_list m'.rand_ports,
  )
