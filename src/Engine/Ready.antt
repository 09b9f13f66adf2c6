-- ===== src/Engine/Ready.antt =====
-- The handlers of ready sockets, and the books of the engine.
use nodescan.Prelude.{ℕ, ◌≡◌, Bool, Option, some, List, Bool-cases, inl, inr, ret, arith, ◌==◌}
use nodescan.Prelude.Maps
use nodescan.Prelude.Maps.{Ascends, assign-Ascends, insert-Ascends, le_of_find}
use nodescan.Buffer.{contents}
use nodescan.Lvl4.{Lvl4Sm, new_lvl4_sm, update_ts, free_buffer}
use nodescan.Lvl4.Process.{on_connect, process_lvl4_data}
use nodescan.Target.{PortApi, Target}
use nodescan.Engine.{
  Engine, Config, opened, host_sm, lvl4_sm, put_host, put_lvl4, target_from_socket, get_or,
  add_connected_socket, remove_connecting_socket, econnreset, will_reconnect,
}
use nodescan.Engine.Sockets.{callback_finish}
use nodescan.Engine.Handlers.{process_connecting_ready, process_connected_ready}
use nodescan.Engine.Accounts.{IsAccounted, socket_finished-IsAccounted}
use nodescan.Engine.Reconnect.{reconnect-IsAccounted}

module _ {P S H F W : Type 0} ⦃api : PortApi P⦄ (c : Config P S H F W) where
  -- A reference to a state machine: the books stay, whatever is written through it.
  with_sm-IsAccounted :
      (s now : ℕ) (e : Engine P S H F W) (t : Target P)
      → IsAccounted c e
      → Maps.find s e.sockets_targets ≡ some t
      → (sm : Lvl4Sm F)
      → Ascends 1 (Maps.insert s (new_lvl4_sm now) e.lvl4_sms)
        × Ascends 1 (Maps.assign s sm (Maps.insert s (new_lvl4_sm now) e.lvl4_sms))
  with_sm-IsAccounted s now e t v has sm =
      let up =
        insert-Ascends s (new_lvl4_sm now) e.lvl4_sms
          (le_of_find s 1 t e.sockets_targets v.socks has) v.sms in
      (up, assign-Ascends s sm 1 (Maps.insert s (new_lvl4_sm now) e.lvl4_sms) up)

  module _ (s now : ℕ) (e : Engine P S H F W) (t : Target P) (v : IsAccounted c e)
      (has : Maps.find s e.sockets_targets ≡ some t) where
    -- A socket of the engine whose connection was being made, on an engine with right books: the
    -- handler returns with right books, whether the connection failed, and whatever the callback says.
    pub process_connecting_ready-IsAccounted :
        (err : ℕ)
        → (e' : Engine P S H F W) × (process_connecting_ready c s err now e ≡ ret e')
          × IsAccounted c e'
    unfolding process_connecting_ready lvl4_sm host_sm target_from_socket
    process_connecting_ready-IsAccounted err =
        let sm = get_or (Maps.find s e.lvl4_sms) (new_lvl4_sm now) in
        let e1 : Engine P S H F W = (lvl4_sm s now e).1 in
        let (h, e2) = host_sm c t.ipv4 e1 in
        let (go, (w, h'), sm') = on_connect c.act t (e2.world, h) sm in
        let e3 : Engine P S H F W = record (put_host t.ipv4 h' (put_lvl4 s sm' e2)) { world = w } in
        let both = with_sm-IsAccounted s now e t v has sm' in
        let v1 : IsAccounted c e1 = record {
          socks = v.socks;
          sms = both.0;
          available = v.available;
          launched = v.launched;
          small = v.small;
        } in
        let v3 : IsAccounted c e3 = record {
          socks = v.socks;
          sms = both.1;
          available = v.available;
          launched = v.launched;
          small = v.small;
        } in
        let (f1, ended1) = socket_finished-IsAccounted c s err now e1 t v1 has in
        let (f3, ended3) = socket_finished-IsAccounted c s 0 now e3 t v3 has in
        let e4 : Engine P S H F W =
          put_lvl4 s (update_ts now sm') (add_connected_socket s (remove_connecting_socket s e3)) in
        elim (Bool-cases (err == 0)) [
          | inr failed ↦ (f1, ground (arith, failed, ended1.returns), ended1.accounted)
          | inl fine ↦ elim (Bool-cases go) [
            | inr ends ↦ (f3, ground (arith, fine, ends, has, ended3.returns), ended3.accounted)
            | inl goes ↦ (
              e4,
              ground (arith, fine, goes, has),
              record {
                socks = v.socks;
                sms = assign-Ascends s (update_ts now sm') 1 e3.lvl4_sms both.1;
                available = v.available;
                launched = v.launched;
                small = v.small;
              },
            )
          ]
        ]

    -- A connected socket of the engine that is ready, on an engine with right books, where the handling
    -- of the bytes that wait returns and a new socket has the number of the one that is closed: the
    -- handler returns with right books. That covers the peer that closes, with and without a
    -- reconnection, and callbacks that go on or end the connection.
    pub process_connected_ready-IsAccounted :
        (uninit : ℕ → ℕ) (fuel navail errno : ℕ) (got : Option (List ℕ)) {go : Bool} {x : W × H}
        {sm' : Lvl4Sm F}
        → process_lvl4_data c.act uninit fuel t navail got
            (e.world, (host_sm c t.ipv4 e).0)
            (lvl4_sm s now e).0
          ≡ ret (go, x, sm')
        → (e' : Engine P S H F W) × (process_connected_ready c uninit fuel s navail got
              (opened s errno)
              now
              e
            ≡ ret e')
          × IsAccounted c e'
    unfolding process_connected_ready lvl4_sm host_sm target_from_socket
    process_connected_ready-IsAccounted uninit fuel navail errno got {go} {x} {sm'} reads =
        let sm = get_or (Maps.find s e.lvl4_sms) (new_lvl4_sm now) in
        let e0 : Engine P S H F W = (lvl4_sm s now e).1 in
        let closed : Engine P S H F W = record (put_lvl4 s (free_buffer sm) e0) {
          world = callback_finish c t (contents sm.buf) will_reconnect e0.world;
        } in
        let after : Engine P S H F W =
          record (put_host t.ipv4 (x.1) (put_lvl4 s (update_ts now sm') (host_sm c t.ipv4 e0).1)) {
            world = x.0;
          } in
        let freed = with_sm-IsAccounted s now e t v has (free_buffer sm) in
        let updated = with_sm-IsAccounted s now e t v has (update_ts now sm') in
        let v0 : IsAccounted c e0 = record {
          socks = v.socks;
          sms = freed.0;
          available = v.available;
          launched = v.launched;
          small = v.small;
        } in
        let vc : IsAccounted c closed = record {
          socks = v.socks;
          sms = freed.1;
          available = v.available;
          launched = v.launched;
          small = v.small;
        } in
        let va : IsAccounted c after = record {
          socks = v.socks;
          sms = updated.1;
          available = v.available;
          launched = v.launched;
          small = v.small;
        } in
        let (again, made, vm, same) =
          reconnect-IsAccounted c s errno now t t sm.func_connect closed vc has in
        let (f0, ended0) = socket_finished-IsAccounted c s econnreset now e0 t v0 has in
        let (fa, ended) = socket_finished-IsAccounted c s 0 now after t va has in
        elim (Bool-cases (navail == 0)) [
          | inl nothing ↦ elim (Bool-cases (sm.reconnect)) [
            | inl anew ↦ (again, ground (arith, nothing, anew, has, made), vm)
            | inr over ↦ (f0, ground (arith, nothing, over, has, ended0.returns), ended0.accounted)
          ]
          | inr bytes ↦ elim (Bool-cases go) [
            | inl goes ↦ (after, ground (arith, bytes, goes, has, reads), va)
            | inr ends ↦
                (fa, ground (arith, bytes, ends, has, reads, ended.returns), ended.accounted)
          ]
        ]
