-- ===== src/Engine/Handling.antt =====
-- The handlers of ready sockets, on a sound engine.
use nodescan.Prelude.{
  ℕ, ◌≡◌, ap, sym, ◌∙◌, Bool, Option, some, List, ret, arith, of-Safe, Safe-ret, ◌==◌, Bool-cases,
  inl, inr,
}
use nodescan.Prelude.Maps
use nodescan.Prelude.Maps.{
  Ascends, assign-Ascends, insert-Ascends, erase-Ascends, insert-some, le_of_find, length-erase,
}
use nodescan.Prelude.Maps.Keys.{keys, keys-assign, keys-insert-erase, find-keys}
use nodescan.Buffer.{contents}
use nodescan.Lvl4.{Lvl4Sm, new_lvl4_sm, update_ts, free_buffer}
use nodescan.Lvl4.Process.{on_connect, process_lvl4_data}
use nodescan.Target.{PortApi, Target}
use nodescan.Engine.{
  Engine, Config, opened, host_sm, lvl4_sm, put_host, put_lvl4, target_from_socket, get_or,
  add_connected_socket, remove_connecting_socket, econnreset, will_reconnect, Interest, epollout,
  epollin,
}
use nodescan.Engine.Sockets.{callback_finish}
use nodescan.Engine.Handlers.{process_connecting_ready, process_connected_ready, reconnect}
use nodescan.Engine.Accounts.{Serves, IsAccounted}
use nodescan.Engine.Reconnect.{
  reconnect-IsAccounted, reconnected, reconnect-reconnected, keys-tables,
}
use nodescan.Engine.Tracking.{
  IsTracked, IsSound, socket_finished-IsSound, rewritten-IsSound, got-IsSound, put-IsSound,
}

module _ {P S H F W : Type 0} ⦃api : PortApi P⦄ (c : Config P S H F W) (Good : S → Type 0)
    (serves : Serves c Good) where
  -- A socket that is taken out of epoll and put in again, for another event.
  pub registered-IsSound :
      (s : ℕ) (i : Interest) (t : Target P) (e : Engine P S H F W)
      → IsSound c Good e
      → Maps.find s e.sockets_targets ≡ some t
      → IsSound c Good (record e { epoll = Maps.insert s i (Maps.erase s e.epoll) })
  registered-IsSound s i t e h has =
      let v = h.accounted in
      let tr = h.tracked in
      let bound = le_of_find s 1 t e.sockets_targets v.socks has in
      let (x, found) = find-keys s t e.sockets_targets e.epoll (sym tr.polled) has in
      record {
        accounted = record {
          socks = v.socks;
          sms = v.sms;
          available = v.available;
          launched = v.launched;
          small = v.small;
        };
        tracked = record {
          sms = tr.sms;
          polled = keys-insert-erase s 1 x i e.epoll tr.epoll found ∙ tr.polled;
          epoll =
              insert-Ascends s i (Maps.erase s e.epoll) bound (erase-Ascends s 1 e.epoll tr.epoll);
        };
        good = h.good;
      }

  -- A reconnection whose new socket has the number of the old one leaves the engine sound.
  pub reconnect-IsSound :
      (s errno now : ℕ) (t old : Target P) (action : Option F) (e : Engine P S H F W)
      → IsSound c Good e
      → Maps.find s e.sockets_targets ≡ some old
      → (e' : Engine P S H F W) × (reconnect c s t action (opened s errno) now e ≡ ret e')
        × IsSound c Good e'
  reconnect-IsSound s errno now t old action e h has =
      let v = h.accounted in
      let bound = le_of_find s 1 old e.sockets_targets v.socks has in
      let (e', returns, accounted, same) =
        reconnect-IsAccounted c s errno now t old action e v has in
      let reg = registered-IsSound s epollout old e h has in
      let y = reconnected c s s now t action e in
      let kept = insert-some s t old 1 e.sockets_targets v.socks has in
      let some_open = length-erase s old e.sockets_targets has in
      let tracked : IsTracked c y = record {
        sms = keys-tables c s now t old action e bound v.sms h.tracked.sms has ∙ ap keys (sym kept);
        polled = reg.tracked.polled ∙ ap keys (sym kept);
        epoll = reg.tracked.epoll;
      } in
      let returned =
        reconnect-reconnected c s s errno now t action e
          (omega (arith, v.available, v.small, some_open)) bound in
      (
        y,
        returned,
        record {
          accounted =
              of-Safe (IsAccounted c) (reconnect c s t action (opened s errno) now e)
                (Safe-ret (IsAccounted c) (reconnect c s t action (opened s errno) now e) returns
                  accounted)
                returned;
          tracked = tracked;
          good = h.good;
        },
      )

  module _ (s now : ℕ) (e : Engine P S H F W) (t : Target P) (h : IsSound c Good e)
      (has : Maps.find s e.sockets_targets ≡ some t) where
    -- On a sound engine, the handler of a socket whose connection was being made returns with a sound
    -- engine.
    pub process_connecting_ready-IsSound :
        (err : ℕ)
        → (e' : Engine P S H F W) × (process_connecting_ready c s err now e ≡ ret e')
          × IsSound c Good e'
    unfolding process_connecting_ready lvl4_sm host_sm target_from_socket
    process_connecting_ready-IsSound err =
        let sm = get_or (Maps.find s e.lvl4_sms) (new_lvl4_sm now) in
        let e1 : Engine P S H F W = (lvl4_sm s now e).1 in
        let (x, e2) = host_sm c t.ipv4 e1 in
        let (go, (w, x'), sm') = on_connect c.act t (e2.world, x) sm in
        let e3 : Engine P S H F W = record (put_host t.ipv4 x' (put_lvl4 s sm' e2)) { world = w } in
        let s1 = got-IsSound c s now t e h has e.hosts_sms e.world in
        let s3 = put-IsSound c s now t e h has e3.hosts_sms w sm' in
        let (f1, ended1, sound1) =
          socket_finished-IsSound c s t e1 s1.accounted has Good serves err now s1.tracked
            s1.good in
        let (f3, ended3, sound3) =
          socket_finished-IsSound c s t e3 s3.accounted has Good serves 0 now s3.tracked s3.good in
        let e4 : Engine P S H F W = add_connected_socket s (remove_connecting_socket s e3) in
        let s4 = registered-IsSound s epollin t e3 s3 has in
        elim (Bool-cases (err == 0)) [
          | inr failed ↦ (f1, ground (arith, failed, ended1.returns), sound1)
          | inl fine ↦ elim (Bool-cases go) [
            | inr ends ↦ (f3, ground (arith, fine, ends, has, ended3.returns), sound3)
            | inl goes ↦ (
              put_lvl4 s (update_ts now sm') e4,
              ground (arith, fine, goes, has),
              rewritten-IsSound c (Maps.assign s (update_ts now sm') e4.lvl4_sms) e4.hosts_sms
                  e4.world e4 s4
                  (assign-Ascends s (update_ts now sm') 1 e4.lvl4_sms s4.accounted.sms)
                  (keys-assign s (update_ts now sm') e4.lvl4_sms),
            )
          ]
        ]

    -- On a sound engine, the handler of a connected socket returns with a sound engine, where the
    -- handling of the bytes that wait returns and a new socket has the number of the closed one.
    pub process_connected_ready-IsSound :
        (uninit : ℕ → ℕ) (fuel navail errno : ℕ) (got : Option (List ℕ)) {go : Bool} {x : W × H}
        {sm' : Lvl4Sm F}
        → process_lvl4_data c.act uninit fuel t navail got
            (e.world, (host_sm c t.ipv4 e).0)
            (lvl4_sm s now e).0
          ≡ ret (go, x, sm')
        → (e' : Engine P S H F W) × (process_connected_ready c uninit fuel s navail got
              (opened s errno)
              now
              e
            ≡ ret e')
          × IsSound c Good e'
    unfolding process_connected_ready lvl4_sm host_sm target_from_socket
    process_connected_ready-IsSound uninit fuel navail errno got {go} {x} {sm'} reads =
        let sm = get_or (Maps.find s e.lvl4_sms) (new_lvl4_sm now) in
        let e0 : Engine P S H F W = (lvl4_sm s now e).1 in
        let closed : Engine P S H F W = record (put_lvl4 s (free_buffer sm) e0) {
          world = callback_finish c t (contents sm.buf) will_reconnect e0.world;
        } in
        let after : Engine P S H F W =
          record (put_host t.ipv4 (x.1) (put_lvl4 s (update_ts now sm') (host_sm c t.ipv4 e0).1)) {
            world = x.0;
          } in
        let s0 = got-IsSound c s now t e h has e.hosts_sms e.world in
        let sc = put-IsSound c s now t e h has e.hosts_sms closed.world (free_buffer sm) in
        let sa = put-IsSound c s now t e h has after.hosts_sms x.0 (update_ts now sm') in
        let (again, made, sr) = reconnect-IsSound s errno now t t sm.func_connect closed sc has in
        let (f0, ended0, sound0) =
          socket_finished-IsSound c s t e0 s0.accounted has Good serves econnreset now s0.tracked
            s0.good in
        let (fa, ended, sound) =
          socket_finished-IsSound c s t after sa.accounted has Good serves 0 now sa.tracked
            sa.good in
        elim (Bool-cases (navail == 0)) [
          | inl nothing ↦ elim (Bool-cases sm.reconnect) [
            | inl anew ↦ (again, ground (arith, nothing, anew, has, made), sr)
            | inr over ↦ (f0, ground (arith, nothing, over, has, ended0.returns), sound0)
          ]
          | inr bytes ↦ elim (Bool-cases go) [
            | inl goes ↦ (after, ground (arith, bytes, goes, has, reads), sa)
            | inr ends ↦ (fa, ground (arith, bytes, ends, has, reads, ended.returns), sound)
          ]
        ]
