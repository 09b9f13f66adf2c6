-- ===== src/Engine/Ledger/Events.antt =====
-- async_engine.cpp: the handlers of ready sockets, by the count of targets.
use nodescan.Prelude.{
  ℕ, ◌≡◌, refl, sym, subst, ◌∙◌, Bool, not, Option, some, List, [], ◌∷◌, ret, if◌then◌else◌, ◌==◌,
  OnRet, OnRet->>=, OnRet-mono, OnRet-deref, OnRet-if, OnRet-any, of_run, add32,
}
use nodescan.Prelude.Maps
use nodescan.Prelude.Maps.{Ascends, insert-some}
use nodescan.Buffer.{contents}
use nodescan.Lvl4.{Lvl4Sm, update_ts, free_buffer}
use nodescan.Lvl4.Process.{on_connect, process_lvl4_data}
use nodescan.Target.{PortApi, Target}
use nodescan.Engine.{
  Engine, Config, opened, host_sm, lvl4_sm, put_host, put_lvl4, target_from_socket,
  add_connected_socket, remove_connecting_socket, remove_connected_socket, econnreset,
  will_reconnect,
}
use nodescan.Engine.Sockets.{callback_finish, create_socket, socket_finished}
use nodescan.Engine.Handlers.{process_connecting_ready, process_connected_ready, reconnect}
use nodescan.Engine.Scan.{Event, handle_event, process_events}
use nodescan.Engine.Accounts.{Serves}
use nodescan.Engine.Tracking.{IsSound}
use nodescan.Engine.Rounds.{Fits, AllFit, handle_event-IsSound}
use nodescan.Engine.Ledger.{Counts}
use nodescan.Engine.Ledger.Sockets.{
  Keeps, if_Keeps, Adds, if_Keeps, same-Keeps, create_socket-Adds, socket_finished-Keeps,
}

module _ {P S H F W : Type 0} ⦃api : PortApi P⦄ (c : Config P S H F W) {Good : S → Type 0}
    (counts : Counts c Good) (p : Target P → Bool) where
  pub process_connecting_ready-Keeps :
      (s err now : ℕ) (e : Engine P S H F W)
      → OnRet (Keeps c counts p e) (process_connecting_ready c s err now e)
  unfolding process_connecting_ready lvl4_sm host_sm target_from_socket
  process_connecting_ready-Keeps s err now e =
      let (sm, e1) = lvl4_sm s now e in
      OnRet-if (Keeps c counts p e) (not (err == 0)) (socket_finished c s err now e1) _
        (socket_finished-Keeps c counts p s err now e1)
        (OnRet-deref (Keeps c counts p e) (Maps.find s e.sockets_targets) _ (λ t has.
          let (h, e2) = host_sm c t.ipv4 e1 in
          let (go, (w, h'), sm') = on_connect c.act t (e2.world, h) sm in
          let e3 : Engine P S H F W = record (put_host t.ipv4 h' (put_lvl4 s sm' e2)) {
            world = w;
          } in
          OnRet-if (Keeps c counts p e) go
            (ret (
              put_lvl4 s (update_ts now sm')
                (add_connected_socket s (remove_connecting_socket s e3))))
            (socket_finished c s 0 now e3) refl (socket_finished-Keeps c counts p s 0 now e3)))

  -- A new socket with the number of the old one takes over its target.
  pub reconnect-Keeps :
      (s errno now : ℕ) (t : Target P) (action : Option F) (e : Engine P S H F W)
      → Maps.insert s t e.sockets_targets ≡ e.sockets_targets
      → OnRet (Keeps c counts p e) (reconnect c s t action (opened s errno) now e)
  unfolding reconnect lvl4_sm
  reconnect-Keeps s errno now t action e same =
      let e1 : Engine P S H F W = record (remove_connected_socket s e) {
        avail_socks = add32 e.avail_socks 1;
      } in
      OnRet->>= (Adds c counts p s t e1) (Keeps c counts p e)
        (create_socket c (opened s errno) t now e1) _
        (create_socket-Adds c counts p s errno now t e1)
        (λ r ran a.
          let kept = same-Keeps c counts p e r.1 a.0 (a.1 ∙ same) in
          if_Keeps c counts p (r.0.s == 0) e _ _ kept kept)

  pub process_connected_ready-Keeps :
      (uninit : ℕ → ℕ) (fuel s navail errno : ℕ) (got : Option (List ℕ)) (now : ℕ)
      (e : Engine P S H F W) (t : Target P)
      → Ascends 1 e.sockets_targets
      → Maps.find s e.sockets_targets ≡ some t
      → OnRet
          (Keeps c counts p e)
          (process_connected_ready c uninit fuel s navail got (opened s errno) now e)
  unfolding process_connected_ready lvl4_sm host_sm target_from_socket
  process_connected_ready-Keeps uninit fuel s navail errno got now e t up has =
      OnRet-deref (Keeps c counts p e) (Maps.find s e.sockets_targets) _ (λ t' has'.
        let (sm, e0) = lvl4_sm s now e in
        let closed : Engine P S H F W = record (put_lvl4 s (free_buffer sm) e0) {
          world = callback_finish c t' (contents sm.buf) will_reconnect e0.world;
        } in
        let (h, e1) = host_sm c t'.ipv4 e0 in
        let after : Bool × (W × H) × Lvl4Sm F → Engine P S H F W = λ r.
          record (put_host t'.ipv4 (r.1.1) (put_lvl4 s (update_ts now r.2) e1)) { world = r.1.0 } in
        OnRet-if (Keeps c counts p e) (navail == 0) _ _
          (OnRet-if (Keeps c counts p e) sm.reconnect
            (reconnect c s t' sm.func_connect (opened s errno) now closed)
            (socket_finished c s econnreset now e0)
            (reconnect-Keeps s errno now t' sm.func_connect closed
              (insert-some s t' t' 1 e.sockets_targets up has'))
            (socket_finished-Keeps c counts p s econnreset now e0))
          (OnRet->>= (λ r. Unit {0}) (Keeps c counts p e)
            (process_lvl4_data c.act uninit fuel t' navail got (e1.world, h) sm) _
            (OnRet-any (process_lvl4_data c.act uninit fuel t' navail got (e1.world, h) sm))
            (λ r ran u.
              OnRet-if (Keeps c counts p e) r.0 (ret (after r))
                (socket_finished c s 0 now (after r)) refl
                (socket_finished-Keeps c counts p s 0 now (after r)))))

  module _ (serves : Serves c Good) (uninit : ℕ → ℕ) (fuel now : ℕ) where
    handle_event-Keeps :
        (ev : Event) (e : Engine P S H F W)
        → IsSound c Good e
        → Fits c Good serves uninit fuel now ev e
        → OnRet (Keeps c counts p e) (handle_event c uninit fuel now ev e)
    handle_event-Keeps ev e h fits =
        let read =
          subst
            (λ a.
              OnRet (Keeps c counts p e)
                (process_connected_ready c uninit fuel ev.fd ev.navail ev.got a now e))
            (sym fits.answer)
            (process_connected_ready-Keeps uninit fuel ev.fd ev.navail fits.errno ev.got now e
              fits.target h.accounted.socks fits.has) in
        OnRet-if (Keeps c counts p e) ev.out_ready
          (process_connecting_ready c ev.fd ev.so_error now e)
          (if ev.in_ready
            then process_connected_ready c uninit fuel ev.fd ev.navail ev.got ev.answer now e
            else ret e)
          (process_connecting_ready-Keeps ev.fd ev.so_error now e)
          (OnRet-if (Keeps c counts p e) ev.in_ready
            (process_connected_ready c uninit fuel ev.fd ev.navail ev.got ev.answer now e) (ret e)
            read refl)

    pub process_events-Keeps :
        (evs : List Event) (e : Engine P S H F W)
        → IsSound c Good e
        → AllFit c Good serves uninit fuel now evs e
        → OnRet (Keeps c counts p e) (process_events c uninit fuel now evs e)
    unfolding process_events
    process_events-Keeps [] e h fit = refl
    process_events-Keeps (ev ∷ evs) e h fit =
        let (e1, done, h1) = handle_event-IsSound c Good serves uninit fuel now ev e h fit.0 in
        OnRet->>= (Keeps c counts p e) (Keeps c counts p e) (handle_event c uninit fuel now ev e)
          (process_events c uninit fuel now evs) (handle_event-Keeps ev e h fit.0)
          (λ e2 ran k.
            OnRet-mono (Keeps c counts p e2) (Keeps c counts p e)
              (process_events c uninit fuel now evs e2)
              (process_events-Keeps evs e2
                (of_run (IsSound c Good) (handle_event c uninit fuel now ev e) done h1 e2 ran)
                (fit.1 e2 ran))
              (λ e3 ran3 k'. k' ∙ k))
