-- ===== src/Engine/Scan.antt =====
-- async_engine.cpp: the events, the timeouts and the loop of a scan.
use nodescan.Prelude.{
  ℕ, ◌+◌, Bool, true, false, not, ◌&&◌, Option, none, some, List, [], ◌∷◌, length, leb, ◌==◌,
  if◌then◌else◌, Exec, ret, out_of_fuel, ◌>>=◌, deref,
}
use nodescan.Prelude.Maps
use nodescan.Target.{PortApi, Target}
use nodescan.Lvl4.{Lvl4Sm, update_watch_ts, should_process_buffer}
use nodescan.Lvl4.Process.{process_buffer}
use nodescan.Engine.{
  Engine, Config, Opened, host_sm, target_from_socket, put_lvl4, put_host, ns_timeout,
}
use nodescan.Engine.Sockets.{socket_finished}
use nodescan.Engine.Handlers.{process_connecting_ready, process_connected_ready, process_free_socks}
use nodescan.Engine.Clock.{Autosave, Display, should_save_state, should_call_status_display}

-- An `epoll_event`, with what the system answers to its handler.
pub record Event : Type 0 where
  pub fd : ℕ
  pub out_ready : Bool
  pub in_ready : Bool
  pub so_error : ℕ
  pub navail : ℕ
  pub got : Option (List ℕ)
  pub answer : Opened

-- What the first loop of `process_dirty_and_timeouts` computes.
pub record Checked (F W : Type 0) : Type 0 where
  pub sms : List (ℕ × Lvl4Sm F)
  pub to_process : List ℕ
  pub timeouted : List ℕ
  pub n_valid : ℕ
  pub world : W

-- What the system answers in one round of the scan.
pub record Round (P : Type 0) : Type 0 where
  pub now : ℕ
  pub events : List Event
  pub peer : ℕ → Target P
  pub answers : List Opened

-- The engine with what it does at intervals.
pub record Scanner (P S H F W : Type 0) : Type 0 where
  pub engine : Engine P S H F W
  pub display : Display
  pub autosave : Autosave

-- The end test of the loop.
abbrev pub scan_ends : ℕ → ℕ → Bool → Bool
scan_ends nfds n_valid end_targets = nfds == 0 && n_valid == 0 && end_targets

module _ {P S H F W : Type 0} ⦃api : PortApi P⦄ (c : Config P S H F W) where
  -- `has_watch_timedout(ts, s, lvl4sm)`; `peer` is `Target::from_socket(s)`.
  unfoldable pub has_watch_timedout : ℕ → Target P → W → Lvl4Sm F → Bool × W × Lvl4Sm F
  has_watch_timedout ts peer w sm = elim c.watch_timeout_cb [
    | none ↦ (false, w, sm)
    | some cb ↦
        if not (c.watch_timeout == 0) && leb (sm.machine.watch_ts + c.watch_timeout) ts
        then (let (go, w') = cb peer w in
            if go then (false, w', update_watch_ts ts sm) else (true, w', sm))
        else (false, w, sm)
  ]

  -- `timeout_of_target(t)`
  abbrev pub timeout_of_target : Target P → ℕ
  timeout_of_target t = elim c.timeout_target [ none ↦ c.timeout | some f ↦ f t ]

  -- Whether a valid connection has timed out; the watch is asked only if it has not by itself.
  unfoldable pub has_timedout : ℕ → Target P → W → Lvl4Sm F → Bool × W × Lvl4Sm F
  unfolding has_watch_timedout
  has_timedout ts peer w sm =
      if leb (sm.machine.ts + timeout_of_target peer) ts
      then (true, w, sm)
      else has_watch_timedout ts peer w sm

  -- The first loop, over the state machines in the order of their sockets.
  unfoldable pub check_timeouts : (ℕ → Target P) → ℕ → List (ℕ × Lvl4Sm F) → W → Checked F W
  unfolding has_timedout should_process_buffer
  check_timeouts peer ts [] w = record {
    sms = [];
    to_process = [];
    timeouted = [];
    n_valid = 0;
    world = w;
  }
  check_timeouts peer ts ((s, sm) ∷ sms) w =
      let (dirty, sm1) = should_process_buffer sm in
      let (late, w', sm2) = has_timedout ts (peer s) w sm1 in
      let rest = check_timeouts peer ts sms (if sm.machine.valid then w' else w) in
      if sm.machine.valid
      then record {
        sms = (s, sm2) ∷ rest.sms;
        to_process = if dirty then s ∷ rest.to_process else rest.to_process;
        timeouted = if late then s ∷ rest.timeouted else rest.timeouted;
        n_valid = if late then rest.n_valid else rest.n_valid + 1;
        world = rest.world;
      }
      else record rest { sms = (s, sm) ∷ rest.sms }

  -- The second loop: the buffers whose trigger was set.
  unfoldable pub process_dirty : ℕ → ℕ → List ℕ → Engine P S H F W → Exec (Engine P S H F W)
  process_dirty fuel now [] e = ret e
  process_dirty fuel now (s ∷ rest) e = target_from_socket s e >>= λ target.
      deref (Maps.find s e.lvl4_sms) >>= λ sm.
      let (h, e1) = host_sm c target.ipv4 e in
      process_buffer c.act fuel target (e1.world, h) sm >>= λ r.
      let (w, h') = r.1 in
      let e2 : Engine P S H F W = record (put_host target.ipv4 h' (put_lvl4 s r.2 e1)) {
        world = w;
      } in
      (if r.0 then ret e2 else socket_finished c s 0 now e2) >>= process_dirty fuel now rest

  -- The third loop.
  unfoldable pub finish_all : ℕ → List ℕ → Engine P S H F W → Exec (Engine P S H F W)
  finish_all now [] e = ret e
  finish_all now (s ∷ rest) e = socket_finished c s ns_timeout now e >>= finish_all now rest

  -- `process_dirty_and_timeouts()`
  unfoldable pub process_dirty_and_timeouts :
      ℕ → (ℕ → Target P) → ℕ → Engine P S H F W → Exec (ℕ × Engine P S H F W)
  process_dirty_and_timeouts fuel peer ts e =
      let k = check_timeouts peer ts e.lvl4_sms e.world in
      process_dirty fuel ts k.to_process (record e { lvl4_sms = k.sms; world = k.world }) >>= λ e1.
      finish_all ts k.timeouted e1 >>= λ e2. ret (k.n_valid, e2)

  -- The body of the loop of `process_events`.
  abbrev pub handle_event : (ℕ → ℕ) → ℕ → ℕ → Event → Engine P S H F W → Exec (Engine P S H F W)
  handle_event uninit fuel now ev e =
      if ev.out_ready
      then process_connecting_ready c ev.fd ev.so_error now e
      else if ev.in_ready
      then process_connected_ready c uninit fuel ev.fd ev.navail ev.got ev.answer now e
      else ret e

  -- The events of one `epoll_wait`, which does not fail, in turn.
  unfoldable pub process_events :
      (ℕ → ℕ) → ℕ → ℕ → List Event → Engine P S H F W → Exec (Engine P S H F W)
  process_events uninit fuel now [] e = ret e
  process_events uninit fuel now (ev ∷ rest) e =
      handle_event uninit fuel now ev e >>= process_events uninit fuel now rest

  -- `status` is the callback of the display, `save` the `save_state` of the target set.
  module _ (uninit : ℕ → ℕ) (fuel : ℕ) (status : ℕ → ℕ → W → W) (save : List ℕ → S → W → W) where
    unfoldable pub display_status : ℕ → Scanner P S H F W → Scanner P S H F W
    display_status now x =
        let (due, d) = should_call_status_display now x.display in
        let e = x.engine in
        record x {
          engine = if due then record e { world = status e.nlaunched e.ndone e.world } else e;
          display = d;
        }

    unfoldable pub autosave_state : ℕ → Scanner P S H F W → Scanner P S H F W
    autosave_state now x =
        let (due, a) = should_save_state now x.autosave in
        let e = x.engine in
        record x {
          engine = if due then record e { world = save a.file e.targets e.world } else e;
          autosave = a;
        }

    -- The loop of `do_async_scan`, one round for each answer of the system.
    unfoldable pub scan_loop : List (Round P) → Scanner P S H F W → Exec (Scanner P S H F W)
    unfolding display_status autosave_state
    scan_loop [] x = out_of_fuel
    scan_loop (r ∷ rounds) x = process_events uninit fuel r.now r.events x.engine >>= λ e1.
        process_dirty_and_timeouts fuel r.peer r.now e1 >>= λ n.
        process_free_socks c r.answers r.now n.1 >>= λ f.
        let y : Scanner P S H F W = record x { engine = f.1 } in
        elim (scan_ends (length r.events) n.0 (not f.0)) [
          | true ↦ ret y
          | false ↦ scan_loop rounds (autosave_state r.now (display_status r.now y))
        ]

    -- `do_async_scan()`, and `launch()` before it calls it: the target set and the counters start anew.
    unfoldable pub do_async_scan :
        List Opened → ℕ → List (Round P) → Scanner P S H F W → Exec (Scanner P S H F W)
    unfolding scan_loop
    do_async_scan answers now rounds x =
        let e = x.engine in
        let e0 : Engine P S H F W = record e { nlaunched = 0; ndone = 0 } in
        process_free_socks c answers now e0 >>= λ f.
        scan_loop rounds (record x {
          engine = f.1;
          display = (record (x.display) { last_time_status_display = 0 });
        })

    unfoldable pub launch :
        List Opened → ℕ → List (Round P) → Scanner P S H F W → Exec (Scanner P S H F W)
    launch answers now rounds x =
        let e = x.engine in
        do_async_scan answers now rounds
          (record x { engine = record e { targets = c.target_set.init e.targets } })
