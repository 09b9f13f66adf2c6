-- ===== src/Engine/Soundness/Tests.antt =====
-- A scan of one target with two sockets: it connects in the first round and times out in the second.
use nodescan.Prelude.{
  ℕ, ◌≡◌, ◌≤◌, subst, refl, true, false, some, List, [], ◌∷◌, ret, arith, of_run, inl, inr,
}
use nodescan.Prelude.Maps
use nodescan.Lvl4.Process.{
  process_lvl4_data, process_buffer, process_loop, trigger_process, on_connect,
}
use nodescan.Target.{Target, is_end, end_target, target_lt}
use nodescan.Target.Tests.{word_port, target}
use nodescan.TargetSet.Simple.{SimpleTargetSet, simple_set, at, past_end, next_target, from_element}
use nodescan.TargetSet.Simple.Drain.{at_end, on}
use nodescan.TargetSet.Simple.Queue.{simple_set-Queue}
use nodescan.Engine.Ledger.Recorded.{Recorded, recorded, IsReady, recorded-Serves}
use nodescan.Lvl4.{set_valid, set_on_connect, update_ts, new_lvl4_sm}
use nodescan.Buffer.{store, grow_by, allocate}
use nodescan.Buffer.Block.{tabulate}
use nodescan.Engine.{
  Engine, Config, epollout, epollin, opened, host_sm, lvl4_sm, target_from_socket,
}
use nodescan.Engine.Handlers.{
  process_free_socks, process_connecting_ready, free_socks_loop, launch_target,
}
use nodescan.Engine.Scan.{
  Event, Round, Scanner, process_dirty_and_timeouts, process_dirty, finish_all, check_timeouts,
  do_async_scan, process_events, display_status, autosave_state,
}
use nodescan.Engine.Clock.{should_call_status_display, should_save_state}
use nodescan.Engine.Sockets.{create_socket, socket_finished, finish_socket, free_socket}
use nodescan.Engine.Tests.{config, idle}
use nodescan.Engine.Accounts.{Serves}
use nodescan.Engine.Expiry.{Expires, Expired, Present, process_dirty_and_timeouts-IsSound}
use nodescan.Engine.Tracking.{IsSound}
use nodescan.Engine.FreeSocks.{Usable}
use nodescan.Engine.Round.{RoundFits, round}
use nodescan.Engine.Soundness.{Ended, Ending, at_intervals, do_async_scan-IsSound}

abbrev event : Event
event = record {
  fd = 5;
  out_ready = true;
  in_ready = false;
  so_error = 0;
  navail = 1;
  got = some (97 ∷ []);
  answer = opened 5 115;
}

abbrev peer : ℕ → Target ℕ
peer s = target 1 80

abbrev connects : Round ℕ
connects = record {
  now = 21;
  events = event ∷ [];
  peer = peer;
  answers = opened 7 115 ∷ opened 8 115 ∷ [];
}

abbrev expires : Round ℕ
expires = record { now = 40; events = []; peer = peer; answers = opened 7 115 ∷ opened 8 115 ∷ [] }

abbrev pub start : Scanner ℕ (Recorded ℕ (SimpleTargetSet ℕ)) ℕ (Unit {0}) ℕ
start = record {
  engine = record {
    hosts_sms = idle.hosts_sms;
    lvl4_sms = [];
    sockets_targets = [];
    epoll = [];
    avail_socks = 2;
    nlaunched = idle.nlaunched;
    ndone = idle.ndone;
    targets = (record { targets = target 1 80 ∷ []; it = at (target 1 80) }, []);
    world = idle.world;
  };
  display = record {
    callback_status = false;
    timeout_status_display = 0;
    last_time_status_display = 0;
  };
  autosave = record { file = []; last_save = 0; time_autosave = 0 };
}

abbrev pub rounds : List (Round ℕ)
rounds = connects ∷ expires ∷ []

abbrev pub talks : Config ℕ (Recorded ℕ (SimpleTargetSet ℕ)) ℕ (Unit {0}) ℕ
talks = record {
  nsockets = 2;
  timeout = config.timeout;
  watch_timeout = config.watch_timeout;
  target_set = recorded simple_set;
  new_host = config.new_host;
  act = config.act;
  callback_connected = some tt;
  callback_finish = config.callback_finish;
  watch_timeout_cb = config.watch_timeout_cb;
  timeout_target = config.timeout_target;
}

abbrev pub Started : Recorded ℕ (SimpleTargetSet ℕ) → Type 0
Started = IsReady simple_set-Queue talks refl

pub talks-Serves : Serves talks Started
talks-Serves = recorded-Serves simple_set-Queue talks refl

pub started : Started (start.engine.targets)
unfolding simple_set-Queue from_element target_lt is_end
started = (record { ascends = (tt, tt); stands = on [] refl }, (refl, tt))

-- The engine when the socket is opened, and when it is connected.
abbrev opening : Engine ℕ (Recorded ℕ (SimpleTargetSet ℕ)) ℕ (Unit {0}) ℕ
opening = record (start.engine) {
  hosts_sms = (1, 0) ∷ [];
  targets = (record { targets = target 1 80 ∷ []; it = past_end }, []);
  lvl4_sms = (5, update_ts 20 (set_on_connect (some tt) (set_valid true (new_lvl4_sm 20)))) ∷ [];
  sockets_targets = (5, target 1 80) ∷ [];
  epoll = (5, epollout) ∷ [];
  avail_socks = 1;
  nlaunched = 1;
  ndone = 0;
}

abbrev connected : Engine ℕ (Recorded ℕ (SimpleTargetSet ℕ)) ℕ (Unit {0}) ℕ
connected = record opening {
  lvl4_sms =
      (5, update_ts 21 (update_ts 20 (set_on_connect (some tt) (set_valid true (new_lvl4_sm 20)))))
      ∷ [];
  epoll = (5, epollin) ∷ [];
}

given_all : Started (opening.targets)
unfolding simple_set-Queue
given_all = (record { ascends = (tt, tt); stands = at_end }, tt)

connects-RoundFits : RoundFits talks Started talks-Serves (λ i. 0) 9 connects opening
unfolding process_free_socks process_dirty_and_timeouts process_dirty check_timeouts finish_all
    recorded simple_set next_target from_element target_lt is_end end_target process_events
    process_connecting_ready process_lvl4_data process_buffer process_loop trigger_process
    on_connect free_socks_loop launch_target create_socket socket_finished finish_socket free_socket
    Maps.find Maps.insert Maps.erase Maps.assign host_sm lvl4_sm target_from_socket store grow_by
    allocate tabulate
connects-RoundFits = record {
  events = (
    record {
      errno = 115;
      target = target 1 80;
      handled = _;
      has = refl;
      answer = refl;
      reads = refl;
    },
    λ e' eq. tt,
  );
  buffers =
      of_run (Expires talks Started talks-Serves 9 peer 21)
        (process_events talks (λ i. 0) 9 21 (event ∷ []) opening) {a = connected} refl
        (record { fit = tt; still_open = λ e1 eq i l. absurd l });
  sockets = λ e1 e2 n ran1 ran2.
      of_run
        (λ e1.
          (e2 : Engine ℕ (Recorded ℕ (SimpleTargetSet ℕ)) ℕ (Unit {0}) ℕ) (n : ℕ)
          → process_dirty_and_timeouts talks 9 peer 21 e1 ≡ ret (n, e2)
          → Usable (opened 7 115 ∷ opened 8 115 ∷ []) e2.sockets_targets × (e2.avail_socks ≤ 2))
        (process_events talks (λ i. 0) 9 21 (event ∷ []) opening) {a = connected} refl
        (λ e2 n ran2.
          of_run
            (λ z.
              Usable (opened 7 115 ∷ opened 8 115 ∷ []) z.1.sockets_targets × (z.1.avail_socks ≤ 2))
            (process_dirty_and_timeouts talks 9 peer 21 connected) {a = (1, connected)} refl
            ((omega arith, refl, λ t. (omega arith, refl, λ t. tt)), omega arith) (n, e2) ran2)
        e1 ran1 e2 n ran2;
}

connected-Expires : Expires talks Started talks-Serves 9 peer 40 connected
unfolding process_free_socks process_dirty_and_timeouts process_dirty check_timeouts finish_all
    recorded simple_set next_target from_element target_lt is_end end_target process_events
    process_connecting_ready process_lvl4_data process_buffer process_loop trigger_process
    on_connect free_socks_loop launch_target create_socket socket_finished finish_socket free_socket
    Maps.find Maps.insert Maps.erase Maps.assign host_sm lvl4_sm target_from_socket
connected-Expires = record {
  fit = tt;
  still_open =
      of_run (Present talks Started talks-Serves (5 ∷ [])) (process_dirty talks 9 40 [] connected)
        {a = connected} refl
        (λ i l. elim l [
          | inl same ↦
              subst (λ k. (t : Target ℕ) × (Maps.find k connected.sockets_targets ≡ some t)) same
                (target 1 80, refl)
          | inr later ↦ absurd later
        ]);
}

expires-RoundFits : RoundFits talks Started talks-Serves (λ i. 0) 9 expires connected
unfolding process_free_socks process_dirty_and_timeouts process_dirty check_timeouts finish_all
    recorded simple_set next_target from_element target_lt is_end end_target process_events
    process_connecting_ready process_lvl4_data process_buffer process_loop trigger_process
    on_connect free_socks_loop launch_target create_socket socket_finished finish_socket free_socket
    Maps.find Maps.insert Maps.erase Maps.assign host_sm lvl4_sm target_from_socket
expires-RoundFits = record {
  events = tt;
  buffers =
      of_run (Expires talks Started talks-Serves 9 peer 40)
        (process_events talks (λ i. 0) 9 40 [] connected) {a = connected} refl connected-Expires;
  sockets = λ e1 e2 n ran1 ran2.
      of_run
        (λ e1.
          (e2 : Engine ℕ (Recorded ℕ (SimpleTargetSet ℕ)) ℕ (Unit {0}) ℕ) (n : ℕ)
          → process_dirty_and_timeouts talks 9 peer 40 e1 ≡ ret (n, e2)
          → Usable (opened 7 115 ∷ opened 8 115 ∷ []) e2.sockets_targets × (e2.avail_socks ≤ 2))
        (process_events talks (λ i. 0) 9 40 [] connected) {a = connected} refl
        (λ e2 n ran2.
          of_run
            (λ z.
              Usable (opened 7 115 ∷ opened 8 115 ∷ []) z.1.sockets_targets × (z.1.avail_socks ≤ 2))
            (process_dirty_and_timeouts talks 9 peer 40 connected) refl
            ((omega arith, refl, λ t. (omega arith, refl, λ t. tt)), omega arith) (n, e2) ran2)
        e1 ran1 e2 n ran2;
}

pub start-Ending :
    Ending talks Started talks-Serves
      (λ i. 0)
      9
      (λ a b w. w)
      (λ f s w. w)
      rounds
      (record start { engine = opening })
unfolding process_free_socks process_dirty_and_timeouts process_dirty check_timeouts finish_all
    recorded simple_set next_target from_element target_lt is_end end_target process_events
    process_connecting_ready process_lvl4_data process_buffer process_loop trigger_process
    on_connect free_socks_loop launch_target create_socket socket_finished finish_socket free_socket
    Maps.find Maps.insert Maps.erase Maps.assign host_sm lvl4_sm target_from_socket display_status
    autosave_state should_call_status_display should_save_state
start-Ending = (
  connects-RoundFits,
  λ e' ran.
      of_run
        (λ z.
          Ending talks Started talks-Serves (λ i. 0) 9 (λ a b w. w) (λ f s w. w) (expires ∷ [])
            (at_intervals talks Started talks-Serves (λ i. 0) 9 (λ a b w. w) (λ f s w. w) 21
              (record start { engine = z.1 })))
        (round talks Started talks-Serves (λ i. 0) 9 connects opening) {a = (false, connected)} refl
        (
          expires-RoundFits,
          λ e'' ran'.
              of_run (λ z. elim z.0 [ true ↦ Unit {0} | false ↦ ⊥ ])
                (round talks Started talks-Serves (λ i. 0) 9 expires connected) refl tt (false, e'')
                ran',
        )
        (false, e') ran,
)

do_async_scan-IsSound_example :
    (y : Scanner ℕ (Recorded ℕ (SimpleTargetSet ℕ)) ℕ (Unit {0}) ℕ) × (do_async_scan talks
        (λ i. 0)
        9
        (λ a b w. w)
        (λ f s w. w)
        (opened 5 115 ∷ opened 6 115 ∷ [])
        20
        rounds
        start
      ≡ ret y)
    × IsSound talks Started y.engine
    × Ended talks Started talks-Serves (λ i. 0) 9 (λ a b w. w) (λ f s w. w) rounds y.engine
unfolding Maps.find Maps.insert Maps.erase process_free_socks free_socks_loop launch_target
    create_socket host_sm lvl4_sm Maps.assign recorded simple_set next_target from_element target_lt
    is_end end_target
do_async_scan-IsSound_example =
    do_async_scan-IsSound talks Started talks-Serves (λ i. 0) 9 (λ a b w. w) (λ f s w. w)
      (opened 5 115 ∷ opened 6 115 ∷ []) 20 rounds start
      (record {
        socks = refl;
        sms = refl;
        polled = refl;
        all_free = refl;
        small = omega arith;
        good = started;
      })
      (omega arith, refl, λ t. (omega arith, refl, λ t. tt)) (omega arith)
      (of_run
        (λ f.
          Ending talks Started talks-Serves (λ i. 0) 9 (λ a b w. w) (λ f s w. w) rounds
            (record start { engine = f.1 }))
        (process_free_socks talks (opened 5 115 ∷ opened 6 115 ∷ []) 20
          (record (start.engine) { nlaunched = 0; ndone = 0 }))
        refl start-Ending)

process_dirty_and_timeouts-IsSound_example :
    (n : ℕ) × (e' : Engine ℕ (Recorded ℕ (SimpleTargetSet ℕ)) ℕ (Unit {0}) ℕ) × (late : List ℕ)
    × Expired talks Started talks-Serves 9 peer 40 connected n e' late
unfolding check_timeouts
process_dirty_and_timeouts-IsSound_example =
    process_dirty_and_timeouts-IsSound talks Started talks-Serves 9 peer 40 connected
      (record {
        accounted = record {
          socks = (omega arith, tt);
          sms = (omega arith, tt);
          available = refl;
          launched = refl;
          small = omega arith;
        };
        tracked = record { sms = refl; polled = refl; epoll = (omega arith, tt) };
        good = given_all;
      })
      connected-Expires
