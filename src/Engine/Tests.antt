-- ===== src/Engine/Tests.antt =====
-- An engine of two sockets over an ordered set of targets, and the theorems on it.
use nodescan.Prelude.{
  ℕ, ◌+◌, ◌≡◌, refl, subst, inl, Bool, true, false, some, none, List, [], ◌∷◌, ret, fault, arith,
}
use nodescan.Prelude.Maps
use mathlib.Core.List.{tail}
use nodescan.Lvl4.{Lvl4Sm, new_lvl4_sm, set_valid, set_trigger, size_trigger, no_more_to_process}
use nodescan.Lvl4.Process.{
  Callbacks, process_lvl4_data, process_buffer, process_loop, trigger_process,
}
use nodescan.Target.{Target, is_end, end_target, target_lt}
use nodescan.Target.Tests.{word_port, target}
use nodescan.TargetSet.{Next, gives}
use nodescan.TargetSet.Simple.{
  SimpleTargetSet, Iter, simple_set, at, past_end, unset, first, next_target, next_iter,
  from_element,
}
use nodescan.Engine.{lvl4_sm, Engine, Config, no_socket, opened, host_sm, epollin}
use nodescan.Engine.Handlers.{process_free_socks, launch_target, process_connected_ready}
use nodescan.Engine.Scan.{
  Round, Scanner, process_dirty_and_timeouts, process_dirty, finish_all, scan_loop, check_timeouts,
}
use nodescan.Engine.Clock.{saves, Apart, saves-Apart}
use nodescan.Engine.Accounts.{IsAccounted, Released, socket_finished-IsAccounted}
use nodescan.Engine.Accounts.{Serves}
use nodescan.Engine.Launch.{launch_target-no_socket}
use nodescan.Engine.FreeSocks.{process_free_socks-IsAccounted}
use nodescan.Buffer.{store, grow_by, allocate}
use nodescan.Buffer.Block.{tabulate}
use nodescan.Engine.Ready.{process_connected_ready-IsAccounted}
use nodescan.Engine.Ending.{scan_loop_unfinished}
use nodescan.Engine.Twice.{process_dirty_and_timeouts-fault}
use nodescan.Engine.Tracking.{IsSound}

-- The world counts the ends of connections. A callback ends its connection.
abbrev ends_all : Callbacks (Unit {0}) (Target ℕ) (ℕ × ℕ)
ends_all = record {
  call = λ f t n w sm. ret (false, w, sm);
  python = λ f t prev w sm. (no_more_to_process, w, sm);
  connect = λ f t w sm. (true, w, sm);
}

abbrev pub config : Config ℕ (SimpleTargetSet ℕ) ℕ (Unit {0}) ℕ
config = record {
  nsockets = 2;
  timeout = 10;
  watch_timeout = 0;
  target_set = simple_set;
  new_host = 0;
  act = ends_all;
  callback_connected = none;
  callback_finish = some (λ t b err w. w + 1);
  watch_timeout_cb = none;
  timeout_target = none;
}

abbrev two_targets : SimpleTargetSet ℕ
two_targets = record { targets = target 1 80 ∷ target 2 80 ∷ []; it = at (target 2 80) }

abbrev pub idle : Engine ℕ (SimpleTargetSet ℕ) ℕ (Unit {0}) ℕ
idle = record {
  hosts_sms = [];
  lvl4_sms = [];
  sockets_targets = [];
  epoll = [];
  avail_socks = 2;
  nlaunched = 1;
  ndone = 1;
  targets = two_targets;
  world = 1;
}

-- A connection whose buffer is to be looked at again, since a callback changed its trigger.
abbrev dirty : Lvl4Sm (Unit {0})
dirty = record (set_trigger (size_trigger 0 tt) (set_valid true (new_lvl4_sm 7))) {
  reprocess = true;
}

abbrev pub busy : Engine ℕ (SimpleTargetSet ℕ) ℕ (Unit {0}) ℕ
busy = record idle {
  lvl4_sms = (6, dirty) ∷ [];
  sockets_targets = (6, target 1 80) ∷ [];
  avail_socks = 1;
  nlaunched = 2;
}

idle-IsAccounted : IsAccounted config idle
idle-IsAccounted = record {
  socks = tt;
  sms = tt;
  available = refl;
  launched = refl;
  small = omega arith;
}

pub busy-IsAccounted : IsAccounted config busy
busy-IsAccounted = record {
  socks = (omega arith, tt);
  sms = (omega arith, tt);
  available = refl;
  launched = refl;
  small = omega arith;
}

abbrev pub StartedAt : Iter ℕ → Type 0
StartedAt unset = ⊥
StartedAt (at t) = Unit {0}
StartedAt past_end = Unit {0}

first-Started : (xs : List (Target ℕ)) → StartedAt (first xs)
first-Started [] = tt
first-Started (x ∷ xs) = tt

next_of_started :
    (it : Iter ℕ) (xs : List (Target ℕ))
    → StartedAt it
    → let x : SimpleTargetSet ℕ = record { targets = xs; it = it } in
      (n : Next ℕ × SimpleTargetSet ℕ) × ((simple_set {H = ℕ}).next_target x ≡ ret n)
      × StartedAt n.1.it
unfolding simple_set next_target
next_of_started unset xs h = absurd h
next_of_started (at t) xs h = (
  (gives t, record { targets = xs; it = next_iter t xs }),
  refl,
  first-Started (tail (from_element t xs)),
)
next_of_started past_end xs h =
    ((gives end_target, record { targets = xs; it = past_end }), refl, tt)

pub config-Serves : Serves config (λ x. StartedAt x.it)
unfolding simple_set
config-Serves = record {
  next = λ x h. next_of_started x.it x.targets h;
  finished = λ t h x good. good;
}

process_free_socks-IsAccounted_example :
    (r : Bool × Engine ℕ (SimpleTargetSet ℕ) ℕ (Unit {0}) ℕ) × (process_free_socks config
        (opened 5 111 ∷ opened 5 115 ∷ opened 6 0 ∷ [])
        20
        idle
      ≡ ret r)
    × IsAccounted config r.1
unfolding Maps.find Maps.insert Maps.erase
process_free_socks-IsAccounted_example =
    process_free_socks-IsAccounted config (λ x. StartedAt x.it) config-Serves 20
      (opened 5 111 ∷ opened 5 115 ∷ opened 6 0 ∷ []) idle idle-IsAccounted tt
      (omega arith, refl, λ t. (omega arith, refl, λ u. (omega arith, refl, λ v. tt))) (omega arith)

saves-Apart_example : Apart 60 100 (
    saves
      (130 ∷ 170 ∷ 200 ∷ 240 ∷ [])
      (record { file = 97 ∷ []; last_save = 100; time_autosave = 60 }))
saves-Apart_example =
    saves-Apart (130 ∷ 170 ∷ 200 ∷ 240 ∷ [])
      (record { file = 97 ∷ []; last_save = 100; time_autosave = 60 }) (omega arith)

socket_finished-IsAccounted_example :
    (e' : Engine ℕ (SimpleTargetSet ℕ) ℕ (Unit {0}) ℕ) × Released config 6 1000 20 busy
      (target 1 80)
      e'
unfolding Maps.find
socket_finished-IsAccounted_example =
    socket_finished-IsAccounted config 6 1000 20 busy (target 1 80) busy-IsAccounted refl

launch_target-no_socket_example : launch_target config (no_socket 24) (target 1 80) 20 idle ≡ fault
launch_target-no_socket_example =
    launch_target-no_socket config 24 20 (target 1 80) idle idle-IsAccounted (omega arith) refl

-- The same engine, with its connection registered.
abbrev watched : Engine ℕ (SimpleTargetSet ℕ) ℕ (Unit {0}) ℕ
watched = record busy { epoll = (6, epollin) ∷ [] }

watched-IsSound : IsSound config (λ x. StartedAt x.it) watched
watched-IsSound = record {
  accounted = record {
    socks = (omega arith, tt);
    sms = (omega arith, tt);
    available = refl;
    launched = refl;
    small = omega arith;
  };
  tracked = record { sms = refl; polled = refl; epoll = (omega arith, tt) };
  good = tt;
}

-- What is handled of the buffer of the connection that is looked at again.
abbrev looked_at : Lvl4Sm (Unit {0})
looked_at = record dirty { reprocess = false }

looked_at_ends :
    (t : Target ℕ) (sm : Lvl4Sm (Unit {0}))
    → some looked_at ≡ some sm
    → (x : ℕ × ℕ) × (sm' : Lvl4Sm (Unit {0})) × (process_buffer config.act 9 t (1, 0) sm
        ≡ ret (false, x, sm'))
unfolding process_buffer process_loop trigger_process
looked_at_ends t sm found =
    let same : looked_at ≡ sm = cc in
    subst
      (λ y.
        (x : ℕ × ℕ) × (sm' : Lvl4Sm (Unit {0})) × (process_buffer config.act 9 t (1, 0) y
          ≡ ret (false, x, sm')))
      same ((1, 0), looked_at, refl)

process_dirty_and_timeouts-fault_example :
    process_dirty_and_timeouts config 9 (λ s. target 1 80) 20 watched ≡ fault
unfolding check_timeouts Maps.find process_buffer process_loop trigger_process host_sm
process_dirty_and_timeouts-fault_example =
    process_dirty_and_timeouts-fault config (λ x. StartedAt x.it) config-Serves 9 20 6
      (λ s. target 1 80) watched dirty watched-IsSound refl refl (omega arith)
      (
        λ t sm has found. let (x, sm', ran) = looked_at_ends t sm found in ((false, x, sm'), ran),
        λ e' ran. tt,
      )
      (inl (refl, λ t sm has found. looked_at_ends t sm found))

scan_loop_unfinished_example :
    let r : Round ℕ = record {
      now = 20;
      events = [];
      peer = λ s. target 1 80;
      answers = opened 5 115 ∷ [];
    } in
    let x : Scanner ℕ (SimpleTargetSet ℕ) ℕ (Unit {0}) ℕ = record {
      engine = idle;
      display = record {
        callback_status = false;
        timeout_status_display = 0;
        last_time_status_display = 0;
      };
      autosave = record { file = []; last_save = 0; time_autosave = 0 };
    } in
    (y : Scanner ℕ (SimpleTargetSet ℕ) ℕ (Unit {0}) ℕ) × (scan_loop config
        (λ i. 0)
        9
        (λ a b w. w)
        (λ f s w. w)
        (r ∷ [])
        x
      ≡ ret y)
    × (Maps.find 5 y.engine.sockets_targets ≡ some (target 2 80))
    × (y.engine.nlaunched ≡ 2)
    × (y.engine.ndone ≡ 1)
unfolding process_dirty_and_timeouts process_dirty check_timeouts finish_all Maps.find simple_set
    next_target from_element target_lt is_end end_target
scan_loop_unfinished_example =
    let r : Round ℕ = record {
      now = 20;
      events = [];
      peer = λ s. target 1 80;
      answers = opened 5 115 ∷ [];
    } in
    let x : Scanner ℕ (SimpleTargetSet ℕ) ℕ (Unit {0}) ℕ = record {
      engine = idle;
      display = record {
        callback_status = false;
        timeout_status_display = 0;
        last_time_status_display = 0;
      };
      autosave = record { file = []; last_save = 0; time_autosave = 0 };
    } in
    scan_loop_unfinished config (λ i. 0) 9 (λ a b w. w) (λ f s w. w) r [] x idle 5 0 (target 2 80)
      end_target (record two_targets { it = past_end }) (record two_targets { it = past_end }) refl
      refl refl refl refl refl refl refl refl

process_connected_ready-IsAccounted_example :
    (e' : Engine ℕ (SimpleTargetSet ℕ) ℕ (Unit {0}) ℕ) × (process_connected_ready config
        (λ i. 0)
        9
        6
        3
        (some (97 ∷ 98 ∷ 99 ∷ []))
        (opened 6 115)
        20
        busy
      ≡ ret e')
    × IsAccounted config e'
unfolding Maps.find process_lvl4_data host_sm lvl4_sm process_loop trigger_process store grow_by
    allocate tabulate
process_connected_ready-IsAccounted_example =
    process_connected_ready-IsAccounted config 6 20 busy (target 1 80) busy-IsAccounted refl
      (λ i. 0) 9 3 115 (some (97 ∷ 98 ∷ 99 ∷ [])) refl
