-- ===== src/Engine/Setup.antt =====
-- async_engine.h and async_engine.cpp: how an engine is made and set up, and the launch of a scan.
pub mod Tests
use nodescan.Prelude.{
  ℕ, suc, ◌+◌, ◌-◌, ◌^◌, ◌<◌, ◌≤◌, ◌≡◌, ◌∷◌, refl, Bool, true, false, Option, none, some, List, [],
  Exec, ret, fault, ◌>>=◌, add32, ltb, if◌then◌else◌, arith, Bool-cases, inl, inr,
}
use nodescan.Target.{PortApi, Target}
use nodescan.TargetSet.{TargetSet}
use nodescan.TargetSet.Simple.{SimpleTargetSet, fresh_set, simple_set, next_target}
use nodescan.Lvl4.Process.{Callbacks}
use nodescan.Engine.{Engine, Config, Opened}
use nodescan.Engine.Handlers.{process_free_socks, free_socks_loop}
use nodescan.Engine.Clock.{Autosave, Display}
use nodescan.Engine.Scan.{Round, Scanner, do_async_scan, launch}
use nodescan.Engine.FreeSocks.{Usable, launches}
use nodescan.Engine.Accounts.{Serves}
use nodescan.Engine.Tracking.{IsSound}
use nodescan.Engine.Soundness.{Fresh, Ending, Ended, do_async_scan-IsSound}

module _ {P S H F W : Type 0} where
  -- `AsyncEngine(targets, nsockets, timeout)`, the part that a scan does not change. A member that the
  -- constructor does not set has the value `unset`.
  abbrev pub new_config :
      ℕ → TargetSet P S H → H → Callbacks F (Target P) (W × H) → ℕ → ℕ → Config P S H F W
  new_config unset target_set new_host act nsockets timeout = record {
    nsockets = nsockets;
    timeout = timeout;
    watch_timeout = unset;
    target_set = target_set;
    new_host = new_host;
    act = act;
    callback_connected = none;
    callback_finish = none;
    watch_timeout_cb = none;
    timeout_target = none;
  }

  -- `init_sockets()`
  abbrev pub init_sockets : Config P S H F W → Engine P S H F W → Engine P S H F W
  init_sockets c e = record e { avail_socks = c.nsockets }

  -- The part that a scan changes.
  unfoldable pub new_scanner : ℕ → Config P S H F W → S → W → Scanner P S H F W
  new_scanner unset c targets world = record {
    engine = init_sockets c (record {
      hosts_sms = [];
      lvl4_sms = [];
      sockets_targets = [];
      epoll = [];
      avail_socks = unset;
      nlaunched = unset;
      ndone = unset;
      targets = targets;
      world = world;
    });
    display = record {
      callback_status = false;
      timeout_status_display = 0;
      last_time_status_display = unset;
    };
    autosave = record { file = []; last_save = unset; time_autosave = 0 };
  }

  abbrev pub set_lvl4_connected_callback : F → Config P S H F W → Config P S H F W
  set_lvl4_connected_callback a c = record c { callback_connected = some a }

  abbrev pub set_lvl4_finish_callback :
      (Target P → List ℕ → ℕ → W → W) → Config P S H F W → Config P S H F W
  set_lvl4_finish_callback f c = record c { callback_finish = some f }

  -- `set_status_display_callback(f, timeout)`: whether `f` is a function, and not empty. What it does is
  -- an argument of the scan.
  abbrev pub set_status_display_callback : Bool → ℕ → Scanner P S H F W → Scanner P S H F W
  set_status_display_callback given timeout x = record x {
    display = record (x.display) { callback_status = given; timeout_status_display = timeout };
  }

  abbrev pub set_watch_timeout : (Target P → W → Bool × W) → ℕ → Config P S H F W → Config P S H F W
  set_watch_timeout f timeout c = record c { watch_timeout = timeout; watch_timeout_cb = some f }

  abbrev pub set_timeout_of_target : (Target P → ℕ) → Config P S H F W → Config P S H F W
  set_timeout_of_target f c = record c { timeout_target = some f }

  -- `ensure_available_sockets(n)`: the difference is a `size_t`, added to a `uint32_t`.
  unfoldable pub ensure_available_sockets : ℕ → Engine P S H F W → Engine P S H F W
  ensure_available_sockets n e =
      if ltb e.avail_socks n
      then record e { avail_socks = add32 e.avail_socks (n - e.avail_socks) }
      else e

module _ {P S H F W : Type 0} ⦃api : PortApi P⦄ (c : Config P S H F W) (uninit : ℕ → ℕ) (fuel : ℕ)
    (status : ℕ → ℕ → W → W) (save : List ℕ → S → W → W) where
  -- `launch_shrd(idx, total)`: the target set is not started.
  unfoldable pub launch_shrd :
      ℕ → ℕ → List Opened → ℕ → List (Round P) → Scanner P S H F W → Exec (Scanner P S H F W)
  launch_shrd idx total answers now rounds x =
      do_async_scan c uninit fuel status save answers now rounds x

  -- A new engine, launched on a target set that is good once it is started, with answers and rounds as
  -- `do_async_scan` needs them, returns after such a last round, and is sound then.
  pub launch-new_scanner :
      (Good : S → Type 0) (serves : Serves c Good) (unset now : ℕ) (targets : S) (w : W)
      (answers : List Opened) (rounds : List (Round P))
      → c.nsockets < 2 ^ 32
      → Good (c.target_set.init targets)
      → Usable {P = P} answers []
      → c.nsockets ≤ launches answers
      → let x = new_scanner unset c targets w in
        let e0 : Engine P S H F W = record (x.engine) {
          targets = c.target_set.init targets;
          nlaunched = 0;
          ndone = 0;
        } in
        ((f : Bool × Engine P S H F W)
          → process_free_socks c answers now e0 ≡ ret f
          → Ending c Good serves uninit fuel status save rounds (record x {
            engine = f.1;
            display = record (x.display) { last_time_status_display = 0 };
          }))
        → (y : Scanner P S H F W) × (launch c uninit fuel status save answers now rounds x ≡ ret y)
          × IsSound c Good y.engine
          × Ended c Good serves uninit fuel status save rounds y.engine
  unfolding launch new_scanner
  launch-new_scanner Good serves unset now targets w answers rounds small good usable enough ends =
      let x = new_scanner unset c targets w in
      do_async_scan-IsSound c Good serves uninit fuel status save answers now rounds
        (record x { engine = record (x.engine) { targets = c.target_set.init targets } })
        (record {
          socks = refl;
          sms = refl;
          polled = refl;
          all_free = refl;
          small = small;
          good = good;
        })
        usable enough ends

  -- A target set whose `next_target` faults until it is started, such as a new `SimpleTargetSet`, makes
  -- `launch_shrd` of a new engine that has a socket fault.
  pub launch_shrd-fault :
      (unset now idx total n : ℕ) (targets : S) (w : W) (answers : List Opened)
      (rounds : List (Round P))
      → c.target_set.next_target targets ≡ fault
      → c.nsockets ≡ suc n
      → launch_shrd idx total answers now rounds (new_scanner unset c targets w) ≡ fault
  unfolding launch_shrd new_scanner do_async_scan process_free_socks free_socks_loop
  launch_shrd-fault unset now idx total n targets w answers rounds unstarted sockets =
      by_answers answers
    where
      by_answers :
          (answers : List Opened)
          → launch_shrd idx total answers now rounds (new_scanner unset c targets w) ≡ fault
      by_answers [] = rw sockets (ground (arith, unstarted))
      by_answers (a ∷ rest) = rw sockets (ground (arith, unstarted))
