-- ===== src/Engine/Soundness.antt =====
-- A whole scan of async_engine.cpp, on a sound engine.
pub mod Tests
use nodescan.Prelude.{
  some, ret_injective, OnRet, of-OnRet, ◌⊎◌, ℕ, zero, ◌+◌, ◌^◌, ◌<◌, ◌≤◌, ◌≡◌, refl, ap, ◌∙◌, Bool,
  true, false, not, List, [], ◌∷◌, length, Exec, ret, out_of_fuel, ◌>>=◌, arith, Safe,
  if◌then◌else◌, >>=-eq-ret, Bool-cases, inl, inr, subst, sym,
}
use nodescan.Prelude.Maps
use nodescan.Prelude.Maps.{Ascends}
use nodescan.Prelude.Maps.Keys.{keys}
use nodescan.Target.{PortApi}
use nodescan.Engine.{Engine, Config, Opened}
use nodescan.Engine.Handlers.{process_free_socks}
use nodescan.Engine.FreeSocks.{Usable, launches}
use nodescan.Engine.Scan.{
  Event, Round, Scanner, process_events, process_dirty_and_timeouts, display_status, autosave_state,
  scan_loop, do_async_scan, scan_ends, check_timeouts,
}
use nodescan.Engine.Clock.{should_save_state, should_call_status_display}
use nodescan.Engine.Accounts.{IsAccounted, Serves}
use nodescan.Engine.Tracking.{IsTracked, IsSound, rewritten-IsSound}
use nodescan.Engine.Opening.{process_free_socks-IsSound}
use nodescan.Engine.Rounds.{AllFit, process_events-IsSound}
use nodescan.Engine.Finish.{MetEnd, process_free_socks-MetEnd}
use nodescan.Engine.Timeouts.Verdicts.{TimedOut}
use nodescan.Lvl4.{Lvl4Sm}
use nodescan.Engine.Expiry.{Expires, process_dirty_and_timeouts-IsSound}
use nodescan.Engine.Round.{round, RoundFits, round-IsSound, Last, round-Last}

-- One of some rounds.
abbrev pub Among : {P : Type 0} → Round P → List (Round P) → Type 0
Among r [] = ⊥
Among r (x ∷ xs) = (x ≡ r) ⊎ Among r xs

module _ {P S H F W : Type 0} ⦃api : PortApi P⦄ (c : Config P S H F W) (Good : S → Type 0)
    (serves : Serves c Good) where
  -- Only the world changes, if anything does.
  if_world-IsSound :
      (b : Bool) (e : Engine P S H F W) (w : W)
      → IsSound c Good e
      → IsSound c Good (if b then record e { world = w } else e)
  if_world-IsSound false e w h = h
  if_world-IsSound true e w h =
      rewritten-IsSound c e.lvl4_sms e.hosts_sms w e h h.accounted.sms refl

  module _ (uninit : ℕ → ℕ) (fuel : ℕ) where
    module _ (status : ℕ → ℕ → W → W) (save : List ℕ → S → W → W) where
      -- What the loop does at intervals, after a round.
      abbrev pub at_intervals : ℕ → Scanner P S H F W → Scanner P S H F W
      at_intervals now x =
          autosave_state c uninit fuel status save now
            (display_status c uninit fuel status save now x)

      pub at_intervals-IsSound :
          (now : ℕ) (x : Scanner P S H F W)
          → IsSound c Good x.engine
          → IsSound c Good (at_intervals now x).engine
      unfolding display_status autosave_state
      at_intervals-IsSound now x h =
          let d = (should_call_status_display now x.display).0 in
          let e = x.engine in
          let w = status e.nlaunched e.ndone e.world in
          let e1 : Engine P S H F W = if d then record e { world = w } else e in
          if_world-IsSound (should_save_state now x.autosave).0 e1
            (save (should_save_state now x.autosave).1.file e1.targets e1.world)
            (if_world-IsSound d e w h)

      -- The loop goes on from a round that returns.
      pub scan_loop-round :
          (r : Round P) (rounds : List (Round P)) (x : Scanner P S H F W) (ends : Bool)
          (e' : Engine P S H F W)
          → round c Good serves uninit fuel r x.engine ≡ ret (ends, e')
          → let y : Scanner P S H F W = record x { engine = e' } in
            scan_loop c uninit fuel status save (r ∷ rounds) x ≡ (
              if ends
              then ret y
              else scan_loop c uninit fuel status save rounds (at_intervals r.now y))
      unfolding scan_loop
      scan_loop-round r rounds x ends e' ran =
          let (e1, ran1, next1) =
            >>=-eq-ret (process_events c uninit fuel r.now r.events x.engine)
              (λ e1. process_dirty_and_timeouts c fuel r.peer r.now e1 >>= λ n.
                process_free_socks c r.answers r.now n.1 >>= λ f.
                ret (scan_ends (length r.events) n.0 (not f.0), f.1))
              ran in
          let (n, ran2, next2) =
            >>=-eq-ret (process_dirty_and_timeouts c fuel r.peer r.now e1)
              (λ n. process_free_socks c r.answers r.now n.1 >>= λ f.
                ret (scan_ends (length r.events) n.0 (not f.0), f.1))
              next1 in
          let (f, ran3, same) =
            >>=-eq-ret (process_free_socks c r.answers r.now n.1)
              (λ f. ret (scan_ends (length r.events) n.0 (not f.0), f.1)) next2 in
          ground (arith, ran1, ran2, ran3, same)

      -- The rounds of a scan that ends: each fits the engine that the rounds before it leave, and in
      -- one of them the loop ends.
      abbrev pub Ending : List (Round P) → Scanner P S H F W → Type 0
      Ending [] x = ⊥
      Ending (r ∷ rounds) x =
          RoundFits c Good serves uninit fuel r x.engine
          × ((e' : Engine P S H F W)
              → round c Good serves uninit fuel r x.engine ≡ ret (false, e')
              → Ending rounds (at_intervals r.now (record x { engine = e' })))

      -- The engine that a last round leaves, which is one of the rounds.
      abbrev pub Ended : List (Round P) → Engine P S H F W → Type 0
      Ended rounds e' =
          (r : Round P) × (e : Engine P S H F W) × Among r rounds
          × Last c Good serves uninit fuel r e e'

      -- From a sound engine, with such rounds, the loop of the scan returns with a sound engine.
      pub scan_loop-IsSound :
          (rounds : List (Round P)) (x : Scanner P S H F W)
          → IsSound c Good x.engine
          → Ending rounds x
          → (y : Scanner P S H F W) × (scan_loop c uninit fuel status save rounds x ≡ ret y)
            × IsSound c Good y.engine
            × Ended rounds y.engine
      unfolding scan_loop
      scan_loop-IsSound [] x h fits = absurd fits
      scan_loop-IsSound (r ∷ rounds) x h fits =
          let ((ends, e'), ran, h') = round-IsSound c Good serves uninit fuel r x.engine h fits.0 in
          let y : Scanner P S H F W = record x { engine = e' } in
          let step = scan_loop-round r rounds x ends e' ran in
          elim (Bool-cases ends) [
            | inl over ↦
                let ran' = ran ∙ ap (λ b. ret (b, e')) over in
                (
                  y,
                  ground (arith, step, over),
                  h',
                  (
                    r,
                    x.engine,
                    inl refl,
                    round-Last c Good serves uninit fuel r x.engine e' h fits.0 ran',
                  ),
                )
            | inr goes ↦
                let ran' : round c Good serves uninit fuel r x.engine ≡ ret (false, e') =
                  ran ∙ ap (λ b. ret (b, e')) goes in
                let (z, rest, hz, (r', e, among, last)) =
                  scan_loop-IsSound rounds (at_intervals r.now y) (at_intervals-IsSound r.now y h')
                    (fits.1 e' ran') in
                (z, ground (arith, step, goes, rest), hz, (r', e, inr among, last))
          ]

      -- An engine that has no connection yet.
      pub record Fresh (e : Engine P S H F W) : Type 0 where
        pub socks : e.sockets_targets ≡ []
        pub sms : e.lvl4_sms ≡ []
        pub polled : e.epoll ≡ []
        pub all_free : e.avail_socks ≡ c.nsockets
        pub small : c.nsockets < 2 ^ 32
        pub good : Good e.targets

      pub Fresh-IsSound :
          (e : Engine P S H F W) → Fresh e → IsSound c Good (record e { nlaunched = 0; ndone = 0 })
      Fresh-IsSound e h = record {
        accounted = record {
          socks = subst (Ascends 1) (sym h.socks) tt;
          sms = subst (Ascends 1) (sym h.sms) tt;
          available = omega (arith, h.all_free, ap length h.socks);
          launched = omega (arith, ap length h.socks);
          small = h.small;
        };
        tracked = record {
          sms = ap keys h.sms ∙ sym (ap keys h.socks);
          polled = ap keys h.polled ∙ sym (ap keys h.socks);
          epoll = subst (Ascends 1) (sym h.polled) tt;
        };
        good = h.good;
      }

      -- `do_async_scan` on an engine that has no connection yet, with fewer than 2 ^ 32 sockets, all
      -- available, and a target set that stays in states from which `next_target` returns, where each
      -- `socket` gives a descriptor
      -- that no open socket has, with enough of them that go on, and with rounds that end in this sense:
      -- in each, the events are of open sockets, a reconnection gets the number of the socket that it
      -- closes, the handling of received bytes and of the buffers that are looked at again returns and
      -- ends no connection that has timed out in that round, the sockets that are opened are as above,
      -- and one of the rounds ends the loop. The scan returns with a sound engine, so that every target
      -- that was launched is done or has an open socket. In its last round, one of these, no event
      -- came, every valid connection had been idle for the time of its target or was ended by its watch, which
      -- was due, and the last call of `next_target` gave the end.
      pub do_async_scan-IsSound :
          (answers : List Opened) (now : ℕ) (rounds : List (Round P)) (x : Scanner P S H F W)
          → Fresh x.engine
          → Usable {P = P} answers []
          → c.nsockets ≤ launches answers
          → let e0 : Engine P S H F W = record (x.engine) { nlaunched = 0; ndone = 0 } in
            let start : Engine P S H F W → Scanner P S H F W = λ e. record x {
              engine = e;
              display = record (x.display) { last_time_status_display = 0 };
            } in
            ((f : Bool × Engine P S H F W)
              → process_free_socks c answers now e0 ≡ ret f
              → Ending rounds (start f.1))
            → (y : Scanner P S H F W) × (do_async_scan c uninit fuel status save answers now rounds
                  x
                ≡ ret y)
              × IsSound c Good y.engine
              × Ended rounds y.engine
      unfolding do_async_scan
      do_async_scan-IsSound answers now rounds x h usable enough ends =
          let e0 : Engine P S H F W = record (x.engine) { nlaunched = 0; ndone = 0 } in
          let (f, opened, h1) =
            process_free_socks-IsSound c Good serves now answers e0 (Fresh-IsSound x.engine h)
              (subst (Usable {P = P} answers) (sym h.socks) usable)
              (omega (arith, enough, h.all_free)) in
          let start : Scanner P S H F W = record x {
            engine = f.1;
            display = record (x.display) { last_time_status_display = 0 };
          } in
          let (y, ran, sound, last) = scan_loop-IsSound rounds start h1 (ends f opened) in
          (y, ground (arith, opened, ran), sound, last)
