-- ===== src/Engine/Ledger/Scan.antt =====
-- async_engine.cpp: the loop of the scan, by the count of targets.
use nodescan.Prelude.{
  ℕ, ◌+◌, ◌≤◌, ◌≡◌, refl, ap, sym, subst, ◌∙◌, Bool, true, false, not, List, [], ◌∷◌, length, ret,
  arith, if◌then◌else◌, Bool-cases, inl, inr, OnRet, OnRet->>=, OnRet-mono, of-OnRet, of_run,
}
use nodescan.Target.{PortApi, Target}
use nodescan.Engine.{Engine, Config, Opened}
use nodescan.Engine.Handlers.{process_free_socks}
use nodescan.Engine.Scan.{
  Round, Scanner, process_events, process_dirty_and_timeouts, display_status, autosave_state,
  scan_loop, do_async_scan, scan_ends,
}
use nodescan.Engine.Clock.{should_save_state, should_call_status_display}
use nodescan.Engine.Accounts.{Serves}
use nodescan.Engine.Tracking.{IsSound}
use nodescan.Engine.FreeSocks.{Usable, launches}
use nodescan.Engine.Rounds.{process_events-IsSound}
use nodescan.Engine.Expiry.{process_dirty_and_timeouts-IsSound}
use nodescan.Engine.Opening.{process_free_socks-IsSound}
use nodescan.Engine.Round.{round, RoundFits, round-IsSound}
use nodescan.Engine.Soundness.{
  at_intervals, at_intervals-IsSound, scan_loop-round, Ending, Fresh, Fresh-IsSound,
  do_async_scan-IsSound,
}
use nodescan.Engine.Ledger.{open_count, Counts}
use nodescan.Engine.Ledger.Sockets.{Keeps, process_dirty_and_timeouts-Keeps}
use nodescan.Engine.Ledger.Events.{process_events-Keeps}
use nodescan.Engine.Ledger.Opening.{Gives, process_free_socks-Gives}

module _ {P S H F W : Type 0} ⦃api : PortApi P⦄ (c : Config P S H F W) {Good : S → Type 0}
    (serves : Serves c Good) (counts : Counts c Good) (p : Target P → Bool) (uninit : ℕ → ℕ)
    (fuel : ℕ) where
  -- The count is kept, and if the loop is to end no target is left.
  abbrev Ends : Engine P S H F W → Bool × Engine P S H F W → Type 0
  Ends e b = Keeps c counts p e b.1 × (b.0 ≡ true → counts.left p b.1.targets ≡ 0)

  at_end : (n v : ℕ) (f : Bool) → scan_ends n v (not f) ≡ true → f ≡ false
  at_end n v true h = absurd (ground arith)
  at_end n v false h = refl

  round-Ends :
      (r : Round P) (e : Engine P S H F W)
      → IsSound c Good e
      → RoundFits c Good serves uninit fuel r e
      → OnRet (Ends e) (round c Good serves uninit fuel r e)
  round-Ends r e h fits =
      let (e1, ran1, h1) =
        process_events-IsSound c Good serves uninit fuel r.now r.events e h fits.events in
      OnRet->>= (Keeps c counts p e) (Ends e) (process_events c uninit fuel r.now r.events e) _
        (process_events-Keeps c counts p serves uninit fuel r.now r.events e h fits.events)
        (λ e1 ran1 k1.
          let h1 =
            (let (e0, ran0, h0) =
                process_events-IsSound c Good serves uninit fuel r.now r.events e h fits.events in
              of_run (IsSound c Good) (process_events c uninit fuel r.now r.events e) ran0 h0 e1
                ran1) in
          OnRet->>= (λ n. Keeps c counts p e1 n.1) (Ends e)
            (process_dirty_and_timeouts c fuel r.peer r.now e1) _
            (process_dirty_and_timeouts-Keeps c counts p fuel r.peer r.now e1)
            (λ n ran2 k2.
              let h2 =
                (let (m0, e0, late, f) =
                    process_dirty_and_timeouts-IsSound c Good serves fuel r.peer r.now e1 h1
                      (fits.buffers e1 ran1) in
                  of_run (λ m. IsSound c Good m.1)
                    (process_dirty_and_timeouts c fuel r.peer r.now e1) f.returns f.sound n ran2) in
              let (usable, enough) = fits.sockets e1 n.1 n.0 ran1 ran2 in
              OnRet->>= (Gives c counts p serves r.now n.1) (Ends e)
                (process_free_socks c r.answers r.now n.1) _
                (process_free_socks-Gives c counts p serves r.now r.answers n.1 h2 usable enough)
                (λ f ran3 k3.
                  (k3.0 ∙ k2 ∙ k1, λ over. k3.1 (at_end (length r.events) n.0 f.0 over)))))

  if_world-Keeps :
      (b : Bool) (e : Engine P S H F W) (w : W)
      → Keeps c counts p e (if b then record e { world = w } else e)
  if_world-Keeps false e w = refl
  if_world-Keeps true e w = refl

  module _ (status : ℕ → ℕ → W → W) (save : List ℕ → S → W → W) where
    at_intervals-Keeps :
        (now : ℕ) (x : Scanner P S H F W)
        → Keeps c counts p x.engine
            (at_intervals c Good serves uninit fuel status save now x).engine
    unfolding display_status autosave_state
    at_intervals-Keeps now x =
        let d = (should_call_status_display now x.display).0 in
        let e = x.engine in
        let w = status e.nlaunched e.ndone e.world in
        let e1 : Engine P S H F W = if d then record e { world = w } else e in
        if_world-Keeps (should_save_state now x.autosave).0 e1
          (save (should_save_state now x.autosave).1.file e1.targets e1.world)
        ∙ if_world-Keeps d e w

    -- The count of the scanner's engine is kept, and no target is left.
    abbrev Done : Scanner P S H F W → Scanner P S H F W → Type 0
    Done x y = Keeps c counts p x.engine y.engine × (counts.left p y.engine.targets ≡ 0)

    scan_loop-Done :
        (rounds : List (Round P)) (x : Scanner P S H F W)
        → IsSound c Good x.engine
        → Ending c Good serves uninit fuel status save rounds x
        → OnRet (Done x) (scan_loop c uninit fuel status save rounds x)
    scan_loop-Done [] x h fits = absurd fits
    scan_loop-Done (r ∷ rounds) x h fits =
        let ((ends, e'), ran, h') = round-IsSound c Good serves uninit fuel r x.engine h fits.0 in
        let y : Scanner P S H F W = record x { engine = e' } in
        let z = at_intervals c Good serves uninit fuel status save r.now y in
        let step = scan_loop-round c Good serves uninit fuel status save r rounds x ends e' ran in
        let k =
          of-OnRet (Ends x.engine) (round c Good serves uninit fuel r x.engine)
            (round-Ends r x.engine h fits.0) ran in
        subst (OnRet (Done x)) (sym step) (elim (Bool-cases ends) [
          | inl over ↦
              subst
                (λ b.
                  OnRet (Done x)
                    (if b then ret y else scan_loop c uninit fuel status save rounds z))
                (sym over) (k.0, k.1 over)
          | inr goes ↦
              subst
                (λ b.
                  OnRet (Done x)
                    (if b then ret y else scan_loop c uninit fuel status save rounds z))
                (sym goes)
                (OnRet-mono (Done z) (Done x) (scan_loop c uninit fuel status save rounds z)
                  (scan_loop-Done rounds z
                    (at_intervals-IsSound c Good serves uninit fuel status save r.now y h')
                    (fits.1 e' (ran ∙ ap (λ b. ret (b, e')) goes)))
                  (λ w ran' d. (d.0 ∙ at_intervals-Keeps r.now y ∙ k.0, d.1)))
        ])

    do_async_scan-Done :
        (answers : List Opened) (now : ℕ) (rounds : List (Round P)) (x : Scanner P S H F W)
        → Fresh c Good serves uninit fuel status save x.engine
        → Usable {P = P} answers []
        → c.nsockets ≤ launches answers
        → let e0 : Engine P S H F W = record (x.engine) { nlaunched = 0; ndone = 0 } in
          let start : Engine P S H F W → Scanner P S H F W = λ e. record x {
            engine = e;
            display = record (x.display) { last_time_status_display = 0 };
          } in
          ((f : Bool × Engine P S H F W)
            → process_free_socks c answers now e0 ≡ ret f
            → Ending c Good serves uninit fuel status save rounds (start f.1))
          → OnRet (Done x) (do_async_scan c uninit fuel status save answers now rounds x)
    unfolding do_async_scan
    do_async_scan-Done answers now rounds x h usable enough ends =
        let e0 : Engine P S H F W = record (x.engine) { nlaunched = 0; ndone = 0 } in
        let start : Engine P S H F W → Scanner P S H F W = λ e. record x {
          engine = e;
          display = record (x.display) { last_time_status_display = 0 };
        } in
        let h0 = Fresh-IsSound c Good serves uninit fuel status save x.engine h in
        let usable' = subst (Usable {P = P} answers) (sym h.socks) usable in
        let enough' : x.engine.avail_socks ≤ launches answers = omega (arith, enough, h.all_free) in
        OnRet->>= (Gives c counts p serves now e0) (Done x) (process_free_socks c answers now e0) _
          (process_free_socks-Gives c counts p serves now answers e0 h0 usable' enough')
          (λ f ran k.
            let (g, ran0, h1) =
              process_free_socks-IsSound c Good serves now answers e0 h0 usable' enough' in
            OnRet-mono (Done (start f.1)) (Done x)
              (scan_loop c uninit fuel status save rounds (start f.1))
              (scan_loop-Done rounds (start f.1)
                (of_run (λ g. IsSound c Good g.1) (process_free_socks c answers now e0) ran0 h1 f
                  ran)
                (ends f ran))
              (λ y ran' d. (d.0 ∙ k.0, d.1)))

module _ {P S H F W : Type 0} ⦃api : PortApi P⦄ (c : Config P S H F W) {Good : S → Type 0}
    (serves : Serves c Good) (counts : Counts c Good) (uninit : ℕ → ℕ) (fuel : ℕ)
    (status : ℕ → ℕ → W → W) (save : List ℕ → S → W → W) where
  -- Let the targets of a target set be countable by any test, let the callbacks leave the target set
  -- alone, which stays in states from which `next_target` returns, and let `do_async_scan` start on an
  -- engine that has no connection yet, with fewer than 2 ^ 32 sockets, all available, where each `socket`
  -- gives a descriptor that no open socket has, with enough of them that go on, and with rounds that end
  -- in this sense: in each, the events are of open sockets, a reconnection gets the number of the socket
  -- that it closes, the handling of received bytes and of the buffers that are looked at again returns
  -- and ends no connection that has timed out in that round, the sockets that are opened are as above,
  -- and one of the rounds ends the loop. Then the scan returns, and no target is left in the set.
  -- Whatever the test, as many of the targets that pass it have been told to be finished during the
  -- scan, or have an open socket at its end, as were in the set at its start.
  pub do_async_scan-Counts :
      (answers : List Opened) (now : ℕ) (rounds : List (Round P)) (x : Scanner P S H F W)
      → Fresh c Good serves uninit fuel status save x.engine
      → Usable {P = P} answers []
      → c.nsockets ≤ launches answers
      → let e0 : Engine P S H F W = record (x.engine) { nlaunched = 0; ndone = 0 } in
        let start : Engine P S H F W → Scanner P S H F W = λ e. record x {
          engine = e;
          display = record (x.display) { last_time_status_display = 0 };
        } in
        ((f : Bool × Engine P S H F W)
          → process_free_socks c answers now e0 ≡ ret f
          → Ending c Good serves uninit fuel status save rounds (start f.1))
        → (y : Scanner P S H F W) × (do_async_scan c uninit fuel status save answers now rounds x
            ≡ ret y)
          × ((p : Target P → Bool)
              → (counts.left p y.engine.targets ≡ 0)
                × (counts.told p y.engine.targets + open_count p y.engine.sockets_targets
                    ≡ counts.told p x.engine.targets + counts.left p x.engine.targets))
  unfolding open_count
  do_async_scan-Counts answers now rounds x h usable enough ends =
      let (y, ran, sound, last) =
        do_async_scan-IsSound c Good serves uninit fuel status save answers now rounds x h usable
          enough ends in
      (
        y,
        ran,
        λ p.
            let d =
              of-OnRet (Done c serves counts p uninit fuel status save x)
                (do_async_scan c uninit fuel status save answers now rounds x)
                (do_async_scan-Done c serves counts p uninit fuel status save answers now rounds x h
                  usable enough ends)
                ran in
            let none_open : open_count p x.engine.sockets_targets ≡ 0 = ap (open_count p) h.socks in
            (d.1, omega (arith, d.0, d.1, none_open)),
      )
