-- ===== src/Engine/Round.antt =====
-- A round of the scan of async_engine.cpp, on a sound engine, and what a last round has met.
use nodescan.Prelude.{
  some, ret_injective, of-OnRet, ℕ, ◌≤◌, ◌≡◌, refl, ap, ◌∙◌, Bool, true, false, not, List, [], ◌∷◌,
  length, Exec, ret, ◌>>=◌, arith, >>=-eq-ret, Bool-cases, subst, sym,
}
use nodescan.Prelude.Maps
use nodescan.Prelude.Maps.{Ascends}
use nodescan.Target.{PortApi}
use nodescan.Engine.{Engine, Config}
use nodescan.Engine.Handlers.{process_free_socks}
use nodescan.Engine.FreeSocks.{Usable, launches}
use nodescan.Engine.Scan.{Event, Round, process_events, process_dirty_and_timeouts, scan_ends}
use nodescan.Engine.Accounts.{Serves}
use nodescan.Engine.Tracking.{IsSound}
use nodescan.Engine.Opening.{process_free_socks-IsSound}
use nodescan.Engine.Rounds.{AllFit, process_events-IsSound}
use nodescan.Engine.Finish.{MetEnd, process_free_socks-MetEnd}
use nodescan.Engine.Timeouts.Verdicts.{TimedOut}
use nodescan.Lvl4.{Lvl4Sm}
use nodescan.Engine.Expiry.{Expires, process_dirty_and_timeouts-IsSound}

module _ {P S H F W : Type 0} ⦃api : PortApi P⦄ (c : Config P S H F W) (Good : S → Type 0)
    (serves : Serves c Good) where
  module _ (uninit : ℕ → ℕ) (fuel : ℕ) where
    -- One round, with the end test of the loop.
    abbrev pub round : Round P → Engine P S H F W → Exec (Bool × Engine P S H F W)
    round r e = process_events c uninit fuel r.now r.events e >>= λ e1.
        process_dirty_and_timeouts c fuel r.peer r.now e1 >>= λ n.
        process_free_socks c r.answers r.now n.1 >>= λ f.
        ret (scan_ends (length r.events) n.0 (not f.0), f.1)

    -- What the system answers in a round fits the engine: the events, the buffers, the new sockets.
    pub record RoundFits (r : Round P) (e : Engine P S H F W) : Type 0 where
      pub events : AllFit c Good serves uninit fuel r.now r.events e
      pub buffers :
          (e1 : Engine P S H F W)
          → process_events c uninit fuel r.now r.events e ≡ ret e1
          → Expires c Good serves fuel r.peer r.now e1
      pub sockets :
          (e1 e2 : Engine P S H F W) (n : ℕ)
          → process_events c uninit fuel r.now r.events e ≡ ret e1
          → process_dirty_and_timeouts c fuel r.peer r.now e1 ≡ ret (n, e2)
          → Usable r.answers e2.sockets_targets × (e2.avail_socks ≤ launches r.answers)

    pub round-IsSound :
        (r : Round P) (e : Engine P S H F W)
        → IsSound c Good e
        → RoundFits r e
        → (x : Bool × Engine P S H F W) × (round r e ≡ ret x) × IsSound c Good x.1
    round-IsSound r e h fits =
        let (e1, ran1, h1) =
          process_events-IsSound c Good serves uninit fuel r.now r.events e h fits.events in
        let (n, e2, late, f) =
          process_dirty_and_timeouts-IsSound c Good serves fuel r.peer r.now e1 h1
            (fits.buffers e1 ran1) in
        let (usable, enough) = fits.sockets e1 e2 n ran1 f.returns in
        let (g, ran3, h3) =
          process_free_socks-IsSound c Good serves r.now r.answers e2 f.sound usable enough in
        ((scan_ends (length r.events) n (not g.0), g.1), ground (arith, ran1, f.returns, ran3), h3)

    no_events : (events : List Event) → length events ≡ 0 → events ≡ []
    no_events [] none_came = refl
    no_events (ev ∷ events) none_came = absurd (omega arith)

    ends_if : (k n : ℕ) (f : Bool) → scan_ends k n (not f) ≡ true → (k ≡ 0) × (n ≡ 0) × (f ≡ false)
    ends_if k n f over = ground (arith, Bool-cases f)

    -- What a round in which the loop ends has met: no event, no valid connection in time, and the end
    -- of the targets.
    pub record Last (r : Round P) (e e' : Engine P S H F W) : Type 0 where
      pub sound : IsSound c Good e
      pub ran : round r e ≡ ret (true, e')
      pub quiet : r.events ≡ []
      pub timed_out :
          (s : ℕ) (sm : Lvl4Sm F)
          → Maps.find s e.lvl4_sms ≡ some sm
          → sm.machine.valid ≡ true
          → TimedOut c r.now (r.peer s) sm
      pub at_end : MetEnd c e'.targets

    pub round-Last :
        (r : Round P) (e e' : Engine P S H F W)
        → IsSound c Good e
        → RoundFits r e
        → round r e ≡ ret (true, e')
        → Last r e e'
    unfolding process_events
    round-Last r e e' h fits ran =
        let (e1, ran1, next1) =
          >>=-eq-ret (process_events c uninit fuel r.now r.events e)
            (λ e1. process_dirty_and_timeouts c fuel r.peer r.now e1 >>= λ n.
              process_free_socks c r.answers r.now n.1 >>= λ f.
              ret (scan_ends (length r.events) n.0 (not f.0), f.1))
            ran in
        let (n, ran2, next2) =
          >>=-eq-ret (process_dirty_and_timeouts c fuel r.peer r.now e1)
            (λ n. process_free_socks c r.answers r.now n.1 >>= λ f.
              ret (scan_ends (length r.events) n.0 (not f.0), f.1))
            next1 in
        let (f, ran3, both) =
          >>=-eq-ret (process_free_socks c r.answers r.now n.1)
            (λ f. ret (scan_ends (length r.events) n.0 (not f.0), f.1)) next2 in
        let last = ret_injective both in
        let over : scan_ends (length r.events) n.0 (not f.0) ≡ true = ap (λ q. q.0) last in
        let left : f.1 ≡ e' = ap (λ q. q.1) last in
        let (none_came, none_valid, at_end) = ends_if (length r.events) n.0 f.0 over in
        let quiet = no_events r.events none_came in
        let unmoved : ret e ≡ ret e1 =
          ap (λ evs. process_events c uninit fuel r.now evs e) (sym quiet) ∙ ran1 in
        let same : e1 ≡ e = sym (ret_injective unmoved) in
        let x = subst (Expires c Good serves fuel r.peer r.now) same (fits.buffers e1 ran1) in
        let (m, e2, late, g) =
          process_dirty_and_timeouts-IsSound c Good serves fuel r.peer r.now e h x in
        let twice : ret (m, e2) ≡ ret n =
          sym g.returns ∙ ap (process_dirty_and_timeouts c fuel r.peer r.now) (sym same) ∙ ran2 in
        let counted : m ≡ n.0 = ap (λ q. q.0) (ret_injective twice) in
        record {
          sound = h;
          ran = ran;
          quiet = quiet;
          timed_out = λ s sm found valid. g.none_in_time s sm (counted ∙ none_valid) found valid;
          at_end =
              subst (λ y. MetEnd c y.targets) left
                (of-OnRet (λ k. k.0 ≡ false → MetEnd c k.1.targets)
                  (process_free_socks c r.answers r.now n.1)
                  (process_free_socks-MetEnd c r.answers r.now n.1) ran3 at_end);
        }
