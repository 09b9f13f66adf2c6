-- ===== src/Engine/Ending.antt =====
-- The end of a scan.
use nodescan.Prelude.{
  ℕ, suc, ◌≡◌, refl, true, false, some, none, List, [], ◌∷◌, Bool-cases, inl, inr, ret, arith,
  if◌then◌else◌,
}
use nodescan.Prelude.Maps
use nodescan.Prelude.Maps.{Ascends, assign-Ascends, find-insert_self, Ascends-mono}
use nodescan.Lvl4.{Lvl4Sm, should_process_buffer}
use nodescan.Target.{PortApi, Target, is_end}
use nodescan.TargetSet.{gives}
use nodescan.Engine.{Engine, Config, opened, host_sm, einprogress}
use nodescan.Engine.Handlers.{free_socks_loop, process_free_socks}
use nodescan.Engine.Scan.{
  Round, Scanner, process_events, process_dirty_and_timeouts, check_timeouts, scan_loop,
  has_timedout,
}
use nodescan.Engine.Launch.{launched, launch_target-launched}

module _ {P S H F W : Type 0} ⦃api : PortApi P⦄ (c : Config P S H F W) where
  pub check_timeouts-Ascends :
      (peer : ℕ → Target P) (ts b : ℕ) (sms : List (ℕ × Lvl4Sm F)) (w : W)
      → Ascends b sms
      → Ascends b (check_timeouts c peer ts sms w).sms
  unfolding check_timeouts
  check_timeouts-Ascends peer ts b [] w a = tt
  check_timeouts-Ascends peer ts b ((s, sm) ∷ sms) w a =
      let late = has_timedout c ts (peer s) w (should_process_buffer sm).1 in
      let rest =
        check_timeouts-Ascends peer ts (suc s) sms (if sm.machine.valid then late.1 else w) a.1 in
      elim (Bool-cases sm.machine.valid) [
        | inl valid ↦ ground (arith, valid, rest)
        | inr invalid ↦ ground (arith, invalid, rest)
      ]

  last_target :
      (now s n : ℕ) (e : Engine P S H F W) (t end : Target P) (x' x'' : S)
      → e.avail_socks ≡ suc (suc n)
      → c.target_set.next_target e.targets ≡ ret (gives t, x')
      → is_end t ≡ false
      → c.target_set.next_target x' ≡ ret (gives end, x'')
      → is_end end ≡ true
      → process_free_socks c (opened s einprogress ∷ []) now e
        ≡ ret (false, record (launched c s now t (record e { targets = x' })) { targets = x'' })
  unfolding process_free_socks free_socks_loop host_sm
  last_target now s n e t end x' x'' avail gives_t more gives_end ends =
      let step =
        launch_target-launched c s einprogress now t (record e { targets = x' }) (omega arith)
          refl in
      ground (arith, avail, gives_t, more, gives_end, ends, step)

  -- The end test counts the connections before the last sockets are opened. In a round without events
  -- that leaves no valid connection, in which the last target of the set is launched and the set's end
  -- is met: the scan returns, with the connection of that target still open and the target not done.
  pub scan_loop_unfinished :
      (uninit : ℕ → ℕ) (fuel : ℕ) (status : ℕ → ℕ → W → W) (save : List ℕ → S → W → W) (r : Round P)
      (rounds : List (Round P)) (x : Scanner P S H F W) (e1 : Engine P S H F W) (s n : ℕ)
      (t end : Target P) (x' x'' : S)
      → r.events ≡ []
      → r.answers ≡ opened s einprogress ∷ []
      → process_dirty_and_timeouts c fuel r.peer r.now x.engine ≡ ret (0, e1)
      → e1.avail_socks ≡ suc (suc n)
      → Maps.find s e1.sockets_targets ≡ none
      → c.target_set.next_target e1.targets ≡ ret (gives t, x')
      → is_end t ≡ false
      → c.target_set.next_target x' ≡ ret (gives end, x'')
      → is_end end ≡ true
      → (y : Scanner P S H F W) × (scan_loop c uninit fuel status save (r ∷ rounds) x ≡ ret y)
        × (Maps.find s y.engine.sockets_targets ≡ some t)
        × (y.engine.nlaunched ≡ suc e1.nlaunched)
        × (y.engine.ndone ≡ e1.ndone)
  unfolding scan_loop process_events host_sm
  scan_loop_unfinished uninit fuel status save r rounds x e1 s n t end x' x'' quiet answers
        none_valid avail fresh gives_t more gives_end ends =
      let l = launched c s r.now t (record e1 { targets = x' }) in
      let step = last_target r.now s n e1 t end x' x'' avail gives_t more gives_end ends in
      (
        record x { engine = record l { targets = x'' } },
        ground (arith, quiet, answers, none_valid, step),
        find-insert_self s t e1.sockets_targets fresh,
        omega arith,
        refl,
      )
