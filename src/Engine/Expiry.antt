-- ===== src/Engine/Expiry.antt =====
-- `process_dirty_and_timeouts` on a sound engine.
use nodescan.Prelude.{
  ℕ, suc, ◌+◌, ◌≤◌, ◌≡◌, ◌≢◌, refl, ap, sym, subst, ◌∙◌, Bool, true, some, none, List, [], ◌∷◌,
  length, ret, ◌>>=◌, arith, Bool-cases, inl, inr,
}
use nodescan.Prelude.Maps
use nodescan.Prelude.Maps.{Ascends, assign-Ascends, find-erase_ne, find-erase-none}
use nodescan.Prelude.Maps.Keys.{keys-assign, find-keys}
use nodescan.Lvl4.{Lvl4Sm}
use nodescan.Lvl4.Process.{process_buffer}
use nodescan.Target.{PortApi, Target}
use nodescan.Engine.{Engine, Config, host_sm, put_host, put_lvl4, target_from_socket, ns_timeout}
use nodescan.Engine.Scan.{
  process_dirty, finish_all, process_dirty_and_timeouts, check_timeouts, timeout_of_target,
}
use nodescan.Engine.Accounts.{Serves}
use nodescan.Engine.Ending.{check_timeouts-Ascends}
use nodescan.Engine.Tracking.{IsSound, socket_finished-IsSound, rewritten-IsSound}
use nodescan.Engine.Timeouts.Verdicts.{
  valid_count, TimedOut, check_timeouts-counted, check_timeouts-late, check_timeouts-all_late,
}
use nodescan.Engine.Timeouts.{
  Rising, Listed, Rising-apart, find_of_Listed, keys-check_timeouts, check_timeouts-dirty,
  check_timeouts-Rising, check_timeouts-Listed,
}

module _ {P S H F W : Type 0} ⦃api : PortApi P⦄ (c : Config P S H F W) (Good : S → Type 0)
    (serves : Serves c Good) where
  -- Each socket of a list has a target.
  abbrev pub Present : List ℕ → Engine P S H F W → Type 0
  Present ss e = (i : ℕ) → Listed i ss → (t : Target P) × (Maps.find i e.sockets_targets ≡ some t)

  module _ (fuel now : ℕ) where
    -- What is left in the buffer of a socket is handled: the loop over it returns.
    abbrev pub BufferFits : ℕ → Engine P S H F W → Type 0
    BufferFits s e =
        (t : Target P) (sm : Lvl4Sm F)
        → Maps.find s e.sockets_targets ≡ some t
        → Maps.find s e.lvl4_sms ≡ some sm
        → (r : Bool × (W × H) × Lvl4Sm F) × (process_buffer c.act fuel t
              (e.world, (host_sm c t.ipv4 e).0) sm
            ≡ ret r)

    -- Each buffer is handled, on the engine that those before it leave.
    abbrev pub BuffersFit : List ℕ → Engine P S H F W → Type 0
    BuffersFit [] e = Unit {0}
    BuffersFit (s ∷ ss) e =
        BufferFits s e
        × ((e' : Engine P S H F W)
            → process_dirty c fuel now (s ∷ []) e ≡ ret e'
            → BuffersFit ss e')

    pub dirty_step :
        (s : ℕ) (e : Engine P S H F W) (t : Target P)
        → IsSound c Good e
        → Maps.find s e.sockets_targets ≡ some t
        → BufferFits s e
        → (e' : Engine P S H F W) × ((rest : List ℕ)
            → process_dirty c fuel now (s ∷ rest) e ≡ process_dirty c fuel now rest e')
          × IsSound c Good e'
          × ((i : ℕ) → i ≢ s → Maps.find i e'.sockets_targets ≡ Maps.find i e.sockets_targets)
    unfolding process_dirty target_from_socket host_sm
    dirty_step s e t h has fits =
        let (sm, found) = find-keys s t e.sockets_targets e.lvl4_sms (sym h.tracked.sms) has in
        let ((go, x, sm'), ran) = fits t sm has found in
        let e2 : Engine P S H F W =
          record (put_host t.ipv4 (x.1) (put_lvl4 s sm' (host_sm c t.ipv4 e).1)) { world = x.0 } in
        let s2 =
          rewritten-IsSound c (Maps.assign s sm' e.lvl4_sms) e2.hosts_sms x.0 e h
            (assign-Ascends s sm' 1 e.lvl4_sms h.accounted.sms) (keys-assign s sm' e.lvl4_sms) in
        let (f, ended, sound) =
          socket_finished-IsSound c s t e2 s2.accounted has Good serves 0 now s2.tracked s2.good in
        elim (Bool-cases go) [
          | inl goes ↦ (e2, λ rest. ground (arith, has, found, ran, goes), s2, λ i ne. refl)
          | inr ends ↦ (
            f,
            λ rest. ground (arith, has, found, ran, ends, ended.returns),
            sound,
            λ i ne. ap (Maps.find i) ended.socks ∙ find-erase_ne s i e.sockets_targets ne,
          )
        ]

    pub process_dirty-IsSound :
        (b : ℕ) (ss : List ℕ) (e : Engine P S H F W)
        → IsSound c Good e
        → Rising b ss
        → Present ss e
        → BuffersFit ss e
        → (e' : Engine P S H F W) × (process_dirty c fuel now ss e ≡ ret e') × IsSound c Good e'
    unfolding process_dirty
    process_dirty-IsSound b [] e h up here fit = (e, refl, h)
    process_dirty-IsSound b (s ∷ ss) e h up here fit =
        let (t, has) = here s (inl refl) in
        let (e1, step, h1, others) = dirty_step s e t h has fit.0 in
        let there : Present ss e1 = λ i l.
          let (x, found) = here i (inr l) in
          (x, others i (λ eq. Rising-apart (suc s) i ss (omega (arith, eq)) up.1 l) ∙ found) in
        let (e2, rest, h2) =
          process_dirty-IsSound (suc s) ss e1 h1 up.1 there (fit.1 e1 (step [])) in
        (e2, step ss ∙ rest, h2)

  -- What `finish_all` leaves.
  pub record FinishedAll (now : ℕ) (ss : List ℕ) (e e' : Engine P S H F W) : Type 0 where
    pub returns : finish_all c now ss e ≡ ret e'
    pub sound : IsSound c Good e'
    pub gone : (i : ℕ) → Listed i ss → Maps.find i e'.sockets_targets ≡ none
    pub stays :
        (i : ℕ) → Maps.find i e.sockets_targets ≡ none → Maps.find i e'.sockets_targets ≡ none

  pub finish_all-IsSound :
      (now b : ℕ) (ss : List ℕ) (e : Engine P S H F W)
      → IsSound c Good e
      → Rising b ss
      → Present ss e
      → (e' : Engine P S H F W) × FinishedAll now ss e e'
  unfolding finish_all
  finish_all-IsSound now b [] e h up here =
      (e, record { returns = refl; sound = h; gone = λ i l. absurd l; stays = λ i n. n })
  finish_all-IsSound now b (s ∷ ss) e h up here =
      let (t, has) = here s (inl refl) in
      let (e1, ended, h1) =
        socket_finished-IsSound c s t e h.accounted has Good serves ns_timeout now h.tracked
          h.good in
      let there : Present ss e1 = λ i l.
        let (x, found) = here i (inr l) in
        (
          x,
          ap (Maps.find i) ended.socks
              ∙ find-erase_ne s i e.sockets_targets
                  (λ eq. Rising-apart (suc s) i ss (omega (arith, eq)) up.1 l)
              ∙ found,
        ) in
      let (e2, f) = finish_all-IsSound now (suc s) ss e1 h1 up.1 there in
      (
        e2,
        record {
          returns = ap (λ m. m >>= finish_all c now ss) ended.returns ∙ f.returns;
          sound = f.sound;
          gone = λ i l. elim l [
            | inl at ↦
                f.stays i (subst (λ k. Maps.find k e1.sockets_targets ≡ none) at ended.no_target)
            | inr r ↦ f.gone i r
          ];
          stays = λ i n.
              f.stays i (ap (Maps.find i) ended.socks ∙ find-erase-none s i e.sockets_targets n);
        },
      )

  -- The engine after the first loop of `process_dirty_and_timeouts`.
  abbrev pub checked : (ℕ → Target P) → ℕ → Engine P S H F W → Engine P S H F W
  checked peer ts e =
      let k = check_timeouts c peer ts e.lvl4_sms e.world in
      record e { lvl4_sms = k.sms; world = k.world }

  -- What `process_dirty_and_timeouts` needs of an engine: the handling of the buffers that are looked
  -- at again returns, and it ends no connection that has timed out.
  pub record Expires (fuel : ℕ) (peer : ℕ → Target P) (ts : ℕ) (e : Engine P S H F W) : Type 0 where
    pub fit :
        BuffersFit fuel ts
          (check_timeouts c peer ts e.lvl4_sms e.world).to_process
          (checked peer ts e)
    pub still_open :
        (e1 : Engine P S H F W)
        → process_dirty c fuel ts
            (check_timeouts c peer ts e.lvl4_sms e.world).to_process
            (checked peer ts e)
          ≡ ret e1
        → Present (check_timeouts c peer ts e.lvl4_sms e.world).timeouted e1

  -- What `process_dirty_and_timeouts` does, which returns `n` and an engine, with the list of
  -- the connections that have timed out.
  pub record Expired (fuel : ℕ) (peer : ℕ → Target P) (ts : ℕ) (e : Engine P S H F W) (n : ℕ)
      (e' : Engine P S H F W) (late : List ℕ) : Type 0 where
    pub returns : process_dirty_and_timeouts c fuel peer ts e ≡ ret (n, e')
    pub sound : IsSound c Good e'
    pub rising : Rising 1 late
    pub counted : n + length late ≡ valid_count e.lvl4_sms
    pub timed_out :
        (s : ℕ)
        → Listed s late
        → (sm : Lvl4Sm F) × (Maps.find s e.lvl4_sms ≡ some sm)
          × (sm.machine.valid ≡ true)
          × TimedOut c ts (peer s) sm
          × (Maps.find s e'.sockets_targets ≡ none)
    pub over :
        (s : ℕ) (sm : Lvl4Sm F)
        → Maps.find s e.lvl4_sms ≡ some sm
        → sm.machine.valid ≡ true
        → sm.machine.ts + timeout_of_target c (peer s) ≤ ts
        → Listed s late
    pub none_in_time :
        (s : ℕ) (sm : Lvl4Sm F)
        → n ≡ 0
        → Maps.find s e.lvl4_sms ≡ some sm
        → sm.machine.valid ≡ true
        → TimedOut c ts (peer s) sm

  -- On a sound engine where the handling of the buffers that are looked at again returns and ends no
  -- connection that has timed out, with a target set that stays in states from which `next_target`
  -- returns, `process_dirty_and_timeouts` returns, with a sound engine. There is a list of sockets, none
  -- of them twice, that have left the engine: each was a valid connection that had been idle for the
  -- time of its target, or that its watch, which was due, ended. Every valid connection that had been
  -- idle for that time is in the list, and the number that is returned is that of the valid connections
  -- less those of the list. If it is 0, every valid connection had timed out in one of the two ways.
  pub process_dirty_and_timeouts-IsSound :
      (fuel : ℕ) (peer : ℕ → Target P) (ts : ℕ) (e : Engine P S H F W)
      → IsSound c Good e
      → Expires fuel peer ts e
      → (n : ℕ) × (e' : Engine P S H F W) × (late : List ℕ) × Expired fuel peer ts e n e' late
  unfolding process_dirty_and_timeouts
  process_dirty_and_timeouts-IsSound fuel peer ts e h x =
      let k = check_timeouts c peer ts e.lvl4_sms e.world in
      let same = keys-check_timeouts c peer ts e.lvl4_sms e.world in
      let h0 =
        rewritten-IsSound c k.sms e.hosts_sms k.world e h
          (check_timeouts-Ascends c peer ts 1 e.lvl4_sms e.world h.accounted.sms) same in
      let (up, from) = check_timeouts-dirty c peer ts 1 e.lvl4_sms e.world h.accounted.sms in
      let here : Present k.to_process (checked peer ts e) =
        λ i l. find_of_Listed i e.sockets_targets (subst (Listed i) h.tracked.sms (from i l)) in
      let (e1, ran, h1) =
        process_dirty-IsSound fuel ts 1 k.to_process (checked peer ts e) h0 up here x.fit in
      let rising = check_timeouts-Rising c peer ts 1 e.lvl4_sms e.world h.accounted.sms in
      let (e2, f) = finish_all-IsSound ts 1 k.timeouted e1 h1 rising (x.still_open e1 ran) in
      (
        k.n_valid,
        e2,
        k.timeouted,
        record {
          returns = ground (arith, ran, f.returns);
          sound = f.sound;
          rising = rising;
          counted = check_timeouts-counted c peer ts e.lvl4_sms e.world;
          timed_out = λ s l.
              let (sm, found, valid, out) =
                check_timeouts-late c peer ts 1 s e.lvl4_sms e.world h.accounted.sms l in
              (sm, found, valid, out, f.gone s l);
          over = λ s sm found valid idle.
              check_timeouts-Listed c peer ts s sm e.lvl4_sms e.world found valid idle;
          none_in_time = λ s sm zero found valid.
              check_timeouts-all_late c peer ts s sm e.lvl4_sms e.world zero found valid;
        },
      )
