-- ===== src/Engine/Twice.antt =====
-- `process_dirty_and_timeouts`, where a connection is in both of its lists.
use nodescan.Prelude.{
  ℕ, suc, ◌+◌, ◌≤◌, ◌≡◌, refl, ap, subst, ◌∙◌, Bool, true, false, some, none, List, [], ◌∷◌, ret,
  fault, arith, inl, inr, ◌⊎◌, Option-cases, if◌then◌else◌, OnRet, OnRet->>=, OnRet-deref, OnRet-if,
  OnRet-any, of-OnRet,
}
use nodescan.Prelude.Maps
use nodescan.Prelude.Maps.{find-erase-none, find-erase_self, Ascends}
use nodescan.Lvl4.{Lvl4Sm}
use nodescan.Lvl4.Process.{process_buffer}
use nodescan.Target.{PortApi, Target}
use nodescan.Engine.{Engine, Config, host_sm, put_host, put_lvl4, target_from_socket, ns_timeout}
use nodescan.Engine.Sockets.{socket_finished, finish_socket, free_socket}
use nodescan.Engine.Scan.{
  process_dirty, finish_all, process_dirty_and_timeouts, check_timeouts, timeout_of_target,
}
use nodescan.Engine.Accounts.{Serves}
use nodescan.Engine.Ending.{check_timeouts-Ascends}
use nodescan.Engine.Tracking.{IsSound, rewritten-IsSound}
use nodescan.Engine.Timeouts.{
  Rising, Rising-apart, Listed, find_of_Listed, keys-check_timeouts, check_timeouts-dirty,
  check_timeouts-Listed,
}
use nodescan.Engine.Expiry.{Present, BuffersFit, checked, dirty_step, process_dirty-IsSound}

module _ {P S H F W : Type 0} ⦃api : PortApi P⦄ (c : Config P S H F W) where
  -- A socket has no target.
  abbrev Gone : ℕ → Engine P S H F W → Type 0
  Gone s e = Maps.find s e.sockets_targets ≡ none

  socket_finished-Gone :
      (s i err now : ℕ) (e : Engine P S H F W)
      → Gone s e
      → OnRet (Gone s) (socket_finished c i err now e)
  unfolding socket_finished finish_socket free_socket target_from_socket host_sm
  socket_finished-Gone s i err now e gone =
      OnRet-deref (Gone s) (Maps.find i e.sockets_targets) _
        (λ t has. find-erase-none i s e.sockets_targets gone)

  process_dirty-Gone :
      (s fuel now : ℕ) (ss : List ℕ) (e : Engine P S H F W)
      → Gone s e
      → OnRet (Gone s) (process_dirty c fuel now ss e)
  unfolding process_dirty target_from_socket host_sm
  process_dirty-Gone s fuel now [] e gone = gone
  process_dirty-Gone s fuel now (i ∷ ss) e gone =
      OnRet-deref (Gone s) (Maps.find i e.sockets_targets) _ (λ t has.
        OnRet-deref (Gone s) (Maps.find i e.lvl4_sms) _ (λ sm found.
          let x : H × Engine P S H F W = host_sm c t.ipv4 e in
          let after : Bool × (W × H) × Lvl4Sm F → Engine P S H F W =
            λ r. record (put_host t.ipv4 (r.1.1) (put_lvl4 i r.2 x.1)) { world = r.1.0 } in
          OnRet->>= (λ r. Unit {0}) (Gone s) (process_buffer c.act fuel t (x.1.world, x.0) sm) _
            (OnRet-any (process_buffer c.act fuel t (x.1.world, x.0) sm))
            (λ r ran u.
              OnRet->>= (Gone s) (Gone s)
                (if r.0 then ret (after r) else socket_finished c i 0 now (after r))
                (process_dirty c fuel now ss)
                (OnRet-if (Gone s) r.0 (ret (after r)) (socket_finished c i 0 now (after r)) gone
                  (socket_finished-Gone s i 0 now (after r) gone))
                (λ e1 ran1 gone1. process_dirty-Gone s fuel now ss e1 gone1))))

  -- A socket that is gone cannot be finished again.
  finish_all-fault :
      (s now : ℕ) (ss : List ℕ) (e : Engine P S H F W)
      → Listed s ss
      → Gone s e
      → finish_all c now ss e ≡ fault
  unfolding finish_all socket_finished finish_socket free_socket target_from_socket host_sm
  finish_all-fault s now [] e l gone = absurd l
  finish_all-fault s now (i ∷ ss) e (inl at) gone =
      let none_there : Maps.find i e.sockets_targets ≡ none =
        ap (λ k. Maps.find k e.sockets_targets) at ∙ gone in
      rw none_there refl
  finish_all-fault s now (i ∷ ss) e (inr l) gone =
      elim (Option-cases (Maps.find i e.sockets_targets)) [
        | inl unknown ↦ rw unknown refl
        | inr (t, has) ↦ rw has (
            finish_all-fault s now ss
              (finish_socket c i ns_timeout now (record e { ndone = e.ndone + 1 }) t) l
              (find-erase-none i s e.sockets_targets gone))
      ]

  module _ (fuel now : ℕ) where
    -- The handling of what is left in the buffer of a socket ends the connection.
    abbrev pub BufferEnds : ℕ → Engine P S H F W → Type 0
    BufferEnds s e =
        (t : Target P) (sm : Lvl4Sm F)
        → Maps.find s e.sockets_targets ≡ some t
        → Maps.find s e.lvl4_sms ≡ some sm
        → (x : W × H) × (sm' : Lvl4Sm F) × (process_buffer c.act fuel t
              (e.world, (host_sm c t.ipv4 e).0) sm
            ≡ ret (false, x, sm'))

    -- It does so when its turn comes, on the engine that those before it leave.
    abbrev pub EndsInTurn : ℕ → List ℕ → Engine P S H F W → Type 0
    EndsInTurn s [] e = ⊥
    EndsInTurn s (i ∷ ss) e =
        ((i ≡ s) × BufferEnds i e)
        ⊎ ((e' : Engine P S H F W)
            → process_dirty c fuel now (i ∷ []) e ≡ ret e'
            → EndsInTurn s ss e')

    dirty-Gone :
        (s : ℕ) (e : Engine P S H F W)
        → Ascends 1 e.sockets_targets
        → BufferEnds s e
        → OnRet (Gone s) (process_dirty c fuel now (s ∷ []) e)
    unfolding process_dirty socket_finished finish_socket free_socket target_from_socket host_sm
    dirty-Gone s e up ends = OnRet-deref (Gone s) (Maps.find s e.sockets_targets) _ (λ t has.
        OnRet-deref (Gone s) (Maps.find s e.lvl4_sms) _ (λ sm found.
          let (x, sm', ran) = ends t sm has found in
          rw (ran, has) (find-erase_self s 1 e.sockets_targets up)))

  module _ (Good : S → Type 0) (serves : Serves c Good) (fuel now : ℕ) where
    process_dirty_ends :
        (s b : ℕ) (ss : List ℕ) (e : Engine P S H F W)
        → IsSound c Good e
        → Rising b ss
        → Present c Good serves ss e
        → BuffersFit c Good serves fuel now ss e
        → EndsInTurn fuel now s ss e
        → (e' : Engine P S H F W) × (process_dirty c fuel now ss e ≡ ret e') × Gone s e'
    unfolding process_dirty
    process_dirty_ends s b [] e h up here fit ends = absurd ends
    process_dirty_ends s b (i ∷ ss) e h up here fit ends =
        let (t, has) = here i (inl refl) in
        let (e1, step, h1, others) = dirty_step c Good serves fuel now i e t h has fit.0 in
        let there : Present c Good serves ss e1 = λ j l.
          let (x, found) = here j (inr l) in
          (x, others j (λ eq. Rising-apart (suc i) j ss (omega (arith, eq)) up.1 l) ∙ found) in
        let once : process_dirty c fuel now (i ∷ []) e ≡ ret e1 = step [] in
        elim ends [
          | inl (at, ending) ↦
              let gone =
                of-OnRet (Gone i) (process_dirty c fuel now (i ∷ []) e)
                  (dirty-Gone fuel now i e h.accounted.socks ending) once in
              let (e2, rest, h2) =
                process_dirty-IsSound c Good serves fuel now (suc i) ss e1 h1 up.1 there
                  (fit.1 e1 once) in
              (
                e2,
                step ss ∙ rest,
                of-OnRet (Gone s) (process_dirty c fuel now ss e1)
                    (process_dirty-Gone s fuel now ss e1 (subst (λ k. Gone k e1) at gone)) rest,
              )
          | inr later ↦
              let (e2, rest, gone) =
                process_dirty_ends s (suc i) ss e1 h1 up.1 there (fit.1 e1 once) (later e1 once) in
              (e2, step ss ∙ rest, gone)
        ]

    -- On a sound engine where the handling of the buffers that are looked at again returns: a valid
    -- connection that has been idle for the time of its target, and that the handling of what is left
    -- in its buffer ends when its turn comes, whatever other connections there are. Its socket is finished
    -- twice, and the second time the assertion on its target fails: `process_dirty_and_timeouts` faults.
    pub process_dirty_and_timeouts-fault :
        (s : ℕ) (peer : ℕ → Target P) (e : Engine P S H F W) (sm : Lvl4Sm F)
        → IsSound c Good e
        → Maps.find s e.lvl4_sms ≡ some sm
        → sm.machine.valid ≡ true
        → sm.machine.ts + timeout_of_target c (peer s) ≤ now
        → let to_process = (check_timeouts c peer now e.lvl4_sms e.world).to_process in
          let e0 = checked c Good serves peer now e in
          BuffersFit c Good serves fuel now to_process e0
          → EndsInTurn fuel now s to_process e0
          → process_dirty_and_timeouts c fuel peer now e ≡ fault
    unfolding process_dirty_and_timeouts
    process_dirty_and_timeouts-fault s peer e sm h found valid idle fit ends =
        let k = check_timeouts c peer now e.lvl4_sms e.world in
        let e0 = checked c Good serves peer now e in
        let h0 =
          rewritten-IsSound c k.sms e.hosts_sms k.world e h
            (check_timeouts-Ascends c peer now 1 e.lvl4_sms e.world h.accounted.sms)
            (keys-check_timeouts c peer now e.lvl4_sms e.world) in
        let (up, from) = check_timeouts-dirty c peer now 1 e.lvl4_sms e.world h.accounted.sms in
        let here : Present c Good serves k.to_process e0 =
          λ i l. find_of_Listed i e.sockets_targets (subst (Listed i) h.tracked.sms (from i l)) in
        let (e1, ran, gone) = process_dirty_ends s 1 k.to_process e0 h0 up here fit ends in
        let twice =
          finish_all-fault s now k.timeouted e1
            (check_timeouts-Listed c peer now s sm e.lvl4_sms e.world found valid idle) gone in
        ground (arith, ran, twice)
