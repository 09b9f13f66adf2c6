-- ===== src/Engine/Ledger/Opening.antt =====
-- async_engine.cpp: the opening of new sockets, by the count of targets.
use nodescan.Prelude.{
  ℕ, zero, suc, ◌+◌, ◌≤◌, ◌≡◌, refl, ap, sym, subst, ◌∙◌, Bool, true, false, ◌||◌, none, List, [],
  ◌∷◌, ret, arith, if◌then◌else◌, ◌==◌, Bool-cases, inl, inr, OnRet, OnRet->>=, OnRet-mono,
  OnRet-if, of-OnRet,
}
use nodescan.Prelude.Maps
use nodescan.Target.{PortApi, Target, is_end}
use nodescan.TargetSet.{blocks}
use nodescan.Engine.{Engine, Config, Opened, no_socket, opened, host_sm, einprogress}
use nodescan.Engine.Sockets.{Created, create_socket, socket_finished}
use nodescan.Engine.Handlers.{launch_target, free_socks_loop, process_free_socks}
use nodescan.Engine.Accounts.{Serves}
use nodescan.Engine.Tracking.{IsSound}
use nodescan.Engine.Launch.{goes_on}
use nodescan.Engine.FreeSocks.{Usable, next_cases, stops, launches, goes, before, room, fewer}
use nodescan.Engine.Opening.{launch-IsSound, set_targets-IsSound}
use nodescan.Engine.Ledger.{one, open_count, open_count-insert, Counts, total}
use nodescan.Engine.Ledger.Sockets.{Keeps, Adds, create_socket-Adds, socket_finished-Keeps}

module _ {P S H F W : Type 0} ⦃api : PortApi P⦄ (c : Config P S H F W) {Good : S → Type 0}
    (counts : Counts c Good) (p : Target P → Bool) where
  -- A target more has a socket, or has had one.
  abbrev Launches : Target P → Engine P S H F W → Engine P S H F W → Type 0
  Launches t e e' = total c counts p e' ≡ one p t + total c counts p e

  Adds-Launches :
      (s : ℕ) (t : Target P) (e : Engine P S H F W) (r : Created × Engine P S H F W)
      → Maps.find s e.sockets_targets ≡ none
      → Adds c counts p s t e r
      → Launches t e r.1
  Adds-Launches s t e r fresh a = omega (
    arith,
    ap (counts.told p) a.0,
    ap (counts.left p) a.0,
    ap (open_count p) a.1,
    open_count-insert p s t e.sockets_targets fresh,
  )

  launch_target-Launches :
      (s errno now : ℕ) (t : Target P) (e : Engine P S H F W)
      → Maps.find s e.sockets_targets ≡ none
      → OnRet (λ r. Launches t e r.1) (launch_target c (opened s errno) t now e)
  unfolding launch_target host_sm
  launch_target-Launches s errno now t e fresh =
      let Q : Bool × Engine P S H F W → Type 0 = λ r. Launches t e r.1 in
      let e1 : Engine P S H F W = record e { nlaunched = e.nlaunched + 1 } in
      OnRet->>= (Adds c counts p s t e1) Q (create_socket c (opened s errno) t now e1) _
        (create_socket-Adds c counts p s errno now t e1)
        (λ r ran a.
          let added = Adds-Launches s t e1 r fresh a in
          OnRet-if Q (r.0.status == 0 || r.0.errno == einprogress) _ _ added (
            OnRet->>= (Keeps c counts p r.1) Q (socket_finished c r.0.s r.0.errno now r.1) _
              (socket_finished-Keeps c counts p r.0.s r.0.errno now r.1) (λ e2 ran2 k. k ∙ added)))

  blocked :
      (answers : List Opened) (i now : ℕ) (e : Engine P S H F W) (x' : S)
      → c.target_set.next_target e.targets ≡ ret (blocks, x')
      → free_socks_loop c answers (suc i) now e ≡ ret (true, record e { targets = x' })
  unfolding free_socks_loop
  blocked [] i now e x' eq = ground arith
  blocked (answer ∷ answers) i now e x' eq = ground arith

  module _ (serves : Serves c Good) (now : ℕ) where
    -- The count is kept, and at the end of the targets none is left.
    abbrev pub Gives : Engine P S H F W → Bool × Engine P S H F W → Type 0
    Gives e r = Keeps c counts p e r.1 × (r.0 ≡ false → counts.left p r.1.targets ≡ 0)

    free_socks_loop-Gives :
        (answers : List Opened) (i : ℕ) (e : Engine P S H F W)
        → IsSound c Good e
        → Usable answers e.sockets_targets
        → i ≤ e.avail_socks
        → i ≤ launches answers
        → OnRet (Gives e) (free_socks_loop c answers i now e)
    unfolding free_socks_loop
    free_socks_loop-Gives answers zero e h usable avail enough = (refl, λ over. cc)
    free_socks_loop-Gives [] (suc i) e h usable avail enough = absurd (omega arith)
    free_socks_loop-Gives (no_socket errno ∷ answers) (suc i) e h usable avail enough =
        absurd usable
    free_socks_loop-Gives (opened s errno ∷ answers) (suc i) e h usable avail enough =
        elim (next_cases c Good serves now e.targets h.good) [
          | inl (x', eq, good') ↦
              let kept = counts.would_block p e.targets x' h.good eq in
              subst (OnRet (Gives e)) (sym (blocked (opened s errno ∷ answers) i now e x' eq))
                (omega (arith, kept.0, kept.1), λ over. cc)
          | inr (t, x', eq, good') ↦ elim (Bool-cases (is_end t)) [
            | inl end ↦
                let kept = counts.ends p e.targets x' t h.good eq end in
                subst (OnRet (Gives e))
                  (sym (stops c Good serves now (opened s errno ∷ answers) i e t x' end eq))
                  (omega (arith, kept.0, kept.1, kept.2), λ over. kept.1)
            | inr more ↦
                let e0 : Engine P S H F W = record e { targets = x' } in
                let h0 = set_targets-IsSound c Good serves e x' h good' in
                let (e', l, h') =
                  launch-IsSound c Good serves s errno now t e0 h0
                    (before c Good serves now e.avail_socks i avail) usable.0 usable.1 in
                let added =
                  of-OnRet (λ r. Launches t e0 r.1) (launch_target c (opened s errno) t now e0)
                    (launch_target-Launches s errno now t e0 usable.1) l.returns in
                let taken = counts.gives_one p e.targets x' t h.good eq more in
                let kept : Keeps c counts p e e' = omega (arith, added, taken.0, taken.1) in
                subst (OnRet (Gives e))
                  (sym (
                    goes c Good serves now (opened s errno) answers i e e' t x' (goes_on errno) more
                      eq l.returns))
                  (OnRet-mono (Gives e') (Gives e)
                    (free_socks_loop c answers (if goes_on errno then i else suc i) now e')
                    (free_socks_loop-Gives answers (if goes_on errno then i else suc i) e' h'
                      (subst (Usable answers) (sym l.socks) (usable.2 t))
                      (room c Good serves now (goes_on errno) i e.avail_socks e'.avail_socks avail
                        l.avail)
                      (fewer c Good serves now (goes_on errno) i (launches answers) enough))
                    (λ r ran k. (k.0 ∙ kept, k.1)))
          ]
        ]

    pub process_free_socks-Gives :
        (answers : List Opened) (e : Engine P S H F W)
        → IsSound c Good e
        → Usable answers e.sockets_targets
        → e.avail_socks ≤ launches answers
        → OnRet (Gives e) (process_free_socks c answers now e)
    unfolding process_free_socks
    process_free_socks-Gives answers e h usable enough =
        free_socks_loop-Gives answers e.avail_socks e h usable (omega arith) enough
