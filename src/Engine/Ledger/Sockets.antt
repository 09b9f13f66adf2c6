-- ===== src/Engine/Ledger/Sockets.antt =====
-- async_engine.cpp: the end of sockets, and the loops that end them, by the count of targets.
use nodescan.Prelude.{
  true, false, ℕ, ◌≡◌, refl, ◌∙◌, Bool, List, [], ◌∷◌, ret, fault, ap, ltb, arith, if◌then◌else◌,
  OnRet, OnRet->>=, OnRet-mono, OnRet-deref, OnRet-if, OnRet-any,
}
use nodescan.Prelude.Maps
use nodescan.Lvl4.{Lvl4Sm}
use nodescan.Lvl4.Process.{process_buffer}
use nodescan.Target.{PortApi, Target}
use nodescan.Engine.{
  Engine, Config, opened, host_sm, put_host, put_lvl4, target_from_socket, ns_timeout,
}
use nodescan.Engine.Sockets.{Created, create_socket, socket_finished, finish_socket, free_socket}
use nodescan.Engine.Scan.{process_dirty, finish_all, process_dirty_and_timeouts, check_timeouts}
use nodescan.Engine.Ledger.{open_count, open_count-erase, Counts, total}

module _ {P S H F W : Type 0} ⦃api : PortApi P⦄ (c : Config P S H F W) {Good : S → Type 0}
    (counts : Counts c Good) (p : Target P → Bool) where
  -- No target is lost, and none counted twice.
  abbrev pub Keeps : Engine P S H F W → Engine P S H F W → Type 0
  Keeps e e' = total c counts p e' ≡ total c counts p e

  -- The end of a socket: its target goes over to those that are finished.
  pub socket_finished-Keeps :
      (s err now : ℕ) (e : Engine P S H F W) → OnRet (Keeps e) (socket_finished c s err now e)
  unfolding socket_finished finish_socket free_socket target_from_socket host_sm
  socket_finished-Keeps s err now e =
      OnRet-deref (Keeps e) (Maps.find s e.sockets_targets) _ (λ t has.
        let told = counts.tells p t (host_sm c t.ipv4 e).0 e.targets in
        omega (arith, open_count-erase p s t e.sockets_targets has, told.0, told.1))

  pub same-Keeps :
      (e e' : Engine P S H F W)
      → e'.targets ≡ e.targets
      → e'.sockets_targets ≡ e.sockets_targets
      → Keeps e e'
  same-Keeps e e' set socks =
      omega (arith, ap (counts.told p) set, ap (counts.left p) set, ap (open_count p) socks)

  pub if_Keeps :
      (b : Bool) (e x y : Engine P S H F W) → Keeps e x → Keeps e y → Keeps e (if b then x else y)
  if_Keeps true e x y h g = h
  if_Keeps false e x y h g = g

  -- A new socket is entered with its target; the target set stays.
  abbrev pub Adds : ℕ → Target P → Engine P S H F W → Created × Engine P S H F W → Type 0
  Adds s t e r =
      (r.1.targets ≡ e.targets)
      × (r.1.sockets_targets ≡ Maps.insert s t e.sockets_targets)
      × (r.0.s ≡ s)

  pub create_socket-Adds :
      (s errno now : ℕ) (t : Target P) (e : Engine P S H F W)
      → OnRet (Adds s t e) (create_socket c (opened s errno) t now e)
  unfolding create_socket
  create_socket-Adds s errno now t e =
      OnRet-if (Adds s t e) (ltb 0 e.avail_socks) _ fault (refl, refl, refl) tt

  pub process_dirty-Keeps :
      (fuel now : ℕ) (ss : List ℕ) (e : Engine P S H F W)
      → OnRet (Keeps e) (process_dirty c fuel now ss e)
  unfolding process_dirty target_from_socket host_sm
  process_dirty-Keeps fuel now [] e = refl
  process_dirty-Keeps fuel now (s ∷ ss) e =
      OnRet-deref (Keeps e) (Maps.find s e.sockets_targets) _ (λ t has.
        OnRet-deref (Keeps e) (Maps.find s e.lvl4_sms) _ (λ sm found.
          let x : H × Engine P S H F W = host_sm c t.ipv4 e in
          let after : Bool × (W × H) × Lvl4Sm F → Engine P S H F W =
            λ r. record (put_host t.ipv4 (r.1.1) (put_lvl4 s r.2 x.1)) { world = r.1.0 } in
          OnRet->>= (λ r. Unit {0}) (Keeps e) (process_buffer c.act fuel t (x.1.world, x.0) sm) _
            (OnRet-any (process_buffer c.act fuel t (x.1.world, x.0) sm))
            (λ r ran u.
              OnRet->>= (Keeps e) (Keeps e)
                (if r.0 then ret (after r) else socket_finished c s 0 now (after r))
                (process_dirty c fuel now ss)
                (OnRet-if (Keeps e) r.0 (ret (after r)) (socket_finished c s 0 now (after r)) refl
                  (socket_finished-Keeps s 0 now (after r)))
                (λ e1 ran1 k.
                  OnRet-mono (Keeps e1) (Keeps e) (process_dirty c fuel now ss e1)
                    (process_dirty-Keeps fuel now ss e1) (λ e2 r2 k'. k' ∙ k)))))

  pub finish_all-Keeps :
      (now : ℕ) (ss : List ℕ) (e : Engine P S H F W) → OnRet (Keeps e) (finish_all c now ss e)
  unfolding finish_all
  finish_all-Keeps now [] e = refl
  finish_all-Keeps now (s ∷ ss) e =
      OnRet->>= (Keeps e) (Keeps e) (socket_finished c s ns_timeout now e) (finish_all c now ss)
        (socket_finished-Keeps s ns_timeout now e)
        (λ e1 ran k.
          OnRet-mono (Keeps e1) (Keeps e) (finish_all c now ss e1) (finish_all-Keeps now ss e1)
            (λ e2 r k'. k' ∙ k))

  pub process_dirty_and_timeouts-Keeps :
      (fuel : ℕ) (peer : ℕ → Target P) (ts : ℕ) (e : Engine P S H F W)
      → OnRet (λ n. Keeps e n.1) (process_dirty_and_timeouts c fuel peer ts e)
  unfolding process_dirty_and_timeouts
  process_dirty_and_timeouts-Keeps fuel peer ts e =
      let k = check_timeouts c peer ts e.lvl4_sms e.world in
      let e0 : Engine P S H F W = record e { lvl4_sms = k.sms; world = k.world } in
      OnRet->>= (Keeps e) (λ n. Keeps e n.1) (process_dirty c fuel ts k.to_process e0) _
        (process_dirty-Keeps fuel ts k.to_process e0)
        (λ e1 ran k1.
          OnRet->>= (Keeps e1) (λ n. Keeps e n.1) (finish_all c ts k.timeouted e1) _
            (finish_all-Keeps ts k.timeouted e1) (λ e2 ran2 k2. k2 ∙ k1))
