-- ===== src/Engine/Launch.antt =====
-- `process_free_socks`: the sockets that are opened for new targets.
use nodescan.Prelude.{
  ℕ, ◌+◌, ◌<◌, ◌≤◌, ◌≡◌, ap, sym, subst, ◌∙◌, Bool, true, false, ◌||◌, none, length, sub32, ret,
  ◌>>=◌, fault, arith, ◌==◌, if◌then◌else◌, Bool-cases, inl, inr,
}
use nodescan.Prelude.Maps
use nodescan.Prelude.Maps.{
  find_below, Ascends, length-insert, length-erase, insert-Ascends, assign-Ascends,
  find-insert_self,
}
use nodescan.Target.{PortApi, Target}
use nodescan.Lvl4.{new_lvl4_sm, set_valid, set_on_connect, update_ts}
use nodescan.Engine.{
  Engine, Config, no_socket, opened, host_sm, einprogress, get_or, put_host, add_connecting_socket,
}
use nodescan.Engine.Sockets.{create_socket, socket_finished}
use nodescan.Engine.Handlers.{launch_target}
use nodescan.Engine.Accounts.{Serves}
use nodescan.Engine.Accounts.{IsAccounted, socket_finished-IsAccounted, socket_finished-fault}

-- `connect` has succeeded, or goes on.
abbrev pub goes_on : ℕ → Bool
goes_on errno = errno == 0 || errno == einprogress

module _ {P S H F W : Type 0} ⦃api : PortApi P⦄ (c : Config P S H F W) where
  -- The engine when a socket has been created for a target.
  abbrev pub created : ℕ → ℕ → Target P → Engine P S H F W → Engine P S H F W
  created s now t e =
      let sm = get_or (Maps.find s e.lvl4_sms) (new_lvl4_sm now) in
      record e {
        nlaunched = e.nlaunched + 1;
        avail_socks = sub32 e.avail_socks 1;
        lvl4_sms =
            Maps.assign s (update_ts now (set_on_connect c.callback_connected (set_valid true sm)))
              (Maps.insert s (new_lvl4_sm now) e.lvl4_sms);
        sockets_targets = Maps.insert s t e.sockets_targets;
      }

  -- The engine when its `connect` goes on.
  abbrev pub launched : ℕ → ℕ → Target P → Engine P S H F W → Engine P S H F W
  launched s now t e =
      let (h, e1) = host_sm c t.ipv4 (created s now t e) in
      add_connecting_socket s (put_host t.ipv4 (c.target_set.init_host_sm t h e1.targets) e1)

  pub launch_target-launched :
      (s errno now : ℕ) (t : Target P) (e : Engine P S H F W)
      → 0 < e.avail_socks
      → goes_on errno ≡ true
      → launch_target c (opened s errno) t now e ≡ ret (true, launched s now t e)
  unfolding launch_target create_socket host_sm
  launch_target-launched s errno now t e pos ok = ground arith

  pub launch_target-created :
      (s errno now : ℕ) (t : Target P) (e : Engine P S H F W)
      → 0 < e.avail_socks
      → goes_on errno ≡ false
      → launch_target c (opened s errno) t now e
        ≡ (socket_finished c s errno now (created s now t e) >>= λ e1. ret (false, e1))
  unfolding launch_target create_socket
  launch_target-created s errno now t e pos bad = ground arith

  pub created-IsAccounted :
      (s now : ℕ) (t : Target P) (e : Engine P S H F W)
      → IsAccounted c e
      → 0 < e.avail_socks
      → 1 ≤ s
      → Maps.find s e.sockets_targets ≡ none
      → IsAccounted c (created s now t e)
  created-IsAccounted s now t e v pos bound fresh =
      let len = length-insert s t e.sockets_targets fresh in
      let sm = get_or (Maps.find s e.lvl4_sms) (new_lvl4_sm now) in
      record {
        socks = insert-Ascends s t e.sockets_targets bound v.socks;
        sms =
            assign-Ascends s
              (update_ts now (set_on_connect c.callback_connected (set_valid true sm))) 1
              (Maps.insert s (new_lvl4_sm now) e.lvl4_sms)
              (insert-Ascends s (new_lvl4_sm now) e.lvl4_sms bound v.sms);
        available = omega (arith, v.available, v.small, len);
        launched = omega (arith, v.launched, len);
        small = v.small;
      }

  -- What `launch_target` does with a new socket: it returns, with right books.
  pub record Launched (Good : S → Type 0) (s errno now : ℕ) (t : Target P) (e e' : Engine P S H F W)
      : Type 0 where
    pub returns : launch_target c (opened s errno) t now e ≡ ret (goes_on errno, e')
    pub accounted : IsAccounted c e'
    pub socks : e'.sockets_targets ≡ (
        if goes_on errno
        then Maps.insert s t e.sockets_targets
        else Maps.erase s (Maps.insert s t e.sockets_targets))
    pub avail : e'.avail_socks + (if goes_on errno then 1 else 0) ≡ e.avail_socks
    pub good : Good e'.targets

  module _ (Good : S → Type 0) (serves : Serves c Good) (s errno now : ℕ) (t : Target P)
      (e : Engine P S H F W) (v : IsAccounted c e) (pos : 0 < e.avail_socks) (bound : 1 ≤ s)
      (fresh : Maps.find s e.sockets_targets ≡ none) (now_good : Good e.targets) where
    launch_ok : goes_on errno ≡ true → (e' : Engine P S H F W) × Launched Good s errno now t e e'
    unfolding host_sm
    launch_ok ok =
        let w = created-IsAccounted s now t e v pos bound fresh in
        (
          launched s now t e,
          record {
            returns =
                launch_target-launched s errno now t e pos ok
                ∙ ap (λ b. ret (b, launched s now t e)) (sym ok);
            accounted = record {
              socks = w.socks;
              sms = w.sms;
              available = w.available;
              launched = w.launched;
              small = w.small;
            };
            socks = rw ok;
            good = now_good;
            avail =
                ap (λ b. (sub32 e.avail_socks 1) + (if b then 1 else 0)) ok
                ∙ omega (arith, v.available, v.small);
          },
        )

    launch_failed :
        goes_on errno ≡ false → (e' : Engine P S H F W) × Launched Good s errno now t e e'
    launch_failed bad =
        let y = created s now t e in
        let w = created-IsAccounted s now t e v pos bound fresh in
        let (e', f) =
          socket_finished-IsAccounted c s errno now y t w
            (find-insert_self s t e.sockets_targets fresh) in
        let len = length-insert s t e.sockets_targets fresh in
        let len' =
          length-erase s t y.sockets_targets (find-insert_self s t e.sockets_targets fresh) in
        (
          e',
          record {
            returns =
                launch_target-created s errno now t e pos bad
                ∙ ap (λ m. m >>= λ e1. ret (false, e1)) f.returns
                ∙ ap (λ b. ret (b, e')) (sym bad);
            accounted = f.accounted;
            socks = ground (arith, f.socks);
            good =
                subst Good (sym f.targets)
                  (serves.finished t (host_sm c t.ipv4 y).0 y.targets now_good);
            avail =
                ap (λ b. e'.avail_socks + (if b then 1 else 0)) bad
                ∙ omega (arith, v.available, f.accounted.available, ap length f.socks, len, len');
          },
        )

    pub launch : (e' : Engine P S H F W) × Launched Good s errno now t e e'
    launch = elim (Bool-cases (goes_on errno)) [
      | inl ok ↦ launch_ok ok
      | inr bad ↦ launch_failed bad
    ]

  -- When `socket` itself fails, -1 is finished as a socket, and the assertion on its target fails.
  pub launch_target-no_socket :
      (errno now : ℕ) (t : Target P) (e : Engine P S H F W)
      → IsAccounted c e
      → 0 < e.avail_socks
      → goes_on errno ≡ false
      → launch_target c (no_socket errno) t now e ≡ fault
  unfolding launch_target create_socket
  launch_target-no_socket errno now t e v pos bad = ground (
    arith,
    socket_finished-fault c 0 errno now (record e { nlaunched = e.nlaunched + 1 })
        (find_below 0 {b = 1} e.sockets_targets (omega arith) v.socks),
  )
