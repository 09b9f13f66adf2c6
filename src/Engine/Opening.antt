-- ===== src/Engine/Opening.antt =====
-- The opening of new sockets, on a sound engine.
use nodescan.Prelude.{
  ℕ, ◌<◌, ◌≤◌, ◌≡◌, ap, sym, subst, ◌∙◌, Bool, true, false, none, List, ret, arith, Safe, Safe->>=,
  Safe-ret, of-Safe, Bool-cases, inl, inr,
}
use nodescan.Prelude.Maps
use nodescan.Prelude.Maps.{Ascends, assign-Ascends, insert-Ascends, find-insert_self}
use nodescan.Prelude.Maps.Keys.{
  keys, keys-assign, keys-insert_both, erase-none, erase-insert, find-none-keys,
}
use nodescan.Lvl4.{new_lvl4_sm, set_valid, set_on_connect, update_ts}
use nodescan.Target.{PortApi, Target}
use nodescan.Engine.{Engine, Config, Opened, opened, host_sm, get_or, epollout}
use nodescan.Engine.Sockets.{socket_finished}
use nodescan.Engine.Handlers.{launch_target, process_free_socks}
use nodescan.Engine.FreeSocks.{Usable, launches, free_socks_loop-Inv}
use nodescan.Engine.Accounts.{Serves}
use nodescan.Engine.Launch.{
  goes_on, Launched, launch, created, created-IsAccounted, launch_target-launched,
  launch_target-created,
}
use nodescan.Engine.Tracking.{IsTracked, IsSound, socket_finished-Tracked}

module _ {P S H F W : Type 0} ⦃api : PortApi P⦄ (c : Config P S H F W) (Good : S → Type 0)
    (serves : Serves c Good) where
  module _ (s errno now : ℕ) (t : Target P) (e : Engine P S H F W) (h : IsSound c Good e)
      (pos : 0 < e.avail_socks) (bound : 1 ≤ s) (fresh : Maps.find s e.sockets_targets ≡ none) where
    keys-created : keys (created c s now t e).lvl4_sms ≡ keys (created c s now t e).sockets_targets
    keys-created =
        let sm = get_or (Maps.find s e.lvl4_sms) (new_lvl4_sm now) in
        keys-assign s (update_ts now (set_on_connect c.callback_connected (set_valid true sm)))
          (Maps.insert s (new_lvl4_sm now) e.lvl4_sms)
        ∙ keys-insert_both s (new_lvl4_sm now) t e.lvl4_sms e.sockets_targets h.tracked.sms

    unpolled : Maps.find s e.epoll ≡ none
    unpolled = find-none-keys s e.sockets_targets e.epoll (sym h.tracked.polled) fresh

    pub launch_target-Tracked :
        Safe (λ r. IsTracked c r.1) (launch_target c (opened s errno) t now e)
    unfolding host_sm
    launch_target-Tracked = elim (Bool-cases (goes_on errno)) [
      | inl ok ↦
          Safe-ret (λ r. IsTracked c r.1) (launch_target c (opened s errno) t now e)
            (launch_target-launched c s errno now t e pos ok)
            (record {
              sms = keys-created;
              polled = keys-insert_both s epollout t e.epoll e.sockets_targets h.tracked.polled;
              epoll = insert-Ascends s epollout e.epoll bound h.tracked.epoll;
            })
      | inr bad ↦
          let y = created c s now t e in
          let absent : keys (Maps.erase s e.epoll) ≡ keys (Maps.erase s y.sockets_targets) =
            ap keys (erase-none s e.epoll unpolled)
            ∙ h.tracked.polled
            ∙ ap keys (sym (erase-insert s 1 t e.sockets_targets h.accounted.socks fresh)) in
          let safe =
            socket_finished-Tracked c s t y
              (created-IsAccounted c s now t e h.accounted pos bound fresh)
              (find-insert_self s t e.sockets_targets fresh) errno now keys-created h.tracked.epoll
              absent in
          subst (Safe (λ r. IsTracked c r.1))
            (sym (launch_target-created c s errno now t e pos bad))
            (Safe->>= (IsTracked c) (λ r. IsTracked c r.1) (socket_finished c s errno now y)
              (λ e1. ret (false, e1)) safe (λ e1 eq tr. tr))
    ]

    -- A new socket leaves a sound engine sound, whether its `connect` goes on or fails.
    pub launch-IsSound :
        (e' : Engine P S H F W) × Launched c Good s errno now t e e' × IsSound c Good e'
    launch-IsSound =
        let (e', l) = launch c Good serves s errno now t e h.accounted pos bound fresh h.good in
        (
          e',
          l,
          record {
            accounted = l.accounted;
            tracked =
                of-Safe (λ r. IsTracked c r.1) (launch_target c (opened s errno) t now e)
                  launch_target-Tracked l.returns;
            good = l.good;
          },
        )

  pub set_targets-IsSound :
      (e : Engine P S H F W) (x : S)
      → IsSound c Good e
      → Good x
      → IsSound c Good (record e { targets = x })
  set_targets-IsSound e x h good =
      let v = h.accounted in
      record {
        accounted = record {
          socks = v.socks;
          sms = v.sms;
          available = v.available;
          launched = v.launched;
          small = v.small;
        };
        tracked = record {
          sms = h.tracked.sms;
          polled = h.tracked.polled;
          epoll = h.tracked.epoll;
        };
        good = good;
      }

  -- From a sound engine, with answers as `process_free_socks` needs them, it returns a sound engine.
  pub process_free_socks-IsSound :
      (now : ℕ) (answers : List Opened) (e : Engine P S H F W)
      → IsSound c Good e
      → Usable answers e.sockets_targets
      → e.avail_socks ≤ launches answers
      → (r : Bool × Engine P S H F W) × (process_free_socks c answers now e ≡ ret r)
        × IsSound c Good r.1
  unfolding process_free_socks
  process_free_socks-IsSound now answers e h usable enough =
      let (r, ran, sound, _) =
        free_socks_loop-Inv c Good serves now (IsSound c Good)
          (record {
            books = λ e h. h.accounted;
            set = set_targets-IsSound;
            opens = λ s errno t e h pos bound fresh good.
                launch-IsSound s errno now t e h pos bound fresh;
          })
          answers e.avail_socks e h h.good usable (omega arith) enough in
      (r, ran, sound)
