-- ===== src/Engine/Tracking.antt =====
-- What it is for the tables of the engine to agree: a socket has a target just if it has a state
-- machine, and just if epoll watches it.
use nodescan.Prelude.{ℕ, ◌≡◌, ap, sym, subst, ◌∙◌, some, List, Safe, of-Safe}
use nodescan.Prelude.Maps
use nodescan.Prelude.Maps.{
  Ascends, assign-Ascends, insert-Ascends, erase-Ascends, find-erase_self, le_of_find, insert-some,
}
use nodescan.Prelude.Maps.Keys.{keys, keys-assign, erase-none, keys-erase_both, find-keys}
use nodescan.Lvl4.{Lvl4Sm, new_lvl4_sm, free_buffer}
use nodescan.Target.{Target}
use nodescan.Engine.{Engine, Config, host_sm, target_from_socket, get_or}
use nodescan.Engine.Sockets.{free_socket, socket_finished, finish_socket}
use nodescan.Engine.Accounts.{Serves, IsAccounted, Released, socket_finished-IsAccounted}

module _ {P S H F W : Type 0} (c : Config P S H F W) where
  pub record IsTracked (e : Engine P S H F W) : Type 0 where
    pub sms : keys e.lvl4_sms ≡ keys e.sockets_targets
    pub polled : keys e.epoll ≡ keys e.sockets_targets
    pub epoll : Ascends 1 e.epoll

  -- The books are right, the tables agree, and the target set is in a good state.
  pub record IsSound (Good : S → Type 0) (e : Engine P S H F W) : Type 0 where
    pub accounted : IsAccounted c e
    pub tracked : IsTracked e
    pub good : Good e.targets

  module _ (s : ℕ) (t : Target P) (e : Engine P S H F W) (v : IsAccounted c e)
      (has : Maps.find s e.sockets_targets ≡ some t) where
    -- What is written through the reference to a state machine that is there.
    pub keys-put :
        (now : ℕ) (sm : Lvl4Sm F)
        → keys e.lvl4_sms ≡ keys e.sockets_targets
        → keys (Maps.assign s sm (Maps.insert s (new_lvl4_sm now) e.lvl4_sms))
          ≡ keys e.sockets_targets
    keys-put now sm same =
        let (old, found) = find-keys s t e.sockets_targets e.lvl4_sms (sym same) has in
        keys-assign s sm (Maps.insert s (new_lvl4_sm now) e.lvl4_sms)
        ∙ ap keys (insert-some s (new_lvl4_sm now) old 1 e.lvl4_sms v.sms found)
        ∙ same

    pub socket_finished-Tracked :
        (err now : ℕ)
        → keys e.lvl4_sms ≡ keys e.sockets_targets
        → Ascends 1 e.epoll
        → keys (Maps.erase s e.epoll) ≡ keys (Maps.erase s e.sockets_targets)
        → Safe IsTracked (socket_finished c s err now e)
    unfolding socket_finished finish_socket free_socket target_from_socket host_sm
    socket_finished-Tracked err now same up polled =
        let sms =
          Maps.assign s (free_buffer (get_or (Maps.find s e.lvl4_sms) (new_lvl4_sm now)))
            (Maps.insert s (new_lvl4_sm now) e.lvl4_sms) in
        rw has (record {
          sms =
              keys-erase_both s sms e.sockets_targets (
                keys-put now (free_buffer (get_or (Maps.find s e.lvl4_sms) (new_lvl4_sm now)))
                  same);
          polled =
              ap keys (erase-none s (Maps.erase s e.epoll) (find-erase_self s 1 e.epoll up))
              ∙ polled;
          epoll = erase-Ascends s 1 (Maps.erase s e.epoll) (erase-Ascends s 1 e.epoll up);
        })

    -- On a sound engine the end of a socket that is in its tables leaves it sound.
    pub socket_finished-IsSound :
        (Good : S → Type 0) (serves : Serves c Good) (err now : ℕ)
        → IsTracked e
        → Good e.targets
        → (e' : Engine P S H F W) × Released c s err now e t e' × IsSound Good e'
    socket_finished-IsSound Good serves err now tr good =
        let (e', f) = socket_finished-IsAccounted c s err now e t v has in
        let safe =
          socket_finished-Tracked err now tr.sms tr.epoll
            (keys-erase_both s e.epoll e.sockets_targets tr.polled) in
        (
          e',
          f,
          record {
            accounted = f.accounted;
            tracked = of-Safe IsTracked (socket_finished c s err now e) safe f.returns;
            good =
                subst Good (sym f.targets)
                  (serves.finished t (host_sm c t.ipv4 e).0 e.targets good);
          },
        )

  -- The engine with other state machines for the same sockets, other hosts and another world.
  abbrev pub rewritten :
      List (ℕ × Lvl4Sm F) → List (ℕ × H) → W → Engine P S H F W → Engine P S H F W
  rewritten sms hosts w e = record e { lvl4_sms = sms; hosts_sms = hosts; world = w }

  pub rewritten-IsSound :
      {Good : S → Type 0} (sms : List (ℕ × Lvl4Sm F)) (hosts : List (ℕ × H)) (w : W)
      (e : Engine P S H F W)
      → IsSound Good e
      → Ascends 1 sms
      → keys sms ≡ keys e.lvl4_sms
      → IsSound Good (rewritten sms hosts w e)
  rewritten-IsSound sms hosts w e h up same =
      let v = h.accounted in
      record {
        accounted = record {
          socks = v.socks;
          sms = up;
          available = v.available;
          launched = v.launched;
          small = v.small;
        };
        tracked = record {
          sms = same ∙ h.tracked.sms;
          polled = h.tracked.polled;
          epoll = h.tracked.epoll;
        };
        good = h.good;
      }

  -- The state machine of a socket that has a target is there; the reference to it adds none.
  pub got_sms :
      {Good : S → Type 0} (s now : ℕ) (t : Target P) (e : Engine P S H F W)
      → IsSound Good e
      → Maps.find s e.sockets_targets ≡ some t
      → Maps.insert s (new_lvl4_sm now) e.lvl4_sms ≡ e.lvl4_sms
  got_sms s now t e h has =
      let (old, found) = find-keys s t e.sockets_targets e.lvl4_sms (sym h.tracked.sms) has in
      insert-some s (new_lvl4_sm now) old 1 e.lvl4_sms h.accounted.sms found

  module _ {Good : S → Type 0} (s now : ℕ) (t : Target P) (e : Engine P S H F W)
      (h : IsSound Good e) (has : Maps.find s e.sockets_targets ≡ some t) (hosts : List (ℕ × H))
      (w : W) where
    got_up : Ascends 1 (Maps.insert s (new_lvl4_sm now) e.lvl4_sms)
    got_up = subst (Ascends 1) (sym (got_sms s now t e h has)) h.accounted.sms

    pub got-IsSound :
        IsSound Good (rewritten (Maps.insert s (new_lvl4_sm now) e.lvl4_sms) hosts w e)
    got-IsSound =
        rewritten-IsSound (Maps.insert s (new_lvl4_sm now) e.lvl4_sms) hosts w e h got_up
          (ap keys (got_sms s now t e h has))

    pub put-IsSound :
        (sm : Lvl4Sm F)
        → IsSound Good
            (rewritten (Maps.assign s sm (Maps.insert s (new_lvl4_sm now) e.lvl4_sms)) hosts w e)
    put-IsSound sm =
        let sms = Maps.insert s (new_lvl4_sm now) e.lvl4_sms in
        rewritten-IsSound (Maps.assign s sm sms) hosts w e h (assign-Ascends s sm 1 sms got_up)
          (keys-assign s sm sms ∙ ap keys (got_sms s now t e h has))
