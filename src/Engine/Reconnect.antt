-- ===== src/Engine/Reconnect.antt =====
-- `reconnect`: a connection is made again to a target that closed it.
use nodescan.Prelude.{
  ℕ, ◌+◌, ◌^◌, ◌<◌, ◌≤◌, ◌≡◌, ap, sym, ◌∙◌, true, Option, some, List, length, ret, arith, add32,
  sub32,
}
use nodescan.Prelude.Maps
use nodescan.Prelude.Maps.{
  Ascends, assign-Ascends, insert-Ascends, le_of_find, insert-some, length-erase,
}
use nodescan.Prelude.Maps.Keys.{keys, keys-assign, find-keys}
use nodescan.Lvl4.{Lvl4Sm, new_lvl4_sm, set_on_connect, set_valid, update_ts}
use nodescan.Target.{PortApi, Target}
use nodescan.Engine.{Engine, Config, opened, lvl4_sm, get_or, epollout}
use nodescan.Engine.Sockets.{create_socket}
use nodescan.Engine.Handlers.{reconnect}
use nodescan.Engine.Accounts.{IsAccounted}

module _ {P S H F W : Type 0} ⦃api : PortApi P⦄ (c : Config P S H F W) where
  pub tables : ℕ → ℕ → Target P → Option F → Engine P S H F W → List (ℕ × Lvl4Sm F)
  tables s' now t action e =
      let sm = get_or (Maps.find s' e.lvl4_sms) (new_lvl4_sm now) in
      let sms =
        Maps.assign s' (update_ts now (set_on_connect c.callback_connected (set_valid true sm)))
          (Maps.insert s' (new_lvl4_sm now) e.lvl4_sms) in
      Maps.assign s' (set_on_connect action (get_or (Maps.find s' sms) (new_lvl4_sm now)))
        (Maps.insert s' (new_lvl4_sm now) sms)

  pub tables-Ascends :
      (s' now : ℕ) (t : Target P) (action : Option F) (e : Engine P S H F W)
      → 1 ≤ s'
      → Ascends 1 e.lvl4_sms
      → Ascends 1 (tables s' now t action e)
  unfolding tables
  tables-Ascends s' now t action e bound a =
      let sm = get_or (Maps.find s' e.lvl4_sms) (new_lvl4_sm now) in
      let sms0 = Maps.insert s' (new_lvl4_sm now) e.lvl4_sms in
      let up = update_ts now (set_on_connect c.callback_connected (set_valid true sm)) in
      let sms = Maps.assign s' up sms0 in
      assign-Ascends s' (set_on_connect action (get_or (Maps.find s' sms) (new_lvl4_sm now))) 1
        (Maps.insert s' (new_lvl4_sm now) sms)
        (insert-Ascends s' (new_lvl4_sm now) sms bound
          (assign-Ascends s' up 1 sms0 (insert-Ascends s' (new_lvl4_sm now) e.lvl4_sms bound a)))

  pub keys-tables :
      (s now : ℕ) (t old : Target P) (action : Option F) (e : Engine P S H F W)
      → 1 ≤ s
      → Ascends 1 e.lvl4_sms
      → keys e.lvl4_sms ≡ keys e.sockets_targets
      → Maps.find s e.sockets_targets ≡ some old
      → keys (tables s now t action e) ≡ keys e.sockets_targets
  unfolding tables
  keys-tables s now t old action e bound a same has =
      let sm = get_or (Maps.find s e.lvl4_sms) (new_lvl4_sm now) in
      let up = update_ts now (set_on_connect c.callback_connected (set_valid true sm)) in
      let sms0 = Maps.insert s (new_lvl4_sm now) e.lvl4_sms in
      let sms = Maps.assign s up sms0 in
      let (x, found) = find-keys s old e.sockets_targets e.lvl4_sms (sym same) has in
      let once : keys sms ≡ keys e.sockets_targets =
        keys-assign s up sms0
        ∙ ap keys (insert-some s (new_lvl4_sm now) x 1 e.lvl4_sms a found)
        ∙ same in
      let (y, found') = find-keys s old e.sockets_targets sms (sym once) has in
      let up_again =
        assign-Ascends s up 1 sms0 (insert-Ascends s (new_lvl4_sm now) e.lvl4_sms bound a) in
      keys-assign s (set_on_connect action (get_or (Maps.find s sms) (new_lvl4_sm now)))
        (Maps.insert s (new_lvl4_sm now) sms)
      ∙ ap keys (insert-some s (new_lvl4_sm now) y 1 sms up_again found')
      ∙ once

  -- The engine after `reconnect`.
  abbrev pub reconnected : ℕ → ℕ → ℕ → Target P → Option F → Engine P S H F W → Engine P S H F W
  reconnected s s' now t action e = record e {
    lvl4_sms = tables s' now t action e;
    avail_socks = sub32 (add32 e.avail_socks 1) 1;
    sockets_targets = Maps.insert s' t e.sockets_targets;
    epoll = Maps.insert s' epollout (Maps.erase s e.epoll);
  }

  pub reconnect-reconnected :
      (s s' errno now : ℕ) (t : Target P) (action : Option F) (e : Engine P S H F W)
      → e.avail_socks + 1 < 2 ^ 32
      → 1 ≤ s'
      → reconnect c s t action (opened s' errno) now e ≡ ret (reconnected s s' now t action e)
  unfolding reconnect create_socket lvl4_sm tables
  reconnect-reconnected s s' errno now t action e small bound = ground arith

  -- When the new socket has the number of the old one, `reconnect` returns, the socket keeps its
  -- target, and the books stay right.
  pub reconnect-IsAccounted :
      (s errno now : ℕ) (t old : Target P) (action : Option F) (e : Engine P S H F W)
      → IsAccounted c e
      → Maps.find s e.sockets_targets ≡ some old
      → (e' : Engine P S H F W) × (reconnect c s t action (opened s errno) now e ≡ ret e')
        × IsAccounted c e'
        × (e'.sockets_targets ≡ e.sockets_targets)
  reconnect-IsAccounted s errno now t old action e v has =
      let same = insert-some s t old 1 e.sockets_targets v.socks has in
      let bound = le_of_find s 1 old e.sockets_targets v.socks has in
      let some_open = length-erase s old e.sockets_targets has in
      let n = ap length same in
      (
        reconnected s s now t action e,
        reconnect-reconnected s s errno now t action e
            (omega (arith, v.available, v.small, some_open)) bound,
        record {
          socks = insert-Ascends s t e.sockets_targets bound v.socks;
          sms = tables-Ascends s now t action e bound v.sms;
          available = omega (arith, v.available, v.small, n, some_open);
          launched = omega (arith, v.launched, n);
          small = v.small;
        },
        same,
      )
