-- ===== src/Engine/Accounts.antt =====
-- The books of the engine: every socket is available or in the tables, and every launched target is
-- done or in the tables.
use nodescan.Prelude.{ℕ, ◌+◌, ◌^◌, ◌<◌, ◌≡◌, refl, some, none, length, ret, fault, arith}
use nodescan.Prelude.Maps
use nodescan.Prelude.Maps.{
  Ascends, length-erase, erase-Ascends, find-erase_self, insert-Ascends, assign-Ascends, le_of_find,
}
use nodescan.Buffer.{contents}
use nodescan.Lvl4.{new_lvl4_sm, free_buffer}
use nodescan.Target.{Target}
use nodescan.TargetSet.{Next}
use nodescan.Engine.{Engine, Config, target_from_socket, host_sm, get_or}
use nodescan.Engine.Sockets.{free_socket, socket_finished, finish_socket, callback_finish}

module _ {P S H F W : Type 0} (c : Config P S H F W) where
  pub record IsAccounted (e : Engine P S H F W) : Type 0 where
    pub socks : Ascends 1 e.sockets_targets
    pub sms : Ascends 1 e.lvl4_sms
    pub available : e.avail_socks + length e.sockets_targets ≡ c.nsockets
    pub launched : e.ndone + length e.sockets_targets ≡ e.nlaunched
    pub small : c.nsockets < 2 ^ 32

  -- What of the target set goes on: `next_target` returns, and the end of a target keeps that so.
  pub record Serves (Good : S → Type 0) : Type 0 where
    pub next : (x : S) → Good x → (n : Next P × S) × (c.target_set.next_target x ≡ ret n) × Good n.1
    pub finished :
        (t : Target P) (h : H) (x : S) → Good x → Good (c.target_set.target_finished t h x).2

  -- What `socket_finished` does to a socket of the engine.
  pub record Released (s err now : ℕ) (e : Engine P S H F W) (t : Target P) (e' : Engine P S H F W)
      : Type 0 where
    pub returns : socket_finished c s err now e ≡ ret e'
    pub accounted : IsAccounted e'
    pub socks : e'.sockets_targets ≡ Maps.erase s e.sockets_targets
    pub no_target : Maps.find s e'.sockets_targets ≡ none
    pub no_sm : Maps.find s e'.lvl4_sms ≡ none
    pub ndone : e'.ndone ≡ e.ndone + 1
    pub nlaunched : e'.nlaunched ≡ e.nlaunched
    pub targets : e'.targets ≡ (c.target_set.target_finished t (host_sm c t.ipv4 e).0 e.targets).2
    pub called :
        e'.world
        ≡ callback_finish c t
            (contents (get_or (Maps.find s e.lvl4_sms) (new_lvl4_sm now)).buf)
            err
            e.world

  -- On an engine whose books are right, the end of a socket that is in its tables returns; the callback
  -- is given the target, the bytes of its buffer and the error, and the target set the target; the socket then is in no table, one
  -- socket more is available and one target more is done, and the books are right.
  pub socket_finished-IsAccounted :
      (s err now : ℕ) (e : Engine P S H F W) (t : Target P)
      → IsAccounted e
      → Maps.find s e.sockets_targets ≡ some t
      → (e' : Engine P S H F W) × Released s err now e t e'
  unfolding socket_finished finish_socket free_socket target_from_socket host_sm
  socket_finished-IsAccounted s err now e t v h =
      let bound = le_of_find s 1 t e.sockets_targets v.socks h in
      let len = length-erase s t e.sockets_targets h in
      let sms = Maps.insert s (new_lvl4_sm now) e.lvl4_sms in
      let sm = free_buffer (get_or (Maps.find s e.lvl4_sms) (new_lvl4_sm now)) in
      let up =
        assign-Ascends s sm 1 sms (insert-Ascends s (new_lvl4_sm now) e.lvl4_sms bound v.sms) in
      let e1 : Engine P S H F W = record e { ndone = e.ndone + 1 } in
      (
        finish_socket c s err now e1 t,
        record {
          returns = rw h;
          accounted = record {
            socks = erase-Ascends s 1 e.sockets_targets v.socks;
            sms = erase-Ascends s 1 (Maps.assign s sm sms) up;
            available = omega (arith, v.available, v.small, len);
            launched = omega (arith, v.launched, len);
            small = v.small;
          };
          socks = refl;
          no_target = find-erase_self s 1 e.sockets_targets v.socks;
          no_sm = find-erase_self s 1 (Maps.assign s sm sms) up;
          ndone = refl;
          nlaunched = refl;
          targets = refl;
          called = refl;
        },
      )

  -- A socket that is in no table cannot be finished: the assertion fails.
  pub socket_finished-fault :
      (s err now : ℕ) (e : Engine P S H F W)
      → Maps.find s e.sockets_targets ≡ none
      → socket_finished c s err now e ≡ fault
  unfolding socket_finished target_from_socket
  socket_finished-fault s err now e h = rw h
