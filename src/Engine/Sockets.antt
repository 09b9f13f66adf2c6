-- ===== src/Engine/Sockets.antt =====
-- async_engine.cpp: how a socket is created, finished and freed.
use nodescan.Prelude.{
  ℕ, ◌+◌, Bool, true, none, some, List, ltb, if◌then◌else◌, Exec, ret, fault, ◌>>=◌, add32, sub32,
}
use nodescan.Prelude.Maps
use nodescan.Buffer.{contents}
use nodescan.Target.{Target}
use nodescan.Lvl4.{new_lvl4_sm, set_valid, set_on_connect, update_ts, free_buffer}
use nodescan.Engine.{
  Engine, Config, Opened, no_socket, opened, get_or, host_sm, del_host_sm, target_from_socket,
  lvl4_sm, put_lvl4, put_host, remove_connecting_socket, remove_connected_socket,
}

-- What `create_socket` returns: `ret`, `errno` and the socket that it stores in `s`.
pub record Created : Type 0 where
  pub status : ℕ
  pub errno : ℕ
  pub s : ℕ

module _ {P S H F W : Type 0} (c : Config P S H F W) where
  -- `free_socket(s)`; `close` frees the descriptor for the next `socket`.
  unfoldable pub free_socket : ℕ → Engine P S H F W → Engine P S H F W
  free_socket s e =
      let e1 = remove_connected_socket s (remove_connecting_socket s e) in
      record e1 {
        lvl4_sms = Maps.erase s e1.lvl4_sms;
        avail_socks = add32 e1.avail_socks 1;
        sockets_targets = Maps.erase s e1.sockets_targets;
      }

  -- `callback_finish(t, buf, error)`
  abbrev pub callback_finish : Target P → List ℕ → ℕ → W → W
  callback_finish t buf error w = elim c.callback_finish [ none ↦ w | some f ↦ f t buf error w ]

  -- The host's state machine is deleted if the target set says so.
  abbrev pub finish_host : Target P → Bool → Engine P S H F W → Engine P S H F W
  finish_host t done e = record e {
    hosts_sms = if done then (del_host_sm t e).hosts_sms else e.hosts_sms;
  }

  -- `socket_finished(s, err)` behind the lookup of the socket's target.
  unfoldable pub finish_socket : ℕ → ℕ → ℕ → Engine P S H F W → Target P → Engine P S H F W
  unfolding lvl4_sm host_sm
  finish_socket s err now e t =
      let (sm, e2) = lvl4_sm s now e in
      let e3 : Engine P S H F W = record (put_lvl4 s (free_buffer sm) e2) {
        world = callback_finish t (contents sm.buf) err e2.world;
      } in
      let (h, e4) = host_sm c t.ipv4 e3 in
      let (done, h', set) = c.target_set.target_finished t h e4.targets in
      free_socket s (finish_host t done (record (put_host t.ipv4 h' e4) { targets = set }))

  -- `socket_finished(s, err)`
  unfoldable pub socket_finished : ℕ → ℕ → ℕ → Engine P S H F W → Exec (Engine P S H F W)
  socket_finished s err now e =
      let e1 : Engine P S H F W = record e { ndone = e.ndone + 1 } in
      target_from_socket s e1 >>= λ t. ret (finish_socket s err now e1 t)

  -- `create_socket(s, target)`, which asserts that a socket is available. `insert` keeps a state machine
  -- or a target that the socket has already.
  unfoldable pub create_socket :
      Opened → Target P → ℕ → Engine P S H F W → Exec (Created × Engine P S H F W)
  create_socket answer target now e =
      if ltb 0 e.avail_socks
      then (elim answer [
        | no_socket errno ↦ ret (record { status = errno; errno = errno; s = 0 }, e)
        | opened s errno ↦
            let sms = Maps.insert s (new_lvl4_sm now) e.lvl4_sms in
            let sm = get_or (Maps.find s e.lvl4_sms) (new_lvl4_sm now) in
            let sm' = update_ts now (set_on_connect c.callback_connected (set_valid true sm)) in
            ret (
              record { status = errno; errno = errno; s = s },
              record e {
                avail_socks = sub32 e.avail_socks 1;
                lvl4_sms = Maps.assign s sm' sms;
                sockets_targets = Maps.insert s target e.sockets_targets;
              },
            )
      ])
      else fault
