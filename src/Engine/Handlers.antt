-- ===== src/Engine/Handlers.antt =====
-- async_engine.cpp: what the engine does when a socket is ready, and when it opens new ones.
use nodescan.Prelude.{
  ℕ, zero, suc, ◌+◌, Bool, true, false, not, ◌||◌, Option, List, [], ◌∷◌, ◌==◌, if◌then◌else◌, Exec,
  ret, out_of_fuel, ◌>>=◌, add32,
}
use nodescan.Buffer.{contents}
use nodescan.Target.{PortApi, Target, is_end}
use nodescan.TargetSet.{gives, blocks}
use nodescan.Lvl4.{set_on_connect, update_ts, free_buffer}
use nodescan.Lvl4.Process.{on_connect, process_lvl4_data}
use nodescan.Engine.{
  Engine, Config, Opened, host_sm, target_from_socket, lvl4_sm, put_lvl4, put_host,
  add_connecting_socket, add_connected_socket, remove_connecting_socket, remove_connected_socket,
  einprogress, econnreset, will_reconnect,
}
use nodescan.Engine.Sockets.{callback_finish, create_socket, socket_finished}

module _ {P S H F W : Type 0} ⦃api : PortApi P⦄ (c : Config P S H F W) where
  -- `process_connecting_ready(s, lvl4sm)`: `err` is what `SO_ERROR` gives.
  unfoldable pub process_connecting_ready : ℕ → ℕ → ℕ → Engine P S H F W → Exec (Engine P S H F W)
  process_connecting_ready s err now e0 =
      let (sm, e) = lvl4_sm s now e0 in
      let failed = socket_finished c s err now e in
      if not (err == 0)
      then failed
      else (target_from_socket s e >>= λ target.
          let (h, e1) = host_sm c target.ipv4 e in
          let (go, (w, h'), sm') = on_connect c.act target (e1.world, h) sm in
          let e2 : Engine P S H F W = record (put_host target.ipv4 h' (put_lvl4 s sm' e1)) {
            world = w;
          } in
          if go
          then ret (
              put_lvl4 s (update_ts now sm')
                (add_connected_socket s (remove_connecting_socket s e2)))
          else socket_finished c s 0 now e2)

  -- `reconnect(s, target, lvl4sm)`: the new socket may have another number, and its entries are added
  -- to those of the old one; where `socket` fails these are entries of -1, which epoll refuses.
  unfoldable pub reconnect :
      ℕ → Target P → Option F → Opened → ℕ → Engine P S H F W → Exec (Engine P S H F W)
  reconnect s target cur_action answer now e =
      let e1 = remove_connected_socket s e in
      create_socket c answer target now (record e1 { avail_socks = add32 e1.avail_socks 1 })
      >>= λ r.
          let (sm, e2) = lvl4_sm r.0.s now r.1 in
          let e3 = put_lvl4 r.0.s (set_on_connect cur_action sm) e2 in
          ret (if r.0.s == 0 then e3 else add_connecting_socket r.0.s e3)

  -- `process_connected_ready(s, target, lvl4sm)`: `navail` bytes wait, of which `read` gives `got`; a
  -- new socket is answered by `answer`.
  unfoldable pub process_connected_ready :
      (ℕ → ℕ)
      → ℕ
      → ℕ
      → ℕ
      → Option (List ℕ)
      → Opened
      → ℕ
      → Engine P S H F W
      → Exec (Engine P S H F W)
  process_connected_ready uninit fuel s navail got answer now e00 =
      target_from_socket s e00 >>= λ target.
      let (sm, e0) = lvl4_sm s now e00 in
      if navail == 0
      then (if sm.reconnect
          then reconnect s target sm.func_connect answer now
              (record (put_lvl4 s (free_buffer sm) e0) {
                world = callback_finish c target (contents sm.buf) will_reconnect e0.world;
              })
          else socket_finished c s econnreset now e0)
      else (let (h, e) = host_sm c target.ipv4 e0 in
          process_lvl4_data c.act uninit fuel target navail got (e.world, h) sm >>= λ r.
          let (w, h') = r.1 in
          let e1 : Engine P S H F W =
            record (put_host target.ipv4 h' (put_lvl4 s (update_ts now r.2) e)) { world = w } in
          if r.0 then ret e1 else socket_finished c s 0 now e1)

  -- One turn of the inner loop of `process_free_socks`: the socket for a target is created. The Boolean
  -- is false if that failed, and the socket has been finished.
  unfoldable pub launch_target :
      Opened → Target P → ℕ → Engine P S H F W → Exec (Bool × Engine P S H F W)
  launch_target answer t now e =
      create_socket c answer t now (record e { nlaunched = e.nlaunched + 1 }) >>= λ r.
      if r.0.status == 0 || r.0.errno == einprogress
      then (let (h, e1) = host_sm c t.ipv4 r.1 in
          ret (
            true,
            add_connecting_socket r.0.s
                (put_host t.ipv4 (c.target_set.init_host_sm t h e1.targets) e1),
          ))
      else (socket_finished c r.0.s r.0.errno now r.1 >>= λ e1. ret (false, e1))

  -- `process_free_socks()`: each call of `create_socket` takes the next answer of the system, and there
  -- are no more answers than it has given. The first number is how many sockets are still to be opened,
  -- at first `_avail_socks`. The Boolean is false when the targets are at their end.
  unfoldable pub free_socks_loop :
      List Opened → ℕ → ℕ → Engine P S H F W → Exec (Bool × Engine P S H F W)
  free_socks_loop answers zero now e = ret (true, e)
  free_socks_loop [] (suc i) now e = c.target_set.next_target e.targets >>= λ n. elim n.0 [
    | blocks ↦ ret (true, record e { targets = n.1 })
    | gives t ↦ if is_end t then ret (false, record e { targets = n.1 }) else out_of_fuel
  ]
  free_socks_loop (answer ∷ answers) (suc i) now e = c.target_set.next_target e.targets >>= λ n.
      elim n.0 [
        | blocks ↦ ret (true, record e { targets = n.1 })
        | gives t ↦
            let rest = launch_target answer t now (record e { targets = n.1 }) >>= λ r. elim r.0 [
              | true ↦ free_socks_loop answers i now r.1
              | false ↦ free_socks_loop answers (suc i) now r.1
            ] in
            if is_end t then ret (false, record e { targets = n.1 }) else rest
      ]

  unfoldable pub process_free_socks :
      List Opened → ℕ → Engine P S H F W → Exec (Bool × Engine P S H F W)
  process_free_socks answers now e = free_socks_loop answers e.avail_socks now e
