-- ===== src/Engine.antt =====
-- include/ns/engine.h, async_engine.h and async_engine.cpp: the asynchronous engine. Its state, its
-- tables and the sockets' life; the handlers and the loop are in the child modules.
--
-- What the operating system answers is an argument of each operation. A file descriptor d is the
-- number d + 1, so that 0 is the -1 of a `socket()` that failed. The world `W` is what the callbacks
-- can change besides the `HostSM`, of type `H`, and the `Lvl4SM` that they are given.
pub mod Sockets
pub mod Handlers
pub mod Scan
pub mod Clock
pub mod Accounts
pub mod Launch
pub mod Tracking
pub mod Handling
pub mod Opening
pub mod Rounds
pub mod Timeouts
pub mod Expiry
pub mod Twice
pub mod Finish
pub mod Round
pub mod Soundness
pub mod Ledger
pub mod Setup
pub mod FreeSocks
pub mod Reconnect
pub mod Ready
pub mod Ending
pub mod Tests
use nodescan.Prelude.{ℕ, ◌+◌, Bool, true, false, Option, none, some, List, [], Exec, deref}
use nodescan.Prelude.Maps
use nodescan.Target.{Target}
use nodescan.TargetSet.{TargetSet}
use nodescan.Lvl4.{Lvl4Sm, new_lvl4_sm}
use nodescan.Lvl4.Process.{Callbacks}

-- `EPOLLOUT` and `EPOLLIN`, the events that a registered socket waits for.
pub data Interest : Type 0 where
  epollout epollin : Interest

-- `errors::NS_TIMEOUT` and `errors::WILL_RECONNECT`, and two numbers of the system's headers.
abbrev pub ns_timeout : ℕ
ns_timeout = 1000

abbrev pub will_reconnect : ℕ
will_reconnect = 1001

abbrev pub econnreset : ℕ
econnreset = 104

abbrev pub einprogress : ℕ
einprogress = 115

-- What `socket` and `connect` answer: the `errno` of a `socket` that fails, or the descriptor with the
-- `errno` of the `connect`, 0 if that succeeds.
pub data Opened : Type 0 where
  no_socket : ℕ → Opened
  opened : ℕ → ℕ → Opened

-- The members of `AsyncEngine` and of its base that the scan changes.
pub record Engine (P S H F W : Type 0) : Type 0 where
  pub hosts_sms : List (ℕ × H)
  pub lvl4_sms : List (ℕ × Lvl4Sm F)
  pub sockets_targets : List (ℕ × Target P)
  pub epoll : List (ℕ × Interest)
  pub avail_socks : ℕ
  pub nlaunched : ℕ
  pub ndone : ℕ
  pub targets : S
  pub world : W

-- What does not change during a scan: the configuration, the target set's operations and the
-- callbacks, which leave the target set alone. `new_host` is `HostSM()`; an empty `std::function` is
-- `none`.
pub record Config (P S H F W : Type 0) : Type 0 where
  pub nsockets : ℕ
  pub timeout : ℕ
  pub watch_timeout : ℕ
  pub target_set : TargetSet P S H
  pub new_host : H
  pub act : Callbacks F (Target P) (W × H)
  pub callback_connected : Option F
  pub callback_finish : Option (Target P → List ℕ → ℕ → W → W)
  pub watch_timeout_cb : Option (Target P → W → Bool × W)
  pub timeout_target : Option (Target P → ℕ)

-- The value that an option holds, or a default.
abbrev pub get_or {ℓ} : {A : Type ℓ} → Option A → A → A
get_or none d = d
get_or (some a) d = a

module _ {P S H F W : Type 0} where
  -- `host_sm(ip)`: the entry that is there, or a new one; `insert` keeps an entry.
  unfoldable pub host_sm : Config P S H F W → ℕ → Engine P S H F W → H × Engine P S H F W
  host_sm c ip e = (
    get_or (Maps.find ip e.hosts_sms) c.new_host,
    record e { hosts_sms = Maps.insert ip c.new_host e.hosts_sms },
  )

  -- `del_host_sm(t)`
  unfoldable pub del_host_sm : Target P → Engine P S H F W → Engine P S H F W
  del_host_sm t e = record e { hosts_sms = Maps.erase t.ipv4 e.hosts_sms }

  -- `target_from_socket(s)`, which asserts that the socket is there.
  unfoldable pub target_from_socket : ℕ → Engine P S H F W → Exec (Target P)
  target_from_socket s e = deref (Maps.find s e.sockets_targets)

  -- `lvl4_sm(s)`: `operator[]` adds an entry if there is none, and keeps one that is there.
  unfoldable pub lvl4_sm : ℕ → ℕ → Engine P S H F W → Lvl4Sm F × Engine P S H F W
  lvl4_sm s now e = (
    get_or (Maps.find s e.lvl4_sms) (new_lvl4_sm now),
    record e { lvl4_sms = Maps.insert s (new_lvl4_sm now) e.lvl4_sms },
  )

  -- A change of the state machine through the reference.
  abbrev pub put_lvl4 : ℕ → Lvl4Sm F → Engine P S H F W → Engine P S H F W
  put_lvl4 s sm e = record e { lvl4_sms = Maps.assign s sm e.lvl4_sms }

  abbrev pub put_host : ℕ → H → Engine P S H F W → Engine P S H F W
  put_host ip h e = record e { hosts_sms = Maps.assign ip h e.hosts_sms }

  -- `epoll_ctl` refuses to add what is registered, and to remove what is not.
  abbrev pub add_connecting_socket : ℕ → Engine P S H F W → Engine P S H F W
  add_connecting_socket s e = record e { epoll = Maps.insert s epollout e.epoll }

  abbrev pub add_connected_socket : ℕ → Engine P S H F W → Engine P S H F W
  add_connected_socket s e = record e { epoll = Maps.insert s epollin e.epoll }

  abbrev pub remove_connecting_socket : ℕ → Engine P S H F W → Engine P S H F W
  remove_connecting_socket s e = record e { epoll = Maps.erase s e.epoll }

  abbrev pub remove_connected_socket : ℕ → Engine P S H F W → Engine P S H F W
  remove_connected_socket s e = record e { epoll = Maps.erase s e.epoll }
