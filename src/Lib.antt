-- ===== src/Lib.antt =====
-- nodescan: an asynchronous engine that connects to many targets and looks at what they answer.
--
-- The program. `AsyncEngine` (src/async_engine.cpp, src/include/ns/async_engine.h) takes targets from a
-- `TargetSet` (src/include/ns/target_set.h), opens a non-blocking socket for each while sockets are
-- available, and waits on epoll. For each socket it keeps a `Lvl4SM` (src/include/ns/lvl4_state_machine.h,
-- src/lvl4_state_machine.cpp): a receive buffer (src/include/ns/buffer.h) with a trigger
-- (src/data_triggers.cpp) that cuts the bytes into pieces for the user's callbacks. The protocols of
-- src/protocols are such callbacks. For each host it keeps a `HostSM`.
--
-- The files.
--   Prelude   numbers, lists, words of 32 bits, executions, and `std::map` as sorted entries;
--   Buffer    `Buffer<T, size_type>` at bytes and `uint32_t`, which is `Lvl4Buffer`: a block, its size
--             and the position of its end; `realloc` keeps bytes and leaves the others open; its copies
--             and moves are in Assign;
--   Target    `Target`, its order, its conversion from and to a socket address (src/target.cpp), and
--             `ConnectedTarget` (Connected; src/connected_target.cpp);
--   TargetSet the interface, `SimpleTargetSet`, `RepeatableTargetSet` and `ReinjectableTargetSet`, and
--             `IPV4TargetSet` (Ipv4, its states in Ipv4/State and Files, and as an implementation of the
--             interface in Ipv4/Queue; src/target_set.cpp), `TargetAsyncFile` (File;
--             src/target_file.cpp), and what the engine takes from a set, as a queue (Queue);
--   Host      `HostSM` (src/host_state_machine.cpp);
--   Lvl4      triggers, `Lvl4SM`, the loops that give a trigger the bytes of the buffer (Process), and the
--             storage of a trigger (Variant; src/include/ns/data_trigger_variant.h, static_max_size.h); what
--             a server says, piece by piece, to triggers that callbacks replace (Dialog);
--   Ssl       the TLS client (src/protocols/ssl.cpp, src/include/ns/protocols/ssl.h and ssl_structs.h);
--   Ssh       the SSH client (src/protocols/ssh.cpp);
--   Sip       the SIP client (src/protocols/sip.cpp);
--   Storage   `Lvl4PropertiesStorage` (src/include/ns/lvl4_properties_storage.h);
--   Ipstr     the text of an address (src/ipstr.cpp);
--   Python    what the bindings do (bindings/python/pynodescan.cpp);
--   Engine    the engine's tables (Engine.antt), the life of a socket (Sockets), the handlers of ready
--             sockets and the opening of new ones (Handlers), events, timeouts and the loop of a scan
--             (Scan), what is done at intervals (Clock, with src/engine.cpp), and how an engine is made
--             and set up (Setup). The proofs about the books and the tables of the engine are in the
--             order of a scan: the life of a socket (Accounts, Tracking), the opening of sockets (Launch,
--             FreeSocks, Opening), ready sockets (Reconnect, Ready, Handling), events (Rounds), timeouts
--             (Timeouts, Expiry, Twice), the scan (Finish, Round, Soundness), and where the targets of a scan are (Ledger).
-- The child modules that are not named here hold proofs.
--
-- The model. Each operation is a function on the state; `Exec` says whether it returns, faults (an
-- assertion that fails or an access outside a block) or needs more rounds than its fuel. Loops over
-- a buffer take fuel: each round that goes on takes at least one byte away where the trigger is a
-- character or a size of one byte at least, so a fuel above the number of bytes is enough there, as the
-- theorems state; the loop over certificates takes three bytes at least, and `on_handshake2` gives it
-- as many rounds as bytes. The loop of a scan takes one answer of the system for each round; a scan
-- that ends is one where the loop ends in one of them. What the system, the callbacks and leeloo's
-- ports answer is a parameter: in the engine, a descriptor d is the number d + 1, so that 0 is -1; the
-- world `W` is what callbacks change. An assertion is taken to be compiled in.
--
-- Not modelled: callbacks that add targets to the set of a scan (they change the world, the host and
-- the connection, and leave the target set alone), an `epoll_wait` that fails, triggers and callbacks
-- without a function where the code asserts or calls one, logging, how saved states are written as XML, how leeloo's random
-- iterators work (they are parameters), how much of a message `write` takes (what is sent goes to the
-- world), the declarations of the Python module, and the system calls themselves. 64-bit counters and
-- times are unbounded numbers; `_avail_socks` wraps at 2 ^ 32. The engine's hosts are of any type, with
-- what a target set does to them.
pub mod Prelude
pub mod Buffer
pub mod Target
pub mod Host
pub mod Ipstr
pub mod TargetSet
pub mod Lvl4
pub mod Python
pub mod Storage
pub mod Ssl
pub mod Ssh
pub mod Sip
pub mod Engine
