-- ===== src/Ssh/Tests.antt =====
-- The theorems on the SSH client at small messages.
use nodescan.Prelude.{ℕ, ◌≡◌, refl, true, some, none, List, [], ◌∷◌, ◌++◌, take, ret, arith}
use nodescan.Lvl4.{Lvl4Sm, new_lvl4_sm}
use nodescan.Prelude.{ℕ, false, drop}
use mathlib.Core.List.{flatten}
use nodescan.Buffer.Laws.{IsValid-empty}
use nodescan.Lvl4.{connection_end}
use nodescan.Lvl4.Process.{Callbacks}
use nodescan.Lvl4.Framing.Chunks.{receive_all}
use nodescan.Ssh.{ssh_start, ssh_call, client_banner}
use nodescan.Ssh.Session.{TakesKey, server_handshake, receive_all-server_handshake}
use nodescan.Ssh.Packets.{client_key_exchange, client_dh}
use nodescan.Ssh.{Ssh, SshStep}

-- The world is what is sent or collected.
abbrev client : Ssh SshStep (Unit {0}) (List ℕ)
client = record {
  on_certificate = some (λ t xs n w sm. ret (true, w ++ take n xs, sm));
  on_invalid_answer = none;
}

abbrev sends : Unit {0} → List ℕ → List ℕ → List ℕ
sends t xs w = w ++ xs

abbrev connection : Lvl4Sm SshStep
connection = new_lvl4_sm 7

abbrev takes_key : Ssh SshStep (Unit {0}) (List ℕ)
takes_key = record {
  on_certificate = some (λ t xs n w sm. ret (false, w ++ take n xs, sm));
  on_invalid_answer = none;
}

abbrev key_reader : TakesKey takes_key tt (λ xs w. w ++ xs)
key_reader = record {
  action = λ t xs n w sm. ret (false, w ++ take n xs, sm);
  has_certificate = refl;
  reads_certificate = λ xs n w sm. refl;
}

abbrev act : Callbacks SshStep (Unit {0}) (List ℕ)
act = record {
  call = λ s t n w sm. ssh_call (λ q. q) sends takes_key s t n w sm;
  python = λ s t pos w sm. (connection_end, w, sm);
  connect = λ s t w sm. (false, w, sm);
}

abbrev handshake : List ℕ
handshake = server_handshake (45 ∷ 88 ∷ 13 ∷ []) (20 ∷ 1 ∷ 2 ∷ []) (65 ∷ 66 ∷ []) (67 ∷ [])

-- The server's line is cut in two, and a byte follows.
abbrev pieces : List (List ℕ)
pieces = take 4 handshake ∷ drop 4 handshake ∷ (9 ∷ []) ∷ []

receive_all-server_handshake_example :
    let started = ssh_start (λ q. q) sends takes_key tt [] connection in
    let sent = sends tt client_dh (sends tt client_key_exchange (sends tt client_banner [])) in
    (sm' : Lvl4Sm SshStep) × (receive_all act (λ i. 7) 100 tt pieces started.1 started.2
      ≡ ret (false, sent ++ ((65 ∷ 66 ∷ []) ++ (67 ∷ [])), sm'))
unfolding server_handshake flatten
receive_all-server_handshake_example =
    receive_all-server_handshake act (λ q. q) sends takes_key tt (λ s n w sm. refl)
      (λ xs w. w ++ xs) key_reader (45 ∷ 88 ∷ 13 ∷ []) (20 ∷ 1 ∷ 2 ∷ []) (65 ∷ 66 ∷ []) (67 ∷ []) []
      connection (λ i. 7) 100 pieces (9 ∷ []) IsValid-empty refl
      (omega arith, (omega arith, (omega arith, tt))) (omega arith) refl (omega arith) (omega arith)
