-- ===== src/Ssl/Tests.antt =====
-- The theorems on the TLS client at small messages.
use nodescan.Prelude.{
  ℕ, ◌+◌, ◌*◌, ◌^◌, ◌≡◌, refl, true, false, some, none, List, [], ◌∷◌, ◌++◌, take, drop, ret, fault,
  arith,
}
use nodescan.Prelude.{ℕ, subst, Halts, Stops, Option}
use mathlib.Core.List.{flatten}
use nodescan.Buffer.Laws.{IsValid-empty}
use nodescan.Lvl4.Process.{Callbacks, process_lvl4_data}
use nodescan.Lvl4.Framing.Chunks.{receive_all}
use nodescan.Lvl4.{Lvl4Sm, connection_end, new_lvl4_sm, set_trigger, size_trigger}
use nodescan.Ssl.{Ssl, SslStep, tls_header1, ssl_call, on_handshake1, certificates_loop, sizeof_tls}
use nodescan.Ssl.Hello.{client_hello}
use nodescan.Ssl.ServerHello.{message, length24, on_handshake1-fault}
use nodescan.Ssl.Hello.{ssl_start}
use nodescan.Ssl.Session.{Collects, tls_record, hello_end, server_flight, receive_all-server_flight}
use nodescan.Ssl.Termination.{StopsOnFailure}
use nodescan.Ssl.Termination.Loop.{Pending, process_lvl4_data-Pending}
use nodescan.Ssl.Certificates.{certificates, after, certificates_loop_overread}

-- The world collects the certificates, and each cipher as a list of its own.
abbrev add_certif : List ℕ → List (List ℕ) → List (List ℕ)
add_certif xs w = w ++ (xs ∷ [])

abbrev add_cipher : ℕ → List (List ℕ) → List (List ℕ)
add_cipher cipher w = w ++ ((cipher ∷ []) ∷ [])

abbrev collects : Ssl SslStep (Unit {0}) (List (List ℕ))
collects = record {
  on_certif = some (λ t xs n w sm. ret (true, add_certif (take n xs) w, sm));
  on_cipher = some (λ t cipher w sm. ret (true, add_cipher cipher w, sm));
  on_failure = none;
}

abbrev reads : Collects collects tt add_cipher add_certif
reads = record {
  cipher_action = λ t cipher w sm. ret (true, add_cipher cipher w, sm);
  has_cipher = refl;
  reads_cipher = λ c w sm. refl;
  certif_action = λ t xs n w sm. ret (true, add_certif (take n xs) w, sm);
  has_certif = refl;
  reads_certif = λ xs n w sm. refl;
}

abbrev act : Callbacks SslStep (Unit {0}) (List (List ℕ))
act = record {
  call = λ s t n w sm. ssl_call (λ q. q) collects s t n w sm;
  python = λ s t pos w sm. (connection_end, w, sm);
  connect = λ s t w sm. (false, w, sm);
}

abbrev connection : Lvl4Sm SslStep
connection = new_lvl4_sm 7

on_handshake1-fault_example :
    on_handshake1 (λ s. s) collects tt (message 2 (3 ∷ 0 ∷ []) (9 ∷ [])) 6 [] connection ≡ fault
on_handshake1-fault_example =
    on_handshake1-fault (λ s. s) collects tt [] connection (3 ∷ 0 ∷ []) (9 ∷ []) (omega arith)
      (omega arith)

abbrev chain : List (List ℕ)
chain = (65 ∷ 66 ∷ []) ∷ (67 ∷ []) ∷ []

certificates_loop_overread_example :
    certificates_loop (λ s. s) collects 5 tt (length24 4 ++ (65 ∷ 66 ∷ [])) 5 5 [] connection
    ≡ ret (false, (65 ∷ 66 ∷ []) ∷ [], connection)
certificates_loop_overread_example =
    certificates_loop_overread (λ s. s) collects tt connection 4 5 3 (65 ∷ 66 ∷ []) []
      ((65 ∷ 66 ∷ []) ∷ []) connection (omega arith) (omega arith) (omega arith) refl refl

abbrev flight : List ℕ
flight = server_flight (hello_end (3 ∷ []) 0 0x2F 0) chain

-- The first header is cut in two, and a byte follows.
abbrev pieces : List (List ℕ)
pieces = take 3 flight ∷ drop 3 flight ∷ (9 ∷ []) ∷ []

receive_all-server_flight_example :
    let started = ssl_start (λ q. q) (λ t xs w. w) (client_hello 5) tt [] connection in
    (sm' : Lvl4Sm SslStep) × (receive_all act (λ i. 7) 100 tt pieces started.1 started.2
      ≡ ret (false, after add_certif chain (add_cipher (0 + 0x2F * 2 ^ 8) started.1), sm'))
unfolding tls_record certificates flatten
receive_all-server_flight_example =
    receive_all-server_flight act (λ q. q) collects tt (λ s n w sm. refl) add_cipher add_certif
      reads (λ t xs w. w) (client_hello 5) (3 ∷ []) 0 0x2F 0 chain [] connection (λ i. 7) 100 pieces
      (9 ∷ []) IsValid-empty refl (omega arith, (omega arith, tt)) (omega arith) (omega arith) refl
      (omega arith) (omega arith)

abbrev OfAction : {A : Type 0} → (A → Type 0) → Option A → Type 0
OfAction P none = Unit {0}
OfAction P (some a) = P a

stops : StopsOnFailure collects
stops = record {
  cipher_stops = λ action e t c w sm. subst (OfAction (λ a. Stops (a t c w sm))) e tt;
  certif_stops = λ action e t xs n w sm. subst (OfAction (λ a. Stops (a t xs n w sm))) e tt;
  failure_ends = λ action e t xs n w sm. absurd (cc e);
}

-- A header that is no handshake's, behind three bytes of the one before.
process_lvl4_data-Pending_example : Halts (Pending (λ q. q) tls_header1) (
    process_lvl4_data act
      (λ i. 7)
      4
      tt
      3
      (some (0x15 ∷ 3 ∷ 0 ∷ []))
      []
      (set_trigger (size_trigger sizeof_tls tls_header1) connection))
process_lvl4_data-Pending_example =
    process_lvl4_data-Pending (λ q. q) collects stops act tt (λ s n w sm. refl) (λ i. 7) 4 3
      (some (0x15 ∷ 3 ∷ 0 ∷ [])) tls_header1 sizeof_tls []
      (set_trigger (size_trigger sizeof_tls tls_header1) connection) refl (omega arith)
