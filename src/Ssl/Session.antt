-- ===== src/Ssl/Session.antt =====
-- protocols/ssl.cpp: a whole session, from the client's hello to the server's last certificate, under
-- the loop of `process_lvl4_data`.
use mathlib.Core.List.{flatten, append_assoc}
use nodescan.Prelude.{
  ℕ, ◌+◌, ◌*◌, ◌<◌, ◌^◌, ◌≡◌, refl, ap, ◌∙◌, true, false, some, List, [], ◌∷◌, ◌++◌, take, length,
  ret, arith, length-append, htons, ntohs-htons,
}
use nodescan.Buffer.{contents}
use nodescan.Buffer.Laws.{IsValid, length-contents}
use nodescan.Lvl4.{Lvl4Sm, size_trigger, set_trigger}
use nodescan.Lvl4.Process.{Callbacks}
use nodescan.Lvl4.Framing.Chunks.{receive_all}
use nodescan.Lvl4.Dialog.{Dialog, Ends, Goes, closes, turns}
use nodescan.Lvl4.Dialog.Run.{receive_all-Dialog}
use nodescan.Ssl.{
  Ssl, SslStep, Result, DataAction, tls_header1, handshake1, tls_header2, handshake2, sizeof_tls,
  sizeof_handshake, on_tls_header, on_handshake1, on_handshake2, ssl_call,
}
use nodescan.Ssl.Hello.{ssl_start}
use nodescan.Ssl.ServerHello.{length24, message, on_handshake1-cipher}
use nodescan.Ssl.Certificates.{certificates, Short, after, on_handshake2-certificates}

-- One message in a record of its own, which states its length.
unfoldable pub tls_record : List ℕ → List ℕ
tls_record xs = 0x16 ∷ 3 ∷ 0 ∷ (htons (length xs) ++ xs)

-- The bodies of a server's hello and of its certificates.
abbrev pub hello_end : List ℕ → ℕ → ℕ → ℕ → List ℕ
hello_end pre lo hi compression = pre ++ (lo ∷ hi ∷ compression ∷ [])

abbrev pub chain_body : List (List ℕ) → List ℕ
chain_body cs = length24 (length (certificates cs)) ++ certificates cs

-- The two messages that the client reads, each in its record.
abbrev pub server_flight : List ℕ → List (List ℕ) → List ℕ
server_flight hello cs =
    tls_record (message 2 hello []) ++ tls_record (message 11 (chain_body cs) [])

message_rest :
    (type : ℕ) (body rest : List ℕ) → message type body [] ++ rest ≡ message type body rest
message_rest type body rest =
    ap (λ xs. type ∷ (length24 (length body) ++ xs)) (append_assoc body [] rest)

pub length-message :
    (type : ℕ) (body : List ℕ) → length (message type body []) ≡ sizeof_handshake + length body
length-message type body = omega (arith, length-append body [])

-- Callbacks that read what they are given, and go on.
pub record Collects {F T W : Type 0} (ssl : Ssl F T W) (t : T) (cipher : ℕ → W → W)
    (certif : List ℕ → W → W) : Type 0 where
  pub cipher_action : T → ℕ → W → Lvl4Sm F → Result F W
  pub has_cipher : ssl.on_cipher ≡ some cipher_action
  pub reads_cipher :
      (c : ℕ) (w : W) (sm : Lvl4Sm F) → cipher_action t c w sm ≡ ret (true, cipher c w, sm)
  pub certif_action : DataAction F T W
  pub has_certif : ssl.on_certif ≡ some certif_action
  pub reads_certif :
      (xs : List ℕ) (n : ℕ) (w : W) (sm : Lvl4Sm F)
      → certif_action t xs n w sm ≡ ret (true, certif (take n xs) w, sm)

module _ {F T W : Type 0} (act : Callbacks F T W) (step : SslStep → F) (ssl : Ssl F T W) (t : T)
    (calls : (s : SslStep) (n : ℕ) (w : W) (sm : Lvl4Sm F)
      → act.call (step s) t n w sm ≡ ssl_call step ssl s t n w sm) where
  header_turn :
      (s next : SslStep) (xs : List ℕ) (w : W)
      → ((sm : Lvl4Sm F)
          → ssl_call step ssl s t sizeof_tls w sm
            ≡ on_tls_header step ssl t (contents sm.buf) sizeof_tls next w sm)
      → length xs < 2 ^ 16
      → Goes act t
          (size_trigger sizeof_tls (step s))
          (step s)
          sizeof_tls
          (0x16 ∷ 3 ∷ 0 ∷ htons (length xs))
          w
          (size_trigger (length xs) (step next))
          w
  unfolding on_tls_header
  header_turn s next xs w is small sm rest v is_tr all = (
    set_trigger (size_trigger (length xs) (step next)) sm,
    0x16 ∷ 3 ∷ 0 ∷ htons (length xs),
    calls s sizeof_tls w sm
        ∙ is sm
        ∙ ap (λ buf. on_tls_header step ssl t buf sizeof_tls next w sm) all
        ∙ ap (λ n. ret (true, w, set_trigger (size_trigger n (step next)) sm))
            (ntohs-htons (length xs) small),
    refl,
    v,
    all,
    refl,
  )

  module _ (cipher : ℕ → W → W) (certif : List ℕ → W → W)
      (reads : Collects ssl t cipher certif) where
    open reads use {has_cipher, reads_cipher, has_certif, reads_certif}

    hello_turn :
        (pre : List ℕ) (lo hi compression : ℕ) (w : W)
        → let m = message 2 (hello_end pre lo hi compression) [] in
          length m < 2 ^ 16
          → Goes act t
              (size_trigger (length m) (step handshake1))
              (step handshake1)
              (length m)
              m
              w
              (size_trigger sizeof_tls (step tls_header2))
              (cipher (lo + hi * 2 ^ 8) w)
    unfolding ssl_call
    hello_turn pre lo hi compression w small sm rest v is_tr all =
        let body = hello_end pre lo hi compression in
        let m = message 2 body [] in
        let size = length-message 2 body in
        (
          set_trigger (size_trigger sizeof_tls (step tls_header2)) sm,
          m,
          calls handshake1 (length m) w sm
              ∙ ap (λ buf. on_handshake1 step ssl t buf (length m) w sm)
                  (all ∙ message_rest 2 body rest)
              ∙ ap (λ n. on_handshake1 step ssl t (message 2 body rest) n w sm) size
              ∙ on_handshake1-cipher step ssl t w sm pre rest lo hi compression
                  (omega (arith, size)) has_cipher (reads_cipher (lo + hi * 2 ^ 8) w sm),
          refl,
          v,
          all,
          refl,
        )

    certificates_end :
        (cs : List (List ℕ)) (w : W)
        → Short cs
        → let m = message 11 (chain_body cs) [] in
          length m < 2 ^ 16
          → Ends act t
              (size_trigger (length m) (step handshake2))
              (step handshake2)
              (length m)
              m
              w
              (after certif cs w)
    unfolding ssl_call
    certificates_end cs w short small sm rest v is_tr all =
        let body = chain_body cs in
        let m = message 11 body [] in
        let size = length-message 11 body in
        (
          sm,
          calls handshake2 (length m) w sm
              ∙ ap (λ buf. on_handshake2 step ssl t buf (length m) w sm)
                  (all ∙ message_rest 11 body rest)
              ∙ ap (λ n. on_handshake2 step ssl t (message 11 body rest) n w sm) size
              ∙ on_handshake2-certificates step ssl t sm certif has_certif
                  (λ xs n w'. reads_certif xs n w' sm) cs w rest short (omega (arith, size)),
        )

    session :
        (pre : List ℕ) (lo hi compression : ℕ) (cs : List (List ℕ)) (w : W)
        → Short cs
        → let hello = hello_end pre lo hi compression in
          length (message 2 hello []) < 2 ^ 16
          → length (message 11 (chain_body cs) []) < 2 ^ 16
          → Dialog act t
              (size_trigger sizeof_tls (step tls_header1))
              w
              (server_flight hello cs)
              false
              (after certif cs (cipher (lo + hi * 2 ^ 8) w))
    unfolding tls_record ssl_call
    session pre lo hi compression cs w short small1 small2 =
        let m1 = message 2 (hello_end pre lo hi compression) [] in
        let m2 = message 11 (chain_body cs) [] in
        let w1 = cipher (lo + hi * 2 ^ 8) w in
        turns (step tls_header1) sizeof_tls (0x16 ∷ 3 ∷ 0 ∷ htons (length m1))
          (size_trigger (length m1) (step handshake1)) w (m1 ++ tls_record m2)
          (refl, refl, refl, omega arith)
          (header_turn tls_header1 handshake1 m1 w (λ sm. refl) small1)
          (turns (step handshake1) (length m1) m1 (size_trigger sizeof_tls (step tls_header2)) w1
            (tls_record m2) (refl, refl, refl, omega arith)
            (hello_turn pre lo hi compression w small1)
            (turns (step tls_header2) sizeof_tls (0x16 ∷ 3 ∷ 0 ∷ htons (length m2))
              (size_trigger (length m2) (step handshake2)) w1 m2 (refl, refl, refl, omega arith)
              (header_turn tls_header2 handshake2 m2 w1 (λ sm. refl) small2)
              (closes (step handshake2) (length m2) m2 (refl, refl, refl, omega arith)
                (certificates_end cs w1 short small2))))

    -- A server's hello and its certificates, each message in a record of its own and shorter than
    -- 2 ^ 16 bytes, after a start on a valid connection with an empty buffer, and with callbacks that
    -- read what they are given and go on: however these bytes and any behind them are cut into chunks,
    -- each read in full, fewer than 2 ^ 30 bytes and less than the fuel in all, processing returns. The
    -- callbacks then have got the cipher and each certificate, in order and once, and the connection
    -- ends.
    pub receive_all-server_flight :
        (send : T → List ℕ → W → W) (hello_bytes pre : List ℕ) (lo hi compression : ℕ)
        (cs : List (List ℕ)) (w : W) (sm : Lvl4Sm F) (uninit : ℕ → ℕ) (fuel : ℕ)
        (chunks : List (List ℕ)) (rest : List ℕ)
        → IsValid sm.buf
        → contents sm.buf ≡ []
        → Short cs
        → length (message 2 (hello_end pre lo hi compression) []) < 2 ^ 16
        → length (message 11 (chain_body cs) []) < 2 ^ 16
        → flatten chunks ≡ server_flight (hello_end pre lo hi compression) cs ++ rest
        → length (flatten chunks) < 2 ^ 30
        → length (flatten chunks) < fuel
        → let started = ssl_start step send hello_bytes t w sm in
          (sm' : Lvl4Sm F) × (receive_all act uninit fuel t chunks started.1 started.2
            ≡ ret (false, after certif cs (cipher (lo + hi * 2 ^ 8) started.1), sm'))
    unfolding ssl_start
    receive_all-server_flight send hello_bytes pre lo hi compression cs w sm uninit fuel chunks rest
          v no_bytes short small1 small2 all small enough =
        let started = ssl_start step send hello_bytes t w sm in
        let old = length-contents sm.buf v in
        receive_all-Dialog act t uninit fuel chunks
          (session pre lo hi compression cs started.1 short small1 small2) started.2 rest v refl
          (omega (arith, ap length no_bytes)) (ap (λ xs. xs ++ flatten chunks) no_bytes ∙ all)
          (λ e. cc) (omega (arith, ap length no_bytes)) (omega (arith, ap length no_bytes))
