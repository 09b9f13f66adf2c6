-- ===== src/Ssl/Hello.antt =====
-- protocols/ssl.cpp, `SSL::SSL()` and `operator()`: the client's hello, and the first trigger.
use nodescan.Prelude.{ℕ, ◌+◌, Bool, true, List, [], ◌∷◌, ◌++◌, length, replicate, htonl, htons}
use nodescan.Lvl4.{Lvl4Sm, size_trigger, set_trigger}
use nodescan.Ssl.{SslStep, tls_header1, sizeof_tls, sizeof_handshake}

-- The ten cipher suites as they stand in memory, the low byte of each element first.
abbrev pub cipher_suites : List ℕ
cipher_suites =
    0 ∷ 1 ∷ 0 ∷ 2 ∷ 0 ∷ 0x3B ∷ 0 ∷ 4 ∷ 0 ∷ 5 ∷ 0 ∷ 0x0A ∷ 0 ∷ 0x2F ∷ 0 ∷ 0x35 ∷ 0 ∷ 0x3C ∷ 0 ∷ 0x3D
    ∷ []

-- `sizeof(ClientHello)`: the version, the random bytes, the session id, the cipher suites with their
-- length, the compression and the length of the extensions.
abbrev pub sizeof_client_hello : ℕ
sizeof_client_hello = 2 + 32 + 1 + (2 + length cipher_suites) + 2 + 2

-- The bytes of `TLS tls`, `Handshake hs` and `ClientHello ch`.
abbrev pub tls_header : List ℕ
tls_header = 0x16 ∷ 3 ∷ 0 ∷ htons (sizeof_handshake + sizeof_client_hello)

abbrev pub handshake_header : List ℕ
handshake_header = 1 ∷ 0 ∷ 0 ∷ sizeof_client_hello ∷ []

abbrev pub hello_body : ℕ → List ℕ
hello_body now =
    (3 ∷ 0 ∷ [])
    ++ (htonl now
        ++ (replicate 28 0xAA
            ++ (0 ∷ (htons (length cipher_suites) ++ (cipher_suites ++ (1 ∷ 0 ∷ 0 ∷ 0 ∷ []))))))

-- `client_hello`, as `SSL()` fills it at the time `now`.
pub client_hello : ℕ → List ℕ
client_hello now = tls_header ++ (handshake_header ++ hello_body now)

module _ {F T W : Type 0} (step : SslStep → F) (send : T → List ℕ → W → W) where
  -- `operator()`: the hello is sent, and a TLS header is waited for.
  unfoldable pub ssl_start : List ℕ → T → W → Lvl4Sm F → Bool × W × Lvl4Sm F
  ssl_start hello t w sm =
      (true, send t hello w, set_trigger (size_trigger sizeof_tls (step tls_header1)) sm)
