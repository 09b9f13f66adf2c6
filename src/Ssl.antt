-- ===== src/Ssl.antt =====
-- include/ns/protocols/ssl_structs.h, ssl.h and protocols/ssl.cpp: the TLS client that reads the
-- server's cipher and certificates. The packed structures are read from the bytes, on a host that
-- stores the low byte first.
pub mod Hello
pub mod ServerHello
pub mod Certificates
pub mod Session
pub mod Termination
pub mod Tests
use nodescan.Prelude.{
  ℕ, zero, suc, ◌+◌, ◌-◌, ◌*◌, ◌^◌, Bool, true, false, not, Option, none, some, List, [], ◌∷◌, drop,
  get_elem?, ltb, ◌==◌, if◌then◌else◌, Exec, ret, out_of_fuel, deref, ◌>>=◌, sub32, ntohs,
}
use nodescan.Buffer.{contents}
use nodescan.Lvl4.{Lvl4Sm, size_trigger, set_trigger}

-- The four closures that the client gives to its triggers.
pub data SslStep : Type 0 where
  tls_header1 handshake1 tls_header2 handshake2 : SslStep

-- `sizeof(TLS)` and `sizeof(Handshake)`
abbrev pub sizeof_tls : ℕ
sizeof_tls = 5

abbrev pub sizeof_handshake : ℕ
sizeof_handshake = 4

-- `Certificate::get_length`, from the three bytes at a pointer.
unfoldable pub certificate_length : List ℕ → Exec ℕ
certificate_length buf = deref (get_elem? buf 0) >>= λ l2. deref (get_elem? buf 1) >>= λ l1.
    deref (get_elem? buf 2) >>= λ l0. ret (l2 * 2 ^ 16 + l1 * 2 ^ 8 + l0)

-- `msg_type` and `get_length` of a `Handshake`.
unfoldable pub handshake_fields : List ℕ → Exec (ℕ × ℕ)
unfolding certificate_length
handshake_fields buf =
    deref (get_elem? buf 0) >>= λ type. certificate_length (drop 1 buf) >>= λ len. ret (type, len)

-- A `uint16_t` read at an index, low byte first.
unfoldable pub read_u16 : List ℕ → ℕ → Exec ℕ
read_u16 buf i =
    deref (get_elem? buf i) >>= λ lo. deref (get_elem? buf (i + 1)) >>= λ hi. ret (lo + hi * 2 ^ 8)

-- A connection of type `T` in a program `W` whose callbacks are named by `F`; a result is whether to
-- go on, with what the callback changed.
abbrev pub Result : Type 0 → Type 0 → Type 0
Result F W = Exec (Bool × W × Lvl4Sm F)

-- A `Lvl4DataAction` of the user: it is given the bytes from a pointer on, and a size.
abbrev pub DataAction : Type 0 → Type 0 → Type 0 → Type 0
DataAction F T W = T → List ℕ → ℕ → W → Lvl4Sm F → Result F W

-- `call_cb<def>`
abbrev pub call_cb :
    {A F W : Type 0} → Bool → Option A → (A → W → Lvl4Sm F → Result F W) → W → Lvl4Sm F → Result F W
call_cb def none run w sm = ret (def, w, sm)
call_cb def (some action) run w sm = run action w sm

-- The callbacks of class `SSL`.
pub record Ssl (F T W : Type 0) : Type 0 where
  pub on_certif : Option (DataAction F T W)
  pub on_cipher : Option (T → ℕ → W → Lvl4Sm F → Result F W)
  pub on_failure : Option (DataAction F T W)

module _ {F T W : Type 0} (step : SslStep → F) (ssl : Ssl F T W) where
  failure : T → List ℕ → ℕ → W → Lvl4Sm F → Result F W
  failure t buf size w sm = call_cb false ssl.on_failure (λ action. action t buf size) w sm

  unfoldable pub on_tls_header : T → List ℕ → ℕ → SslStep → W → Lvl4Sm F → Result F W
  unfolding failure
  on_tls_header t buf size on_hs w sm = deref (get_elem? buf 0) >>= λ msg_type.
      if not (msg_type == 0x16)
      then failure t buf size w sm
      else (deref (get_elem? buf 3) >>= λ hi. deref (get_elem? buf 4) >>= λ lo.
          ret (true, w, set_trigger (size_trigger (ntohs (hi ∷ lo ∷ [])) (step on_hs)) sm))

  -- `size` is a `uint32_t`: the index of the cipher wraps when fewer than three bytes follow.
  unfoldable pub on_handshake1 : T → List ℕ → ℕ → W → Lvl4Sm F → Result F W
  unfolding failure
  on_handshake1 t buf size w sm =
      let size' = size - sizeof_handshake in
      if ltb size sizeof_handshake
      then failure t buf size w sm
      else (handshake_fields buf >>= λ hs.
          if not (hs.0 == 2)
          then failure t buf size' w sm
          else if not (hs.1 == size')
          then failure t buf size' w sm
          else (read_u16 (drop sizeof_handshake buf) (sub32 size' 3) >>= λ cipher.
              call_cb true ssl.on_cipher (λ action. action t cipher) w sm >>= λ r.
              if r.0
              then ret (true, r.1, set_trigger (size_trigger sizeof_tls (step tls_header2)) r.2)
              else ret (false, r.1, r.2)))

  -- The loop over the certificates. `crts_len` is an `int` that may become negative: the loop then
  -- stops as it does at 0, so the subtraction that stops at 0 is the same.
  unfoldable pub certificates_loop : ℕ → T → List ℕ → ℕ → ℕ → W → Lvl4Sm F → Result F W
  unfolding failure
  certificates_loop zero t buf size crts_len w sm = out_of_fuel
  certificates_loop (suc fuel) t buf size crts_len w sm =
      if crts_len == 0
      then ret (false, w, sm)
      else if ltb crts_len 3
      then failure t buf size w sm
      else (certificate_length buf >>= λ crt_len.
          if ltb crts_len crt_len
          then failure t buf size w sm
          else (call_cb true ssl.on_certif (λ action. action t (drop 3 buf) crt_len) w sm >>= λ r.
              elim r.0 [
                | true ↦
                    certificates_loop fuel t (drop crt_len (drop 3 buf)) size
                      (crts_len - 3 - crt_len) r.1 r.2
                | false ↦ ret (false, r.1, r.2)
              ]))

  -- As many rounds as bytes are enough, with one to leave the loop.
  unfoldable pub on_handshake2 : T → List ℕ → ℕ → W → Lvl4Sm F → Result F W
  unfolding failure
  on_handshake2 t buf size w sm =
      let size' = size - sizeof_handshake in
      let body = drop sizeof_handshake buf in
      let size'' = size' - 3 in
      if ltb size sizeof_handshake
      then failure t buf size w sm
      else (handshake_fields buf >>= λ hs.
          if not (hs.0 == 11)
          then failure t buf size' w sm
          else if not (hs.1 == size')
          then failure t buf size' w sm
          else if ltb size' 3
          then failure t body size' w sm
          else (certificate_length body >>= λ crts_len.
              if not (crts_len == size'')
              then failure t (drop 3 body) size'' w sm
              else certificates_loop (suc crts_len) t (drop 3 body) size'' crts_len w sm))

  -- What the closures do with the bytes at the front of the connection's buffer.
  pub ssl_call : SslStep → T → ℕ → W → Lvl4Sm F → Result F W
  unfolding on_tls_header on_handshake1 on_handshake2
  ssl_call tls_header1 t size w sm = on_tls_header t (contents sm.buf) size handshake1 w sm
  ssl_call handshake1 t size w sm = on_handshake1 t (contents sm.buf) size w sm
  ssl_call tls_header2 t size w sm = on_tls_header t (contents sm.buf) size handshake2 w sm
  ssl_call handshake2 t size w sm = on_handshake2 t (contents sm.buf) size w sm
