-- ===== src/Ssl/Termination.antt =====
-- protocols/ssl.cpp: how often the client's closures are called, whatever the server sends.
pub mod Loop
use nodescan.Prelude.{
  ℕ, zero, suc, ◌+◌, ◌-◌, ◌*◌, ◌^◌, ◌<◌, ◌≤◌, ◌≡◌, refl, ap, subst, sym, ◌∙◌, Bool, true, false,
  not, Option, none, some, List, [], ◌∷◌, length, drop, get_elem?, ltb, leb, ◌==◌, ◌&&◌,
  if◌then◌else◌, Exec, ret, fault, out_of_fuel, deref, ◌>>=◌, arith, Halts, Halts->>=, Stops,
  Halts-deref, Halts-if, Halts-elim, Halts-mono, Option-cases, sub32, ntohs, Bool-cases, inl, inr,
}
use nodescan.Buffer.{Buffer, block, contents, pop_by, grow_by, store}
use nodescan.Lvl4.{
  Lvl4Sm, Trigger, size_trigger, set_trigger, ProcessReturnCode, no_more_to_process,
  can_process_again, connection_end,
}
use nodescan.Lvl4.Process.{
  Callbacks, size_process, trigger_process, process_loop, process_lvl4_data, consume,
}
use nodescan.Ssl.{
  Ssl, SslStep, Result, DataAction, tls_header1, handshake1, tls_header2, handshake2, call_cb,
  certificate_length, handshake_fields, read_u16, failure, certificates_loop, on_tls_header,
  on_handshake1, on_handshake2, ssl_call, sizeof_tls, sizeof_handshake,
}

-- How many closures may still be called.
abbrev pub steps_left : SslStep → ℕ
steps_left tls_header1 = 4
steps_left handshake1 = 3
steps_left tls_header2 = 2
steps_left handshake2 = 1

-- The callbacks of the user return or fault; the one for failures does not go on.
pub record StopsOnFailure {F T W : Type 0} (ssl : Ssl F T W) : Type 0 where
  pub cipher_stops :
      (action : T → ℕ → W → Lvl4Sm F → Result F W)
      → ssl.on_cipher ≡ some action
      → (t : T) (c : ℕ) (w : W) (sm : Lvl4Sm F) → Stops (action t c w sm)
  pub certif_stops :
      (action : DataAction F T W)
      → ssl.on_certif ≡ some action
      → (t : T) (xs : List ℕ) (n : ℕ) (w : W) (sm : Lvl4Sm F) → Stops (action t xs n w sm)
  pub failure_ends :
      (action : DataAction F T W)
      → ssl.on_failure ≡ some action
      → (t : T) (xs : List ℕ) (n : ℕ) (w : W) (sm : Lvl4Sm F)
      → Halts (λ r. r.0 ≡ false) (action t xs n w sm)

certificate_length-Stops : (buf : List ℕ) → Stops (certificate_length buf)
unfolding certificate_length
certificate_length-Stops buf =
    Halts-deref _ (get_elem? buf 0) _
      (λ a. Halts-deref _ (get_elem? buf 1) _ (λ b. Halts-deref _ (get_elem? buf 2) _ (λ c. tt)))

handshake_fields-Stops : (buf : List ℕ) → Stops (handshake_fields buf)
unfolding handshake_fields
handshake_fields-Stops buf = Halts-deref _ (get_elem? buf 0) _ (λ type.
    Halts->>= (λ n. Unit {0}) _ (certificate_length (drop 1 buf)) _
      (certificate_length-Stops (drop 1 buf)) (λ n e u. tt))

read_u16-Stops : (buf : List ℕ) (i : ℕ) → Stops (read_u16 buf i)
unfolding read_u16
read_u16-Stops buf i =
    Halts-deref _ (get_elem? buf i) _ (λ a. Halts-deref _ (get_elem? buf (i + 1)) _ (λ b. tt))

module _ {F W : Type 0} (step : SslStep → F) where
  -- What a closure leaves: an end, or a trigger for a later closure.
  abbrev pub Advances : SslStep → Bool × W × Lvl4Sm F → Type 0
  Advances s r =
      (r.0 ≡ true)
      → (s' : SslStep) × (n : ℕ) × (r.2.trigger ≡ size_trigger n (step s'))
        × (steps_left s' < steps_left s)

module _ {F T W : Type 0} (step : SslStep → F) (ssl : Ssl F T W) (stops : StopsOnFailure ssl) where
  failure-Advances :
      (s : SslStep) (t : T) (buf : List ℕ) (size : ℕ) (w : W) (sm : Lvl4Sm F)
      → Halts (Advances step s) (failure step ssl t buf size w sm)
  unfolding failure
  failure-Advances s t buf size w sm = elim (Option-cases ssl.on_failure) [
    | inl e ↦ rw e (λ goes. absurd (cc goes))
    | inr (action, e) ↦ rw e (
        Halts-mono (λ r. r.0 ≡ false) (Advances step s) (action t buf size w sm)
          (stops.failure_ends action e t buf size w sm)
          (λ r same ends goes. absurd (cc (ends, goes))))
  ]

  cipher-Stops :
      (t : T) (c : ℕ) (w : W) (sm : Lvl4Sm F)
      → Stops (call_cb true ssl.on_cipher (λ action. action t c) w sm)
  cipher-Stops t c w sm = elim (Option-cases ssl.on_cipher) [
    | inl e ↦ rw e tt
    | inr (action, e) ↦ rw e (stops.cipher_stops action e t c w sm)
  ]

  certif-Stops :
      (t : T) (xs : List ℕ) (n : ℕ) (w : W) (sm : Lvl4Sm F)
      → Stops (call_cb true ssl.on_certif (λ action. action t xs n) w sm)
  certif-Stops t xs n w sm = elim (Option-cases ssl.on_certif) [
    | inl e ↦ rw e tt
    | inr (action, e) ↦ rw e (stops.certif_stops action e t xs n w sm)
  ]

  certificates_loop-Advances :
      (fuel : ℕ) (t : T) (buf : List ℕ) (size crts_len : ℕ) (w : W) (sm : Lvl4Sm F)
      → crts_len < fuel
      → Halts (Advances step handshake2) (certificates_loop step ssl fuel t buf size crts_len w sm)
  unfolding certificates_loop
  certificates_loop-Advances zero t buf size crts_len w sm h = absurd (omega arith)
  certificates_loop-Advances (suc fuel) t buf size crts_len w sm h =
      elim (Bool-cases (crts_len == 0)) [
        | inl over ↦ rw over (λ goes. absurd (cc goes))
        | inr more ↦ rw more (
            Halts-if _ (ltb crts_len 3) _ _ (failure-Advances handshake2 t buf size w sm) (
              Halts->>= (λ n. Unit {0}) _ (certificate_length buf) _ (certificate_length-Stops buf)
                (λ n e u.
                  Halts-if _ (ltb crts_len n) _ _ (failure-Advances handshake2 t buf size w sm) (
                    Halts->>= (λ r. Unit {0}) _
                      (call_cb true ssl.on_certif (λ action. action t (drop 3 buf) n) w sm) _
                      (certif-Stops t (drop 3 buf) n w sm)
                      (λ r e' u'.
                        Halts-elim _ r.0 _ _
                          (certificates_loop-Advances fuel t (drop n (drop 3 buf)) size
                            (crts_len - 3 - n) r.1 r.2 (ground (arith, more)))
                          (λ goes. absurd (cc goes)))))))
      ]

  on_tls_header-Advances :
      (s on_hs : SslStep) (t : T) (buf : List ℕ) (size : ℕ) (w : W) (sm : Lvl4Sm F)
      → steps_left on_hs < steps_left s
      → Halts (Advances step s) (on_tls_header step ssl t buf size on_hs w sm)
  unfolding on_tls_header
  on_tls_header-Advances s on_hs t buf size w sm less = Halts-deref _ (get_elem? buf 0) _ (λ type.
      Halts-if _ (not (type == 0x16)) _ _ (failure-Advances s t buf size w sm) (
        Halts-deref _ (get_elem? buf 3) _ (λ hi.
          Halts-deref _ (get_elem? buf 4) _
            (λ lo goes. (on_hs, ntohs (hi ∷ lo ∷ []), refl, less)))))

  on_handshake1-Advances :
      (t : T) (buf : List ℕ) (size : ℕ) (w : W) (sm : Lvl4Sm F)
      → Halts (Advances step handshake1) (on_handshake1 step ssl t buf size w sm)
  unfolding on_handshake1
  on_handshake1-Advances t buf size w sm =
      let size' = size - sizeof_handshake in
      let fails = failure-Advances handshake1 t buf size' w sm in
      Halts-if _ (ltb size sizeof_handshake) _ _ (failure-Advances handshake1 t buf size w sm) (
        Halts->>= (λ hs. Unit {0}) _ (handshake_fields buf) _ (handshake_fields-Stops buf)
          (λ hs e u. Halts-if _ (not (hs.0 == 2)) _ _ fails (
            Halts-if _ (not (hs.1 == size')) _ _ fails (
              Halts->>= (λ c. Unit {0}) _ (read_u16 (drop sizeof_handshake buf) (sub32 size' 3)) _
                (read_u16-Stops (drop sizeof_handshake buf) (sub32 size' 3))
                (λ c e' u'.
                  Halts->>= (λ r. Unit {0}) _
                    (call_cb true ssl.on_cipher (λ action. action t c) w sm) _
                    (cipher-Stops t c w sm)
                    (λ r e'' u''.
                      Halts-if _ r.0 _ _ (λ goes. (tls_header2, sizeof_tls, refl, omega arith))
                        (λ goes. absurd (cc goes))))))))

  on_handshake2-Advances :
      (t : T) (buf : List ℕ) (size : ℕ) (w : W) (sm : Lvl4Sm F)
      → Halts (Advances step handshake2) (on_handshake2 step ssl t buf size w sm)
  unfolding on_handshake2
  on_handshake2-Advances t buf size w sm =
      let size' = size - sizeof_handshake in
      let body = drop sizeof_handshake buf in
      let fails = failure-Advances handshake2 t buf size' w sm in
      Halts-if _ (ltb size sizeof_handshake) _ _ (failure-Advances handshake2 t buf size w sm) (
        Halts->>= (λ hs. Unit {0}) _ (handshake_fields buf) _ (handshake_fields-Stops buf)
          (λ hs e u. Halts-if _ (not (hs.0 == 11)) _ _ fails (
            Halts-if _ (not (hs.1 == size')) _ _ fails (
              Halts-if _ (ltb size' 3) _ _ (failure-Advances handshake2 t body size' w sm) (
                Halts->>= (λ c. Unit {0}) _ (certificate_length body) _
                  (certificate_length-Stops body)
                  (λ crts_len e' u'.
                    Halts-if _ (not (crts_len == size' - 3)) _ _
                      (failure-Advances handshake2 t (drop 3 body) (size' - 3) w sm)
                      (certificates_loop-Advances (suc crts_len) t (drop 3 body) (size' - 3)
                        crts_len w sm (omega arith))))))))

  -- Each call of a closure ends the connection or waits for a closure with fewer steps left.
  pub ssl_call-Advances :
      (s : SslStep) (t : T) (size : ℕ) (w : W) (sm : Lvl4Sm F)
      → Halts (Advances step s) (ssl_call step ssl s t size w sm)
  unfolding ssl_call
  ssl_call-Advances tls_header1 t size w sm =
      on_tls_header-Advances tls_header1 handshake1 t (contents sm.buf) size w sm (omega arith)
  ssl_call-Advances handshake1 t size w sm = on_handshake1-Advances t (contents sm.buf) size w sm
  ssl_call-Advances tls_header2 t size w sm =
      on_tls_header-Advances tls_header2 handshake2 t (contents sm.buf) size w sm (omega arith)
  ssl_call-Advances handshake2 t size w sm = on_handshake2-Advances t (contents sm.buf) size w sm
