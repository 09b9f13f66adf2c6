-- ===== src/Ssl/Certificates.antt =====
-- protocols/ssl.cpp, `on_handshake2`: the server's certificates.
use mathlib.Core.List.{append_assoc}
use nodescan.Prelude.{
  ℕ, zero, suc, ◌+◌, ◌-◌, ◌^◌, ◌<◌, ◌≤◌, ◌≡◌, refl, ap, ◌∙◌, true, false, some, List, [], ◌∷◌, ◌++◌,
  length, take, drop, ret, arith, length-append, take-append_self, drop-append_self,
}
use nodescan.Lvl4.{Lvl4Sm}
use nodescan.Ssl.{Ssl, SslStep, DataAction, certificates_loop, on_handshake2, sizeof_handshake}
use nodescan.Ssl.ServerHello.{
  length24, message, certificate_length-length24, handshake_fields-message,
}

-- The certificates of a message, each behind its length.
unfoldable pub certificates : List (List ℕ) → List ℕ
certificates [] = []
certificates (c ∷ cs) = length24 (length c) ++ (c ++ certificates cs)

abbrev pub Short : List (List ℕ) → Type 0
Short [] = Unit {0}
Short (c ∷ cs) = (length c < 2 ^ 24) × Short cs

-- The state after each certificate in turn.
pub after : {W : Type 0} → (List ℕ → W → W) → List (List ℕ) → W → W
after step [] w = w
after step (c ∷ cs) w = after step cs (step c w)

module _ {F T W : Type 0} (steps : SslStep → F) (ssl : Ssl F T W) (t : T) (sm : Lvl4Sm F) where
  one_certificate :
      (fuel size k len : ℕ) (w w' : W) (sm' : Lvl4Sm F) (xs : List ℕ) {action : DataAction F T W}
      → k < 2 ^ 24
      → k ≤ len
      → 3 ≤ len
      → ssl.on_certif ≡ some action
      → action t xs k w sm ≡ ret (true, w', sm')
      → certificates_loop steps ssl (suc fuel) t (length24 k ++ xs) size len w sm
        ≡ certificates_loop steps ssl fuel t (drop k xs) size (len - 3 - k) w' sm'
  unfolding certificates_loop
  one_certificate fuel size k len w w' sm' xs h le three has does =
      ground (arith, certificate_length-length24 k xs h, has, does)

  last_round :
      (fuel size : ℕ) (w : W) (xs : List ℕ)
      → certificates_loop steps ssl (suc fuel) t xs size 0 w sm ≡ ret (false, w, sm)
  unfolding certificates_loop
  last_round fuel size w xs = refl

  module _ (step : List ℕ → W → W) {action : DataAction F T W} (has : ssl.on_certif ≡ some action)
      (reads : (xs : List ℕ) (n : ℕ) (w : W)
        → action t xs n w sm ≡ ret (true, step (take n xs) w, sm)) where
    certificates_loop_all :
        (cs : List (List ℕ)) (fuel size : ℕ) (w : W) (rest : List ℕ)
        → Short cs
        → length (certificates cs) < fuel
        → certificates_loop steps ssl fuel t
            (certificates cs ++ rest)
            size
            (length (certificates cs))
            w
            sm
          ≡ ret (false, after step cs w, sm)
    unfolding certificates after
    certificates_loop_all cs zero size w rest short enough = absurd (omega arith)
    certificates_loop_all [] (suc fuel) size w rest short enough = last_round fuel size w rest
    certificates_loop_all (c ∷ cs) (suc fuel) size w rest short enough =
        let tail = certificates cs in
        let la = length-append c tail in
        let len = length (certificates (c ∷ cs)) in
        let got : step (take (length c) (c ++ (tail ++ rest))) w ≡ step c w =
          ap (λ xs. step xs w) (take-append_self c (tail ++ rest)) in
        let left : len - 3 - length c ≡ length tail = omega (arith, la) in
        ap
          (λ xs. certificates_loop steps ssl (suc fuel) t (length24 (length c) ++ xs) size len w sm)
          (append_assoc c tail rest)
        ∙ one_certificate fuel size (length c) len w (step c w) sm (c ++ (tail ++ rest)) short.0
            (omega (arith, la)) (omega arith) has
            (reads (c ++ (tail ++ rest)) (length c) w ∙ ap (λ v. ret (true, v, sm)) got)
        ∙ ap (λ xs. certificates_loop steps ssl fuel t xs size (len - 3 - length c) (step c w) sm)
            (drop-append_self c (tail ++ rest))
        ∙ ap (λ n. certificates_loop steps ssl fuel t (tail ++ rest) size n (step c w) sm) left
        ∙ certificates_loop_all cs fuel size (step c w) rest short.1 (omega (arith, la))

    -- A well-formed certificates message, each certificate shorter than 2 ^ 24 bytes, with any bytes
    -- behind it: a callback that reads its bytes and goes on is given each certificate in turn, and
    -- the connection then ends.
    pub on_handshake2-certificates :
        (cs : List (List ℕ)) (w : W) (rest : List ℕ)
        → Short cs
        → 3 + length (certificates cs) < 2 ^ 24
        → let body = length24 (length (certificates cs)) ++ certificates cs in
          on_handshake2 steps ssl t (message 11 body rest) (sizeof_handshake + length body) w sm
          ≡ ret (false, after step cs w, sm)
    unfolding on_handshake2
    on_handshake2-certificates cs w rest short small =
        let body = length24 (length (certificates cs)) ++ certificates cs in
        ground (
          arith,
          handshake_fields-message 11 body rest (omega arith),
          certificate_length-length24 (length (certificates cs)) (certificates cs ++ rest)
              (omega arith),
          certificates_loop_all cs (suc (length (certificates cs))) (length (certificates cs)) w
              rest short (omega arith),
        )

  -- The check of a certificate's length leaves out the three bytes of the length itself: a last
  -- certificate that claims up to three bytes more than are left is passed on with its claimed length.
  pub certificates_loop_overread :
      (k size fuel : ℕ) (body : List ℕ) (w w' : W) (sm' : Lvl4Sm F) {action : DataAction F T W}
      → length body < k
      → k ≤ 3 + length body
      → k < 2 ^ 24
      → ssl.on_certif ≡ some action
      → action t body k w sm ≡ ret (true, w', sm')
      → certificates_loop steps ssl
          (suc (suc fuel))
          t
          (length24 k ++ body)
          size
          (3 + length body)
          w
          sm
        ≡ ret (false, w', sm')
  unfolding certificates_loop
  certificates_loop_overread k size fuel body w w' sm' over le small has does =
      ground (arith, certificate_length-length24 k body small, has, does)
