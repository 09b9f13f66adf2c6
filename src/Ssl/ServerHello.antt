-- ===== src/Ssl/ServerHello.antt =====
-- protocols/ssl.cpp, `on_handshake1`: the server's hello.
use mathlib.Core.List.{append_assoc}
use nodescan.Prelude.{
  ℕ, ◌+◌, ◌-◌, ◌*◌, ◌/◌, ◌%◌, ◌^◌, ◌<◌, ◌≡◌, ap, ◌∙◌, Bool, some, List, [], ◌∷◌, ◌++◌, length,
  get_elem?, Exec, ret, fault, arith, if◌then◌else◌, length-append, get_elem?-append_add,
  get_elem?-none, sub32,
}
use nodescan.Lvl4.{Lvl4Sm, size_trigger, set_trigger}
use nodescan.Ssl.{
  Ssl, SslStep, tls_header2, handshake_fields, certificate_length, read_u16, on_handshake1,
  sizeof_tls, sizeof_handshake,
}

-- A length of three bytes, the high byte first.
abbrev pub length24 : ℕ → List ℕ
length24 n = (n / 2 ^ 16 % 2 ^ 8) ∷ (n / 2 ^ 8 % 2 ^ 8) ∷ (n % 2 ^ 8) ∷ []

pub certificate_length-length24 :
    (n : ℕ) (xs : List ℕ) → n < 2 ^ 24 → certificate_length (length24 n ++ xs) ≡ ret n
unfolding certificate_length
certificate_length-length24 n xs h = ap ret (omega arith)

-- A handshake message of a type, with its body and what follows it.
abbrev pub message : ℕ → List ℕ → List ℕ → List ℕ
message type body rest = type ∷ (length24 (length body) ++ (body ++ rest))

pub handshake_fields-message :
    (type : ℕ) (body rest : List ℕ)
    → length body < 2 ^ 24
    → handshake_fields (message type body rest) ≡ ret (type, length body)
unfolding handshake_fields
handshake_fields-message type body rest h = ap (λ n. ret (type, n)) (omega arith)

read_u16-append :
    (pre rest : List ℕ) (lo hi : ℕ)
    → read_u16 (pre ++ (lo ∷ hi ∷ rest)) (length pre) ≡ ret (lo + hi * 2 ^ 8)
unfolding read_u16
read_u16-append pre rest lo hi =
    let xs = lo ∷ hi ∷ rest in
    let a : get_elem? (pre ++ xs) (length pre) ≡ some lo =
      ap (get_elem? (pre ++ xs)) (omega arith) ∙ get_elem?-append_add pre xs 0 in
    rw (a, get_elem?-append_add pre xs 1)

module _ {F T W : Type 0} (step : SslStep → F) (ssl : Ssl F T W) (t : T) (w : W)
    (sm : Lvl4Sm F) where
  -- A hello whose body ends with a cipher and one byte more: `on_cipher` is given that cipher, and if
  -- it goes on, the next TLS header is waited for; if not, the connection ends.
  pub on_handshake1-cipher :
      (pre rest : List ℕ) (lo hi compression : ℕ)
      {action : T → ℕ → W → Lvl4Sm F → Exec (Bool × W × Lvl4Sm F)} {go : Bool} {w' : W}
      {sm' : Lvl4Sm F}
      → let body = pre ++ (lo ∷ hi ∷ compression ∷ []) in
        length body < 2 ^ 24
        → ssl.on_cipher ≡ some action
        → action t (lo + hi * 2 ^ 8) w sm ≡ ret (go, w', sm')
        → on_handshake1 step ssl t (message 2 body rest) (sizeof_handshake + length body) w sm
          ≡ ret (
            go,
            w',
            (if go then set_trigger (size_trigger sizeof_tls (step tls_header2)) sm' else sm'),
          )
  unfolding on_handshake1
  on_handshake1-cipher pre rest lo hi compression {action} {go} {w'} {sm'} small has does =
      let body = pre ++ (lo ∷ hi ∷ compression ∷ []) in
      let len = length-append pre (lo ∷ hi ∷ compression ∷ []) in
      let i : sub32 (sizeof_handshake + length body - sizeof_handshake) 3 ≡ length pre =
        omega (arith, len) in
      let cipher : read_u16 (body ++ rest)
            (sub32 (sizeof_handshake + length body - sizeof_handshake) 3)
          ≡ ret (lo + hi * 2 ^ 8) =
        ap (read_u16 (body ++ rest)) i
        ∙ ap (λ xs. read_u16 xs (length pre)) (append_assoc pre (lo ∷ hi ∷ compression ∷ []) rest)
        ∙ read_u16-append pre (compression ∷ rest) lo hi in
      ground (arith, handshake_fields-message 2 body rest small, cipher, has, does)

  -- A hello whose body has fewer than three bytes: the cipher is read four gigabytes behind the
  -- buffer, which is a fault unless that much memory follows.
  pub on_handshake1-fault :
      (body rest : List ℕ)
      → length body < 3
      → length body + length rest < 2 ^ 31
      → on_handshake1 step ssl t (message 2 body rest) (sizeof_handshake + length body) w sm ≡ fault
  unfolding on_handshake1 read_u16
  on_handshake1-fault body rest short fits =
      let len = length-append body rest in
      ground (
        arith,
        handshake_fields-message 2 body rest (omega arith),
        get_elem?-none (body ++ rest) (sub32 (length body) 3) (omega (arith, len)),
      )
