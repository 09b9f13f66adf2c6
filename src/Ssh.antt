-- ===== src/Ssh.antt =====
-- protocols/ssh.cpp and include/ns/protocols/ssh.h: the SSH client that reads the server's host key.
pub mod Packets
pub mod Framing
pub mod Session
pub mod Tests
use nodescan.Prelude.{
  ℕ, ◌+◌, ◌-◌, Bool, true, false, not, Option, none, some, List, [], ◌∷◌, take, drop, get_elem?,
  ltb, leb, ◌==◌, ◌||◌, if◌then◌else◌, Exec, ret, deref, ◌>>=◌, add32, ntohl, starts_with,
}
use nodescan.Lvl4.{Lvl4Sm, size_trigger, char_trigger, set_trigger}
use nodescan.Buffer.{contents}
use nodescan.Ssl.{Result, DataAction, call_cb}
use nodescan.Ssh.Packets.{client_key_exchange, client_dh}

-- The closures that the client gives to its triggers, in the order of the connection.
pub data SshStep : Type 0 where
  banner answer1 packet1 answer2 packet2 : SshStep

-- The callbacks of class `SSH`.
pub record Ssh (F T W : Type 0) : Type 0 where
  pub on_certificate : Option (DataAction F T W)
  pub on_invalid_answer : Option (DataAction F T W)

-- "SSH-2.0"
abbrev pub ssh_20 : List ℕ
ssh_20 = 83 ∷ 83 ∷ 72 ∷ 45 ∷ 50 ∷ 46 ∷ 48 ∷ []

-- "SSH-2.0-OpenSSH_6.6.1p1 my-little-poney" and an end of line.
abbrev pub client_banner : List ℕ
client_banner =
    83 ∷ 83 ∷ 72 ∷ 45 ∷ 50 ∷ 46 ∷ 48 ∷ 45 ∷ 79 ∷ 112 ∷ 101 ∷ 110 ∷ 83 ∷ 83 ∷ 72 ∷ 95 ∷ 54 ∷ 46 ∷ 54
    ∷ 46 ∷ 49 ∷ 112 ∷ 49 ∷ 32 ∷ 109 ∷ 121 ∷ 45 ∷ 108 ∷ 105 ∷ 116 ∷ 116 ∷ 108 ∷ 101 ∷ 45 ∷ 112 ∷ 111
    ∷ 110 ∷ 101 ∷ 121 ∷ 13 ∷ 10 ∷ []

-- `ntohl` of the four bytes at a pointer.
unfoldable pub read_u32 : List ℕ → Exec ℕ
read_u32 buf = deref (get_elem? buf 3) >>= λ last. ret (ntohl buf)

module _ {F T W : Type 0} (step : SshStep → F) (send : T → List ℕ → W → W) (ssh : Ssh F T W) where
  -- `operator()`
  unfoldable pub ssh_start : T → W → Lvl4Sm F → Bool × W × Lvl4Sm F
  ssh_start t w sm = (true, send t client_banner w, set_trigger (char_trigger 10 (step banner)) sm)

  -- The closure for the server's first line.
  unfoldable pub on_banner : T → List ℕ → ℕ → W → Lvl4Sm F → Result F W
  on_banner t buf size w sm =
      let invalid = call_cb false ssh.on_invalid_answer (λ action. action t buf size) w sm in
      if ltb size 7
      then invalid
      else if not (starts_with ssh_20 buf)
      then invalid
      else ret (
        true,
        send t client_dh (send t client_key_exchange w),
        set_trigger (size_trigger 5 (step answer1)) sm,
      )

  -- `SSHAnswer`, on the first five bytes of a packet; `next` is what its rest is given to.
  unfoldable pub ssh_answer : SshStep → T → List ℕ → ℕ → W → Lvl4Sm F → Result F W
  ssh_answer next t buf size w sm = read_u32 buf >>= λ len0. deref (get_elem? buf 4) >>= λ padding.
      let len = add32 len0 padding in
      if leb len 7
      then ret (false, w, sm)
      else ret (true, w, set_trigger (size_trigger (len - 7) (step next)) sm)

  -- `SSHGetCertificate`
  unfoldable pub get_certificate : T → List ℕ → ℕ → W → Lvl4Sm F → Result F W
  get_certificate t buf size w sm =
      let invalid = λ (xs : List ℕ) (n : ℕ).
        call_cb false ssh.on_invalid_answer (λ action. action t xs n) w sm in
      let size' = size - 1 in
      let size'' = size' - 4 in
      if ltb size 1
      then invalid buf size
      else (deref (get_elem? buf 0) >>= λ type.
          if not (type == 0x1F)
          then invalid buf size
          else if ltb size' 4
          then invalid (drop 1 buf) size'
          else (read_u32 (drop 1 buf) >>= λ len.
              if ltb size'' len
              then invalid (drop 5 buf) size''
              else call_cb false ssh.on_certificate (λ action. action t (drop 5 buf) size'') w sm))

  -- What the closures do with the bytes at the front of the connection's buffer.
  pub ssh_call : SshStep → T → ℕ → W → Lvl4Sm F → Result F W
  unfolding on_banner ssh_answer get_certificate
  ssh_call banner t size w sm = on_banner t (contents sm.buf) size w sm
  ssh_call answer1 t size w sm = ssh_answer packet1 t (contents sm.buf) size w sm
  ssh_call packet1 t size w sm = ret (true, w, set_trigger (size_trigger 5 (step answer2)) sm)
  ssh_call answer2 t size w sm = ssh_answer packet2 t (contents sm.buf) size w sm
  ssh_call packet2 t size w sm = get_certificate t (contents sm.buf) size w sm
