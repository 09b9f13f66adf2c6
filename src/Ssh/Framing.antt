-- ===== src/Ssh/Framing.antt =====
-- protocols/ssh.cpp: the client's answers to the server's line and packets.
use nodescan.Prelude.{
  ℕ, ◌+◌, ◌-◌, ◌^◌, ◌<◌, ◌≡◌, ◌↔◌, refl, true, some, List, ◌∷◌, ◌++◌, length, ret, arith, htonl,
  ntohl,
}
use nodescan.Lvl4.{Lvl4Sm, size_trigger, set_trigger}
use nodescan.Ssl.{DataAction}
use nodescan.Ssh.Packets.{client_key_exchange, client_dh}
use nodescan.Ssh.{Ssh, SshStep, answer1, ssh_20, read_u32, on_banner, ssh_answer, get_certificate}

-- One packet that states its length in its first four bytes.
abbrev pub Framed : List ℕ → Type 0
Framed xs = ntohl xs + 4 ≡ length xs

module _ {F T W : Type 0} (step : SshStep → F) (send : T → List ℕ → W → W) (ssh : Ssh F T W) (t : T)
    (w : W) (sm : Lvl4Sm F) where
  -- A line that starts with "SSH-2.0", with any bytes behind it: the client sends two packets, each of which states the number
  -- of its bytes rightly, and waits for the first five bytes of a packet.
  pub on_banner-Framed :
      (line rest : List ℕ)
      → Framed client_key_exchange
        × Framed client_dh
        × (on_banner step send ssh t (ssh_20 ++ (line ++ rest)) (7 + length line) w sm
            ≡ ret (
              true,
              send t client_dh (send t client_key_exchange w),
              set_trigger (size_trigger 5 (step answer1)) sm,
            ))
  unfolding on_banner
  on_banner-Framed line rest = (refl, refl, ground arith)

  -- The head of a packet of n bytes after the length, of which p are padding: the client then waits
  -- for n + p - 7 bytes. These are the n - 1 that are left of the packet just if there are 6 bytes of padding.
  pub ssh_answer_lem :
      (next : SshStep) (n p size : ℕ) (rest : List ℕ)
      → n + p < 2 ^ 32
      → 7 < n + p
      → 0 < n
      → (ssh_answer step send ssh next t (htonl n ++ (p ∷ rest)) size w sm
          ≡ ret (true, w, set_trigger (size_trigger (n + p - 7) (step next)) sm))
        × ((n + p - 7 ≡ n - 1) ↔ (p ≡ 6))
  unfolding ssh_answer read_u32
  ssh_answer_lem next n p size rest small enough pos =
      (ground arith, (λ e. omega arith, λ e. omega arith))

  -- A reply of type 31 that states a host key no longer than what is left of it, with any bytes behind
  -- the reply: the callback is given the bytes from the key on and the number of all that follow in
  -- the reply, those behind the key included.
  pub get_certificate_lem :
      (key tail rest : List ℕ) {action : DataAction F T W}
      → length key < 2 ^ 32
      → ssh.on_certificate ≡ some action
      → get_certificate step send ssh t
          (0x1F ∷ (htonl (length key) ++ (key ++ (tail ++ rest))))
          (5 + (length key + length tail))
          w
          sm
        ≡ action t (key ++ (tail ++ rest)) (length key + length tail) w sm
  unfolding get_certificate read_u32
  get_certificate_lem key tail rest small has = ground (arith, has)
