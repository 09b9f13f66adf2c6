-- ===== src/Target/Connected.antt =====
-- include/ns/connected_target.h and connected_target.cpp: a target with the socket of its connection.
-- `write` is the system's: it takes a descriptor and bytes, and answers how many it took, or fails.
use nodescan.Prelude.{
  ℕ, ◌+◌, ◌≡◌, Option, none, some, List, ◌∷◌, ◌++◌, take, length, Exec, ret, ◌>>=◌, deref, arith,
  ap, ◌∙◌, take-append_self,
}
use nodescan.Lvl4.Process.{find_byte}
use nodescan.Lvl4.Framing.{find_byte-append_none}
use nodescan.Target.{PortApi, Target}

pub record ConnectedTarget (P : Type 0) : Type 0 where
  pub t : Target P
  pub s : ℕ

-- `port_value()` and `port_protocol()`
abbrev pub port_value : {P : Type 0} → ⦃api : PortApi P⦄ → ConnectedTarget P → ℕ
port_value ⦃api⦄ c = api.value c.t.port

abbrev pub port_protocol : {P : Type 0} → ⦃api : PortApi P⦄ → ConnectedTarget P → ℕ
port_protocol ⦃api⦄ c = api.protocol c.t.port

module _ {P W : Type 0} (write : ℕ → List ℕ → W → Option ℕ × W) where
  -- `send(buf, s)`: the bytes are those from the pointer on.
  unfoldable pub send : ConnectedTarget P → List ℕ → ℕ → W → Option ℕ × W
  send c buf size w = write c.s (take size buf) w

  -- `send(str)`: `strlen` looks for the first 0, and leaves the memory if there is none.
  unfoldable pub send_str : ConnectedTarget P → List ℕ → W → Exec (Option ℕ × W)
  unfolding send
  send_str c str w = deref (find_byte 0 str) >>= λ size. ret (send c str size w)

  -- A text without a 0, with one behind it: `write` is given the text.
  pub send_str-send :
      (c : ConnectedTarget P) (text rest : List ℕ) (w : W)
      → find_byte 0 text ≡ none
      → send_str c (text ++ (0 ∷ rest)) w ≡ ret (write c.s text w)
  unfolding send_str send find_byte
  send_str-send c text rest w h =
      let found : find_byte 0 (text ++ (0 ∷ rest)) ≡ some (length text + 0) =
        find_byte-append_none 0 text (0 ∷ rest) h in
      let size : length text + 0 ≡ length text = omega arith in
      let all : take (length text) (text ++ (0 ∷ rest)) ≡ text = take-append_self text (0 ∷ rest) in
      ground (arith, found, ap (λ n. take n (text ++ (0 ∷ rest))) size ∙ all)
