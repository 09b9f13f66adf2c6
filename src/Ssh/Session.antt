-- ===== src/Ssh/Session.antt =====
-- protocols/ssh.cpp: a whole handshake, from the client's line to the server's host key, under the
-- loop of `process_lvl4_data`.
use mathlib.Core.List.{flatten, append_assoc}
use nodescan.Prelude.{
  ℕ, ◌+◌, ◌-◌, ◌<◌, ◌^◌, ◌≡◌, refl, sym, ap, ◌∙◌, true, false, some, List, [], ◌∷◌, ◌++◌, take,
  length, ret, arith, length-append, htonl, take-append_self,
}
use nodescan.Buffer.{contents}
use nodescan.Buffer.Laws.{IsValid, length-contents}
use nodescan.Lvl4.{Lvl4Sm, size_trigger, char_trigger, set_trigger}
use nodescan.Lvl4.Process.{Callbacks, find_byte}
use nodescan.Lvl4.Framing.Chunks.{receive_all}
use nodescan.Lvl4.Framing.Delimiters.{Free, Free-append, find_byte-after}
use nodescan.Lvl4.Dialog.{Ends, Goes, closes, turns}
use nodescan.Lvl4.Dialog.Run.{receive_all-Dialog}
use nodescan.Ssl.{DataAction}
use nodescan.Ssh.{
  Ssh, SshStep, banner, answer1, packet1, answer2, packet2, ssh_20, client_banner, ssh_start,
  on_banner, ssh_answer, get_certificate, ssh_call,
}
use nodescan.Ssh.Packets.{client_key_exchange, client_dh}
use nodescan.Ssh.Framing.{on_banner-Framed, ssh_answer_lem, get_certificate_lem}

-- The server's first line.
abbrev pub banner_line : List ℕ → List ℕ
banner_line text = (ssh_20 ++ text) ++ (10 ∷ [])

-- The head of a packet with six bytes of padding: the length of what follows the length, and the
-- length of the padding.
abbrev pub packet_head : List ℕ → List ℕ
packet_head body = htonl (length body + 1) ++ (6 ∷ [])

-- A reply with the host key, and what stands behind the key.
abbrev pub key_reply : List ℕ → List ℕ → List ℕ
key_reply key tail = 0x1F ∷ (htonl (length key) ++ (key ++ tail))

unfoldable pub server_handshake : List ℕ → List ℕ → List ℕ → List ℕ → List ℕ
server_handshake text body key tail =
    let reply = key_reply key tail in
    banner_line text ++ (packet_head body ++ (body ++ (packet_head reply ++ reply)))

-- A callback that reads the bytes that it is given, and ends the connection.
pub record TakesKey {F T W : Type 0} (ssh : Ssh F T W) (t : T) (certif : List ℕ → W → W)
    : Type 0 where
  pub action : DataAction F T W
  pub has_certificate : ssh.on_certificate ≡ some action
  pub reads_certificate :
      (xs : List ℕ) (n : ℕ) (w : W) (sm : Lvl4Sm F)
      → action t xs n w sm ≡ ret (false, certif (take n xs) w, sm)

module _ {F T W : Type 0} (act : Callbacks F T W) (step : SshStep → F) (send : T → List ℕ → W → W)
    (ssh : Ssh F T W) (t : T)
    (calls : (s : SshStep) (n : ℕ) (w : W) (sm : Lvl4Sm F)
      → act.call (step s) t n w sm ≡ ssh_call step send ssh s t n w sm) where
  banner_turn :
      (text : List ℕ) (w : W)
      → Goes act t
          (char_trigger 10 (step banner))
          (step banner)
          (7 + length text)
          (banner_line text)
          w
          (size_trigger 5 (step answer1))
          (send t client_dh (send t client_key_exchange w))
  unfolding ssh_call
  banner_turn text w sm rest v is_tr all =
      let line : banner_line text ++ rest ≡ ssh_20 ++ (text ++ (10 ∷ rest)) =
        ap (λ xs. ssh_20 ++ xs) (append_assoc text (10 ∷ []) rest) in
      (
        set_trigger (size_trigger 5 (step answer1)) sm,
        banner_line text,
        calls banner (7 + length text) w sm
            ∙ ap (λ buf. on_banner step send ssh t buf (7 + length text) w sm) (all ∙ line)
            ∙ (on_banner-Framed step send ssh t w sm text (10 ∷ rest)).2,
        refl,
        v,
        all,
        refl,
      )

  head_turn :
      (s next : SshStep) (body : List ℕ) (w : W)
      → ((sm : Lvl4Sm F)
          → ssh_call step send ssh s t 5 w sm
            ≡ ssh_answer step send ssh next t (contents sm.buf) 5 w sm)
      → 0 < length body
      → length body + 7 < 2 ^ 32
      → Goes act t
          (size_trigger 5 (step s))
          (step s)
          5
          (packet_head body)
          w
          (size_trigger (length body) (step next))
          w
  head_turn s next body w is some_bytes small sm rest v is_tr all =
      let n = length body + 1 in
      let exact : n + 6 - 7 ≡ length body = omega arith in
      (
        set_trigger (size_trigger (length body) (step next)) sm,
        packet_head body,
        calls s 5 w sm
            ∙ is sm
            ∙ ap (λ buf. ssh_answer step send ssh next t buf 5 w sm) all
            ∙ (ssh_answer_lem step send ssh t w sm next n 6 5 rest (omega arith) (omega arith)
                (omega arith)).0
            ∙ ap (λ k. ret (true, w, set_trigger (size_trigger k (step next)) sm)) exact,
        refl,
        v,
        all,
        refl,
      )

  packet_turn :
      (body : List ℕ) (w : W)
      → Goes act t
          (size_trigger (length body) (step packet1))
          (step packet1)
          (length body)
          body
          w
          (size_trigger 5 (step answer2))
          w
  unfolding ssh_call
  packet_turn body w sm rest v is_tr all = (
    set_trigger (size_trigger 5 (step answer2)) sm,
    body,
    calls packet1 (length body) w sm,
    refl,
    v,
    all,
    refl,
  )

  key_end :
      (certif : List ℕ → W → W) (reads : TakesKey ssh t certif) (key tail : List ℕ) (w : W)
      → length key < 2 ^ 32
      → let reply = key_reply key tail in
        Ends act t
          (size_trigger (length reply) (step packet2))
          (step packet2)
          (length reply)
          reply
          w
          (certif (key ++ tail) w)
  unfolding ssh_call
  key_end certif reads key tail w small sm rest v is_tr all =
      let reply = key_reply key tail in
      let size : length reply ≡ 5 + (length key + length tail) =
        omega (arith, length-append key tail) in
      let bytes : reply ++ rest ≡ 0x1F ∷ (htonl (length key) ++ (key ++ (tail ++ rest))) =
        ap (λ xs. 0x1F ∷ (htonl (length key) ++ xs)) (append_assoc key tail rest) in
      let given : take (length key + length tail) (key ++ (tail ++ rest)) ≡ key ++ tail =
        ap (λ n. take n (key ++ (tail ++ rest))) (sym (length-append key tail))
        ∙ ap (take (length (key ++ tail))) (sym (append_assoc key tail rest))
        ∙ take-append_self (key ++ tail) rest in
      (
        sm,
        calls packet2 (length reply) w sm
            ∙ ap (λ buf. get_certificate step send ssh t buf (length reply) w sm) (all ∙ bytes)
            ∙ ap
                (λ n.
                  get_certificate step send ssh t
                    (0x1F ∷ (htonl (length key) ++ (key ++ (tail ++ rest)))) n w sm)
                size
            ∙ get_certificate_lem step send ssh t w sm key tail rest small reads.has_certificate
            ∙ reads.reads_certificate (key ++ (tail ++ rest)) (length key + length tail) w sm
            ∙ ap (λ xs. ret (false, certif xs w, sm)) given,
      )

  -- A server whose first line begins with "SSH-2.0", and which then sends a packet of at least one byte
  -- and a reply of type 31 that begins with a host key, both with six bytes of padding, after a start on a valid connection with an empty buffer, and with a callback that
  -- reads its bytes and ends the connection: however these bytes and any behind them are cut into
  -- chunks, each read in full, fewer than 2 ^ 30 bytes and less than the fuel in all, processing
  -- returns. The client then has sent its line and its two packets, the callback has got the bytes
  -- from the key to the end of the reply, and the connection ends.
  pub receive_all-server_handshake :
      (certif : List ℕ → W → W) (reads : TakesKey ssh t certif) (text body key tail : List ℕ)
      (w : W) (sm : Lvl4Sm F) (uninit : ℕ → ℕ) (fuel : ℕ) (chunks : List (List ℕ)) (rest : List ℕ)
      → IsValid sm.buf
      → contents sm.buf ≡ []
      → Free 10 text
      → 0 < length body
      → flatten chunks ≡ server_handshake text body key tail ++ rest
      → length (flatten chunks) < 2 ^ 30
      → length (flatten chunks) < fuel
      → let started = ssh_start step send ssh t w sm in
        let sent = send t client_dh (send t client_key_exchange (send t client_banner w)) in
        (sm' : Lvl4Sm F) × (receive_all act uninit fuel t chunks started.1 started.2
          ≡ ret (false, certif (key ++ tail) sent, sm'))
  unfolding ssh_start server_handshake ssh_call find_byte
  receive_all-server_handshake certif reads text body key tail w sm uninit fuel chunks rest v
        no_bytes text10 some_bytes all small enough =
      let started = ssh_start step send ssh t w sm in
      let reply = key_reply key tail in
      let w1 = send t client_dh (send t client_key_exchange started.1) in
      let pre = ssh_20 ++ text in
      let found : find_byte 10 (banner_line text) ≡ some (7 + length text) =
        find_byte-after 10 pre (10 ∷ []) (Free-append 10 ssh_20 text (omega arith) text10)
        ∙ ap some (omega arith) in
      let short : length body + length reply < 2 ^ 30 = omega (
        arith,
        ap length all,
        length-append (server_handshake text body key tail) rest,
        length-append (banner_line text)
            (packet_head body ++ (body ++ (packet_head reply ++ reply))),
        length-append body (packet_head reply ++ reply),
      ) in
      receive_all-Dialog act t uninit fuel chunks
        (turns (step banner) (7 + length text) (banner_line text) (size_trigger 5 (step answer1)) w1
          (packet_head body ++ (body ++ (packet_head reply ++ reply)))
          (refl, found, omega (arith, length-append text (10 ∷ []))) (banner_turn text started.1)
          (turns (step answer1) 5 (packet_head body) (size_trigger (length body) (step packet1)) w1
            (body ++ (packet_head reply ++ reply)) (refl, refl, refl, omega arith)
            (head_turn answer1 packet1 body w1 (λ sm. refl) some_bytes (omega arith))
            (turns (step packet1) (length body) body (size_trigger 5 (step answer2)) w1
              (packet_head reply ++ reply) (refl, refl, refl, some_bytes) (packet_turn body w1)
              (turns (step answer2) 5 (packet_head reply)
                (size_trigger (length reply) (step packet2)) w1 reply
                (refl, refl, refl, omega arith)
                (head_turn answer2 packet2 reply w1 (λ sm. refl) (omega arith) (omega arith))
                (closes (step packet2) (length reply) reply (refl, refl, refl, omega arith)
                  (key_end certif reads key tail w1 (omega (arith, length-append key tail))))))))
        started.2 rest v refl (ap (find_byte 10) no_bytes)
        (ap (λ xs. xs ++ flatten chunks) no_bytes ∙ all) (λ e. cc)
        (omega (arith, ap length no_bytes, length-contents sm.buf v))
        (omega (arith, ap length no_bytes, length-contents sm.buf v))
