-- ===== src/Sip/Session.antt =====
-- protocols/sip.cpp: a whole answer of a server, from its status to the blank line, under the loop of
-- `process_lvl4_data`.
use mathlib.Core.List.{flatten, append_assoc}
use nodescan.Prelude.{
  ℕ, suc, ◌+◌, ◌-◌, ◌<◌, ◌≤◌, ◌^◌, ◌≡◌, refl, sym, ap, subst, ◌∙◌, true, false, none, some, List,
  [], ◌∷◌, ◌++◌, take, set, get_elem?, length, ret, arith, length-append, get_elem?-append_add,
  starts_with,
}
use nodescan.Buffer.{contents}
use nodescan.Buffer.Block.{take-append_add}
use nodescan.Buffer.Laws.{IsValid, length-contents}
use nodescan.Lvl4.{Lvl4Sm, char_trigger}
use nodescan.Lvl4.Process.{Callbacks, find_byte}
use nodescan.Lvl4.Framing.Chunks.{receive_all}
use nodescan.Lvl4.Dialog.{Dialog, Ends, Goes, closes, turns}
use nodescan.Lvl4.Dialog.Run.{receive_all-Dialog}
use nodescan.Ssl.{Result}
use nodescan.Sip.{Sip, sip_20, holding, on_line, sip_call, sip_start}
use nodescan.Lvl4.Framing.Delimiters.{Free, Free-append, find_byte-none, find_byte-after}
use nodescan.Sip.Headers.{passed, on_line-passed, set-append}
use nodescan.Sip.Lines.{
  overwrite-IsValid, header_line, status_line, blank_line, header_lines, Plain, header_line-found,
  around,
}

-- The state after the headers in turn.
pub after_headers : {W : Type 0} → (List ℕ → List ℕ → W → W) → List (List ℕ × List ℕ) → W → W
after_headers step [] w = w
after_headers step ((key, value) ∷ hs) w = after_headers step hs (step key (passed value) w)

-- A callback that reads the header, and goes on.
pub record ReadsHeaders {F T W : Type 0} (sip : Sip F T W) (t : T) (step : List ℕ → List ℕ → W → W)
    : Type 0 where
  pub action : T → List ℕ → List ℕ → W → Lvl4Sm F → Result F W
  pub has_header : sip.on_header ≡ some action
  pub reads_header :
      (key value : List ℕ) (w : W) (sm : Lvl4Sm F)
      → action t key value w sm ≡ ret (true, step key value w, sm)

module _ {F T W : Type 0} (step : F) (send : T → List ℕ → W → W) (sip : Sip F T W) (t : T) (w : W)
    (sm : Lvl4Sm F) where
  on_line_status :
      (pre rest : List ℕ)
      → 7 ≤ length pre
      → Free 58 pre
      → ((ys : List ℕ) → starts_with sip_20 (pre ++ ys) ≡ true)
      → on_line step send sip t (pre ++ (13 ∷ 10 ∷ rest)) (length pre + 1) w sm
        ≡ ret (true, w, holding (pre ++ (0 ∷ 10 ∷ rest)) sm)
  unfolding on_line
  on_line_status pre rest long no_colon begins =
      let buf = pre ++ (13 ∷ 10 ∷ rest) in
      let buf1 = pre ++ (0 ∷ 10 ∷ rest) in
      let size = length pre + 1 in
      let at_end : size - 1 ≡ length pre + 0 = omega arith in
      let last : get_elem? buf (size - 1) ≡ some 13 =
        ap (get_elem? buf) at_end ∙ get_elem?-append_add pre (13 ∷ 10 ∷ rest) 0 in
      let cut : set buf (size - 1) 0 ≡ buf1 =
        ap (λ n. set buf n 0) at_end ∙ set-append pre (13 ∷ 10 ∷ rest) 0 0 in
      let colon : find_byte 58 (take size (set buf (size - 1) 0)) ≡ none =
        ap (λ xs. find_byte 58 (take size xs)) cut
        ∙ ap (find_byte 58) (take-append_add 1 pre (0 ∷ 10 ∷ rest))
        ∙ find_byte-none 58 (pre ++ (0 ∷ []))
            (Free-append 58 pre (0 ∷ []) no_colon (omega arith, tt)) in
      ground (arith, last, cut, colon, begins (0 ∷ 10 ∷ rest))

module _ {F T W : Type 0} (act : Callbacks F T W) (step : F) (send : T → List ℕ → W → W)
    (sip : Sip F T W) (t : T)
    (calls : (n : ℕ) (w : W) (sm : Lvl4Sm F)
      → act.call step t n w sm ≡ sip_call step send sip t n w sm) where
  header_turn :
      (header : List ℕ → List ℕ → W → W) (reads : ReadsHeaders sip t header) (key value : List ℕ)
      (w : W)
      → Free 0 key
      → Free 58 key
      → Free 0 value
      → Goes act t
          (char_trigger 10 step)
          step
          (length key + (2 + length value))
          (header_line key value)
          w
          (char_trigger 10 step)
          (header key (passed value) w)
  unfolding sip_call
  header_turn header reads key value w key0 key58 value0 sm rest v is_tr all =
      let size = length key + (2 + length value) in
      let cut = key ++ (0 ∷ (value ++ (0 ∷ 10 ∷ []))) in
      let buf2 = key ++ (0 ∷ (value ++ (0 ∷ 10 ∷ rest))) in
      let all' : contents sm.buf ≡ key ++ (58 ∷ (value ++ (13 ∷ 10 ∷ rest))) =
        all ∙ around key value (10 ∷ []) rest 58 13 in
      let same : length cut ≡ length (header_line key value) = omega (
        arith,
        length-append key (0 ∷ (value ++ (0 ∷ 10 ∷ []))),
        length-append key (58 ∷ (value ++ (13 ∷ 10 ∷ []))),
        length-append value (0 ∷ 10 ∷ []),
        length-append value (13 ∷ 10 ∷ []),
      ) in
      let split : cut ++ rest ≡ buf2 = around key value (10 ∷ []) rest 0 0 in
      let (v', holds) = overwrite-IsValid buf2 sm.buf v (
        omega (
          arith,
          length-contents sm.buf v,
          ap length all,
          ap length split,
          same,
          length-append cut rest,
          length-append (header_line key value) rest,
        )) in
      (
        holding buf2 sm,
        cut,
        calls size w sm
            ∙ ap (λ buf. on_line step send sip t buf size w sm) all'
            ∙ on_line-passed step send sip t w sm key value (10 ∷ rest) key0 key58 value0
                reads.has_header
            ∙ reads.reads_header key (passed value) w (holding buf2 sm),
        is_tr,
        v',
        holds ∙ sym split,
        same,
      )

  blank_end : (w : W) → Ends act t (char_trigger 10 step) step 1 blank_line w w
  unfolding sip_call on_line
  blank_end w sm rest v is_tr all = (
    holding (0 ∷ 10 ∷ rest) sm,
    calls 1 w sm ∙ ap (λ buf. on_line step send sip t buf 1 w sm) all ∙ ground arith,
  )

  status_turn :
      (text : List ℕ) (w : W)
      → Free 58 text
      → Goes act t
          (char_trigger 10 step)
          step
          (length (sip_20 ++ text) + 1)
          (status_line text)
          w
          (char_trigger 10 step)
          w
  unfolding sip_call on_line
  status_turn text w text58 sm rest v is_tr all =
      let pre = sip_20 ++ text in
      let buf1 = pre ++ (0 ∷ 10 ∷ rest) in
      let zs = 0 ∷ 10 ∷ [] in
      let all' : contents sm.buf ≡ pre ++ (13 ∷ 10 ∷ rest) =
        all ∙ append_assoc pre (13 ∷ 10 ∷ []) rest in
      let split : (pre ++ zs) ++ rest ≡ buf1 = append_assoc pre zs rest in
      let same : length (pre ++ zs) ≡ length (status_line text) =
        omega (arith, length-append pre zs, length-append pre (13 ∷ 10 ∷ [])) in
      let (v', holds) = overwrite-IsValid buf1 sm.buf v (
        omega (
          arith,
          length-contents sm.buf v,
          ap length all,
          ap length split,
          same,
          length-append (pre ++ zs) rest,
          length-append (status_line text) rest,
        )) in
      let no_colon : Free 58 pre = Free-append 58 sip_20 text (omega arith) text58 in
      (
        holding buf1 sm,
        pre ++ zs,
        calls (length pre + 1) w sm
            ∙ ap (λ buf. on_line step send sip t buf (length pre + 1) w sm) all'
            ∙ on_line_status step send sip t w sm pre rest (omega arith) no_colon (λ ys. refl),
        is_tr,
        v',
        holds ∙ sym split,
        same,
      )

  -- From the headers on.
  headers-Dialog :
      (header : List ℕ → List ℕ → W → W) (reads : ReadsHeaders sip t header)
      (hs : List (List ℕ × List ℕ)) (w : W)
      → Plain hs
      → Dialog act t
          (char_trigger 10 step)
          w
          (header_lines hs ++ blank_line)
          false
          (after_headers header hs w)
  unfolding header_lines after_headers find_byte
  headers-Dialog header reads [] w plain = closes step 1 blank_line (refl, refl, refl) (blank_end w)
  headers-Dialog header reads ((key, value) ∷ hs) w plain =
      let (found, size) = header_line-found key value plain.2 plain.4 in
      subst
        (λ s.
          Dialog act t (char_trigger 10 step) w s false
            (after_headers header ((key, value) ∷ hs) w))
        (sym (append_assoc (header_line key value) (header_lines hs) blank_line))
        (turns step (length key + (2 + length value)) (header_line key value) (char_trigger 10 step)
          (header key (passed value) w) (header_lines hs ++ blank_line) (refl, found, size)
          (header_turn header reads key value w plain.0 plain.1 plain.3)
          (headers-Dialog header reads hs (header key (passed value) w) plain.5))

  -- An answer that begins with a line of "SIP/2.0" and more bytes without a colon, then has headers, of
  -- which no key has a colon and no part a 0 or an end of line, then a blank line, after a start on a
  -- valid connection with an empty buffer, and with a callback that reads the header and goes on:
  -- however the answer and any bytes behind it are cut into chunks, each read in full, fewer than
  -- 2 ^ 30 bytes and less than the fuel in all, processing returns. The callback then has got each
  -- header, in order and once, with the value as `passed` gives it, and the connection ends.
  pub receive_all-answer :
      (header : List ℕ → List ℕ → W → W) (reads : ReadsHeaders sip t header) (text : List ℕ)
      (hs : List (List ℕ × List ℕ)) (w : W) (sm : Lvl4Sm F) (uninit : ℕ → ℕ) (fuel : ℕ)
      (chunks : List (List ℕ)) (rest : List ℕ)
      → IsValid sm.buf
      → contents sm.buf ≡ []
      → Free 58 text
      → Free 10 text
      → Plain hs
      → flatten chunks ≡ (status_line text ++ (header_lines hs ++ blank_line)) ++ rest
      → length (flatten chunks) < 2 ^ 30
      → length (flatten chunks) < fuel
      → let started = sip_start step send sip t w sm in
        (sm' : Lvl4Sm F) × (receive_all act uninit fuel t chunks started.1 started.2
          ≡ ret (false, after_headers header hs started.1, sm'))
  unfolding sip_start find_byte
  receive_all-answer header reads text hs w sm uninit fuel chunks rest v no_bytes text58 text10
        plain all small enough =
      let started = sip_start step send sip t w sm in
      let pre = sip_20 ++ text in
      let old = length-contents sm.buf v in
      let free : Free 10 pre = Free-append 10 sip_20 text (omega arith) text10 in
      let found : find_byte 10 (status_line text) ≡ some (length pre + 1) =
        find_byte-after 10 pre (13 ∷ 10 ∷ []) free in
      let size : length (status_line text) ≡ suc (length pre + 1) =
        omega (arith, length-append pre (13 ∷ 10 ∷ [])) in
      receive_all-Dialog act t uninit fuel chunks
        (turns step (length pre + 1) (status_line text) (char_trigger 10 step) started.1
          (header_lines hs ++ blank_line) (refl, found, size) (status_turn text started.1 text58)
          (headers-Dialog header reads hs started.1 plain))
        started.2 rest v refl (ap (find_byte 10) no_bytes)
        (ap (λ xs. xs ++ flatten chunks) no_bytes ∙ all) (λ e. cc)
        (omega (arith, ap length no_bytes)) (omega (arith, ap length no_bytes))
