-- ===== src/Lvl4/Framing/Stream.antt =====
-- lvl4_state_machine.cpp: the rounds of `process_lvl4_data` over a stream that arrives in chunks.
use nodescan.Prelude.{
  ℕ, zero, suc, ◌+◌, ◌<◌, ◌≤◌, ◌^◌, ◌≡◌, refl, sym, ap, ◌∙◌, true, none, some, List, [], take, drop,
  length, ret, arith, length-append, length-take, length-drop, take-append-drop, Option-cases, inl,
  inr,
}
use nodescan.Buffer.{Buffer, contents, pop_by}
use nodescan.Buffer.Laws.{IsValid, length-contents, pop_by-IsValid}
use nodescan.Buffer.Receive.{receive-IsValid}
use nodescan.Buffer.Block.{take-append_le, take_all}
use nodescan.Lvl4.{Lvl4Sm, char_trigger, no_more_to_process, can_process_again}
use nodescan.Lvl4.Process.{
  process_loop_again, process_loop_wait, Callbacks, find_byte, char_process, trigger_process,
  process_loop, process_lvl4_data,
}
use nodescan.Lvl4.Framing.{
  feed, feed-none, feed-some, feed_rest, feed-append, find_byte-append_none, shift,
}

-- The position that a search with `prev_pos` finds, if the bytes before it hold no `c`.
pub find_from :
    (c k : ℕ) (xs : List ℕ)
    → k ≤ length xs
    → find_byte c (take k xs) ≡ none
    → find_byte c xs ≡ shift k (find_byte c (drop k xs))
find_from c k xs h g =
    let e : length (take k xs) ≡ k = omega (arith, length-take k xs) in
    ap (find_byte c) (sym (take-append-drop k xs))
    ∙ find_byte-append_none c (take k xs) (drop k xs) g
    ∙ ap (λ n. shift n (find_byte c (drop k xs))) e

-- A callback that reads its piece and goes on: it returns true, changes the rest of the program by
-- `step`, and leaves the connection as it is.
pub record Reads {F T W : Type 0} (act : Callbacks F T W) (f : F) (t : T) (step : List ℕ → W → W)
    : Type 0 where
  pub reads :
      (n : ℕ) (w : W) (sm : Lvl4Sm F)
      → act.call f t n w sm ≡ ret (true, step (take n (contents sm.buf)) w, sm)

module _ {F T W : Type 0} (act : Callbacks F T W) (c : ℕ) (f : F) (t : T) (step : List ℕ → W → W)
    (r : Reads act f t step) where
  -- One round of the loop that finds a delimiter.
  char_process-some :
      (prev i : ℕ) (w : W) (sm : Lvl4Sm F) (b : Buffer)
      → find_byte c (drop prev (contents sm.buf)) ≡ some i
      → pop_by (prev + i + 1) sm.buf ≡ ret b
      → char_process act c f t prev w sm
        ≡ ret (can_process_again, step (take (prev + i) (contents sm.buf)) w, record sm { buf = b })
  unfolding char_process
  char_process-some prev i w sm b h g = ground (arith, h, g, r.reads (prev + i) w sm)

  char_process-none :
      (prev : ℕ) (w : W) (sm : Lvl4Sm F)
      → find_byte c (drop prev (contents sm.buf)) ≡ none
      → char_process act c f t prev w sm ≡ ret (no_more_to_process, w, sm)
  unfolding char_process
  char_process-none prev w sm h = ground (arith, h)

  chars :
      (prev : ℕ) (w : W) (sm : Lvl4Sm F)
      → sm.trigger ≡ char_trigger c f
      → trigger_process act sm.trigger t prev w sm ≡ char_process act c f t prev w sm
  unfolding trigger_process
  chars prev w sm h = ap (λ g. trigger_process act g t prev w sm) h

  -- With more fuel than bytes, the loop does on the buffer what `feed` does on its bytes.
  pub process_loop-feed :
      (fuel prev : ℕ) (w : W) (sm : Lvl4Sm F)
      → IsValid sm.buf
      → sm.trigger ≡ char_trigger c f
      → prev ≤ sm.buf.buf_pos
      → find_byte c (take prev (contents sm.buf)) ≡ none
      → sm.buf.buf_pos < fuel
      → (b : Buffer) × (process_loop act fuel t prev w sm
          ≡ ret (true, (feed c step w [] (contents sm.buf)).0, record sm { buf = b }))
        × IsValid b
        × (contents b ≡ (feed c step w [] (contents sm.buf)).1)
  unfolding find_byte
  process_loop-feed zero prev w sm v is_char le clean lt = absurd (omega arith)
  process_loop-feed (suc fuel) prev w sm v is_char le clean lt =
      let len = length-contents sm.buf v in
      let from = find_from c prev (contents sm.buf) (omega (arith, len)) clean in
      elim (Option-cases (find_byte c (drop prev (contents sm.buf)))) [
        | inl e ↦
            let g : find_byte c (contents sm.buf) ≡ none = from ∙ ap (shift prev) e in
            let n = feed-none c step w [] (contents sm.buf) g in
            (
              sm.buf,
              process_loop_wait act fuel t prev w sm
                    (chars prev w sm is_char ∙ char_process-none prev w sm e)
                  ∙ ap (λ (q : W × List ℕ). ret (true, q.0, sm)) (sym n),
              v,
              ap (λ (q : W × List ℕ). q.1) (sym n),
            )
        | inr (i, e) ↦
            let g : find_byte c (contents sm.buf) ≡ some (prev + i) = from ∙ ap (shift prev) e in
            let (n, inside) = feed-some c step w [] (contents sm.buf) (prev + i) g in
            let (b, pe, bv, bc) = pop_by-IsValid (prev + i + 1) sm.buf v (omega (arith, len)) in
            let w' = step (take (prev + i) (contents sm.buf)) w in
            let lb = length-contents b bv in
            let ld = length-drop (prev + i + 1) (contents sm.buf) in
            let sm' : Lvl4Sm F = record sm { buf = b } in
            let (b', le', bv', bc') =
              process_loop-feed fuel 0 w' sm' bv is_char (omega arith) refl
                (omega (arith, ap length bc)) in
            let more : suc (prev + i) ≡ prev + i + 1 = omega arith in
            let m : feed c step w' [] (contents b) ≡ feed c step w [] (contents sm.buf) =
              ap (feed c step w' []) (bc ∙ ap (λ k. drop k (contents sm.buf)) (sym more)) ∙ sym n in
            (
              b',
              process_loop_again act fuel t prev w sm
                    (chars prev w sm is_char ∙ char_process-some prev i w sm b e pe)
                  ∙ le'
                  ∙ ap (λ (q : W × List ℕ). ret (true, q.0, record sm { buf = b' })) m,
              bv',
              bc' ∙ ap (λ (q : W × List ℕ). q.1) m,
            )
      ]

  -- A connection with a valid buffer, fewer than 2 ^ 30 bytes, a character trigger whose callback reads
  -- its piece and goes on, no delimiter in the bytes left over, and more fuel than bytes: when `read`
  -- gives all the bytes that it was asked for, processing returns; the state then is what `feed` makes
  -- of the bytes left over and the new ones, and nothing else of it has changed. The bytes left over
  -- again hold no delimiter, so the search may begin behind them.
  pub process_lvl4_data-feed :
      (uninit : ℕ → ℕ) (fuel : ℕ) (w : W) (sm : Lvl4Sm F) (bytes : List ℕ)
      → IsValid sm.buf
      → sm.trigger ≡ char_trigger c f
      → find_byte c (contents sm.buf) ≡ none
      → sm.buf.buf_pos + length bytes < 2 ^ 30
      → sm.buf.buf_pos + length bytes < fuel
      → let out = feed c step w (contents sm.buf) bytes in
        (b : Buffer) × (process_lvl4_data act uninit fuel t (length bytes) (some bytes) w sm
          ≡ ret (true, out.0, record sm { buf = b }))
        × IsValid b
        × (contents b ≡ out.1)
        × (find_byte c (contents b) ≡ none)
  unfolding process_lvl4_data
  process_lvl4_data-feed uninit fuel w sm bytes v is_char clean small enough =
      let (b, se, bv, all) = receive-IsValid uninit bytes sm.buf v small in
      let old = length-contents sm.buf v in
      let full = length-contents b bv in
      let sum : b.buf_pos ≡ sm.buf.buf_pos + length bytes =
        omega (arith, ap length all, length-append (contents sm.buf) bytes) in
      let before : take sm.buf.buf_pos (contents b) ≡ contents sm.buf =
        ap (take sm.buf.buf_pos) all
        ∙ take-append_le sm.buf.buf_pos (contents sm.buf) bytes (omega (arith, old))
        ∙ take_all sm.buf.buf_pos (contents sm.buf) (omega (arith, old)) in
      let sm' : Lvl4Sm F = record sm { buf = b } in
      let (b', pe, bv', bc) =
        process_loop-feed fuel sm.buf.buf_pos w sm' bv is_char (omega arith)
          (ap (find_byte c) before ∙ clean) (omega arith) in
      let spec : feed c step w [] (contents b) ≡ feed c step w (contents sm.buf) bytes =
        ap (feed c step w []) all
        ∙ feed-append c step w [] (contents sm.buf) bytes
        ∙ ap (λ (q : W × List ℕ). feed c step q.0 q.1 bytes)
            (feed-none c step w [] (contents sm.buf) clean) in
      (
        b',
        rw se pe ∙ ap (λ (q : W × List ℕ). ret (true, q.0, record sm { buf = b' })) spec,
        bv',
        bc ∙ ap (λ (q : W × List ℕ). q.1) spec,
        ap (find_byte c) (bc ∙ ap (λ (q : W × List ℕ). q.1) spec)
            ∙ feed_rest c step w (contents sm.buf) bytes clean,
      )
