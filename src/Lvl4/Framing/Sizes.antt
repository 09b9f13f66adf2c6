-- ===== src/Lvl4/Framing/Sizes.antt =====
-- `SizeDataTrigger` under `process_lvl4_data`, against a reader that counts the bytes.
use nodescan.Prelude.{
  ℕ, zero, suc, ◌+◌, ◌<◌, ◌≤◌, ◌^◌, ◌≡◌, refl, sym, ap, ◌∙◌, true, List, [], ◌∷◌, ◌++◌, take, drop,
  some, length, ltb, ◌==◌, if◌then◌else◌, ret, arith, length-append, length-take, length-drop,
  take-append-drop, Bool-cases, inl, inr,
}
use mathlib.Core.List.{append-nil, append_assoc}
use nodescan.Buffer.{Buffer, contents, pop_by}
use nodescan.Buffer.Laws.{IsValid, length-contents, pop_by-IsValid}
use nodescan.Buffer.Receive.{receive-IsValid}
use nodescan.Lvl4.{Lvl4Sm, size_trigger, no_more_to_process, can_process_again}
use nodescan.Lvl4.Process.{
  process_loop_again, process_loop_wait, Callbacks, size_process, trigger_process, process_loop,
  process_lvl4_data,
}
use nodescan.Lvl4.Framing.Stream.{Reads}

module _ {W : Type 0} (n : ℕ) (step : List ℕ → W → W) where
  -- Byte by byte: a piece ends when it has `n` bytes. The result is the state after the pieces that are
  -- complete, and the bytes of the piece that is not.
  unfoldable pub count : W → List ℕ → List ℕ → W × List ℕ
  count w cur [] = (w, cur)
  count w cur (b ∷ bs) =
      if length (cur ++ (b ∷ [])) == n
      then count (step (cur ++ (b ∷ [])) w) [] bs
      else count w (cur ++ (b ∷ [])) bs

  pub count-append :
      (w : W) (cur xs ys : List ℕ)
      → count w cur (xs ++ ys) ≡ (let r = count w cur xs in count r.0 r.1 ys)
  unfolding count
  count-append w cur [] ys = refl
  count-append w cur (x ∷ xs) ys = ground (
    arith,
    count-append (step (cur ++ (x ∷ [])) w) [] xs ys,
    count-append w (cur ++ (x ∷ [])) xs ys,
  )

  pub count-short :
      (w : W) (cur xs : List ℕ) → length cur + length xs < n → count w cur xs ≡ (w, cur ++ xs)
  unfolding count
  count-short w cur [] h = ap (λ us. (w, us)) (sym (append-nil cur))
  count-short w cur (x ∷ xs) h =
      let len = length-append cur (x ∷ []) in
      ground (
        arith,
        h,
        len,
        count-short w (cur ++ (x ∷ [])) xs (omega (arith, h, len)),
        append_assoc cur (x ∷ []) xs,
      )

  pub count-full :
      (w : W) (cur xs ys : List ℕ)
      → length cur + length xs ≡ n
      → length cur < n
      → count w cur (xs ++ ys) ≡ count (step (cur ++ xs) w) [] ys
  unfolding count
  count-full w cur [] ys h lt = absurd (omega (arith, h, lt))
  count-full w cur (x ∷ []) ys h lt = let len = length-append cur (x ∷ []) in ground (arith, h, len)
  count-full w cur (x ∷ y ∷ xs) ys h lt =
      let len = length-append cur (x ∷ []) in
      let rest =
        count-full w (cur ++ (x ∷ [])) (y ∷ xs) ys (omega (arith, h, len))
          (omega (arith, h, len)) in
      ground (arith, h, len, rest, append_assoc cur (x ∷ []) (y ∷ xs))

  -- The bytes left over are fewer than a piece has.
  pub length-count : (w : W) (cur xs : List ℕ) → length cur < n → length (count w cur xs).1 < n
  unfolding count
  length-count w cur [] h = h
  length-count w cur (x ∷ xs) h =
      let len = length-append cur (x ∷ []) in
      elim (Bool-cases (length (cur ++ (x ∷ [])) == n)) [
        | inl full ↦
            (let rest = length-count (step (cur ++ (x ∷ [])) w) [] xs (omega (arith, h)) in
              ground (arith, full, rest))
        | inr more ↦
            let below : length (cur ++ (x ∷ [])) < n = ground (arith, h, len, more) in
            let rest = length-count w (cur ++ (x ∷ [])) xs below in ground (arith, more, rest)
      ]

module _ {F T W : Type 0} (act : Callbacks F T W) (n : ℕ) (f : F) (t : T) (step : List ℕ → W → W)
    (r : Reads act f t step) (positive : 0 < n) where
  sizes :
      (prev : ℕ) (w : W) (sm : Lvl4Sm F)
      → sm.trigger ≡ size_trigger n f
      → trigger_process act sm.trigger t prev w sm ≡ size_process act n f t w sm
  unfolding trigger_process
  sizes prev w sm h = ap (λ g. trigger_process act g t prev w sm) h

  size_process-short :
      (w : W) (sm : Lvl4Sm F)
      → sm.buf.buf_pos < n
      → size_process act n f t w sm ≡ ret (no_more_to_process, w, sm)
  unfolding size_process
  size_process-short w sm h = ground (arith, h)

  size_process-full :
      (w : W) (sm : Lvl4Sm F) (b : Buffer)
      → n ≤ sm.buf.buf_pos
      → pop_by n sm.buf ≡ ret b
      → size_process act n f t w sm
        ≡ ret (can_process_again, step (take n (contents sm.buf)) w, record sm { buf = b })
  unfolding size_process
  size_process-full w sm b h g = ground (arith, h, g, r.reads n w sm)

  -- With more fuel than bytes, the loop does on the buffer what `count` does on its bytes.
  pub process_loop-count :
      (fuel prev : ℕ) (w : W) (sm : Lvl4Sm F)
      → IsValid sm.buf
      → sm.trigger ≡ size_trigger n f
      → sm.buf.buf_pos < fuel
      → (b : Buffer) × (process_loop act fuel t prev w sm
          ≡ ret (true, (count n step w [] (contents sm.buf)).0, record sm { buf = b }))
        × IsValid b
        × (contents b ≡ (count n step w [] (contents sm.buf)).1)
  process_loop-count zero prev w sm v is_size lt = absurd (omega arith)
  process_loop-count (suc fuel) prev w sm v is_size lt =
      let len = length-contents sm.buf v in
      elim (Bool-cases (ltb sm.buf.buf_pos n)) [
        | inl few ↦
            let short : sm.buf.buf_pos < n = ground (arith, few) in
            let m = count-short n step w [] (contents sm.buf) (omega (arith, len, short)) in
            (
              sm.buf,
              process_loop_wait act fuel t prev w sm
                    (sizes prev w sm is_size ∙ size_process-short w sm short)
                  ∙ ap (λ (q : W × List ℕ). ret (true, q.0, sm)) (sym m),
              v,
              ap (λ (q : W × List ℕ). q.1) (sym m),
            )
        | inr enough ↦
            let full : n ≤ sm.buf.buf_pos = ground (arith, enough) in
            let piece = take n (contents sm.buf) in
            let (b, pe, bv, bc) = pop_by-IsValid n sm.buf v full in
            let w' = step piece w in
            let sm' : Lvl4Sm F = record sm { buf = b } in
            let fewer = length-drop n (contents sm.buf) in
            let lb = length-contents b bv in
            let (b', le', bv', bc') =
              process_loop-count fuel 0 w' sm' bv is_size
                (omega (arith, ap length bc, fewer, lb, len, full, lt, positive)) in
            let lp = length-take n (contents sm.buf) in
            let m : count n step w' [] (contents b) ≡ count n step w [] (contents sm.buf) =
              ap (count n step w' []) bc
              ∙ sym (
                  count-full n step w [] piece (drop n (contents sm.buf))
                    (omega (arith, lp, len, full)) (omega (arith, positive)))
              ∙ ap (count n step w []) (take-append-drop n (contents sm.buf)) in
            (
              b',
              process_loop_again act fuel t prev w sm
                    (sizes prev w sm is_size ∙ size_process-full w sm b full pe)
                  ∙ le'
                  ∙ ap (λ (q : W × List ℕ). ret (true, q.0, record sm { buf = b' })) m,
              bv',
              bc' ∙ ap (λ (q : W × List ℕ). q.1) m,
            )
      ]

  -- A connection with a valid buffer, fewer than 2 ^ 30 bytes, a size trigger of at least one byte whose
  -- callback reads its piece and goes on, fewer bytes left over than a piece has, and more fuel than
  -- bytes: when `read` gives all the bytes that it was asked for, processing returns; the state then is
  -- what `count` makes of the bytes left over and the new ones, and nothing else of it has changed. The
  -- bytes left over are again fewer than a piece has.
  pub process_lvl4_data-count :
      (uninit : ℕ → ℕ) (fuel : ℕ) (w : W) (sm : Lvl4Sm F) (bytes : List ℕ)
      → IsValid sm.buf
      → sm.trigger ≡ size_trigger n f
      → sm.buf.buf_pos < n
      → sm.buf.buf_pos + length bytes < 2 ^ 30
      → sm.buf.buf_pos + length bytes < fuel
      → let out = count n step w (contents sm.buf) bytes in
        (b : Buffer) × (process_lvl4_data act uninit fuel t (length bytes) (some bytes) w sm
          ≡ ret (true, out.0, record sm { buf = b }))
        × IsValid b
        × (contents b ≡ out.1)
        × (b.buf_pos < n)
  unfolding process_lvl4_data
  process_lvl4_data-count uninit fuel w sm bytes v is_size few small enough =
      let (b, se, bv, all) = receive-IsValid uninit bytes sm.buf v small in
      let old = length-contents sm.buf v in
      let full = length-contents b bv in
      let sum : b.buf_pos ≡ sm.buf.buf_pos + length bytes =
        omega (arith, ap length all, length-append (contents sm.buf) bytes) in
      let sm' : Lvl4Sm F = record sm { buf = b } in
      let (b', pe, bv', bc) =
        process_loop-count fuel sm.buf.buf_pos w sm' bv is_size (omega (arith, sum, enough)) in
      let spec : count n step w [] (contents b) ≡ count n step w (contents sm.buf) bytes =
        ap (count n step w []) all
        ∙ count-append n step w [] (contents sm.buf) bytes
        ∙ ap (λ (q : W × List ℕ). count n step q.0 q.1 bytes)
            (count-short n step w [] (contents sm.buf) (omega (arith, old, few))) in
      let left : contents b' ≡ (count n step w (contents sm.buf) bytes).1 =
        bc ∙ ap (λ (q : W × List ℕ). q.1) spec in
      let short = length-count n step w (contents sm.buf) bytes (omega (arith, old, few)) in
      (
        b',
        rw se pe ∙ ap (λ (q : W × List ℕ). ret (true, q.0, record sm { buf = b' })) spec,
        bv',
        left,
        omega (arith, length-contents b' bv', ap length left, short),
      )
