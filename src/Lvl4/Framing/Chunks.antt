-- ===== src/Lvl4/Framing/Chunks.antt =====
-- A stream in chunks of any sizes.
use nodescan.Prelude.{
  ℕ, zero, suc, ◌+◌, ◌<◌, ◌≤◌, ◌^◌, ◌≡◌, refl, sym, ap, ◌∙◌, Bool, true, false, some, none, List,
  [], ◌∷◌, ◌++◌, take, length, Exec, ret, out_of_fuel, ◌>>=◌, arith, length-append,
}
use mathlib.Core.List.{flatten}
use nodescan.Buffer.{Buffer, contents, pop_by}
use nodescan.Buffer.Laws.{IsValid, length-contents, pop_by-IsValid}
use nodescan.Lvl4.{Lvl4Sm, char_trigger, size_trigger, can_process_again}
use nodescan.Lvl4.Process.{
  Callbacks, find_byte, process_loop, process_lvl4_data, trigger_process, size_process,
  process_loop_again,
}
use nodescan.Lvl4.Framing.{feed, feed-append}
use nodescan.Lvl4.Framing.Stream.{Reads, process_lvl4_data-feed}

module _ {W : Type 0} (c : ℕ) (step : List ℕ → W → W) where
  length-feed : (w : W) (cur xs : List ℕ) → length (feed c step w cur xs).1 ≤ length cur + length xs
  unfolding feed
  length-feed w cur [] = omega arith
  length-feed w cur (x ∷ xs) = ground (
    arith,
    length-feed (step cur w) [] xs,
    length-feed w (cur ++ (x ∷ [])) xs,
    length-append cur (x ∷ []),
  )

module _ {F T W : Type 0} (act : Callbacks F T W) (uninit : ℕ → ℕ) (fuel : ℕ) (t : T) where
  -- The calls of `process_lvl4_data` for the chunks that are read, as long as they return true.
  unfoldable pub receive_all : List (List ℕ) → W → Lvl4Sm F → Exec (Bool × W × Lvl4Sm F)
  receive_all [] w sm = ret (true, w, sm)
  receive_all (bytes ∷ rest) w sm =
      process_lvl4_data act uninit fuel t (length bytes) (some bytes) w sm >>= λ r. elim r.0 [
        | true ↦ receive_all rest r.1 r.2
        | false ↦ ret r
      ]

  module _ (c : ℕ) (f : F) (step : List ℕ → W → W) (reads : Reads act f t step) where
    -- For a connection with a valid buffer, a character trigger whose callback reads and goes on, and no
    -- delimiter in the bytes left over, with fewer than 2 ^ 30 bytes and less than the fuel
    -- in all: however a stream is cut into chunks, each read in full, the delimited pieces that the
    -- callback gets are those of the whole stream, in order, and the buffer ends with what follows the
    -- last.
    pub receive_all-feed :
        (chunks : List (List ℕ)) (w : W) (sm : Lvl4Sm F)
        → IsValid sm.buf
        → sm.trigger ≡ char_trigger c f
        → find_byte c (contents sm.buf) ≡ none
        → sm.buf.buf_pos + length (flatten chunks) < 2 ^ 30
        → sm.buf.buf_pos + length (flatten chunks) < fuel
        → let out = feed c step w (contents sm.buf) (flatten chunks) in
          (b : Buffer) × (receive_all chunks w sm ≡ ret (true, out.0, record sm { buf = b }))
          × IsValid b
          × (contents b ≡ out.1)
    unfolding receive_all feed flatten
    receive_all-feed [] w sm v is_char clean small enough = (sm.buf, refl, v, refl)
    receive_all-feed (bytes ∷ rest) w sm v is_char clean small enough =
        let la = length-append bytes (flatten rest) in
        let (b, e, bv, bc, bn) =
          process_lvl4_data-feed act c f t step reads uninit fuel w sm bytes v is_char clean
            (omega (arith, la)) (omega (arith, la)) in
        let out = feed c step w (contents sm.buf) bytes in
        let sm' : Lvl4Sm F = record sm { buf = b } in
        let short : b.buf_pos ≤ sm.buf.buf_pos + length bytes = omega (
          arith,
          length-contents b bv,
          length-contents sm.buf v,
          ap length bc,
          length-feed c step w (contents sm.buf) bytes,
        ) in
        let (b', e', bv', bc') =
          receive_all-feed rest out.0 sm' bv is_char bn (omega (arith, la)) (omega (arith, la)) in
        let spec : feed c step out.0 (contents b) (flatten rest)
            ≡ feed c step w (contents sm.buf) (bytes ++ flatten rest) =
          ap (λ cur. feed c step out.0 cur (flatten rest)) bc
          ∙ sym (feed-append c step w (contents sm.buf) bytes (flatten rest)) in
        (
          b',
          rw e e' ∙ ap (λ (q : W × List ℕ). ret (true, q.0, record sm { buf = b' })) spec,
          bv',
          bc' ∙ ap (λ (q : W × List ℕ). q.1) spec,
        )

module _ {F T W : Type 0} (act : Callbacks F T W) (t : T) (f : F) (step : List ℕ → W → W)
    (reads : Reads act f t step) where
  size_process_zero :
      (prev : ℕ) (w : W) (sm : Lvl4Sm F) (b : Buffer)
      → sm.trigger ≡ size_trigger 0 f
      → pop_by 0 sm.buf ≡ ret b
      → trigger_process act sm.trigger t prev w sm
        ≡ ret (can_process_again, step (take 0 (contents sm.buf)) w, record sm { buf = b })
  unfolding trigger_process size_process
  size_process_zero prev w sm b h g =
      ap (λ q. trigger_process act q t prev w sm) h ∙ ground (arith, g, reads.reads 0 w sm)

  -- On a valid buffer, a size trigger of 0 bytes whose callback goes on never leaves the loop, whatever the fuel.
  pub size_zero_loops :
      (rounds prev : ℕ) (w : W) (sm : Lvl4Sm F)
      → IsValid sm.buf
      → sm.trigger ≡ size_trigger 0 f
      → process_loop act rounds t prev w sm ≡ out_of_fuel
  unfolding process_loop
  size_zero_loops zero prev w sm v h = refl
  size_zero_loops (suc rounds) prev w sm v h =
      let (b, e, bv, _) = pop_by-IsValid 0 sm.buf v (omega arith) in
      process_loop_again act rounds t prev w sm (size_process_zero prev w sm b h e)
      ∙ size_zero_loops rounds 0 (step (take 0 (contents sm.buf)) w) (record sm { buf = b }) bv h
