-- ===== src/Lvl4/Dialog/Rounds.antt =====
-- One round of the loop of `process_lvl4_data` at a piece of a conversation, or at less than one.
use nodescan.Prelude.{
  ℕ, ◌+◌, ◌≤◌, ◌≡◌, refl, ap, ◌∙◌, none, some, List, ◌++◌, take, drop, length, ret, ◌>>=◌, arith,
  length-append, Option-cases, inl, inr,
}
use nodescan.Buffer.{contents}
use nodescan.Buffer.Laws.{IsValid, length-contents}
use nodescan.Lvl4.{
  Lvl4Sm, Trigger, no_trigger, size_trigger, char_trigger, python_trigger, no_more_to_process,
}
use nodescan.Lvl4.Process.{
  Callbacks, find_byte, size_process, char_process, trigger_process, consume,
}
use nodescan.Lvl4.Framing.{shift}
use nodescan.Lvl4.Framing.Stream.{find_from}
use nodescan.Lvl4.Dialog.{Waits, Piece}
use nodescan.Lvl4.Dialog.Pieces.{find_byte-append_some}

-- The search from `prev` on finds what a search from the begin finds.
find_prev :
    (c prev n : ℕ) (xs : List ℕ)
    → prev ≤ length xs
    → find_byte c (take prev xs) ≡ none
    → find_byte c xs ≡ some n
    → (i : ℕ) × (find_byte c (drop prev xs) ≡ some i) × (prev + i ≡ n)
find_prev c prev n xs le clean found =
    let from = find_from c prev xs le clean in
    elim (Option-cases (find_byte c (drop prev xs))) [
      | inl e ↦ absurd (cc (from, ap (shift prev) e))
      | inr (i, e) ↦ (i, e, cc (from, ap (shift prev) e))
    ]

find_prev-none :
    (c prev : ℕ) (xs : List ℕ)
    → prev ≤ length xs
    → find_byte c (take prev xs) ≡ none
    → find_byte c xs ≡ none
    → find_byte c (drop prev xs) ≡ none
find_prev-none c prev xs le clean found =
    let from = find_from c prev xs le clean in
    elim (Option-cases (find_byte c (drop prev xs))) [
      | inl e ↦ e
      | inr (i, e) ↦ absurd (cc (from, ap (shift prev) e))
    ]

module _ {F T W : Type 0} (act : Callbacks F T W) (t : T) where
  -- A trigger with its piece in front of the buffer calls `f`, and takes the piece away after it.
  pub trigger_process-Piece :
      (tr : Trigger F) (f : F) (n : ℕ) (xs rest : List ℕ) (prev : ℕ) (w : W) (sm : Lvl4Sm F)
      → Piece tr f n xs
      → IsValid sm.buf
      → contents sm.buf ≡ xs ++ rest
      → prev ≤ length (contents sm.buf)
      → Waits tr (take prev (contents sm.buf))
      → trigger_process act tr t prev w sm ≡ (act.call f t n w sm >>= consume act (length xs))
  unfolding trigger_process size_process char_process
  trigger_process-Piece no_trigger f n xs rest prev w sm p v all le clean = absurd p
  trigger_process-Piece (size_trigger m g) f n xs rest prev w sm p v all le clean =
      let full = length-contents sm.buf v in
      let enough : n ≤ sm.buf.buf_pos = omega (arith, ap length all, length-append xs rest) in
      ground (arith, enough)
  trigger_process-Piece (char_trigger c g) f n xs rest prev w sm p v all le clean =
      let found : find_byte c (contents sm.buf) ≡ some n =
        ap (find_byte c) all ∙ find_byte-append_some c n xs rest p.1 in
      let (i, e, sum) = find_prev c prev n (contents sm.buf) le clean found in
      ground (arith, e, sum)
  trigger_process-Piece (python_trigger g) f n xs rest prev w sm p v all le clean = absurd p

  pub trigger_process-Waits :
      (tr : Trigger F) (prev : ℕ) (w : W) (sm : Lvl4Sm F)
      → IsValid sm.buf
      → prev ≤ length (contents sm.buf)
      → Waits tr (take prev (contents sm.buf))
      → Waits tr (contents sm.buf)
      → trigger_process act tr t prev w sm ≡ ret (no_more_to_process, w, sm)
  unfolding trigger_process size_process char_process
  trigger_process-Waits no_trigger prev w sm v le clean h = refl
  trigger_process-Waits (size_trigger m g) prev w sm v le clean h =
      ground (arith, length-contents sm.buf v)
  trigger_process-Waits (char_trigger c g) prev w sm v le clean h =
      ground (arith, find_prev-none c prev (contents sm.buf) le clean h)
  trigger_process-Waits (python_trigger g) prev w sm v le clean h = absurd h
