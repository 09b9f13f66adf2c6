-- ===== src/Lvl4/Framing.antt =====
-- `CharDataTrigger` under `process_lvl4_data`, against a reader that looks at one byte at a time.
pub mod Stream
pub mod Chunks
pub mod Sizes
pub mod Delimiters
use mathlib.Core.List.{append-nil, append_assoc}
use nodescan.Prelude.{
  ℕ, zero, suc, ◌+◌, ◌-◌, ◌<◌, ◌≤◌, ◌^◌, ◌≡◌, refl, sym, ap, ◌∙◌, Bool, true, false, Option, none,
  some, List, [], ◌∷◌, ◌++◌, take, drop, length, ltb, leb, ◌==◌, if◌then◌else◌, Exec, ret, fault,
  out_of_fuel, ◌>>=◌, add32, arith, length-append, Option-cases, inl, inr,
}
use nodescan.Buffer.{Buffer, contents, pop_by, grow_by, store}
use nodescan.Buffer.Laws.{IsValid, length-contents, grow_by-IsValid, pop_by-IsValid, store-IsValid}
use nodescan.Lvl4.{Lvl4Sm, char_trigger, can_process_again}
use nodescan.Lvl4.Process.{
  Callbacks, find_byte, char_process, trigger_process, process_loop, process_lvl4_data,
}

abbrev pub shift : ℕ → Option ℕ → Option ℕ
shift k none = none
shift k (some i) = some (k + i)

pub find_byte-append_none :
    (c : ℕ) (xs ys : List ℕ)
    → find_byte c xs ≡ none
    → find_byte c (xs ++ ys) ≡ shift (length xs) (find_byte c ys)
unfolding find_byte
find_byte-append_none c [] ys h = elim (Option-cases (find_byte c ys)) [
  | inl e ↦ rw e
  | inr (i, e) ↦ ground (arith, e)
]
find_byte-append_none c (x ∷ xs) ys h = elim (Option-cases (find_byte c ys)) [
  | inl e ↦ ground (arith, e, find_byte-append_none c xs ys)
  | inr (i, e) ↦ ground (arith, e, find_byte-append_none c xs ys)
]

module _ {W : Type 0} (c : ℕ) (step : List ℕ → W → W) where
  -- Byte by byte: a piece ends at each `c`, which is dropped. The result is the state after the
  -- pieces that are complete, and the bytes of the piece that is not.
  unfoldable pub feed : W → List ℕ → List ℕ → W × List ℕ
  feed w cur [] = (w, cur)
  feed w cur (b ∷ bs) = if b == c then feed (step cur w) [] bs else feed w (cur ++ (b ∷ [])) bs

  pub feed-append :
      (w : W) (cur xs ys : List ℕ)
      → feed w cur (xs ++ ys) ≡ (let r = feed w cur xs in feed r.0 r.1 ys)
  unfolding feed
  feed-append w cur [] ys = refl
  feed-append w cur (x ∷ xs) ys =
      ground (arith, feed-append (step cur w) [] xs ys, feed-append w (cur ++ (x ∷ [])) xs ys)

  pub feed-none : (w : W) (cur xs : List ℕ) → find_byte c xs ≡ none → feed w cur xs ≡ (w, cur ++ xs)
  unfolding feed find_byte
  feed-none w cur [] h = ap (λ us. (w, us)) (sym (append-nil cur))
  feed-none w cur (x ∷ xs) h =
      ground (arith, feed-none w (cur ++ (x ∷ [])) xs, append_assoc cur (x ∷ []) xs)

  pub feed-some :
      (w : W) (cur xs : List ℕ) (i : ℕ)
      → find_byte c xs ≡ some i
      → (feed w cur xs ≡ feed (step (cur ++ take i xs) w) [] (drop (suc i) xs)) × (i < length xs)
  unfolding feed find_byte
  feed-some w cur [] i h = cc
  feed-some w cur (x ∷ xs) i h = elim (Option-cases (find_byte c xs)) [
    | inl e ↦ ground (arith, append-nil cur, e)
    | inr (j, e) ↦ ground (
      arith,
      e,
      feed-some w (cur ++ (x ∷ [])) xs j e,
      append_assoc cur (x ∷ []) (take j xs),
      append-nil cur,
    )
  ]

  -- The bytes left over hold no `c`.
  pub feed_rest :
      (w : W) (cur xs : List ℕ) → find_byte c cur ≡ none → find_byte c (feed w cur xs).1 ≡ none
  unfolding feed find_byte
  feed_rest w cur [] h = h
  feed_rest w cur (x ∷ xs) h = ground (
    arith,
    feed_rest (step cur w) [] xs refl,
    feed_rest w (cur ++ (x ∷ [])) xs,
    find_byte-append_none c cur (x ∷ []) h,
  )
