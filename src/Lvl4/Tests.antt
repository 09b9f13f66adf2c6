-- ===== src/Lvl4/Tests.antt =====
-- A connection that collects lines, and the theorems on it.
use mathlib.Core.List.{flatten}
use nodescan.Prelude.{
  ℕ, ◌<◌, ◌≡◌, refl, true, some, none, List, [], ◌∷◌, ◌++◌, ret, out_of_fuel, arith, take,
}
use nodescan.Buffer.{Buffer, contents}
use nodescan.Buffer.Laws.{IsValid}
use nodescan.Buffer.Tests.{zeros, abc, abc-IsValid}
use nodescan.Lvl4.{Lvl4Sm, new_lvl4_sm, set_trigger, char_trigger, size_trigger, no_more_to_process}
use nodescan.Lvl4.Process.{Callbacks, find_byte, process_loop, process_lvl4_data}
use nodescan.Lvl4.Framing.{feed}
use nodescan.Lvl4.Framing.Sizes.{count, process_lvl4_data-count}
use nodescan.Lvl4.Framing.Stream.{Reads, process_lvl4_data-feed}
use nodescan.Lvl4.Framing.Chunks.{receive_all, receive_all-feed, size_zero_loops}

abbrev collect : List ℕ → List (List ℕ) → List (List ℕ)
collect piece w = w ++ (piece ∷ [])

-- One callback, the target is not looked at.
abbrev collector : Callbacks (Unit {0}) (Unit {0}) (List (List ℕ))
collector = record {
  call = λ f t n w sm. ret (true, collect (take n (contents sm.buf)) w, sm);
  python = λ f t prev w sm. (no_more_to_process, w, sm);
  connect = λ f t w sm. (true, w, sm);
}

collector-Reads : Reads collector tt tt collect
collector-Reads = record { reads = λ n w sm. refl }

-- Lines, with "abc" waiting for its newline.
abbrev waiting : Lvl4Sm (Unit {0})
waiting = record (set_trigger (char_trigger 10 tt) (new_lvl4_sm 7)) { buf = abc }

abbrev empty_frames : Lvl4Sm (Unit {0})
empty_frames = record (set_trigger (size_trigger 0 tt) (new_lvl4_sm 7)) { buf = abc }

abbrev chunk : List ℕ
chunk = 100 ∷ 10 ∷ 101 ∷ 10 ∷ 102 ∷ []

feed_lines :
    feed 10 collect [] (97 ∷ 98 ∷ 99 ∷ []) chunk
    ≡ ((97 ∷ 98 ∷ 99 ∷ 100 ∷ []) ∷ (101 ∷ []) ∷ [], 102 ∷ [])
unfolding feed
feed_lines = refl

process_lvl4_data-feed_example :
    let out = feed 10 collect [] (contents abc) chunk in
    (b : Buffer) × (process_lvl4_data collector zeros 50 tt 5 (some chunk) [] waiting
      ≡ ret (true, out.0, record waiting { buf = b }))
    × IsValid b
    × (contents b ≡ out.1)
    × (find_byte 10 (contents b) ≡ none)
unfolding find_byte
process_lvl4_data-feed_example =
    process_lvl4_data-feed collector 10 tt tt collect collector-Reads zeros 50 [] waiting chunk
      abc-IsValid refl refl (omega arith) (omega arith)

-- Pieces of two bytes, with "a" waiting for another.
abbrev pairs : Lvl4Sm (Unit {0})
pairs = record (set_trigger (size_trigger 2 tt) (new_lvl4_sm 7)) {
  buf = record abc { buf_pos = 1 };
}

process_lvl4_data-count_example :
    let out = count 2 collect [] (contents pairs.buf) chunk in
    (b : Buffer) × (process_lvl4_data collector zeros 50 tt 5 (some chunk) [] pairs
      ≡ ret (true, out.0, record pairs { buf = b }))
    × IsValid b
    × (contents b ≡ out.1)
    × (b.buf_pos < 2)
process_lvl4_data-count_example =
    process_lvl4_data-count collector 2 tt tt collect collector-Reads (omega arith) zeros 50 []
      pairs chunk
      (record { sized = abc-IsValid.sized; small = abc-IsValid.small; within = omega arith }) refl
      (omega arith) (omega arith) (omega arith)

receive_all-feed_example :
    let out = feed 10 collect [] (contents abc) (flatten (chunk ∷ chunk ∷ [])) in
    (b : Buffer) × (receive_all collector zeros 50 tt (chunk ∷ chunk ∷ []) [] waiting
      ≡ ret (true, out.0, record waiting { buf = b }))
    × IsValid b
    × (contents b ≡ out.1)
unfolding find_byte flatten
receive_all-feed_example =
    receive_all-feed collector zeros 50 tt 10 tt collect collector-Reads (chunk ∷ chunk ∷ []) []
      waiting abc-IsValid refl refl (omega arith) (omega arith)

size_zero_loops_example : process_loop collector 1000 tt 0 [] empty_frames ≡ out_of_fuel
size_zero_loops_example =
    size_zero_loops collector tt tt collect collector-Reads 1000 0 [] empty_frames abc-IsValid refl
