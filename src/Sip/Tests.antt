-- ===== src/Sip/Tests.antt =====
-- The theorem on header lines at "A:1 2".
use nodescan.Prelude.{ℕ, ◌≡◌, refl, Bool, true, some, none, List, [], ◌∷◌, Exec, ret, arith}
use nodescan.Prelude.{false, ◌++◌, take, drop}
use mathlib.Core.List.{flatten}
use nodescan.Buffer.Laws.{IsValid-empty}
use nodescan.Lvl4.{connection_end}
use nodescan.Lvl4.Process.{Callbacks}
use nodescan.Lvl4.Framing.Chunks.{receive_all}
use nodescan.Sip.{sip_start, sip_call}
use nodescan.Sip.Lines.{status_line, header_lines, blank_line}
use nodescan.Sip.Session.{ReadsHeaders, after_headers, receive_all-answer}
use nodescan.Lvl4.{Lvl4Sm, new_lvl4_sm}
use nodescan.Sip.{Sip}

-- The world is the last header.
abbrev passes_last :
    Unit {0}
    → List ℕ
    → List ℕ
    → List ℕ × List ℕ
    → Lvl4Sm (Unit {0})
    → Exec (Bool × (List ℕ × List ℕ) × Lvl4Sm (Unit {0}))
passes_last t key value w sm = ret (true, (key, value), sm)

abbrev headers : Sip (Unit {0}) (Unit {0}) (List ℕ × List ℕ)
headers = record { on_header = some passes_last; on_invalid_header = none }

abbrev line : List ℕ
line = 65 ∷ 58 ∷ 49 ∷ 32 ∷ 50 ∷ 13 ∷ 10 ∷ []

abbrev reader : ReadsHeaders headers tt (λ key value w. (key, value))
reader = record { action = passes_last; has_header = refl; reads_header = λ key value w sm. refl }

abbrev act : Callbacks (Unit {0}) (Unit {0}) (List ℕ × List ℕ)
act = record {
  call = λ f t n w sm. sip_call tt (λ u xs q. q) headers t n w sm;
  python = λ f t pos w sm. (connection_end, w, sm);
  connect = λ f t w sm. (false, w, sm);
}

-- "SIP/2.0 2", the headers "A: 1" and "B:2", and the blank line.
abbrev two_headers : List (List ℕ × List ℕ)
two_headers = (65 ∷ [], 32 ∷ 49 ∷ []) ∷ (66 ∷ [], 50 ∷ []) ∷ []

abbrev answer : List ℕ
answer = status_line (32 ∷ 50 ∷ []) ++ (header_lines two_headers ++ blank_line)

abbrev pieces : List (List ℕ)
pieces = take 5 answer ∷ drop 5 answer ∷ (9 ∷ []) ∷ []

receive_all-answer_example :
    let started = sip_start tt (λ u xs q. q) headers tt ([], []) (new_lvl4_sm 7) in
    (sm' : Lvl4Sm (Unit {0})) × (receive_all act (λ i. 7) 100 tt pieces started.1 started.2
      ≡ ret (false, after_headers (λ key value w. (key, value)) two_headers started.1, sm'))
unfolding header_lines flatten
receive_all-answer_example =
    receive_all-answer act tt (λ u xs q. q) headers tt (λ n w sm. refl)
      (λ key value w. (key, value)) reader (32 ∷ 50 ∷ []) two_headers ([], []) (new_lvl4_sm 7)
      (λ i. 7) 100 pieces (9 ∷ []) IsValid-empty refl (omega arith, (omega arith, tt))
      (omega arith, (omega arith, tt)) (omega arith) refl (omega arith) (omega arith)
