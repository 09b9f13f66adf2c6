-- ===== src/TargetSet/Wrappers/Tests.antt =====
-- The theorems on target sets at small sets.
use nodescan.Prelude.{ℕ, ◌+◌, ◌≡◌, refl, List, [], ◌∷◌, ◌++◌, map, replicate, ret, if◌then◌else◌}
use nodescan.Target.{Target, end_target, target_lt}
use nodescan.Target.Tests.{word_port, word_port-PortLaws, target}
use nodescan.TargetSet.{gives}
use nodescan.TargetSet.Simple.{
  SimpleTargetSet, simple_set, at, past_end, unset, init, insert, next_target, add_target,
  from_element,
}
use nodescan.TargetSet.Simple.Order.{Ascends}
use nodescan.TargetSet.Queue.{pop_front}
use nodescan.TargetSet.Simple.Drain.{
  IsValid, on, at_end, upcoming, drain, drain-init, next_target-pop_front, add_target-upcoming,
  add_target_again,
}
use nodescan.TargetSet.Wrappers.{repeat_next}
use nodescan.TargetSet.Wrappers.Repeat.{refill, repeat_next-refill}
use nodescan.TargetSet.Wrappers.Inject.{calls, add_all, inject_first}

abbrev three : List (Target ℕ)
three = target 1 80 ∷ target 1 443 ∷ target 2 80 ∷ []

abbrev not_started : SimpleTargetSet ℕ
not_started = record { targets = three; it = unset }

abbrev second : SimpleTargetSet ℕ
second = record { targets = three; it = at (target 1 443) }

abbrev ended : SimpleTargetSet ℕ
ended = record { targets = three; it = past_end }

three-Ascends : Ascends three
unfolding target_lt
three-Ascends = ((refl, (refl, tt)), ((refl, tt), (tt, tt)))

second-IsValid : IsValid second
unfolding from_element target_lt
second-IsValid = record { ascends = three-Ascends; stands = on (target 2 80 ∷ []) refl }

ended-IsValid : IsValid ended
ended-IsValid = record { ascends = three-Ascends; stands = at_end }

drain-init_example : drain (3 + 2) (init not_started) ≡ ret (three ++ replicate 2 end_target)
drain-init_example = drain-init not_started 2 three-Ascends

next_target-pop_front_example :
    (r : Target ℕ × SimpleTargetSet ℕ) × (next_target second ≡ ret r)
    × IsValid r.1
    × (r.1.targets ≡ three)
    × ((r.0, upcoming r.1) ≡ pop_front (upcoming second))
next_target-pop_front_example = next_target-pop_front second second-IsValid

add_target-upcoming_example :
    Ascends (add_target (target 1 8080) second).targets
    × (upcoming (add_target (target 1 8080) second) ≡ (
        if target_lt (target 1 443) (target 1 8080)
        then target 1 443 ∷ insert (target 1 8080) (target 2 80 ∷ [])
        else target 1 443 ∷ target 2 80 ∷ []))
unfolding from_element target_lt
add_target-upcoming_example =
    add_target-upcoming second (target 1 8080) (target 1 443) (target 2 80 ∷ []) three-Ascends refl
      refl

add_target_again_example : upcoming (add_target (target 0 22) ended) ≡ target 0 22 ∷ three
unfolding target_lt
add_target_again_example = add_target_again ended (target 0 22) (refl, (refl, (refl, tt))) refl

repeat_next-refill_example :
    (r : Target ℕ × SimpleTargetSet ℕ) × (repeat_next (simple_set {H = ℕ}) ended
      ≡ ret (gives r.0, r.1))
    × IsValid r.1
    × (r.1.targets ≡ three)
    × ((r.0, upcoming r.1) ≡ pop_front (refill [] three))
repeat_next-refill_example = repeat_next-refill ℕ ended word_port-PortLaws ended-IsValid tt

inject_first_example :
    calls (simple_set {H = ℕ}) 3 (add_all three (record { targets = []; base = ended }))
    ≡ ret (map gives three, record { targets = []; base = ended })
inject_first_example = inject_first (simple_set {H = ℕ}) three ended
