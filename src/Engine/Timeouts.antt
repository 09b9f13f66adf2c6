-- ===== src/Engine/Timeouts.antt =====
-- The first loop of `process_dirty_and_timeouts`: the sockets that it lists.
pub mod Verdicts
use nodescan.Prelude.{
  ℕ, suc, ◌+◌, ◌<◌, ◌≤◌, ◌≡◌, refl, ap, sym, subst, ◌∙◌, true, false, some, List, [], ◌∷◌, arith,
  ◌==◌, ◌&&◌, if◌then◌else◌, Bool-cases, inl, inr, ◌⊎◌,
}
use nodescan.Prelude.Maps
use nodescan.Prelude.Maps.{Ascends, assign-Ascends, find-erase_ne, find-erase-none}
use nodescan.Prelude.Maps.Keys.{keys}
use nodescan.Lvl4.{Lvl4Sm, should_process_buffer}
use nodescan.Target.{PortApi, Target}
use nodescan.Engine.{Config}
use nodescan.Engine.Scan.{check_timeouts, has_timedout, timeout_of_target}

-- Sockets in rising order, none below a bound.
abbrev pub Rising : ℕ → List ℕ → Type 0
Rising b [] = Unit {0}
Rising b (s ∷ ss) = (b ≤ s) × Rising (suc s) ss

pub Rising-mono : {b d : ℕ} (ss : List ℕ) → b ≤ d → Rising d ss → Rising b ss
Rising-mono [] h r = tt
Rising-mono (s ∷ ss) h r = (omega arith, r.1)

abbrev pub Listed : ℕ → List ℕ → Type 0
Listed s [] = ⊥
Listed s (x ∷ xs) = (x ≡ s) ⊎ Listed s xs

pub Rising-apart : (b i : ℕ) (ss : List ℕ) → i < b → Rising b ss → Listed i ss → ⊥
Rising-apart b i [] low r l = l
Rising-apart b i (s ∷ ss) low r (inl at) = omega (arith, low, r.0, at)
Rising-apart b i (s ∷ ss) low r (inr l) = Rising-apart (suc s) i ss (omega (arith, low, r.0)) r.1 l

pub find_of_Listed {ℓ} :
    {V : Type ℓ} (s : ℕ) (m : List (ℕ × V)) → Listed s (keys m) → (v : V) × (Maps.find s m ≡ some v)
unfolding Maps.find
find_of_Listed s [] l = absurd l
find_of_Listed s ((j, v) ∷ m) l = elim (Bool-cases (j == s)) [
  | inl here ↦ (v, ground (arith, here))
  | inr other ↦
      let rest : Listed s (keys m) = elim l [
        | inl at ↦ absurd (ground (arith, at, other))
        | inr r ↦ r
      ] in
      let (w, found) = find_of_Listed s m rest in (w, ground (arith, other, found))
]

module _ {P S H F W : Type 0} ⦃api : PortApi P⦄ (c : Config P S H F W) where
  module _ (peer : ℕ → Target P) (ts : ℕ) where
    pub keys-check_timeouts :
        (sms : List (ℕ × Lvl4Sm F)) (w : W) → keys (check_timeouts c peer ts sms w).sms ≡ keys sms
    unfolding check_timeouts
    keys-check_timeouts [] w = refl
    keys-check_timeouts ((s, sm) ∷ sms) w =
        let late = has_timedout c ts (peer s) w (should_process_buffer sm).1 in
        let rest = keys-check_timeouts sms (if sm.machine.valid then late.1 else w) in
        elim (Bool-cases sm.machine.valid) [
          | inl valid ↦ ground (arith, valid, rest)
          | inr invalid ↦ ground (arith, invalid, rest)
        ]

    -- One connection has timed out, or nothing is added to those that have.
    timeouted_cons :
        (s : ℕ) (sm : Lvl4Sm F) (sms : List (ℕ × Lvl4Sm F)) (w : W)
        → let late = has_timedout c ts (peer s) w (should_process_buffer sm).1 in
          let rest = check_timeouts c peer ts sms (if sm.machine.valid then late.1 else w) in
          (check_timeouts c peer ts ((s, sm) ∷ sms) w).timeouted
          ≡ (if sm.machine.valid && late.0 then s ∷ rest.timeouted else rest.timeouted)
    unfolding check_timeouts
    timeouted_cons s sm sms w = ground arith

    pub check_timeouts-Rising :
        (b : ℕ) (sms : List (ℕ × Lvl4Sm F)) (w : W)
        → Ascends b sms
        → Rising b (check_timeouts c peer ts sms w).timeouted
    unfolding check_timeouts
    check_timeouts-Rising b [] w a = tt
    check_timeouts-Rising b ((s, sm) ∷ sms) w a =
        let late = has_timedout c ts (peer s) w (should_process_buffer sm).1 in
        let w' = if sm.machine.valid then late.1 else w in
        let rest = check_timeouts-Rising (suc s) sms w' a.1 in
        let ss = (check_timeouts c peer ts sms w').timeouted in
        subst (Rising b) (sym (timeouted_cons s sm sms w))
          (elim (sm.machine.valid && late.0) as (λ x. Rising b (if x then s ∷ ss else ss)) [
            | true ↦ (a.0, rest)
            | false ↦ Rising-mono {b = b} {d = suc s} ss (omega arith) rest
          ])

    dirty_cons :
        (s : ℕ) (sm : Lvl4Sm F) (sms : List (ℕ × Lvl4Sm F)) (w : W)
        → let late = has_timedout c ts (peer s) w (should_process_buffer sm).1 in
          let rest = check_timeouts c peer ts sms (if sm.machine.valid then late.1 else w) in
          (check_timeouts c peer ts ((s, sm) ∷ sms) w).to_process ≡ (
            if sm.machine.valid && (should_process_buffer sm).0
            then s ∷ rest.to_process
            else rest.to_process)
    unfolding check_timeouts
    dirty_cons s sm sms w = ground arith

    -- The sockets whose buffers are to be looked at again rise, and have state machines.
    pub check_timeouts-dirty :
        (b : ℕ) (sms : List (ℕ × Lvl4Sm F)) (w : W)
        → Ascends b sms
        → Rising b (check_timeouts c peer ts sms w).to_process
          × ((i : ℕ) → Listed i (check_timeouts c peer ts sms w).to_process → Listed i (keys sms))
    unfolding check_timeouts
    check_timeouts-dirty b [] w a = (tt, λ i l. l)
    check_timeouts-dirty b ((s, sm) ∷ sms) w a =
        let late = has_timedout c ts (peer s) w (should_process_buffer sm).1 in
        let w' = if sm.machine.valid then late.1 else w in
        let rest = check_timeouts-dirty (suc s) sms w' a.1 in
        let ss = (check_timeouts c peer ts sms w').to_process in
        subst (λ l. Rising b l × ((i : ℕ) → Listed i l → Listed i (keys ((s, sm) ∷ sms))))
          (sym (dirty_cons s sm sms w))
          (elim (sm.machine.valid && (should_process_buffer sm).0)
            as (λ x.
              Rising b (if x then s ∷ ss else ss)
              × ((i : ℕ) → Listed i (if x then s ∷ ss else ss) → Listed i (keys ((s, sm) ∷ sms)))) [
                | true ↦
                    ((a.0, rest.0), λ i l. elim l [ inl at ↦ inl at | inr r ↦ inr (rest.1 i r) ])
                | false ↦ (
                  Rising-mono {b = b} {d = suc s} ss (omega arith) rest.0,
                  λ i l. inr (rest.1 i l),
                )
              ])

    over-late :
        (s : ℕ) (sm : Lvl4Sm F) (w : W)
        → sm.machine.ts + timeout_of_target c (peer s) ≤ ts
        → (has_timedout c ts (peer s) w (should_process_buffer sm).1).0 ≡ true
    unfolding has_timedout should_process_buffer
    over-late s sm w over = ground arith

    -- A valid connection whose time is over is among those that have timed out.
    pub check_timeouts-Listed :
        (s : ℕ) (sm : Lvl4Sm F) (sms : List (ℕ × Lvl4Sm F)) (w : W)
        → Maps.find s sms ≡ some sm
        → sm.machine.valid ≡ true
        → sm.machine.ts + timeout_of_target c (peer s) ≤ ts
        → Listed s (check_timeouts c peer ts sms w).timeouted
    unfolding Maps.find
    check_timeouts-Listed s sm [] w h valid over = cc
    check_timeouts-Listed s sm ((i, x) ∷ sms) w h valid over =
        let late = has_timedout c ts (peer i) w (should_process_buffer x).1 in
        let w' = if x.machine.valid then late.1 else w in
        let ss = (check_timeouts c peer ts sms w').timeouted in
        subst (Listed s) (sym (timeouted_cons i x sms w))
          (elim (Bool-cases (i == s))
            as (λ _. Listed s (if x.machine.valid && late.0 then i ∷ ss else ss)) [
              | inl here ↦
                  let at : i ≡ s = ground (arith, here) in
                  let same : x ≡ sm = ground (arith, h, here) in
                  let over_i : sm.machine.ts + timeout_of_target c (peer i) ≤ ts =
                    subst (λ k. sm.machine.ts + timeout_of_target c (peer k) ≤ ts) (sym at) over in
                  let over_x : x.machine.ts + timeout_of_target c (peer i) ≤ ts =
                    subst (λ y. y.machine.ts + timeout_of_target c (peer i) ≤ ts) (sym same)
                      over_i in
                  let now_late = over-late i x w over_x in
                  let valid_x : x.machine.valid ≡ true = ap (λ y. y.machine.valid) same ∙ valid in
                  let both : (x.machine.valid && late.0) ≡ true =
                    ground (arith, now_late, valid_x) in
                  subst (λ b. Listed s (if b then i ∷ ss else ss)) (sym both) (inl at)
              | inr other ↦
                  let found : Maps.find s sms ≡ some sm = ground (arith, h, other) in
                  let rest = check_timeouts-Listed s sm sms w' found valid over in
                  elim (x.machine.valid && late.0) as (λ b. Listed s (if b then i ∷ ss else ss)) [
                    | true ↦ inr rest
                    | false ↦ rest
                  ]
            ])
