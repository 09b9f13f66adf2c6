-- ===== src/Engine/Timeouts/Verdicts.antt =====
-- The first loop of `process_dirty_and_timeouts`: how many connections it counts, and why a connection
-- has timed out.
use nodescan.Prelude.{
  ℕ, suc, ◌+◌, ◌≤◌, ◌≡◌, ◌≢◌, refl, ap, subst, ◌∙◌, Bool, true, false, some, List, [], ◌∷◌, length,
  arith, ◌==◌, if◌then◌else◌, Bool-cases, Option-cases, inl, inr, ◌⊎◌, not, ◌&&◌, leb,
}
use nodescan.Prelude.Maps
use nodescan.Prelude.Maps.{Ascends, le_of_find}
use nodescan.Lvl4.{Lvl4Sm, should_process_buffer}
use nodescan.Target.{PortApi, Target}
use nodescan.Engine.{Config}
use nodescan.Engine.Scan.{check_timeouts, has_timedout, has_watch_timedout, timeout_of_target}
use nodescan.Engine.Timeouts.{Listed, timeouted_cons}

-- How many of the connections are valid.
pub valid_count : {F : Type 0} → List (ℕ × Lvl4Sm F) → ℕ
valid_count [] = 0
valid_count ((s, sm) ∷ sms) = (if sm.machine.valid then 1 else 0) + valid_count sms

-- An entry behind the first one of a map has another key.
find_later :
    {V : Type 0} (i s : ℕ) (x v : V) (m : List (ℕ × V))
    → Ascends (suc i) m
    → Maps.find s m ≡ some v
    → Maps.find s ((i, x) ∷ m) ≡ some v
unfolding Maps.find
find_later i s x v m a found = let above = le_of_find s (suc i) v m a found in ground (arith, found)

module _ {P S H F W : Type 0} ⦃api : PortApi P⦄ (c : Config P S H F W) where
  -- The watch of a target is due, and tells to end the connection.
  abbrev pub WatchEnds : ℕ → Target P → Lvl4Sm F → Type 0
  WatchEnds ts t sm =
      (cb : Target P → W → Bool × W) × (w : W) × (c.watch_timeout_cb ≡ some cb)
      × (c.watch_timeout ≢ 0)
      × (sm.machine.watch_ts + c.watch_timeout ≤ ts)
      × ((cb t w).0 ≡ false)

  -- A connection has been idle for the time that its target is given, or its watch ends it.
  abbrev pub TimedOut : ℕ → Target P → Lvl4Sm F → Type 0
  TimedOut ts t sm = (sm.machine.ts + timeout_of_target c t ≤ ts) ⊎ WatchEnds ts t sm

  has_timedout-TimedOut :
      (ts : ℕ) (t : Target P) (w : W) (sm : Lvl4Sm F)
      → (has_timedout c ts t w (should_process_buffer sm).1).0 ≡ true
      → TimedOut ts t sm
  unfolding has_timedout should_process_buffer has_watch_timedout
  has_timedout-TimedOut ts t w sm late =
      elim (Bool-cases (leb (sm.machine.ts + timeout_of_target c t) ts)) [
        | inl over ↦ inl (ground (arith, over))
        | inr idle ↦ elim (Option-cases c.watch_timeout_cb) [
          | inl unset ↦ absurd (ground (arith, late, idle, unset))
          | inr (cb, set) ↦
              let due : (not (c.watch_timeout == 0)
                    && leb (sm.machine.watch_ts + c.watch_timeout) ts)
                  ≡ true =
                ground (arith, late, idle, set) in
              inr (
                cb,
                w,
                set,
                (λ zero. ground (arith, due, zero)),
                ground (arith, due),
                ground (arith, late, idle, set, due),
              )
        ]
      ]

  module _ (peer : ℕ → Target P) (ts : ℕ) where
    -- A valid connection is either counted, or listed as timed out.
    pub check_timeouts-counted :
        (sms : List (ℕ × Lvl4Sm F)) (w : W)
        → let k = check_timeouts c peer ts sms w in k.n_valid + length k.timeouted ≡ valid_count sms
    unfolding check_timeouts valid_count
    check_timeouts-counted [] w = refl
    check_timeouts-counted ((s, sm) ∷ sms) w =
        let late = has_timedout c ts (peer s) w (should_process_buffer sm).1 in
        let rest = check_timeouts-counted sms (if sm.machine.valid then late.1 else w) in
        ground (arith, Bool-cases sm.machine.valid, Bool-cases late.0, rest)

    -- A connection that is counted is not there twice, so that if none is counted each has timed out.
    pub check_timeouts-all_late :
        (s : ℕ) (sm : Lvl4Sm F) (sms : List (ℕ × Lvl4Sm F)) (w : W)
        → (check_timeouts c peer ts sms w).n_valid ≡ 0
        → Maps.find s sms ≡ some sm
        → sm.machine.valid ≡ true
        → TimedOut ts (peer s) sm
    unfolding Maps.find check_timeouts
    check_timeouts-all_late s sm [] w zero found valid = cc
    check_timeouts-all_late s sm ((i, x) ∷ sms) w zero found valid =
        let late = has_timedout c ts (peer i) w (should_process_buffer x).1 in
        let w' = if x.machine.valid then late.1 else w in
        elim (Bool-cases (i == s)) [
          | inl here ↦
              let at : i ≡ s = ground (arith, here) in
              let same : x ≡ sm = ground (arith, found, here) in
              let valid_x : x.machine.valid ≡ true = ap (λ y. y.machine.valid) same ∙ valid in
              let is_late : late.0 ≡ true = ground (arith, zero, valid_x, Bool-cases late.0) in
              subst (λ k. TimedOut ts (peer k) sm) at
                (subst (λ y. TimedOut ts (peer i) y) same
                  (has_timedout-TimedOut ts (peer i) w x is_late))
          | inr other ↦
              check_timeouts-all_late s sm sms w'
                (ground (arith, zero, Bool-cases x.machine.valid, Bool-cases late.0))
                (ground (arith, found, other)) valid
        ]

    -- What is listed as timed out is a valid connection that has timed out.
    pub check_timeouts-late :
        (b s : ℕ) (sms : List (ℕ × Lvl4Sm F)) (w : W)
        → Ascends b sms
        → Listed s (check_timeouts c peer ts sms w).timeouted
        → (sm : Lvl4Sm F) × (Maps.find s sms ≡ some sm)
          × (sm.machine.valid ≡ true)
          × TimedOut ts (peer s) sm
    unfolding Maps.find check_timeouts
    check_timeouts-late b s [] w a l = absurd l
    check_timeouts-late b s ((i, x) ∷ sms) w a l =
        let late = has_timedout c ts (peer i) w (should_process_buffer x).1 in
        let w' = if x.machine.valid then late.1 else w in
        let ss = (check_timeouts c peer ts sms w').timeouted in
        let later : Listed s ss
            → (sm : Lvl4Sm F) × (Maps.find s ((i, x) ∷ sms) ≡ some sm)
              × (sm.machine.valid ≡ true)
              × TimedOut ts (peer s) sm =
          λ r.
            let (sm, found, valid, out) = check_timeouts-late (suc i) s sms w' a.1 r in
            (sm, find_later i s x sm sms a.1 found, valid, out) in
        elim (Bool-cases (x.machine.valid && late.0)) [
          | inl both ↦
              elim (subst (λ b. Listed s (if b then i ∷ ss else ss)) both
                (subst (Listed s) (timeouted_cons c peer ts i x sms w) l)) [
                  | inl at ↦ (
                    x,
                    ground (arith, at),
                    ground (arith, both),
                    subst (λ k. TimedOut ts (peer k) x) at
                        (has_timedout-TimedOut ts (peer i) w x (ground (arith, both))),
                  )
                  | inr r ↦ later r
                ]
          | inr not_both ↦ later (
              subst (λ b. Listed s (if b then i ∷ ss else ss)) not_both
                (subst (Listed s) (timeouted_cons c peer ts i x sms w) l))
        ]
