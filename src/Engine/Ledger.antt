-- ===== src/Engine/Ledger.antt =====
-- The targets of a scan, counted: those that the set has still to give, those that have an open
-- socket, and those whose end the set has been told.
pub mod Sockets
pub mod Opening
pub mod Events
pub mod Scan
pub mod Recorded
pub mod Tests
use nodescan.Prelude.{
  ℕ, ◌+◌, ◌≡◌, refl, Bool, true, false, some, none, List, [], ◌∷◌, ret, arith, if◌then◌else◌, ◌==◌,
}
use nodescan.Prelude.Maps
use nodescan.Target.{PortApi, Target, is_end}
use nodescan.TargetSet.{Next, gives, blocks}
use nodescan.Engine.{Engine, Config}

module _ {P : Type 0} where
  -- One target, if it passes the test.
  abbrev pub one : (Target P → Bool) → Target P → ℕ
  one p t = if p t then 1 else 0

  -- How many open sockets have a target that passes the test.
  pub open_count : (Target P → Bool) → List (ℕ × Target P) → ℕ
  open_count p [] = 0
  open_count p ((s, t) ∷ m) = one p t + open_count p m

  pub open_count-erase :
      (p : Target P → Bool) (s : ℕ) (t : Target P) (m : List (ℕ × Target P))
      → Maps.find s m ≡ some t
      → open_count p m ≡ one p t + open_count p (Maps.erase s m)
  unfolding open_count Maps.find Maps.erase
  open_count-erase p s t [] h = cc
  open_count-erase p s t ((j, u) ∷ m) h = ground (arith, open_count-erase p s t m)

  pub open_count-insert :
      (p : Target P → Bool) (s : ℕ) (t : Target P) (m : List (ℕ × Target P))
      → Maps.find s m ≡ none
      → open_count p (Maps.insert s t m) ≡ one p t + open_count p m
  unfolding open_count Maps.find Maps.insert
  open_count-insert p s t [] h = refl
  open_count-insert p s t ((j, u) ∷ m) h = ground (arith, open_count-insert p s t m)

module _ {P S H F W : Type 0} ⦃api : PortApi P⦄ (c : Config P S H F W) where
  -- A target set whose targets can be counted, by any test: those to come, and those that it was told
  -- to be finished. Once it gives an end, no target is to come.
  pub record Counts (Good : S → Type 0) : Type 0 where
    pub left : (Target P → Bool) → S → ℕ
    pub told : (Target P → Bool) → S → ℕ
    pub gives_one :
        (p : Target P → Bool) (x x' : S) (t : Target P)
        → Good x
        → c.target_set.next_target x ≡ ret (gives t, x')
        → is_end t ≡ false
        → (left p x ≡ one p t + left p x') × (told p x' ≡ told p x)
    pub ends :
        (p : Target P → Bool) (x x' : S) (t : Target P)
        → Good x
        → c.target_set.next_target x ≡ ret (gives t, x')
        → is_end t ≡ true
        → (left p x ≡ 0) × (left p x' ≡ 0) × (told p x' ≡ told p x)
    pub would_block :
        (p : Target P → Bool) (x x' : S)
        → Good x
        → c.target_set.next_target x ≡ ret (blocks, x')
        → (left p x' ≡ left p x) × (told p x' ≡ told p x)
    pub tells :
        (p : Target P → Bool) (t : Target P) (h : H) (x : S)
        → let x' = (c.target_set.target_finished t h x).2 in
          (left p x' ≡ left p x) × (told p x' ≡ one p t + told p x)

  module _ {Good : S → Type 0} (counts : Counts Good) (p : Target P → Bool) where
    -- The targets that pass the test, wherever they are.
    abbrev pub total : Engine P S H F W → ℕ
    total e = counts.told p e.targets + open_count p e.sockets_targets + counts.left p e.targets
