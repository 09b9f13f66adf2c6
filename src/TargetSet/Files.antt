-- ===== src/TargetSet/Files.antt =====
-- target_set.cpp, `TargetSet::save_state` and `TargetSet::restore_state` with the name of a file. A name
-- is a number, and a disk says what each file holds.
use nodescan.Prelude.{
  ℕ, ◌≡◌, ap, Bool, true, false, Option, some, ◌==◌, if◌then◌else◌, arith, Bool-cases,
}

abbrev pub Disk : Type 0 → Type 0
Disk X = ℕ → Option X

module _ {S X : Type 0} where
  -- `save_state(file)`: the stream truncates the file, if it can be opened; `save` is what
  -- `save_state(os)` writes.
  unfoldable pub save_state_file : (S → X) → Bool → ℕ → S → Disk X → Disk X
  save_state_file save opens file s disk g =
      if opens then (if g == file then some (save s) else disk g) else disk g

  -- `restore_state(file)`: `restore` is `restore_state(is)`, which gets nothing from a stream whose file
  -- is not there, and may throw.
  unfoldable pub restore_state_file : (Option X → S → Option S) → ℕ → Disk X → S → Option S
  restore_state_file restore file disk s = restore (disk file) s

  -- What is restored from the file is what was last saved there, whatever has been saved in other files
  -- in between.
  restore_state_file-save_state_file :
      (save : S → X) (restore : Option X → S → Option S) (file other : ℕ) (opens : Bool)
      (s s' u : S) (disk : Disk X)
      → (file == other) ≡ false
      → restore_state_file restore file
          (save_state_file save opens other u (save_state_file save true file s disk))
          s'
        ≡ restore (some (save s)) s'
  unfolding restore_state_file save_state_file
  restore_state_file-save_state_file save restore file other opens s s' u disk apart =
      let held : save_state_file save opens other u (save_state_file save true file s disk) file
          ≡ some (save s) =
        ground (arith, Bool-cases opens, apart) in
      ap (λ o. restore o s') held
