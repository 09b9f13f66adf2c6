-- ===== src/Buffer/Assign.antt =====
-- The constructors and the assignments of `Buffer` that take another one.
use nodescan.Prelude.{ℕ, ◌≡◌, refl, sym, ap, Bool, true, false, none, Exec, ret, if◌then◌else◌}
use nodescan.Buffer.{Buffer, empty, contents, copy, move}
use nodescan.Buffer.Laws.{IsValid, IsValid-empty, copy-IsValid}

-- `Buffer(Buffer&& o)`, and what is left of `o`.
abbrev pub moved_buffer : Buffer → Buffer × Buffer
moved_buffer o = move o empty

-- `operator=(Buffer&& o)`; the Boolean is whether `o` is the buffer itself.
unfoldable pub assign_moved : Bool → Buffer → Buffer → Buffer × Buffer
assign_moved same o b = if same then (b, b) else move o b

module _ (uninit : ℕ → ℕ) where
  -- `Buffer(Buffer const& o)`
  abbrev pub copied_buffer : Buffer → Exec Buffer
  copied_buffer o = copy uninit o empty

  -- `operator=(Buffer const& o)`
  unfoldable pub assign_copied : Bool → Buffer → Buffer → Exec Buffer
  assign_copied same o b = if same then ret b else copy uninit o b

  -- A buffer that is made of a valid one, or to which a valid one is assigned, itself included, is valid
  -- and has its contents; one that is moved from is valid and has no block any more.
  pub assign_copied-IsValid :
      (same : Bool) (o b : Buffer)
      → IsValid o
      → IsValid b
      → (same ≡ true → o ≡ b)
      → ((b' : Buffer) × (assign_copied same o b ≡ ret b')
          × IsValid b'
          × (contents b' ≡ contents o))
        × ((b' : Buffer) × (copied_buffer o ≡ ret b') × IsValid b' × (contents b' ≡ contents o))
  unfolding assign_copied
  assign_copied-IsValid true o b vo vb self =
      ((b, refl, vb, ap contents (sym (self refl))), copy-IsValid uninit o empty vo IsValid-empty)
  assign_copied-IsValid false o b vo vb self =
      (copy-IsValid uninit o b vo vb, copy-IsValid uninit o empty vo IsValid-empty)

  pub assign_moved-IsValid :
      (o b : Buffer)
      → IsValid o
      → let (b', o') = assign_moved false o b in
        IsValid b' × (contents b' ≡ contents o) × IsValid o' × (o'.buffer ≡ none)
  unfolding assign_moved move
  assign_moved-IsValid o b v =
      (record { sized = v.sized; small = v.small; within = v.within }, refl, IsValid-empty, refl)
