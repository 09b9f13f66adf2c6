-- ===== src/Engine/Clock.antt =====
-- engine.cpp and async_engine.cpp: what the engine does at intervals, its state display and the saving
-- of its target set. Times are seconds.
use nodescan.Prelude.{
  ℕ, ◌+◌, ◌≤◌, ◌<◌, Bool, true, false, ◌||◌, Option, none, some, List, [], ◌∷◌, leb, ◌==◌,
  if◌then◌else◌, arith,
}

-- `_file_autosave`, `_last_save` and `_time_autosave` of `Engine`. An empty file name is `[]`.
pub record Autosave : Type 0 where
  pub file : List ℕ
  pub last_save : ℕ
  pub time_autosave : ℕ

-- `auto_save_state(file, time_s)`: a null file switches it off.
unfoldable pub auto_save_state : Option (List ℕ) → ℕ → Autosave → Autosave
auto_save_state none time_s a = record a { time_autosave = 0 }
auto_save_state (some file) time_s a = record { file = file; last_save = 0; time_autosave = time_s }

abbrev is_empty : List ℕ → Bool
is_empty [] = true
is_empty (x ∷ xs) = false

-- `should_save_state()` at the time `now`; the signed difference is compared as a sum.
unfoldable pub should_save_state : ℕ → Autosave → Bool × Autosave
should_save_state now a =
    if a.time_autosave == 0 || is_empty a.file
    then (false, a)
    else if leb (a.last_save + a.time_autosave) now
    then (true, record a { last_save = now })
    else (false, a)

-- `_timeout_status_display` and `_last_time_status_display` of `AsyncEngine`, and whether its callback
-- is set.
pub record Display : Type 0 where
  pub callback_status : Bool
  pub timeout_status_display : ℕ
  pub last_time_status_display : ℕ

-- `should_call_status_display()` at the time `now`.
unfoldable pub should_call_status_display : ℕ → Display → Bool × Display
should_call_status_display now d =
    if d.callback_status
    then (if d.timeout_status_display == 0
        then (false, d)
        else if leb (d.last_time_status_display + d.timeout_status_display) now
        then (true, record d { last_time_status_display = now })
        else (false, d))
    else (false, d)

-- The times at which a run of questions at the given times is answered by true.
pub saves : List ℕ → Autosave → List ℕ
saves [] a = []
saves (now ∷ nows) a =
    let (due, a') = should_save_state now a in if due then now ∷ saves nows a' else saves nows a'

abbrev pub Apart : ℕ → ℕ → List ℕ → Type 0
Apart time last [] = Unit {0}
Apart time last (t ∷ ts) = (last + time ≤ t) × Apart time t ts

-- With a file set and a positive interval, any two saves in a row are at least the interval apart,
-- whatever the times of the questions, and the first is so from the last save before them.
pub saves-Apart :
    (nows : List ℕ) (a : Autosave)
    → 0 < a.time_autosave
    → Apart a.time_autosave a.last_save (saves nows a)
unfolding saves should_save_state
saves-Apart [] a h = tt
saves-Apart (now ∷ nows) a h =
    ground (arith, saves-Apart nows a h, saves-Apart nows (record a { last_save = now }) h)
