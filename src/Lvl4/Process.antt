-- ===== src/Lvl4/Process.antt =====
-- data_triggers.cpp and lvl4_state_machine.cpp: one call of a trigger, and the loops over it.
use nodescan.Prelude.{
  ℕ, zero, suc, ◌+◌, ◌≡◌, Bool, true, false, Option, none, some, List, [], ◌∷◌, drop, ltb, ◌==◌,
  if◌then◌else◌, Exec, ret, out_of_fuel, ◌>>=◌,
}
use nodescan.Buffer.{contents, pop_by, grow_by, store}
use nodescan.Lvl4.{
  Lvl4Sm, Trigger, no_trigger, size_trigger, char_trigger, python_trigger, ProcessReturnCode,
  no_more_to_process, can_process_again, connection_end,
}

-- `std::find(begin, end, c)`: how many bytes stand before the first `c`.
unfoldable pub find_byte : ℕ → List ℕ → Option ℕ
find_byte c [] = none
find_byte c (x ∷ xs) =
    if x == c then some 0 else (elim (find_byte c xs) [ none ↦ none | some i ↦ some (suc i) ])

-- What the callbacks of a program do: `call` for a `Lvl4DataAction`, with the number of bytes that it
-- is given from the front of the buffer, and `python` for an object's `process_buffer`, with the
-- position that it is given.
pub record Callbacks (F T W : Type 0) : Type 0 where
  pub call : F → T → ℕ → W → Lvl4Sm F → Exec (Bool × W × Lvl4Sm F)
  pub python : F → T → ℕ → W → Lvl4Sm F → ProcessReturnCode × W × Lvl4Sm F
  pub connect : F → T → W → Lvl4Sm F → Bool × W × Lvl4Sm F

module _ {F T W : Type 0} (act : Callbacks F T W) where
  -- What follows the callback: the end of the connection, or `pop_by(n)`.
  abbrev pub consume : ℕ → Bool × W × Lvl4Sm F → Exec (ProcessReturnCode × W × Lvl4Sm F)
  consume n (false, w, sm) = ret (connection_end, w, sm)
  consume n (true, w, sm) =
      pop_by n sm.buf >>= λ b. ret (can_process_again, w, record sm { buf = b })

  -- `SizeDataTrigger::process_buffer`
  unfoldable pub size_process : ℕ → F → T → W → Lvl4Sm F → Exec (ProcessReturnCode × W × Lvl4Sm F)
  size_process size f t w sm =
      if ltb sm.buf.buf_pos size
      then ret (no_more_to_process, w, sm)
      else act.call f t size w sm >>= consume size

  -- `CharDataTrigger::process_buffer`: the position counts from the buffer's begin.
  unfoldable pub char_process :
      ℕ → F → T → ℕ → W → Lvl4Sm F → Exec (ProcessReturnCode × W × Lvl4Sm F)
  char_process c f t prev_pos w sm = elim (find_byte c (drop prev_pos (contents sm.buf))) [
    | none ↦ ret (no_more_to_process, w, sm)
    | some i ↦ let pos = prev_pos + i in act.call f t pos w sm >>= consume (pos + 1)
  ]

  -- `DataTriggerVariant::process_buffer`: the virtual call.
  unfoldable pub trigger_process :
      Trigger F → T → ℕ → W → Lvl4Sm F → Exec (ProcessReturnCode × W × Lvl4Sm F)
  unfolding size_process char_process
  trigger_process no_trigger t prev_pos w sm = ret (no_more_to_process, w, sm)
  trigger_process (size_trigger n f) t prev_pos w sm = size_process n f t w sm
  trigger_process (char_trigger c f) t prev_pos w sm = char_process c f t prev_pos w sm
  trigger_process (python_trigger f) t prev_pos w sm = ret (act.python f t prev_pos w sm)

  -- The `do ... while (ret == CanProcessAgain)` loops: the first round is given `prev_pos`, the
  -- others 0. The Boolean is `ret == NoMoreToProcess`.
  unfoldable pub process_loop : ℕ → T → ℕ → W → Lvl4Sm F → Exec (Bool × W × Lvl4Sm F)
  process_loop zero t prev_pos w sm = out_of_fuel
  process_loop (suc fuel) t prev_pos w sm = trigger_process sm.trigger t prev_pos w sm >>= λ r.
      elim r.0 [
        | no_more_to_process ↦ ret (true, r.1, r.2)
        | can_process_again ↦ process_loop fuel t 0 r.1 r.2
        | connection_end ↦ ret (false, r.1, r.2)
      ]

  -- `Lvl4SM::process_buffer`
  unfoldable pub process_buffer : ℕ → T → W → Lvl4Sm F → Exec (Bool × W × Lvl4Sm F)
  process_buffer fuel t w sm = process_loop fuel t 0 w sm

  -- `Lvl4SM::process_lvl4_data`: `got` is what `read` stores, `none` where it returns 0 or an error.
  unfoldable pub process_lvl4_data :
      (ℕ → ℕ) → ℕ → T → ℕ → Option (List ℕ) → W → Lvl4Sm F → Exec (Bool × W × Lvl4Sm F)
  process_lvl4_data uninit fuel t navail got w sm =
      let prev_pos = sm.buf.buf_pos in
      let (buf_read, b) = grow_by uninit navail sm.buf in
      elim got [
        | none ↦ ret (false, w, record sm { buf = b })
        | some bytes ↦
            store buf_read bytes b >>= λ b'. process_loop fuel t prev_pos w (record sm { buf = b' })
      ]

  -- `Lvl4SM::on_connect`: with no function set it warns and ends the connection.
  unfoldable pub on_connect : T → W → Lvl4Sm F → Bool × W × Lvl4Sm F
  on_connect t w sm = elim sm.func_connect [ none ↦ (false, w, sm) | some f ↦ act.connect f t w sm ]

  module _ (fuel : ℕ) (t : T) (prev_pos : ℕ) (w : W) (sm : Lvl4Sm F) {w' : W} {sm' : Lvl4Sm F} where
    pub process_loop_again :
        trigger_process sm.trigger t prev_pos w sm ≡ ret (can_process_again, w', sm')
        → process_loop (suc fuel) t prev_pos w sm ≡ process_loop fuel t 0 w' sm'
    unfolding process_loop
    process_loop_again h = rw h

    pub process_loop_wait :
        trigger_process sm.trigger t prev_pos w sm ≡ ret (no_more_to_process, w', sm')
        → process_loop (suc fuel) t prev_pos w sm ≡ ret (true, w', sm')
    unfolding process_loop
    process_loop_wait h = rw h

    pub process_loop_end :
        trigger_process sm.trigger t prev_pos w sm ≡ ret (connection_end, w', sm')
        → process_loop (suc fuel) t prev_pos w sm ≡ ret (false, w', sm')
    unfolding process_loop
    process_loop_end h = rw h
