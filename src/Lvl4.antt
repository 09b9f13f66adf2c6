-- ===== src/Lvl4.antt =====
-- include/ns/state_machine.h, lvl4_state_machine.h, data_trigger_base.h, data_triggers.h,
-- data_trigger_variant.h and their .cpp files: a connection's state machine, its buffer and the
-- trigger that cuts the received bytes into pieces.
--
-- A `std::function` is a value of the parameter `F`, and `act` says what a call of it does: it is
-- given the target, the number of bytes at the front of the buffer, the rest of the program `W`
-- (what the closures captured, the `HostSM`, what was sent) and the `Lvl4SM` that it may change.
pub mod Variant
pub mod Process
pub mod Framing
pub mod Dialog
pub mod Tests
use nodescan.Prelude.{ℕ, ◌-◌, ◌≤◌, Bool, true, false, Option, none, some, leb, if◌then◌else◌}
use nodescan.Buffer.{Buffer, empty, free}

-- `DataTrigger::ProcessReturnCode`
pub data ProcessReturnCode : Type 0 where
  no_more_to_process can_process_again connection_end : ProcessReturnCode

-- `DataTriggersVariant`: the base class `DataTrigger`, `SizeDataTrigger`, `CharDataTrigger`, and
-- `PythonDataTrigger` with the Python object that it calls.
pub data Trigger (F : Type 0) : Type 0 where
  no_trigger : Trigger F
  size_trigger : ℕ → F → Trigger F
  char_trigger : ℕ → F → Trigger F
  python_trigger : F → Trigger F

-- The members of `StateMachine`.
pub record StateMachine : Type 0 where
  pub valid : Bool
  pub ts : ℕ
  pub watch_ts : ℕ

-- `StateMachine()`, at the time `now`.
abbrev pub new_state_machine : ℕ → StateMachine
new_state_machine now = record { valid = false; ts = 0; watch_ts = now }

pub record Lvl4Sm (F : Type 0) : Type 0 where
  pub machine : StateMachine
  pub reconnect : Bool
  pub reprocess : Bool
  pub func_connect : Option F
  pub trigger : Trigger F
  pub buf : Buffer

module _ {F : Type 0} where
  -- `Lvl4SM()`
  abbrev pub new_lvl4_sm : ℕ → Lvl4Sm F
  new_lvl4_sm now = record {
    machine = new_state_machine now;
    reconnect = false;
    reprocess = false;
    func_connect = none;
    trigger = no_trigger;
    buf = empty;
  }

  abbrev pub set_valid : Bool → Lvl4Sm F → Lvl4Sm F
  set_valid v sm = record sm { machine = record (sm.machine) { valid = v } }

  abbrev pub update_ts : ℕ → Lvl4Sm F → Lvl4Sm F
  update_ts now sm = record sm { machine = record (sm.machine) { ts = now } }

  abbrev pub update_watch_ts : ℕ → Lvl4Sm F → Lvl4Sm F
  update_watch_ts ts sm = record sm { machine = record (sm.machine) { watch_ts = ts } }

  abbrev pub set_reconnect : Bool → Lvl4Sm F → Lvl4Sm F
  set_reconnect v sm = record sm { reconnect = v }

  abbrev pub set_on_connect : Option F → Lvl4Sm F → Lvl4Sm F
  set_on_connect f sm = record sm { func_connect = f }

  abbrev pub free_buffer : Lvl4Sm F → Lvl4Sm F
  free_buffer sm = record sm { buf = free sm.buf }

  -- `set_trigger<T>(args)`
  abbrev pub set_trigger : Trigger F → Lvl4Sm F → Lvl4Sm F
  set_trigger t sm = record sm { trigger = t; reprocess = true }

  abbrev pub remove_data_trigger : Lvl4Sm F → Lvl4Sm F
  remove_data_trigger sm = record (set_trigger no_trigger sm) { reprocess = false }

  unfoldable pub should_process_buffer : Lvl4Sm F → Bool × Lvl4Sm F
  should_process_buffer sm =
      if sm.reprocess then (true, record sm { reprocess = false }) else (false, sm)
