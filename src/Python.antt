-- ===== src/Python.antt =====
-- bindings/python/pynodescan.cpp: what the bindings do between Python and the engine. A Python object
-- is a value of the parameter `O`, and what a call of it does is a parameter; `extract<bool>` is taken
-- to succeed. The declarations of the module's classes are not modelled.
pub mod Hash
pub mod Tests
use nodescan.Prelude.{
  ℕ, ◌+◌, ◌*◌, ◌%◌, ◌^◌, Bool, true, false, Option, none, some, List, [], ◌∷◌, take, Exec, ret,
  ◌>>=◌,
}
use nodescan.Buffer.{Buffer}
use nodescan.Target.{PortApi, Target}
use nodescan.TargetSet.{TargetSet, Next}
use nodescan.Lvl4.{
  Lvl4Sm, ProcessReturnCode, set_trigger, set_on_connect, size_trigger, char_trigger,
  python_trigger,
}
use nodescan.Lvl4.Process.{Callbacks}
use nodescan.Ssl.{Ssl, Result}
use nodescan.Ssh.{Ssh}
use nodescan.Sip.{Sip}
use nodescan.Storage.{Storage, new_storage, properties_of, put_properties, remove}
use nodescan.Engine.{Config}
use nodescan.Engine.Setup.{
  set_lvl4_connected_callback, set_lvl4_finish_callback, set_watch_timeout, set_timeout_of_target,
}

-- What the calls of an object do: with a connection, and with bytes, a cipher or a header beside it;
-- at the end of a connection; for a watch and for a timeout; and its method `process_buffer`.
pub record Python (O T W : Type 0) : Type 0 where
  pub call : O → T → W → Lvl4Sm O → Bool × W × Lvl4Sm O
  pub call_data : O → T → List ℕ → W → Lvl4Sm O → Bool × W × Lvl4Sm O
  pub call_cipher : O → T → ℕ → W → Lvl4Sm O → Bool × W × Lvl4Sm O
  pub call_header : O → T → List ℕ → List ℕ → W → Lvl4Sm O → Bool × W × Lvl4Sm O
  pub process_buffer : O → T → ℕ → W → Lvl4Sm O → ProcessReturnCode × W × Lvl4Sm O

-- What the calls of an object outside a connection do.
pub record Calls (O P V : Type 0) : Type 0 where
  pub call_finish : O → Target P → List ℕ → ℕ → V → V
  pub call_watch : O → Target P → V → Bool × V
  pub call_timeout : O → Target P → ℕ

-- `object_from_ro_mem(buf, n)`: the bytes that Python sees, none for a null pointer; `n` is taken to be no
-- more than there are.
unfoldable pub object_from_ro_mem : Option (List ℕ) → ℕ → List ℕ
object_from_ro_mem none n = []
object_from_ro_mem (some buf) n = take n buf

-- `lvl4buffer_data(buf)`
unfoldable pub lvl4buffer_data : Buffer → List ℕ
unfolding object_from_ro_mem
lvl4buffer_data b = object_from_ro_mem b.buffer b.buf_pos

module _ {O T W : Type 0} (py : Python O T W) where
  -- The closures that the bindings give to the engine and to triggers.
  unfoldable pub python_callbacks : Callbacks O T W
  unfolding object_from_ro_mem
  python_callbacks = record {
    call = λ f t n w sm. ret (py.call_data f t (object_from_ro_mem sm.buf.buffer n) w sm);
    python = py.process_buffer;
    connect = py.call;
  }

  -- The closure of `ssl_on_certificate`, `ssl_on_protocol_failure`, `ssh_on_certificate`,
  -- `ssh_on_invalid_answer` and `sip_on_invalid_header`.
  unfoldable pub data_action : O → T → List ℕ → ℕ → W → Lvl4Sm O → Result O W
  unfolding object_from_ro_mem
  data_action f t buf size w sm = ret (py.call_data f t (object_from_ro_mem (some buf) size) w sm)

  abbrev pub ssl_on_certificate : Ssl O T W → O → Ssl O T W
  ssl_on_certificate ssl f = record ssl { on_certif = some (data_action f) }

  abbrev pub ssl_on_cipher : Ssl O T W → O → Ssl O T W
  ssl_on_cipher ssl f = record ssl {
    on_cipher = some (λ t cipher w sm. ret (py.call_cipher f t cipher w sm));
  }

  abbrev pub ssl_on_protocol_failure : Ssl O T W → O → Ssl O T W
  ssl_on_protocol_failure ssl f = record ssl { on_failure = some (data_action f) }

  abbrev pub ssh_on_certificate : Ssh O T W → O → Ssh O T W
  ssh_on_certificate ssh f = record ssh { on_certificate = some (data_action f) }

  abbrev pub ssh_on_invalid_answer : Ssh O T W → O → Ssh O T W
  ssh_on_invalid_answer ssh f = record ssh { on_invalid_answer = some (data_action f) }

  abbrev pub sip_on_header : Sip O T W → O → Sip O T W
  sip_on_header sip f = record sip {
    on_header = some (λ t k v w sm. ret (py.call_header f t k v w sm));
  }

  abbrev pub sip_on_invalid_header : Sip O T W → O → Sip O T W
  sip_on_invalid_header sip f = record sip { on_invalid_header = some (data_action f) }

module _ {O : Type 0} where
  -- `lvl4sm_set_char_data_trigger(lvl4sm, c, f)`: a text that is not one character is a `ValueError`.
  unfoldable pub lvl4sm_set_char_data_trigger : Lvl4Sm O → List ℕ → O → Option (Lvl4Sm O)
  lvl4sm_set_char_data_trigger sm [] f = none
  lvl4sm_set_char_data_trigger sm (c ∷ []) f = some (set_trigger (char_trigger c f) sm)
  lvl4sm_set_char_data_trigger sm (c ∷ d ∷ ds) f = none

  -- `lvl4sm_set_size_data_trigger(lvl4sm, n, f)`: the trigger takes the size as a `uint32_t`.
  abbrev pub lvl4sm_set_size_data_trigger : Lvl4Sm O → ℕ → O → Lvl4Sm O
  lvl4sm_set_size_data_trigger sm n f = set_trigger (size_trigger (n % 2 ^ 32) f) sm

  abbrev pub lvl4sm_set_on_connect : Lvl4Sm O → O → Lvl4Sm O
  lvl4sm_set_on_connect sm f = set_on_connect (some f) sm

  abbrev pub lvl4sm_set_python_data_trigger : Lvl4Sm O → O → Lvl4Sm O
  lvl4sm_set_python_data_trigger sm obj = set_trigger (python_trigger obj) sm

-- The setters of the engine's callbacks.
module _ {O P S H W : Type 0} (calls : Calls O P W) where
  abbrev pub async_engine_set_lvl4_connected_callback : Config P S H O W → O → Config P S H O W
  async_engine_set_lvl4_connected_callback e f = set_lvl4_connected_callback f e

  abbrev pub async_engine_set_lvl4_finish_callback : Config P S H O W → O → Config P S H O W
  async_engine_set_lvl4_finish_callback e f =
      set_lvl4_finish_callback (λ t buf code w. calls.call_finish f t buf code w) e

  abbrev pub async_engine_set_watch_timeout : Config P S H O W → O → ℕ → Config P S H O W
  async_engine_set_watch_timeout e f timeout =
      set_watch_timeout (λ t w. calls.call_watch f t w) timeout e

  abbrev pub async_engine_set_timeout_of_target : Config P S H O W → O → Config P S H O W
  async_engine_set_timeout_of_target e f = set_timeout_of_target (λ t. calls.call_timeout f t) e

-- `connected_target_send(t, s)`: the whole text goes to `send`, whose answer is not looked at.
abbrev pub connected_target_send : {T V : Type 0} → (T → List ℕ → V → V) → T → List ℕ → V → V
connected_target_send send t s w = send t s w

-- The methods that a Python class of target sets overrides.
pub record Overrides (P S H : Type 0) : Type 0 where
  pub init : S → S
  pub init_shrd : ℕ → ℕ → S → S
  pub next_target : S → Exec (Next P × S)
  pub target_finished : Target P → H → S → Bool × H × S

-- `NSTargetSetWrap`: `init_host_sm` is that of `TargetSet`, which does nothing.
abbrev pub target_set_wrap : {P S H : Type 0} → Overrides P S H → TargetSet P S H
target_set_wrap o = record {
  init = o.init;
  init_shrd = o.init_shrd;
  next_target = o.next_target;
  target_finished = o.target_finished;
  init_host_sm = λ t h s. h;
}

-- The storage of properties whose new ones come from a call of a Python type.
abbrev pub python_properties_init : {O W : Type 0} → (W → O × W) → Storage O W
python_properties_init type = new_storage type

module _ {P O W : Type 0} ⦃api : PortApi P⦄ where
  abbrev pub python_properties_storage_get : Storage O W → Target P → W → O × W × Storage O W
  python_properties_storage_get s t w = properties_of t w s

  -- `s[t] = o`: properties that are not there are made first.
  abbrev pub python_properties_storage_set : Storage O W → Target P → O → W → W × Storage O W
  python_properties_storage_set s t o w =
      let r = properties_of t w s in (r.1, put_properties t o r.2)

  abbrev pub python_properties_storage_remove : Storage O W → Target P → Storage O W
  python_properties_storage_remove s t = remove t s

module _ {P : Type 0} ⦃api : PortApi P⦄ where
  -- `target_hash(t)`, of 64 bits: the address is a `uint32_t`, so that `|` is the sum.
  unfoldable pub target_hash : Target P → ℕ
  target_hash t = t.ipv4 + (api.as_u32 t.port * 2 ^ 32) % 2 ^ 64
