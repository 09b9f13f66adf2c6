-- ===== src/Sip.antt =====
-- protocols/sip.cpp and include/ns/protocols/sip.h: the SIP client, which reads header lines.
pub mod Headers
pub mod Lines
pub mod Session
pub mod Tests
use nodescan.Prelude.{
  ℕ, ◌+◌, ◌-◌, Bool, true, false, not, Option, none, some, List, [], ◌∷◌, length, take, drop, set,
  get_elem?, ltb, ◌==◌, ◌&&◌, if◌then◌else◌, Exec, ret, fault, deref, ◌>>=◌, starts_with,
}
use nodescan.Buffer.{Buffer, contents, put_at}
use nodescan.Lvl4.{Lvl4Sm, char_trigger, set_trigger}
use nodescan.Lvl4.Process.{find_byte}
use nodescan.Ssl.{Result, DataAction, call_cb}

-- `get_options`
pub get_options : List ℕ
get_options =
    79 ∷ 80 ∷ 84 ∷ 73 ∷ 79 ∷ 78 ∷ 83 ∷ 32 ∷ 115 ∷ 105 ∷ 112 ∷ 58 ∷ 115 ∷ 105 ∷ 112 ∷ 64 ∷ 49 ∷ 50
    ∷ 55 ∷ 46 ∷ 48 ∷ 46 ∷ 48 ∷ 46 ∷ 49 ∷ 32 ∷ 83 ∷ 73 ∷ 80 ∷ 47 ∷ 50 ∷ 46 ∷ 48 ∷ 10 ∷ 86 ∷ 105 ∷ 97
    ∷ 58 ∷ 32 ∷ 83 ∷ 73 ∷ 80 ∷ 47 ∷ 50 ∷ 46 ∷ 48 ∷ 47 ∷ 85 ∷ 68 ∷ 80 ∷ 32 ∷ 49 ∷ 50 ∷ 55 ∷ 46 ∷ 48
    ∷ 46 ∷ 48 ∷ 46 ∷ 49 ∷ 59 ∷ 98 ∷ 114 ∷ 97 ∷ 110 ∷ 99 ∷ 104 ∷ 61 ∷ 122 ∷ 57 ∷ 104 ∷ 71 ∷ 52 ∷ 98
    ∷ 75 ∷ 104 ∷ 106 ∷ 104 ∷ 115 ∷ 56 ∷ 97 ∷ 115 ∷ 115 ∷ 56 ∷ 55 ∷ 55 ∷ 10 ∷ 77 ∷ 97 ∷ 120 ∷ 45 ∷ 70
    ∷ 111 ∷ 114 ∷ 119 ∷ 97 ∷ 114 ∷ 100 ∷ 115 ∷ 58 ∷ 32 ∷ 55 ∷ 48 ∷ 10 ∷ 84 ∷ 111 ∷ 58 ∷ 32 ∷ 60
    ∷ 115 ∷ 105 ∷ 112 ∷ 58 ∷ 109 ∷ 121 ∷ 64 ∷ 112 ∷ 111 ∷ 110 ∷ 101 ∷ 121 ∷ 46 ∷ 99 ∷ 111 ∷ 109 ∷ 62
    ∷ 10 ∷ 70 ∷ 114 ∷ 111 ∷ 109 ∷ 58 ∷ 32 ∷ 65 ∷ 108 ∷ 105 ∷ 99 ∷ 101 ∷ 32 ∷ 60 ∷ 115 ∷ 105 ∷ 112
    ∷ 58 ∷ 104 ∷ 101 ∷ 114 ∷ 64 ∷ 112 ∷ 111 ∷ 110 ∷ 101 ∷ 121 ∷ 46 ∷ 99 ∷ 111 ∷ 109 ∷ 62 ∷ 59 ∷ 116
    ∷ 97 ∷ 103 ∷ 61 ∷ 49 ∷ 57 ∷ 50 ∷ 56 ∷ 51 ∷ 48 ∷ 49 ∷ 55 ∷ 55 ∷ 52 ∷ 10 ∷ 67 ∷ 97 ∷ 108 ∷ 108
    ∷ 45 ∷ 73 ∷ 68 ∷ 58 ∷ 32 ∷ 97 ∷ 56 ∷ 52 ∷ 98 ∷ 52 ∷ 99 ∷ 55 ∷ 54 ∷ 101 ∷ 54 ∷ 54 ∷ 55 ∷ 49 ∷ 48
    ∷ 10 ∷ 67 ∷ 83 ∷ 101 ∷ 113 ∷ 58 ∷ 32 ∷ 54 ∷ 51 ∷ 49 ∷ 48 ∷ 52 ∷ 32 ∷ 79 ∷ 80 ∷ 84 ∷ 73 ∷ 79 ∷ 78
    ∷ 83 ∷ 10 ∷ 67 ∷ 111 ∷ 110 ∷ 116 ∷ 97 ∷ 99 ∷ 116 ∷ 58 ∷ 32 ∷ 60 ∷ 115 ∷ 105 ∷ 112 ∷ 58 ∷ 109
    ∷ 121 ∷ 64 ∷ 112 ∷ 111 ∷ 110 ∷ 101 ∷ 121 ∷ 46 ∷ 99 ∷ 111 ∷ 109 ∷ 62 ∷ 10 ∷ 65 ∷ 99 ∷ 99 ∷ 101
    ∷ 112 ∷ 116 ∷ 58 ∷ 32 ∷ 97 ∷ 112 ∷ 112 ∷ 108 ∷ 105 ∷ 99 ∷ 97 ∷ 116 ∷ 105 ∷ 111 ∷ 110 ∷ 47 ∷ 115
    ∷ 100 ∷ 112 ∷ 10 ∷ 67 ∷ 111 ∷ 110 ∷ 116 ∷ 101 ∷ 110 ∷ 116 ∷ 45 ∷ 76 ∷ 101 ∷ 110 ∷ 103 ∷ 116
    ∷ 104 ∷ 58 ∷ 32 ∷ 48 ∷ 10 ∷ 10 ∷ 10 ∷ []

-- "SIP/2.0"
abbrev pub sip_20 : List ℕ
sip_20 = 83 ∷ 73 ∷ 80 ∷ 47 ∷ 50 ∷ 46 ∷ 48 ∷ []

-- The string at a pointer, which ends before the first 0.
abbrev pub c_string : List ℕ → Exec (List ℕ)
c_string [] = fault
c_string (x ∷ xs) = if x == 0 then ret [] else (c_string xs >>= λ s. ret (x ∷ s))

-- Where the value starts behind the byte at an index.
unfoldable pub value_pointer : List ℕ → ℕ → Exec ℕ
value_pointer buf i = deref (get_elem? buf i) >>= λ first.
    if first == 0
    then ret i
    else (deref (get_elem? buf (i + 1)) >>= λ second. if second == 32 then ret (i + 1) else ret i)

-- The callbacks of class `SIP`.
pub record Sip (F T W : Type 0) : Type 0 where
  pub on_header : Option (T → List ℕ → List ℕ → W → Lvl4Sm F → Result F W)
  pub on_invalid_header : Option (DataAction F T W)

-- Bytes that are written at the front of the block.
abbrev pub overwrite : List ℕ → Buffer → Buffer
overwrite xs b = record b {
  buffer = elim b.buffer [ none ↦ none | some ys ↦ some (put_at 0 xs ys) ];
}

-- The connection with these bytes at the front of its buffer.
abbrev pub holding : {F : Type 0} → List ℕ → Lvl4Sm F → Lvl4Sm F
holding xs sm = record sm { buf = overwrite xs sm.buf }

module _ {F T W : Type 0} (step : F) (send : T → List ℕ → W → W) (sip : Sip F T W) where
  -- `operator()`
  unfoldable pub sip_start : T → W → Lvl4Sm F → Bool × W × Lvl4Sm F
  sip_start t w sm = (true, send t get_options w, set_trigger (char_trigger 10 step) sm)

  -- The closure for a line of `size` bytes at the front of the connection's buffer `buf`. It writes a
  -- 0 at the line's end and at the colon before it calls back.
  unfoldable pub on_line : T → List ℕ → ℕ → W → Lvl4Sm F → Result F W
  unfolding value_pointer
  on_line t buf size w sm =
      let invalid = λ (xs : List ℕ).
        call_cb false sip.on_invalid_header (λ action. action t xs size) w (holding xs sm) in
      let buf1 = set buf (size - 1) 0 in
      if ltb size 1
      then invalid buf
      else (deref (get_elem? buf (size - 1)) >>= λ last.
          if not (last == 13)
          then invalid buf
          else if size == 1
          then ret (false, w, holding buf1 sm)
          else (elim (find_byte 58 (take size buf1)) [
            | none ↦
                if ltb 7 size && starts_with sip_20 buf1
                then ret (true, w, holding buf1 sm)
                else invalid buf1
            | some dot ↦
                let buf2 = set buf1 dot 0 in
                value_pointer buf2 (dot + 1) >>= λ value. c_string buf2 >>= λ key.
                c_string (drop value buf2) >>= λ text.
                call_cb true sip.on_header (λ action. action t key text) w (holding buf2 sm)
          ]))

  -- What the closure does with the bytes at the front of the connection's buffer.
  pub sip_call : T → ℕ → W → Lvl4Sm F → Result F W
  unfolding on_line
  sip_call t size w sm = on_line t (contents sm.buf) size w sm
