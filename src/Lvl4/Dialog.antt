-- ===== src/Lvl4/Dialog.antt =====
-- A conversation with a server: the pieces of its bytes that the triggers of a connection cut, where
-- each callback may replace the trigger. It is described piece by piece, apart from the buffer and
-- from how the bytes arrive.
pub mod Pieces
pub mod Rounds
pub mod Run
use nodescan.Prelude.{ℕ, suc, ◌<◌, ◌≡◌, Bool, true, false, none, some, List, [], ◌++◌, length, ret}
use nodescan.Buffer.{contents}
use nodescan.Buffer.Laws.{IsValid}
use nodescan.Lvl4.{Lvl4Sm, Trigger, no_trigger, size_trigger, char_trigger, python_trigger}
use nodescan.Lvl4.Process.{Callbacks, find_byte}

module _ {F : Type 0} where
  -- The trigger finds no piece in these bytes.
  abbrev pub Waits : Trigger F → List ℕ → Type 0
  Waits no_trigger xs = Unit {0}
  Waits (size_trigger n f) xs = length xs < n
  Waits (char_trigger c f) xs = find_byte c xs ≡ none
  Waits (python_trigger f) xs = ⊥

  -- The bytes are one piece of the trigger, a delimiter included: `f` is called with `n` of them.
  abbrev pub Piece : Trigger F → F → ℕ → List ℕ → Type 0
  Piece no_trigger f n xs = ⊥
  Piece (size_trigger m g) f n xs = (g ≡ f) × (m ≡ n) × (length xs ≡ n) × (0 < n)
  Piece (char_trigger c g) f n xs = (g ≡ f) × (find_byte c xs ≡ some n) × (length xs ≡ suc n)
  Piece (python_trigger g) f n xs = ⊥

module _ {F T W : Type 0} (act : Callbacks F T W) (t : T) where
  -- The callback, with the piece `xs` at the front of the buffer, ends the connection.
  abbrev pub Ends : Trigger F → F → ℕ → List ℕ → W → W → Type 0
  Ends tr f n xs w w' =
      (sm : Lvl4Sm F) (rest : List ℕ)
      → IsValid sm.buf
      → sm.trigger ≡ tr
      → contents sm.buf ≡ xs ++ rest
      → (sm' : Lvl4Sm F) × (act.call f t n w sm ≡ ret (false, w', sm'))

  -- The callback goes on with the trigger `tr'`. It may write in its piece, and nowhere else.
  abbrev pub Goes : Trigger F → F → ℕ → List ℕ → W → Trigger F → W → Type 0
  Goes tr f n xs w tr' w' =
      (sm : Lvl4Sm F) (rest : List ℕ)
      → IsValid sm.buf
      → sm.trigger ≡ tr
      → contents sm.buf ≡ xs ++ rest
      → (sm' : Lvl4Sm F) × (ys : List ℕ) × (act.call f t n w sm ≡ ret (true, w', sm'))
        × (sm'.trigger ≡ tr')
        × IsValid sm'.buf
        × (contents sm'.buf ≡ ys ++ rest)
        × (length ys ≡ length xs)

  -- From a trigger and a state of the program: the bytes of the server, whether the connection is
  -- still wanted behind them, and the state of the program then.
  pub data Dialog : Trigger F → W → List ℕ → Bool → W → Type 0 where
    pends : {tr : Trigger F} {w : W} → Waits tr [] → Dialog tr w [] true w
    closes :
        {tr : Trigger F} {w w' : W} (f : F) (n : ℕ) (xs : List ℕ)
        → Piece tr f n xs
        → Ends tr f n xs w w'
        → Dialog tr w xs false w'
    turns :
        {tr : Trigger F} {w : W} {go : Bool} {w' : W} (f : F) (n : ℕ) (xs : List ℕ)
        (tr1 : Trigger F) (w1 : W) (more : List ℕ)
        → Piece tr f n xs
        → Goes tr f n xs w tr1 w1
        → Dialog tr1 w1 more go w'
        → Dialog tr w (xs ++ more) go w'
