-- ===== src/Lvl4/Dialog/Run.antt =====
-- lvl4_state_machine.cpp: `process_lvl4_data` on the bytes of a conversation, which arrive in chunks.
use mathlib.Core.List.{flatten, append_assoc, append-nil}
use nodescan.Prelude.{
  ℕ, zero, suc, ◌+◌, ◌<◌, ◌≤◌, ◌^◌, ◌≡◌, refl, sym, ap, ◌∙◌, Bool, true, false, some, List, [], ◌∷◌,
  ◌++◌, take, drop, length, leb, Exec, ret, ◌>>=◌, arith, length-append, drop-append_self,
  take-append_self, Bool-cases, inl, inr, subst,
}
use nodescan.Buffer.{Buffer, contents}
use nodescan.Buffer.Laws.{IsValid, length-contents, pop_by-IsValid}
use nodescan.Buffer.Receive.{receive-IsValid}
use nodescan.Lvl4.{Lvl4Sm, Trigger}
use nodescan.Lvl4.Process.{
  Callbacks, trigger_process, process_loop, process_lvl4_data, process_loop_again,
  process_loop_wait, process_loop_end, consume,
}
use nodescan.Lvl4.Framing.Chunks.{receive_all}
use nodescan.Lvl4.Dialog.{Waits, Piece, Ends, Goes, Dialog, pends, closes, turns}
use nodescan.Lvl4.Dialog.Pieces.{append_split, append-nil_left, Waits-before, not-Waits, Piece-pos}
use nodescan.Lvl4.Dialog.Rounds.{trigger_process-Piece, trigger_process-Waits}

module _ {F T W : Type 0} (act : Callbacks F T W) (t : T) where
  -- Where the loop over the bytes that are there leaves a conversation: at its end, or before a piece
  -- that is not there in full, the conversation from then on being another.
  data Reached (m : Exec (Bool × W × Lvl4Sm F)) (size : ℕ) (zs rest : List ℕ) (go : Bool) (w' : W)
      : Type 0 where
    ended : (sm' : Lvl4Sm F) → go ≡ false → m ≡ ret (false, w', sm') → Reached m size zs rest go w'
    waiting :
        (tr1 : Trigger F) (w1 : W) (s1 : List ℕ) (sm1 : Lvl4Sm F)
        → m ≡ ret (true, w1, sm1)
        → IsValid sm1.buf
        → sm1.trigger ≡ tr1
        → Dialog act t tr1 w1 s1 go w'
        → contents sm1.buf ++ zs ≡ s1 ++ rest
        → Waits tr1 (contents sm1.buf)
        → sm1.buf.buf_pos ≤ size
        → Reached m size zs rest go w'

  Reached-step :
      {m m' : Exec (Bool × W × Lvl4Sm F)} {size size' : ℕ} {zs rest : List ℕ} {go : Bool} {w' : W}
      → m ≡ m'
      → size' ≤ size
      → Reached m' size' zs rest go w'
      → Reached m size zs rest go w'
  Reached-step e le (ended sm' last does) = ended sm' last (e ∙ does)
  Reached-step e le (waiting tr1 w1 s1 sm1 does v is_tr d more h few) =
      waiting tr1 w1 s1 sm1 (e ∙ does) v is_tr d more h (omega arith)

  -- A trigger of a conversation finds nothing in no bytes.
  Waits-none :
      (tr : Trigger F) {w : W} {s : List ℕ} {go : Bool} {w' : W}
      → Dialog act t tr w s go w'
      → Waits tr []
  Waits-none tr (pends h) = h
  Waits-none tr (closes f n xs p ends) =
      Waits-before tr f n xs [] [] xs p (sym (append-nil xs)) (Piece-pos tr f n xs p)
  Waits-none tr (turns f n xs tr1 w1 more p goes d) =
      Waits-before tr f n xs [] [] xs p (sym (append-nil xs)) (Piece-pos tr f n xs p)

  module _ (fuel prev : ℕ) (w : W) (sm : Lvl4Sm F) {tr : Trigger F} (v : IsValid sm.buf)
      (is_tr : sm.trigger ≡ tr) (le : prev ≤ length (contents sm.buf))
      (clean : Waits tr (take prev (contents sm.buf))) where
    wait_round :
        Waits tr (contents sm.buf) → process_loop act (suc fuel) t prev w sm ≡ ret (true, w, sm)
    wait_round h = process_loop_wait act fuel t prev w sm (
        ap (λ q. trigger_process act q t prev w sm) is_tr
        ∙ trigger_process-Waits act t tr prev w sm v le clean h)

    end_round :
        (f : F) (n : ℕ) (xs rest : List ℕ) {w' : W}
        → Piece tr f n xs
        → Ends act t tr f n xs w w'
        → contents sm.buf ≡ xs ++ rest
        → (sm' : Lvl4Sm F) × (process_loop act (suc fuel) t prev w sm ≡ ret (false, w', sm'))
    end_round f n xs rest p ends all =
        let (sm', does) = ends sm rest v is_tr all in
        (
          sm',
          process_loop_end act fuel t prev w sm (
              ap (λ q. trigger_process act q t prev w sm) is_tr
              ∙ trigger_process-Piece act t tr f n xs rest prev w sm p v all le clean
              ∙ ap (λ q. q >>= consume act (length xs)) does),
        )

    turn_round :
        (f : F) (n : ℕ) (xs rest : List ℕ) {tr1 : Trigger F} {w1 : W}
        → Piece tr f n xs
        → Goes act t tr f n xs w tr1 w1
        → contents sm.buf ≡ xs ++ rest
        → (sm1 : Lvl4Sm F) × (process_loop act (suc fuel) t prev w sm
            ≡ process_loop act fuel t 0 w1 sm1)
          × IsValid sm1.buf
          × (sm1.trigger ≡ tr1)
          × (contents sm1.buf ≡ rest)
    turn_round f n xs rest {w1 = w1} p goes all =
        let (sm', ys, does, is_tr', v', all', same) = goes sm rest v is_tr all in
        let full = length-contents sm'.buf v' in
        let (b, pe, bv, bc) =
          pop_by-IsValid (length xs) sm'.buf v'
            (omega (arith, ap length all', length-append ys rest)) in
        (
          record sm' { buf = b },
          process_loop_again act fuel t prev w sm (
              ap (λ q. trigger_process act q t prev w sm) is_tr
              ∙ trigger_process-Piece act t tr f n xs rest prev w sm p v all le clean
              ∙ ap (λ q. q >>= consume act (length xs)) does
              ∙ rw pe),
          bv,
          is_tr',
          bc
              ∙ ap (drop (length xs)) all'
              ∙ ap (λ k. drop k (ys ++ rest)) (sym same)
              ∙ drop-append_self ys rest,
        )

  -- The loop over the bytes `ys` of a conversation, more of which, `zs`, are still to come.
  process_loop-Reached :
      {tr : Trigger F} {w : W} {s : List ℕ} {go : Bool} {w' : W} (d : Dialog act t tr w s go w')
      (fuel prev : ℕ) (sm : Lvl4Sm F) (zs rest : List ℕ)
      → IsValid sm.buf
      → sm.trigger ≡ tr
      → prev ≤ length (contents sm.buf)
      → Waits tr (take prev (contents sm.buf))
      → contents sm.buf ++ zs ≡ s ++ rest
      → (go ≡ true → rest ≡ [])
      → sm.buf.buf_pos < fuel
      → Reached (process_loop act fuel t prev w sm) sm.buf.buf_pos zs rest go w'
  process_loop-Reached d zero prev sm zs rest v is_tr le clean e closed lt = absurd (omega arith)
  process_loop-Reached (pends {tr = tr} {w = w} h) (suc fuel) prev sm zs rest v is_tr le clean e
        closed lt =
      let none_left : contents sm.buf ≡ [] =
        append-nil_left (contents sm.buf) zs (e ∙ closed refl) in
      let h' : Waits tr (contents sm.buf) = rw none_left h in
      waiting tr w [] sm (wait_round fuel prev w sm v is_tr le clean h') v is_tr (pends h) e h'
        (omega arith)
  process_loop-Reached (closes {tr = tr} {w = w} f n xs p ends) (suc fuel) prev sm zs rest v is_tr
        le clean e closed lt =
      elim (Bool-cases (leb (length xs) (length (contents sm.buf)))) [
        | inl enough ↦
            (let (us, split, _) = append_split xs rest (contents sm.buf) zs e (ground arith) in
              let (sm', does) = end_round fuel prev w sm v is_tr le clean f n xs us p ends split in
              ended sm' refl does)
        | inr few ↦
            (let h = Waits-before tr f n xs rest (contents sm.buf) zs p e (ground arith) in
              waiting tr w xs sm (wait_round fuel prev w sm v is_tr le clean h) v is_tr
                (closes f n xs p ends) e h (omega arith))
      ]
  process_loop-Reached (turns {tr = tr} {w = w} f n xs tr1 w1 more p goes d) (suc fuel) prev sm zs
        rest v is_tr le clean e closed lt =
      let e' : contents sm.buf ++ zs ≡ xs ++ (more ++ rest) = e ∙ append_assoc xs more rest in
      elim (Bool-cases (leb (length xs) (length (contents sm.buf)))) [
        | inl enough ↦
            (let (us, split, left) =
                append_split xs (more ++ rest) (contents sm.buf) zs e' (ground arith) in
              let (sm1, does, v1, is_tr1, all1) =
                turn_round fuel prev w sm v is_tr le clean f n xs us p goes split in
              let fewer : sm1.buf.buf_pos + length xs ≡ sm.buf.buf_pos = omega (
                arith,
                length-contents sm.buf v,
                length-contents sm1.buf v1,
                ap length all1,
                ap length split,
                length-append xs us,
              ) in
              let some_bytes = Piece-pos tr f n xs p in
              Reached-step does (omega arith) (
                process_loop-Reached {tr = tr1} {w = w1} {s = more} d fuel 0 sm1 zs rest v1 is_tr1
                  (omega arith) (Waits-none tr1 d) (rw all1 left) closed (omega arith)))
        | inr few ↦
            (let h =
                Waits-before tr f n xs (more ++ rest) (contents sm.buf) zs p e' (ground arith) in
              waiting tr w (xs ++ more) sm (wait_round fuel prev w sm v is_tr le clean h) v is_tr
                (turns f n xs tr1 w1 more p goes d) e h (omega arith))
      ]

  -- Nothing more comes, and the trigger finds no piece: the conversation is over, and still open.
  all_read :
      {tr : Trigger F} {w : W} {s : List ℕ} {go : Bool} {w' : W} (ys rest : List ℕ)
      → Dialog act t tr w s go w'
      → Waits tr ys
      → ys ≡ s ++ rest
      → (go ≡ true) × (w ≡ w')
  all_read ys rest (pends h) few e = (refl, refl)
  all_read ys rest (closes {tr = tr} f n xs p ends) few e =
      absurd (not-Waits tr f n xs rest p (subst (Waits tr) e few))
  all_read ys rest (turns {tr = tr} f n xs tr1 w1 more p goes d) few e =
      absurd (
        not-Waits tr f n xs (more ++ rest) p (subst (Waits tr) (e ∙ append_assoc xs more rest) few))

  -- The bytes are stored behind those that were left over, and the loop begins behind these.
  process_lvl4_data-loop :
      (uninit : ℕ → ℕ) (fuel : ℕ) (bytes : List ℕ) (w : W) (sm : Lvl4Sm F)
      → IsValid sm.buf
      → sm.buf.buf_pos + length bytes < 2 ^ 30
      → (b : Buffer) × (process_lvl4_data act uninit fuel t (length bytes) (some bytes) w sm
          ≡ process_loop act fuel t sm.buf.buf_pos w (record sm { buf = b }))
        × IsValid b
        × (contents b ≡ contents sm.buf ++ bytes)
  unfolding process_lvl4_data
  process_lvl4_data-loop uninit fuel bytes w sm v small =
      let (b, se, bv, all) = receive-IsValid uninit bytes sm.buf v small in (b, rw se, bv, all)

  module _ (uninit : ℕ → ℕ) (fuel : ℕ) where
    -- The bytes left over and those to come make the conversation, `rest` follows it.
    pub receive_all-Dialog :
        (chunks : List (List ℕ)) {tr : Trigger F} {w : W} {s : List ℕ} {go : Bool} {w' : W}
        (d : Dialog act t tr w s go w') (sm : Lvl4Sm F) (rest : List ℕ)
        → IsValid sm.buf
        → sm.trigger ≡ tr
        → Waits tr (contents sm.buf)
        → contents sm.buf ++ flatten chunks ≡ s ++ rest
        → (go ≡ true → rest ≡ [])
        → sm.buf.buf_pos + length (flatten chunks) < 2 ^ 30
        → sm.buf.buf_pos + length (flatten chunks) < fuel
        → (sm' : Lvl4Sm F) × (receive_all act uninit fuel t chunks w sm ≡ ret (go, w', sm'))
    unfolding receive_all flatten
    receive_all-Dialog [] {w = w} {go = go} {w' = w'} d sm rest v is_tr few e closed small enough =
        let (open_still, same) =
          all_read (contents sm.buf) rest d few (sym (append-nil (contents sm.buf)) ∙ e) in
        (sm, cc (open_still, same))
    receive_all-Dialog (bytes ∷ chunks) {tr = tr} {w = w} {s = s} d sm rest v is_tr few e closed
          small enough =
        let la = length-append bytes (flatten chunks) in
        let (b, loop, bv, all) =
          process_lvl4_data-loop uninit fuel bytes w sm v (omega (arith, la)) in
        let sm' : Lvl4Sm F = record sm { buf = b } in
        let old = length-contents sm.buf v in
        let now = length-contents b bv in
        let grown : b.buf_pos ≡ sm.buf.buf_pos + length bytes =
          omega (arith, ap length all, length-append (contents sm.buf) bytes) in
        let before : take sm.buf.buf_pos (contents b) ≡ contents sm.buf =
          ap (take sm.buf.buf_pos) all
          ∙ ap (λ n. take n (contents sm.buf ++ bytes)) (sym old)
          ∙ take-append_self (contents sm.buf) bytes in
        let more : contents b ++ flatten chunks ≡ s ++ rest =
          ap (λ xs. xs ++ flatten chunks) all
          ∙ append_assoc (contents sm.buf) bytes (flatten chunks)
          ∙ e in
        elim (process_loop-Reached d fuel sm.buf.buf_pos sm' (flatten chunks) rest bv is_tr
          (omega arith) (subst (Waits tr) (sym before) few) more closed (omega (arith, la))) [
            | ended sm2 last does ↦ (sm2, rw (loop, does, last))
            | waiting tr1 w1 s1 sm1 does v1 is_tr1 d1 e1 few1 le1 ↦
                (let (sm2, rest_does) =
                    receive_all-Dialog chunks {tr = tr1} {w = w1} {s = s1} d1 sm1 rest v1 is_tr1
                      few1 e1 closed (omega (arith, la)) (omega (arith, la)) in
                  (sm2, rw (loop, does) rest_does))
          ]
