-- ===== src/Ssl/Termination/Loop.antt =====
-- protocols/ssl.cpp: the client's closures under the loop of `process_lvl4_data`.
use nodescan.Prelude.{
  ℕ, zero, suc, ◌+◌, ◌≤◌, ◌≡◌, refl, subst, sym, Bool, true, false, Option, none, some, List,
  length, ltb, leb, ◌&&◌, Exec, ret, arith, Halts, Halts->>=, Stops, Halts-if, Halts-mono,
}
use nodescan.Buffer.{Buffer, block, pop_by, grow_by, store}
use nodescan.Lvl4.{
  Lvl4Sm, size_trigger, ProcessReturnCode, no_more_to_process, can_process_again, connection_end,
}
use nodescan.Lvl4.Process.{
  Callbacks, size_process, trigger_process, process_loop, process_lvl4_data, consume,
}
use nodescan.Ssl.{Ssl, SslStep, tls_header1, handshake1, tls_header2, handshake2, ssl_call}
use nodescan.Ssl.Termination.{steps_left, StopsOnFailure, Advances, ssl_call-Advances}

no_steps : (s : SslStep) → ¬ (steps_left s ≤ 0)
no_steps tls_header1 h = omega arith
no_steps handshake1 h = omega arith
no_steps tls_header2 h = omega arith
no_steps handshake2 h = omega arith

pop_by-Stops : (n : ℕ) (b : Buffer) → Stops (pop_by n b)
unfolding pop_by
pop_by-Stops n b = Halts-if _ (leb n b.buf_pos && leb b.buf_pos (length (block b.buffer))) _ _ tt tt

store-Stops : (i : ℕ) (bytes : List ℕ) (b : Buffer) → Stops (store i bytes b)
unfolding store
store-Stops i bytes b = Halts-if _ (leb (i + length bytes) (length (block b.buffer))) _ _ tt tt

module _ {F W : Type 0} (step : SslStep → F) where
  -- What one round of the loop leaves.
  abbrev Taken : SslStep → ProcessReturnCode × W × Lvl4Sm F → Type 0
  Taken s (no_more_to_process, w, sm) = (n : ℕ) × (sm.trigger ≡ size_trigger n (step s))
  Taken s (can_process_again, w, sm) = Advances step s (true, w, sm)
  Taken s (connection_end, w, sm) = Unit {0}

  -- The connection waits for a closure, with no more steps left than `s` has.
  abbrev pub Pending : SslStep → Bool × W × Lvl4Sm F → Type 0
  Pending s r =
      (r.0 ≡ true)
      → (s' : SslStep) × (n : ℕ) × (r.2.trigger ≡ size_trigger n (step s'))
        × (steps_left s' ≤ steps_left s)

module _ {F T W : Type 0} (step : SslStep → F) (ssl : Ssl F T W) (stops : StopsOnFailure ssl) where
  after_round :
      (s : SslStep) (c : ProcessReturnCode) (w : W) (sm : Lvl4Sm F) (m : Exec (Bool × W × Lvl4Sm F))
      → Taken step s (c, w, sm)
      → (Advances step s (true, w, sm) → Halts (Pending step s) m)
      → Halts (Pending step s) (elim c [
        | no_more_to_process ↦ ret (true, w, sm)
        | can_process_again ↦ m
        | connection_end ↦ ret (false, w, sm)
      ])
  after_round s no_more_to_process w sm m (n, is_tr) next = λ goes. (s, n, is_tr, omega arith)
  after_round s can_process_again w sm m advances next = next advances
  after_round s connection_end w sm m u next = λ goes. absurd (cc goes)

  module _ (act : Callbacks F T W) (t : T)
      (calls : (s : SslStep) (n : ℕ) (w : W) (sm : Lvl4Sm F)
        → act.call (step s) t n w sm ≡ ssl_call step ssl s t n w sm) where
    consume-Taken :
        (s : SslStep) (n : ℕ) (r : Bool × W × Lvl4Sm F)
        → Advances step s r
        → Halts (Taken step s) (consume act n r)
    consume-Taken s n (false, w, sm) h = tt
    consume-Taken s n (true, w, sm) h =
        Halts->>= (λ b. Unit {0}) (Taken step s) (pop_by n sm.buf) _ (pop_by-Stops n sm.buf)
          (λ b e u. h)

    taken :
        (s : SslStep) (n prev : ℕ) (w : W) (sm : Lvl4Sm F)
        → sm.trigger ≡ size_trigger n (step s)
        → Halts (Taken step s) (trigger_process act sm.trigger t prev w sm)
    unfolding trigger_process size_process
    taken s n prev w sm is_tr =
        subst (λ q. Halts (Taken step s) (trigger_process act q t prev w sm)) (sym is_tr)
          (Halts-if (Taken step s) (ltb sm.buf.buf_pos n) _ _ (n, is_tr)
            (rw (calls s n w sm) (
              Halts->>= (Advances step s) (Taken step s) (ssl_call step ssl s t n w sm)
                (consume act n) (ssl_call-Advances step ssl stops s t n w sm)
                (λ r e h. consume-Taken s n r h))))

    process_loop-Pending :
        (fuel : ℕ) (s : SslStep) (n prev : ℕ) (w : W) (sm : Lvl4Sm F)
        → sm.trigger ≡ size_trigger n (step s)
        → steps_left s ≤ fuel
        → Halts (Pending step s) (process_loop act fuel t prev w sm)
    unfolding process_loop
    process_loop-Pending zero s n prev w sm is_tr few = absurd (no_steps s few)
    process_loop-Pending (suc fuel) s n prev w sm is_tr few =
        Halts->>= (Taken step s) (Pending step s) (trigger_process act sm.trigger t prev w sm) _
          (taken s n prev w sm is_tr)
          (λ r e after. after_round s r.0 r.1 r.2 _ after (λ advances.
            let (s', n', is_tr', less) = advances refl in
            Halts-mono (Pending step s') (Pending step s) (process_loop act fuel t 0 r.1 r.2)
              (process_loop-Pending fuel s' n' 0 r.1 r.2 is_tr' (omega arith))
              (λ q e' pending goes.
                let (s'', n'', is_tr'', le) = pending goes in (s'', n'', is_tr'', omega arith))))

    -- On a connection that waits for one of the client's closures, with as much fuel as calls of
    -- closures that are left to it, which are four at most, with callbacks of the user that return or
    -- fault and one for failures that never goes on: whatever the system says and the server sends,
    -- `process_lvl4_data` returns or faults. If it goes on, the connection again waits for one of the
    -- closures, with no more calls left to it.
    pub process_lvl4_data-Pending :
        (uninit : ℕ → ℕ) (fuel navail : ℕ) (got : Option (List ℕ)) (s : SslStep) (n : ℕ) (w : W)
        (sm : Lvl4Sm F)
        → sm.trigger ≡ size_trigger n (step s)
        → steps_left s ≤ fuel
        → Halts (Pending step s) (process_lvl4_data act uninit fuel t navail got w sm)
    unfolding process_lvl4_data
    process_lvl4_data-Pending uninit fuel navail none s n w sm is_tr few = λ goes. absurd (cc goes)
    process_lvl4_data-Pending uninit fuel navail (some bytes) s n w sm is_tr few =
        let (at_old, b) = grow_by uninit navail sm.buf in
        Halts->>= (λ b'. Unit {0}) (Pending step s) (store at_old bytes b) _
          (store-Stops at_old bytes b)
          (λ b' e u.
            process_loop-Pending fuel s n sm.buf.buf_pos w (record sm { buf = b' }) is_tr few)
