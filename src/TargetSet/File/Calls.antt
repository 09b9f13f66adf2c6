-- ===== src/TargetSet/File/Calls.antt =====
-- Calls of `TargetAsyncFile::next_target`.
use nodescan.Prelude.{
  ℕ, suc, ◌+◌, ◌^◌, ◌<◌, ◌≡◌, ◌≢◌, refl, sym, ap, subst, ◌∙◌, false, Option, none, some, List, [],
  ◌++◌, take, drop, length, ltb, ◌==◌, if◌then◌else◌, Exec, ret, arith, Option-cases, Bool-cases,
  inl, inr, ◌⊎◌,
}
use mathlib.Core.List.{append-nil}
use nodescan.Buffer.{block, contents, pop_by}
use nodescan.Buffer.Laws.{IsValid, length-contents, pop_by-IsValid}
use nodescan.Buffer.Receive.{receive-IsValid}
use nodescan.Lvl4.Process.{find_byte}
use nodescan.Lvl4.Framing.{feed, feed-some, feed-append}
use nodescan.Target.{PortApi, PortLaws, Target, target_eq, end_target}
use nodescan.TargetSet.{Next, gives, blocks}
use nodescan.TargetSet.File.{
  Input, TargetAsyncFile, next_target_in_buf, read_target, await_target, next_target,
}
use nodescan.TargetSet.File.Lines.{
  given, add_line, reads, Taken, end_is_end, end_given, not_end, take_line,
}

-- The bytes that come, when `select` and `ioctl` say that some do, are all taken.
abbrev pub TakesAll : Input → List ℕ → Type 0
TakesAll a taken =
    (ready n : ℕ) (bytes : List ℕ)
    → a.sel_ret ≡ some (suc ready)
    → a.navail ≡ some (suc n)
    → a.got ≡ some bytes
    → taken ≡ bytes

module _ {P : Type 0} where
  -- What `ioctl` counts is what `read` gives, and the buffer has room for it.
  pub record Complete (a : Input) (s : TargetAsyncFile P) : Type 0 where
    pub gives_all :
        (n : ℕ) → a.navail ≡ some n → (bytes : List ℕ) × (length bytes ≡ n) × (a.got ≡ some bytes)
    pub room : (n : ℕ) → a.navail ≡ some n → s.buf.buf_pos + n < 2 ^ 30

module _ {P : Type 0} ⦃api : PortApi P⦄ (ipv4toi : List ℕ → Option ℕ) (port : P) where
  -- An execution on a set returns a target or none, and what is read of the stream, with the targets
  -- that were given before, is not changed by it; `bytes` are those that came from the descriptor.
  pub record Reads (m : Exec (Next P × TargetAsyncFile P)) (got : Option (List ℕ))
      (s : TargetAsyncFile P) (n : Next P) (s' : TargetAsyncFile P) (bytes : List ℕ) : Type 0 where
    pub returns : m ≡ ret (n, s')
    pub valid : IsValid s'.buf
    pub same : s'.def_port ≡ port
    pub from_read : (bytes ≡ []) ⊎ (got ≡ some bytes)
    pub stream :
        (ts : List (Target P))
        → reads ipv4toi port (ts ++ given n) (contents s'.buf)
          ≡ reads ipv4toi port ts (contents s.buf ++ bytes)

  -- What a call of `next_target` answers: the first line of the buffer, if it is an address; if it is
  -- not, or there is no line, all bytes that come are taken.
  pub record Answers (m : Exec (Next P × TargetAsyncFile P)) (a : Input) (s : TargetAsyncFile P)
      (n : Next P) (s' : TargetAsyncFile P) : Type 0 where
    pub bytes : List ℕ
    pub reading : Reads m a.got s n s' bytes
    pub first :
        (i ipv4 : ℕ)
        → find_byte 10 (contents s.buf) ≡ some i
        → ipv4toi (take i (contents s.buf)) ≡ some ipv4
        → n ≡ gives (record { ipv4 = ipv4; port = port })
    pub takes :
        ((i ipv4 : ℕ)
          → find_byte 10 (contents s.buf) ≡ some i
          → ipv4toi (take i (contents s.buf)) ≡ some ipv4
          → ⊥)
        → TakesAll a bytes

module _ {P : Type 0} ⦃api : PortApi P⦄ (laws : PortLaws api) (ipv4toi : List ℕ → Option ℕ)
    (port : P) (other : port ≢ end_target.port) where
  given_of_test :
      (t : Target P) → given (if target_eq t end_target then blocks else gives t) ≡ given (gives t)
  given_of_test t = elim (Bool-cases (target_eq t end_target)) [
    | inl ends ↦ ground (arith, ends)
    | inr goes ↦ ground (arith, goes)
  ]

  no_input :
      (m : Exec (Next P × TargetAsyncFile P)) (got : Option (List ℕ)) (s : TargetAsyncFile P)
      (n : Next P)
      → IsValid s.buf
      → s.def_port ≡ port
      → given n ≡ []
      → m ≡ ret (n, s)
      → Reads ipv4toi port m got s n s []
  no_input m got s n v same none_given eq = record {
    returns = eq;
    valid = v;
    same = same;
    from_read = inl refl;
    stream = λ ts.
        ap (λ us. reads ipv4toi port (ts ++ us) (contents s.buf)) none_given
        ∙ ap (λ us. reads ipv4toi port us (contents s.buf)) (append-nil ts)
        ∙ ap (reads ipv4toi port ts) (sym (append-nil (contents s.buf)));
  }

  Reads-of :
      {m m' : Exec (Next P × TargetAsyncFile P)} {got got' : Option (List ℕ)}
      {s : TargetAsyncFile P} {n : Next P} {s' : TargetAsyncFile P} {bytes : List ℕ}
      → m ≡ m'
      → got ≡ got'
      → Reads ipv4toi port m' got' s n s' bytes
      → Reads ipv4toi port m got s n s' bytes
  Reads-of {m' = m'} {got = got} {s = s} {n = n} {s' = s'} {bytes = bytes} same_run same_got r =
      subst (λ x. Reads ipv4toi port x got s n s' bytes) (sym same_run)
        (subst (λ g. Reads ipv4toi port m' g s n s' bytes) (sym same_got) r)

  -- A line without a target is skipped before something is read.
  skipped :
      (m : Exec (Next P × TargetAsyncFile P)) (got : Option (List ℕ)) (s s1 s' : TargetAsyncFile P)
      (t : Target P) (n : Next P) (bytes : List ℕ)
      → Taken ipv4toi port s t s1
      → given (gives t) ≡ []
      → Reads ipv4toi port m got s1 n s' bytes
      → Reads ipv4toi port m got s n s' bytes
  skipped m got s s1 s' t n bytes k nothing r = record {
    returns = r.returns;
    valid = r.valid;
    same = r.same;
    from_read = r.from_read;
    stream = λ ts.
        let skip : reads ipv4toi port ts (contents s1.buf)
            ≡ reads ipv4toi port ts (contents s.buf) =
          ap (λ us. reads ipv4toi port us (contents s1.buf)) (sym (append-nil ts))
          ∙ ap (λ us. reads ipv4toi port (ts ++ us) (contents s1.buf)) (sym nothing)
          ∙ k.stream ts in
        r.stream ts
        ∙ feed-append 10 (add_line ipv4toi port) ts [] (contents s1.buf) bytes
        ∙ ap (λ x. feed 10 (add_line ipv4toi port) x.0 x.1 bytes) skip
        ∙ sym (feed-append 10 (add_line ipv4toi port) ts [] (contents s.buf) bytes);
  }

  -- Without an address in the first line, its target is the end.
  no_address :
      (s : TargetAsyncFile P) (t : Target P) (s' : TargetAsyncFile P)
      → Taken ipv4toi port s t s'
      → target_eq t end_target ≡ false
      → ((i ipv4 : ℕ)
          → find_byte 10 (contents s.buf) ≡ some i
          → ipv4toi (take i (contents s.buf)) ≡ some ipv4
          → ⊥)
      → ⊥
  no_address s t s' k goes h =
      let ends = (end_is_end laws).0 in
      elim (Option-cases (find_byte 10 (contents s.buf))) [
        | inl nothing ↦
            (let none_there = k.no_line nothing in ground (arith, none_there, ends, goes))
        | inr (i, found) ↦ elim (Option-cases (ipv4toi (take i (contents s.buf)))) [
          | inl invalid ↦ (let line = k.line i found in ground (arith, line, invalid, ends, goes))
          | inr (ip, valid) ↦ h i ip found valid
        ]
      ]

  module _ (uninit : ℕ → ℕ) where
    read_lines :
        (bytes : List ℕ) (s : TargetAsyncFile P)
        → IsValid s.buf
        → s.def_port ≡ port
        → s.buf.buf_pos + length bytes < 2 ^ 30
        → 0 < length bytes
        → (n : Next P) × (s' : TargetAsyncFile P) × Reads ipv4toi port
            (read_target ipv4toi uninit (length bytes) (some bytes) s)
            (some bytes)
            s
            n
            s'
            bytes
    unfolding read_target
    read_lines bytes s v same room some_bytes =
        let (b, stored, bv, all) = receive-IsValid uninit bytes s.buf v room in
        let (t, s', k) = take_line laws ipv4toi port other (record s { buf = b }) bv same in
        (
          if target_eq t end_target then blocks else gives t,
          s',
          record {
            returns = ground (arith, stored, k.returns, some_bytes);
            valid = k.valid;
            same = k.same;
            from_read = inr refl;
            stream = λ ts.
                ap (λ us. reads ipv4toi port (ts ++ us) (contents s'.buf)) (given_of_test t)
                ∙ k.stream ts
                ∙ ap (reads ipv4toi port ts) all;
          },
        )

    await_lines :
        (a : Input) (s : TargetAsyncFile P)
        → IsValid s.buf
        → s.def_port ≡ port
        → Complete a s
        → (n : Next P) × (s' : TargetAsyncFile P) × (bytes : List ℕ) × Reads ipv4toi port
            (await_target ipv4toi uninit a s)
            a.got
            s
            n
            s'
            bytes
          × TakesAll a bytes
    unfolding await_target
    await_lines a s v same full = elim (Option-cases a.sel_ret) [
      | inl failed ↦ (
        gives end_target,
        s,
        [],
        no_input (await_target ipv4toi uninit a s) a.got s (gives end_target) v same
            (end_given laws) (ground (arith, failed)),
        λ k m bytes sel counted got. absurd (ground (arith, failed, sel)),
      )
      | inr (ready, selected) ↦ elim (Bool-cases (ready == 0)) [
        | inl idle ↦ (
          blocks,
          s,
          [],
          no_input (await_target ipv4toi uninit a s) a.got s blocks v same refl
              (ground (arith, selected, idle)),
          λ k m bytes sel counted got. absurd (ground (arith, selected, idle, sel)),
        )
        | inr wakes ↦ elim (Option-cases a.navail) [
          | inl failed ↦ (
            gives end_target,
            s,
            [],
            no_input (await_target ipv4toi uninit a s) a.got s (gives end_target) v same
                (end_given laws) (ground (arith, selected, wakes, failed)),
            λ k m bytes sel counted got. absurd (ground (arith, failed, counted)),
          )
          | inr (n, counted) ↦ elim (Bool-cases (n == 0)) [
            | inl over ↦ (
              gives end_target,
              s,
              [],
              no_input (await_target ipv4toi uninit a s) a.got s (gives end_target) v same
                  (end_given laws) (ground (arith, selected, wakes, counted, over)),
              λ k m bytes sel counted' got. absurd (ground (arith, over, counted, counted')),
            )
            | inr more ↦
                let (bytes, len, got) = full.gives_all n counted in
                let positive : 0 < n = ground (arith, more) in
                let room = full.room n counted in
                let (x, s', r) =
                  read_lines bytes s v same (omega (arith, room, len))
                    (omega (arith, positive, len)) in
                let run : await_target ipv4toi uninit a s ≡ read_target ipv4toi uninit n a.got s =
                  ground (arith, selected, wakes, counted, more) in
                let run' : read_target ipv4toi uninit n a.got s
                    ≡ read_target ipv4toi uninit (length bytes) (some bytes) s =
                  ap (λ k. read_target ipv4toi uninit k a.got s) (sym len)
                  ∙ ap (λ g. read_target ipv4toi uninit (length bytes) g s) got in
                (
                  x,
                  s',
                  bytes,
                  Reads-of (run ∙ run') got r,
                  λ k m bytes' sel counted' got'. ground (arith, got, got'),
                )
          ]
        ]
      ]
    ]

    -- On a valid buffer with room for what comes, where `read` gives all bytes that `ioctl` counts and
    -- the default port is not that of the end, each call of `next_target` returns. It gives the first
    -- line of the buffer if that is an address; if not, it takes all bytes that come. In all cases, what
    -- a reader of the whole stream makes of the bytes behind the call, with the target that it gives
    -- before them, is what it makes of those in the buffer and those that were taken.
    pub next_target-Answers :
        (a : Input) (s : TargetAsyncFile P)
        → IsValid s.buf
        → s.def_port ≡ port
        → Complete a s
        → (n : Next P) × (s' : TargetAsyncFile P) × Answers ipv4toi port
            (next_target ipv4toi uninit a s)
            a
            s
            n
            s'
    unfolding next_target find_byte
    next_target-Answers a s v same full =
        let (t, s1, k) = take_line laws ipv4toi port other s v same in
        elim (Bool-cases (ltb 0 s.buf.buf_pos)) [
          | inr nothing ↦
              let (n, s', bytes, r, takes) = await_lines a s v same full in
              let empty : contents s.buf ≡ [] =
                (let none_in : s.buf.buf_pos ≡ 0 = ground (arith, nothing) in
                  ap (λ n. take n (block s.buf.buffer)) none_in) in
              let run : next_target ipv4toi uninit a s ≡ await_target ipv4toi uninit a s =
                ground (arith, nothing) in
              (
                n,
                s',
                record {
                  bytes = bytes;
                  reading = Reads-of run refl r;
                  first =
                      λ i ip found valid. absurd (ground (arith, found, ap (find_byte 10) empty));
                  takes = λ h. takes;
                },
              )
          | inl holds ↦ elim k.told [
            | inr goes ↦ (
              gives t,
              s1,
              record {
                bytes = [];
                reading = record {
                  returns = ground (arith, holds, k.returns, goes.1);
                  valid = k.valid;
                  same = k.same;
                  from_read = inl refl;
                  stream = λ ts.
                      k.stream ts ∙ ap (reads ipv4toi port ts) (sym (append-nil (contents s.buf)));
                };
                first = λ i ip found valid. ground (arith, k.line i found, valid);
                takes = λ h. absurd (no_address s t s1 k goes.0 h);
              },
            )
            | inl ends ↦
                let less = k.small in
                let (n, s', bytes, r, takes) = await_lines a s1 k.valid k.same (record {
                  gives_all = full.gives_all;
                  room = λ n counted. (let h = full.room n counted in omega (arith, h, less));
                }) in
                let run : next_target ipv4toi uninit a s ≡ await_target ipv4toi uninit a s1 =
                  ground (arith, holds, k.returns, ends.1) in
                let none_given : given (gives t) ≡ [] = ground (arith, ends.0) in
                (
                  n,
                  s',
                  record {
                    bytes = bytes;
                    reading = Reads-of run refl (
                        skipped (await_target ipv4toi uninit a s1) a.got s s1 s' t n bytes k
                          none_given r);
                    first = λ i ip found valid.
                        (let line = k.line i found in
                          let told = (not_end laws ipv4toi port other ip).0 in
                          absurd (ground (arith, line, valid, told, ends.0)));
                    takes = λ h. takes;
                  },
                )
          ]
        ]

    -- At the end of the file, with a first line in the buffer that is no address, `next_target` gives
    -- the end, though all lines behind that one are still in the buffer.
    pub next_target_early :
        (a : Input) (s : TargetAsyncFile P) (i ready : ℕ)
        → IsValid s.buf
        → find_byte 10 (contents s.buf) ≡ some i
        → ipv4toi (take i (contents s.buf)) ≡ none
        → a.sel_ret ≡ some (suc ready)
        → a.navail ≡ some 0
        → (s' : TargetAsyncFile P) × (next_target ipv4toi uninit a s ≡ ret (gives end_target, s'))
          × (contents s'.buf ≡ drop (suc i) (contents s.buf))
    unfolding next_target await_target next_target_in_buf
    next_target_early a s i ready v found invalid selected over =
        let (_, within) = feed-some 10 (add_line ipv4toi port) [] [] (contents s.buf) i found in
        let len = length-contents s.buf v in
        let (b, popped, bv, rest) = pop_by-IsValid (suc i) s.buf v (omega (arith, within, len)) in
        let step : i + 1 ≡ suc i = omega arith in
        let popped' : pop_by (i + 1) s.buf ≡ ret b = ap (λ k. pop_by k s.buf) step ∙ popped in
        let holds : 0 < s.buf.buf_pos = omega (arith, within, len) in
        (
          record s { buf = b },
          ground (arith, holds, found, invalid, popped', (end_is_end laws).1, selected, over),
          rest,
        )
