-- ===== src/TargetSet/File/Lines.antt =====
-- `TargetAsyncFile` against a reader of the whole stream.
use nodescan.Prelude.{
  ℕ, suc, ◌+◌, ◌≤◌, ◌≡◌, ◌≢◌, refl, sym, ap, ◌∙◌, true, false, Option, none, some, List, [], ◌∷◌,
  ◌++◌, take, drop, length, if◌then◌else◌, ret, arith, length-drop, Option-cases, Bool-cases, inl,
  inr, ◌⊎◌,
}
use mathlib.Core.List.{append-nil}
use nodescan.Buffer.{contents}
use nodescan.Buffer.Laws.{IsValid, length-contents, pop_by-IsValid}
use nodescan.Lvl4.Process.{find_byte}
use nodescan.Lvl4.Framing.{feed, feed-some}
use nodescan.Target.{PortApi, PortLaws, Target, target_eq, target_ne, end_target}
use nodescan.TargetSet.{Next, gives, blocks}
use nodescan.TargetSet.File.{TargetAsyncFile, line_target, next_target_in_buf}

module _ {P : Type 0} ⦃api : PortApi P⦄ where
  -- What a call of `next_target` gives, an end or a block being nothing.
  abbrev pub given : Next P → List (Target P)
  given blocks = []
  given (gives t) = if target_eq t end_target then [] else t ∷ []

module _ {P : Type 0} ⦃api : PortApi P⦄ (ipv4toi : List ℕ → Option ℕ) (port : P) where
  -- What a line adds to the targets: an address with the port, or nothing.
  abbrev pub add_line : List ℕ → List (Target P) → List (Target P)
  add_line line ts = elim (ipv4toi line) [
    | none ↦ ts
    | some ipv4 ↦ ts ++ (record { ipv4 = ipv4; port = port } ∷ [])
  ]

  -- What is left of the stream behind a call that gave some targets.
  abbrev pub reads : List (Target P) → List ℕ → List (Target P) × List ℕ
  reads ts xs = feed 10 add_line ts [] xs

  -- One line is taken from the buffer, if there is one; whether its target is told from the end.
  pub record Taken (s : TargetAsyncFile P) (t : Target P) (s' : TargetAsyncFile P) : Type 0 where
    pub returns : next_target_in_buf ipv4toi s ≡ ret (t, s')
    pub valid : IsValid s'.buf
    pub same : s'.def_port ≡ port
    pub small : s'.buf.buf_pos ≤ s.buf.buf_pos
    pub stream :
        (ts : List (Target P))
        → reads (ts ++ given (gives t)) (contents s'.buf) ≡ reads ts (contents s.buf)
    pub told :
        (target_eq t end_target ≡ true) × (target_ne t end_target ≡ false)
        ⊎ (target_eq t end_target ≡ false) × (target_ne t end_target ≡ true)
    pub line :
        (i : ℕ)
        → find_byte 10 (contents s.buf) ≡ some i
        → t ≡ line_target ipv4toi port (take i (contents s.buf))
    pub no_line : find_byte 10 (contents s.buf) ≡ none → t ≡ end_target

module _ {P : Type 0} ⦃api : PortApi P⦄ (laws : PortLaws api) where
  pub end_is_end : let e : Target P = end_target in (target_eq e e ≡ true) × (target_ne e e ≡ false)
  unfolding target_eq target_ne
  end_is_end =
      let same = (laws.port_eq_iff end_target.port end_target.port).1 refl in ground (arith, same)

  pub end_given : given {P = P} (gives end_target) ≡ []
  end_given = ground (arith, end_is_end)

module _ {P : Type 0} ⦃api : PortApi P⦄ (laws : PortLaws api) (ipv4toi : List ℕ → Option ℕ)
    (port : P) (other : port ≢ end_target.port) where
  pub not_end :
      (ipv4 : ℕ)
      → let t : Target P = record { ipv4 = ipv4; port = port } in
        (target_eq t end_target ≡ false) × (target_ne t end_target ≡ true)
  unfolding target_eq target_ne
  not_end ipv4 = elim (Bool-cases (api.port_eq port end_target.port)) [
    | inl same ↦ absurd (other ((laws.port_eq_iff port end_target.port).0 same))
    | inr differs ↦ ground (arith, differs)
  ]

  -- The target of a line is told from the end just if the line is an address.
  line_given :
      (line : List ℕ)
      → let t = line_target ipv4toi port line in
        ((ts : List (Target P)) → add_line ipv4toi port line ts ≡ ts ++ given (gives t))
        × ((target_eq t end_target ≡ true) × (target_ne t end_target ≡ false)
            ⊎ (target_eq t end_target ≡ false) × (target_ne t end_target ≡ true))
  line_given line = elim (Option-cases (ipv4toi line)) [
    | inl invalid ↦ (
      λ ts. ground (arith, invalid, (end_is_end laws), append-nil ts),
      inl (ground (arith, invalid, (end_is_end laws))),
    )
    | inr (ip, valid) ↦
        (λ ts. ground (arith, valid, not_end ip), inr (ground (arith, valid, not_end ip)))
  ]

  pub take_line :
      (s : TargetAsyncFile P)
      → IsValid s.buf
      → s.def_port ≡ port
      → (t : Target P) × (s' : TargetAsyncFile P) × Taken ipv4toi port s t s'
  unfolding next_target_in_buf
  take_line s v same = elim (Option-cases (find_byte 10 (contents s.buf))) [
    | inl nothing ↦ (
      end_target,
      s,
      record {
        returns = ground (arith, nothing);
        valid = v;
        same = same;
        small = omega arith;
        stream = λ ts.
            ap (λ us. reads ipv4toi port us (contents s.buf))
              (ground (arith, (end_is_end laws), append-nil ts));
        told = inl (end_is_end laws);
        line = λ i found. absurd (ground (arith, nothing, found));
        no_line = λ h. refl;
      },
    )
    | inr (i, found) ↦
        let (_, within) = feed-some 10 (add_line ipv4toi port) [] [] (contents s.buf) i found in
        let (b, popped, bv, rest) =
          pop_by-IsValid (i + 1) s.buf v (omega (arith, within, length-contents s.buf v)) in
        let line = take i (contents s.buf) in
        let (adds, told) = line_given line in
        (
          line_target ipv4toi port line,
          record s { buf = b },
          record {
            returns = ground (arith, found, popped, same);
            valid = bv;
            same = same;
            small = omega (
              arith,
              length-contents b bv,
              length-contents s.buf v,
              ap length rest,
              length-drop (i + 1) (contents s.buf),
            );
            stream = λ ts.
                ap (λ us. reads ipv4toi port us (contents b)) (sym (adds ts))
                ∙ ap (reads ipv4toi port (add_line ipv4toi port line ts))
                    (rest ∙ ap (λ k. drop k (contents s.buf)) {y = suc i} (omega arith))
                ∙ sym (feed-some 10 (add_line ipv4toi port) ts [] (contents s.buf) i found).0;
            told = told;
            line = λ j found'. ground (arith, found, found');
            no_line = λ h. absurd (ground (arith, found, h));
          },
        )
  ]
