-- ===== src/Engine/Ledger/Recorded.antt =====
-- A target set that is a queue, with a record of the targets that it is told to be finished, as one
-- whose targets can be counted.
use nodescan.Prelude.{
  ℕ, ◌+◌, ◌≡◌, refl, ap, sym, subst, ◌∙◌, Bool, true, false, List, [], ◌∷◌, ret, ◌>>=◌, arith,
}
use nodescan.Target.{PortApi, Target, is_end, end_target}
use nodescan.TargetSet.{TargetSet, gives}
use nodescan.TargetSet.Queue.{Queue, pop_front}
use nodescan.Engine.{Config}
use nodescan.Engine.Accounts.{Serves}
use nodescan.Engine.Ledger.{one, Counts}

-- The set, and the targets that were finished, the last first.
abbrev pub Recorded : Type 0 → Type 0 → Type 0
Recorded P S = S × List (Target P)

-- A target set that writes down what it is told.
unfoldable pub recorded : {P S H : Type 0} → TargetSet P S H → TargetSet P (Recorded P S) H
recorded set = record {
  init = λ x. (set.init x.0, x.1);
  init_shrd = λ idx count x. (set.init_shrd idx count x.0, x.1);
  next_target = λ x. set.next_target x.0 >>= λ r. ret (r.0, (r.1, x.1));
  target_finished =
      λ t h x. let (done, h', s) = set.target_finished t h x.0 in (done, h', (s, t ∷ x.1));
  init_host_sm = λ t h x. set.init_host_sm t h x.0;
}

module _ {P : Type 0} ⦃api : PortApi P⦄ where
  pub tally : (Target P → Bool) → List (Target P) → ℕ
  tally p [] = 0
  tally p (t ∷ ts) = one p t + tally p ts

  abbrev pub NoEnd : List (Target P) → Type 0
  NoEnd [] = Unit {0}
  NoEnd (t ∷ ts) = (is_end t ≡ false) × NoEnd ts

  NoEnd-pop_front : (ts : List (Target P)) → NoEnd ts → NoEnd (pop_front ts).1
  NoEnd-pop_front [] h = tt
  NoEnd-pop_front (t ∷ ts) h = h.1

  -- A target that is not `Target::end()` comes from the front, and `Target::end()` from an empty queue.
  tally-front :
      (p : Target P → Bool) (ts us : List (Target P)) (t : Target P)
      → is_end {P = P} end_target ≡ true
      → (pop_front ts).0 ≡ t
      → us ≡ (pop_front ts).1
      → is_end t ≡ false
      → tally p ts ≡ one p t + tally p us
  unfolding tally
  tally-front p [] us t end front rest more = absurd (ground (arith, sym (ap is_end front) ∙ end))
  tally-front p (u ∷ ts) us t end front rest more = rw rest (ap (λ v. one p v + tally p ts) front)

  tally_end :
      (p : Target P → Bool) (ts us : List (Target P)) (t : Target P)
      → NoEnd ts
      → (pop_front ts).0 ≡ t
      → us ≡ (pop_front ts).1
      → is_end t ≡ true
      → (tally p ts ≡ 0) × (tally p us ≡ 0)
  unfolding tally
  tally_end p [] us t none_ends front rest over = (refl, ap (tally p) rest)
  tally_end p (u ∷ ts) us t none_ends front rest over =
      absurd (ground (arith, sym (ap is_end front) ∙ none_ends.0))

module _ {P S H F W : Type 0} ⦃api : PortApi P⦄ {set : TargetSet P S H} (queue : Queue set)
    (c : Config P (Recorded P S) H F W) (same : c.target_set ≡ recorded set) where
  -- The set is ready, with no `Target::end()` among the targets to come.
  abbrev pub IsReady : Recorded P S → Type 0
  IsReady x = queue.IsReady x.0 × NoEnd (queue.upcoming x.0)

  -- What a call of `next_target` does to the targets to come.
  next_lem :
      (x : Recorded P S)
      → IsReady x
      → (x' : Recorded P S) × (c.target_set.next_target x
          ≡ ret (gives (pop_front (queue.upcoming x.0)).0, x'))
        × IsReady x'
        × (queue.upcoming x'.0 ≡ (pop_front (queue.upcoming x.0)).1)
        × (x'.1 ≡ x.1)
  unfolding recorded
  next_lem x h =
      let (s, e, ready, rest) = queue.next x.0 h.0 in
      (
        (s, x.1),
        ap (λ k. k.next_target x) same ∙ ap (λ m. m >>= λ r. ret (r.0, (r.1, x.1))) e,
        (ready, subst NoEnd (sym rest) (NoEnd-pop_front (queue.upcoming x.0) h.1)),
        rest,
        refl,
      )

  finished_lem :
      (t : Target P) (k : H) (x : Recorded P S)
      → (c.target_set.target_finished t k x).2 ≡ ((set.target_finished t k x.0).2, t ∷ x.1)
  unfolding recorded
  finished_lem t k x = ap (λ s. (s.target_finished t k x).2) same

  pub recorded-Serves : Serves c IsReady
  recorded-Serves = record {
    next = λ x h.
        let (x', ran, ready, rest, told) = next_lem x h in
        ((gives (pop_front (queue.upcoming x.0)).0, x'), ran, ready);
    finished = λ t k x h.
        subst IsReady (sym (finished_lem t k x))
          (queue.finished t k x.0 h.0, subst NoEnd (sym (queue.kept t k x.0)) h.1);
  }

  pub recorded-Counts : is_end {P = P} end_target ≡ true → Counts c IsReady
  unfolding tally
  recorded-Counts end = record {
    left = λ p x. tally p (queue.upcoming x.0);
    told = λ p x. tally p x.1;
    gives_one = λ p x x' t h ran more.
        let (y, made, ready, rest, told) = next_lem x h in
        let both = sym made ∙ ran in
        let front : (pop_front (queue.upcoming x.0)).0 ≡ t = cc in
        let it : y ≡ x' = cc in
        (
          tally-front p (queue.upcoming x.0) (queue.upcoming x'.0) t end front
              (ap (λ z. queue.upcoming z.0) (sym it) ∙ rest) more,
          ap (λ z. tally p z.1) (sym it) ∙ ap (tally p) told,
        );
    ends = λ p x x' t h ran over.
        let (y, made, ready, rest, told) = next_lem x h in
        let both = sym made ∙ ran in
        let front : (pop_front (queue.upcoming x.0)).0 ≡ t = cc in
        let it : y ≡ x' = cc in
        let none_left =
          tally_end p (queue.upcoming x.0) (queue.upcoming x'.0) t h.1 front
            (ap (λ z. queue.upcoming z.0) (sym it) ∙ rest) over in
        (none_left.0, none_left.1, ap (λ z. tally p z.1) (sym it) ∙ ap (tally p) told);
    would_block = λ p x x' h ran.
        let (y, made, ready, rest, told) = next_lem x h in let both = sym made ∙ ran in absurd cc;
    tells = λ p t k x.
        let after = finished_lem t k x in
        (
          ap (λ z. tally p (queue.upcoming z.0)) after ∙ ap (tally p) (queue.kept t k x.0),
          ap (λ z. tally p z.1) after,
        );
  }
