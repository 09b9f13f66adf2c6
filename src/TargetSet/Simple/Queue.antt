-- ===== src/TargetSet/Simple/Queue.antt =====
-- `SimpleTargetSet` as a queue of the targets that its iterator has before it.
use nodescan.Prelude.{◌≡◌, ◌∙◌, ap, refl, ret}
use nodescan.Target.{PortApi}
use nodescan.TargetSet.{gives}
use nodescan.TargetSet.Queue.{Queue}
use nodescan.TargetSet.Simple.{simple_set}
use nodescan.TargetSet.Simple.Drain.{IsValid, upcoming, next_target-pop_front}

module _ {P H : Type 0} ⦃api : PortApi P⦄ where
  unfoldable pub simple_set-Queue : Queue (simple_set {P = P} {H = H})
  unfolding simple_set
  simple_set-Queue = record {
    IsReady = IsValid;
    upcoming = upcoming;
    next = λ x v.
        let (r, e, w, same, front) = next_target-pop_front x v in
        let calls : (simple_set {P = P} {H = H}).next_target x ≡ ret (gives r.0, r.1) =
          rw (e, simple_set) in
        (r.1, calls ∙ ap (λ q. ret (gives q.0, r.1)) front, w, ap (λ q. q.1) front);
    finished = λ t h x v. v;
    kept = λ t h x. refl;
  }
