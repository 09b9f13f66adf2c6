-- ===== src/TargetSet/Wrappers/Inject.antt =====
-- `ReinjectableTargetSet<T>`: how added targets are given.
use nodescan.Prelude.{
  ℕ, zero, suc, ◌≡◌, refl, sym, ap, ◌∙◌, List, [], ◌∷◌, ◌++◌, map, Exec, ret, ◌>>=◌, length,
}
use mathlib.Core.List.{append_assoc, append-nil}
use nodescan.Target.{PortApi, Target}
use nodescan.TargetSet.{TargetSet, Next, gives}
use nodescan.TargetSet.Wrappers.{Reinjectable, add_target, inject_next}

module _ {P S : Type 0} where
  pub add_all : List (Target P) → Reinjectable P S → Reinjectable P S
  add_all [] r = r
  add_all (t ∷ ts) r = add_all ts (add_target t r)

  add_all-targets :
      (ts : List (Target P)) (r : Reinjectable P S)
      → add_all ts r ≡ record r { targets = r.targets ++ ts }
  unfolding add_all add_target
  add_all-targets [] r = sym (ap (λ us. record r { targets = us }) (append-nil r.targets))
  add_all-targets (t ∷ ts) r =
      add_all-targets ts (add_target t r)
      ∙ ap (λ us. record r { targets = us }) (append_assoc r.targets (t ∷ []) ts)

module _ {P S H : Type 0} ⦃api : PortApi P⦄ (set : TargetSet P S H) where
  -- `n` calls of `next_target`, with what they do.
  pub calls : ℕ → Reinjectable P S → Exec (List (Next P) × Reinjectable P S)
  calls zero r = ret ([], r)
  calls (suc n) r = inject_next set r >>= λ p. calls n p.1 >>= λ q. ret (p.0 ∷ q.0, q.1)

  calls_queue :
      (ts : List (Target P)) (s : S)
      → calls (length ts) (record { targets = ts; base = s })
        ≡ ret (map gives ts, record { targets = []; base = s })
  unfolding calls inject_next
  calls_queue [] s = refl
  calls_queue (t ∷ ts) s = rw (calls_queue ts s)

  -- Targets that are added while none waits are the next ones, in the order in which they were
  -- added, and the base set is not touched for them.
  pub inject_first :
      (ts : List (Target P)) (s : S)
      → calls (length ts) (add_all ts (record { targets = []; base = s }))
        ≡ ret (map gives ts, record { targets = []; base = s })
  inject_first ts s =
      ap (calls (length ts)) (add_all-targets ts (record { targets = []; base = s }))
      ∙ calls_queue ts s
