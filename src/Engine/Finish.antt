-- ===== src/Engine/Finish.antt =====
-- `process_free_socks`, when it says that the targets are at their end.
use nodescan.Prelude.{
  ℕ, zero, suc, ◌≡◌, Bool, true, false, List, [], ◌∷◌, Exec, ret, out_of_fuel, ◌>>=◌, if◌then◌else◌,
  OnRet, OnRet->>=, OnRet-any, Bool-cases, inl, inr,
}
use nodescan.Target.{PortApi, Target, is_end}
use nodescan.TargetSet.{Next, gives, blocks}
use nodescan.Engine.{Engine, Config, Opened}
use nodescan.Engine.Handlers.{launch_target, free_socks_loop, process_free_socks}

module _ {P S H F W : Type 0} ⦃api : PortApi P⦄ (c : Config P S H F W) where
  -- The last call of `next_target` gave the end, and left this state.
  abbrev pub MetEnd : S → Type 0
  MetEnd x' =
      (x : S) × (t : Target P) × (c.target_set.next_target x ≡ ret (gives t, x'))
      × (is_end t ≡ true)

  -- If there is no more target, the end was met.
  abbrev Stopped : Bool × Engine P S H F W → Type 0
  Stopped r = r.0 ≡ false → MetEnd r.1.targets

  -- What a call of `next_target` leads to.
  stopped :
      (e : Engine P S H F W) (rest : Target P → S → Exec (Bool × Engine P S H F W)) (n : Next P × S)
      → c.target_set.next_target e.targets ≡ ret n
      → ((t : Target P) (x : S) → OnRet Stopped (rest t x))
      → OnRet Stopped (elim n.0 [
        | blocks ↦ ret (true, record e { targets = n.1 })
        | gives t ↦ if is_end t then ret (false, record e { targets = n.1 }) else rest t n.1
      ])
  stopped e rest (blocks, x) ran others = λ over. cc
  stopped e rest (gives t, x) ran others = elim (Bool-cases (is_end t)) [
    | inl end ↦ rw end (λ over. (e.targets, t, ran, end))
    | inr more ↦ rw more (others t x)
  ]

  free_socks_loop-Stopped :
      (answers : List Opened) (i now : ℕ) (e : Engine P S H F W)
      → OnRet Stopped (free_socks_loop c answers i now e)
  unfolding free_socks_loop
  free_socks_loop-Stopped answers zero now e = λ over. cc
  free_socks_loop-Stopped [] (suc i) now e =
      OnRet->>= (λ n. Unit {0}) Stopped (c.target_set.next_target e.targets) _
        (OnRet-any (c.target_set.next_target e.targets))
        (λ n ran u. stopped e (λ t x. out_of_fuel) n ran (λ t x. tt))
  free_socks_loop-Stopped (answer ∷ answers) (suc i) now e =
      OnRet->>= (λ n. Unit {0}) Stopped (c.target_set.next_target e.targets) _
        (OnRet-any (c.target_set.next_target e.targets))
        (λ n ran u.
          stopped e
            (λ t x. launch_target c answer t now (record e { targets = x }) >>= λ r. elim r.0 [
              | true ↦ free_socks_loop c answers i now r.1
              | false ↦ free_socks_loop c answers (suc i) now r.1
            ])
            n ran
            (λ t x.
              OnRet->>= (λ r. Unit {0}) Stopped
                (launch_target c answer t now (record e { targets = x })) _
                (OnRet-any (launch_target c answer t now (record e { targets = x })))
                (λ r ran' u'.
                  elim r.0
                    as (λ b. OnRet Stopped (elim b [
                      | true ↦ free_socks_loop c answers i now r.1
                      | false ↦ free_socks_loop c answers (suc i) now r.1
                    ])) [
                      | true ↦ free_socks_loop-Stopped answers i now r.1
                      | false ↦ free_socks_loop-Stopped answers (suc i) now r.1
                    ])))

  pub process_free_socks-MetEnd :
      (answers : List Opened) (now : ℕ) (e : Engine P S H F W)
      → OnRet (λ r. r.0 ≡ false → MetEnd r.1.targets) (process_free_socks c answers now e)
  unfolding process_free_socks
  process_free_socks-MetEnd answers now e = free_socks_loop-Stopped answers e.avail_socks now e
