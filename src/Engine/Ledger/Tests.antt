-- ===== src/Engine/Ledger/Tests.antt =====
-- The scan of one target, counted.
use nodescan.Prelude.{ℕ, ◌+◌, ◌≡◌, refl, Bool, [], ◌∷◌, ret, arith, of_run}
use nodescan.Prelude.Maps
use nodescan.Target.{Target, is_end, end_target, target_lt}
use nodescan.Target.Tests.{word_port}
use nodescan.TargetSet.Simple.Queue.{simple_set-Queue}
use nodescan.TargetSet.Simple.{SimpleTargetSet, simple_set, next_target, from_element}
use nodescan.Engine.{opened, host_sm, lvl4_sm}
use nodescan.Engine.Handlers.{process_free_socks, free_socks_loop, launch_target}
use nodescan.Engine.Scan.{Scanner, do_async_scan}
use nodescan.Engine.Sockets.{create_socket}
use nodescan.Engine.Soundness.{Ending}
use nodescan.Engine.Soundness.Tests.{
  start, rounds, talks, Started, started, talks-Serves, start-Ending,
}
use nodescan.Engine.Ledger.{open_count, Counts}
use nodescan.Engine.Ledger.Recorded.{Recorded, recorded, recorded-Counts}
use nodescan.Engine.Ledger.Scan.{do_async_scan-Counts}

one_target : Counts talks Started
unfolding is_end end_target
one_target = recorded-Counts simple_set-Queue talks refl refl

do_async_scan-Counts_example :
    (y : Scanner ℕ (Recorded ℕ (SimpleTargetSet ℕ)) ℕ (Unit {0}) ℕ) × (do_async_scan talks
        (λ i. 0)
        9
        (λ a b w. w)
        (λ f s w. w)
        (opened 5 115 ∷ opened 6 115 ∷ [])
        20
        rounds
        start
      ≡ ret y)
    × ((p : Target ℕ → Bool)
        → (one_target.left p y.engine.targets ≡ 0)
          × (one_target.told p y.engine.targets + open_count p y.engine.sockets_targets
              ≡ one_target.told p start.engine.targets + one_target.left p start.engine.targets))
unfolding Maps.find Maps.insert Maps.erase process_free_socks free_socks_loop launch_target
    create_socket host_sm lvl4_sm Maps.assign recorded simple_set next_target from_element target_lt
    is_end end_target
do_async_scan-Counts_example =
    do_async_scan-Counts talks talks-Serves one_target (λ i. 0) 9 (λ a b w. w) (λ f s w. w)
      (opened 5 115 ∷ opened 6 115 ∷ []) 20 rounds start
      (record {
        socks = refl;
        sms = refl;
        polled = refl;
        all_free = refl;
        small = omega arith;
        good = started;
      })
      (omega arith, refl, λ t. (omega arith, refl, λ t. tt)) (omega arith)
      (of_run
        (λ f.
          Ending talks Started talks-Serves (λ i. 0) 9 (λ a b w. w) (λ f s w. w) rounds
            (record start { engine = f.1 }))
        (process_free_socks talks (opened 5 115 ∷ opened 6 115 ∷ []) 20
          (record (start.engine) { nlaunched = 0; ndone = 0 }))
        refl start-Ending)
