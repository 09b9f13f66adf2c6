-- ===== src/Engine/Setup/Tests.antt =====
-- A set of one target that is not started, and an engine of two sockets.
use nodescan.Prelude.{ℕ, ◌≡◌, refl, [], ◌∷◌, fault}
use nodescan.Target.Tests.{word_port, target}
use nodescan.TargetSet.Simple.{SimpleTargetSet, simple_set, next_target, unset}
use nodescan.Engine.{opened}
use nodescan.Engine.Tests.{config}
use nodescan.Engine.Setup.{new_scanner, launch_shrd, launch_shrd-fault}

abbrev unstarted : SimpleTargetSet ℕ
unstarted = record { targets = target 1 80 ∷ []; it = unset }

launch_shrd-fault_example :
    launch_shrd config
      (λ i. 0)
      9
      (λ a b w. w)
      (λ f s w. w)
      0
      2
      (opened 5 115 ∷ [])
      20
      []
      (new_scanner 0 config unstarted 0)
    ≡ fault
unfolding simple_set next_target
launch_shrd-fault_example =
    launch_shrd-fault config (λ i. 0) 9 (λ a b w. w) (λ f s w. w) 0 20 0 2 1 unstarted 0
      (opened 5 115 ∷ []) [] refl refl
