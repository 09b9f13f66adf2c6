-- ===== src/Python/Tests.antt =====
-- Two targets with one address.
use nodescan.Prelude.{◌^◌, ◌<◌, ◌≡◌, ◌↔◌, true, arith}
use nodescan.Target.{target_eq}
use nodescan.Target.Tests.{word_port, word_port-PortLaws, target}
use nodescan.Python.{target_hash}
use nodescan.Python.Hash.{target_hash-target_eq}

target_hash-target_eq_example :
    (target_hash (target 1 80) < 2 ^ 64)
    × ((target_eq (target 1 80) (target 1 81) ≡ true)
        ↔ (target_hash (target 1 80) ≡ target_hash (target 1 81)))
target_hash-target_eq_example =
    target_hash-target_eq word_port-PortLaws (target 1 80) (target 1 81) (omega arith) (omega arith)
      (omega arith) (omega arith)
