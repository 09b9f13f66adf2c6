-- ===== src/Storage/Tests.antt =====
-- A storage of numbers, whose new properties count the calls.
use nodescan.Prelude.{ℕ, ◌+◌, [], ◌∷◌, arith}
use nodescan.Target.Tests.{word_port, word_port-PortLaws, target}
use nodescan.Target.Order.{key}
use nodescan.Storage.{Storage}
use nodescan.Storage.Laws.{Kept, properties_of-Kept}

abbrev counted : Storage ℕ ℕ
counted = record { storage = (key (target 1 80), 7) ∷ []; new_property = λ w. (w, w + 1) }

properties_of-Kept_example : Kept (target 2 80) 5 counted
properties_of-Kept_example =
    properties_of-Kept word_port-PortLaws (target 2 80) 5 counted (omega arith) (omega arith, tt)
