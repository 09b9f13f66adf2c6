-- ===== src/Ipstr/Tests.antt =====
-- 127.0.0.1
use nodescan.Prelude.{◌≡◌, ◌≤◌, length, arith}
use nodescan.Ipstr.{ipstr}
use nodescan.Ipstr.Reading.{numbers, address, ipstr-address}

ipstr-address_example :
    (length (ipstr 0x7F000001) ≤ 15) × (address (numbers 0 (ipstr 0x7F000001)) ≡ 0x7F000001)
ipstr-address_example = ipstr-address 0x7F000001 (omega arith)
