-- ===== src/Target/Tests.antt =====
-- A port as one number, its value in the low 16 bits, and the theorems on targets at that instance.
use nodescan.Prelude.{ℕ, ◌+◌, ◌*◌, ◌/◌, ◌%◌, ◌^◌, ◌≡◌, refl, not, ==_iff, ◌==◌, ltb, arith}
use nodescan.Target.{PortApi, PortLaws, Target, target_lt, target_eq, target_ne}
use nodescan.Target.Order.{key, target_order}
use nodescan.Target.Address.{from_socket, to_sockaddr_in, from_socket-to_sockaddr_in}

instance abbrev pub word_port : PortApi ℕ
word_port = record {
  make = λ v t. v % 2 ^ 16 + t * 2 ^ 16;
  value = λ p. p % 2 ^ 16;
  protocol = λ p. p / 2 ^ 16;
  as_u32 = λ p. p;
  port_eq = ◌==◌;
  socket_type = λ p. p / 2 ^ 16;
  socket_proto = λ p. 0;
  protocol_from_socket_type = λ type proto. type;
  unsupported = 0;
}

pub word_port-PortLaws : PortLaws word_port
word_port-PortLaws = record {
  port_eq_iff = ==_iff;
  as_u32_injective = λ p q h. h;
  value-make = λ v t h. omega arith;
  value-lt = λ p. omega arith;
  make-value = λ p. omega arith;
  protocol_from_socket = λ p. refl;
}

abbrev pub target : ℕ → ℕ → Target ℕ
target ip port = record { ipv4 = ip; port = port }

target_order_example :
    (target_lt (target 1 90) (target 2 80) ≡ ltb (key (target 1 90)) (key (target 2 80)))
    × (target_eq (target 1 90) (target 2 80) ≡ (key (target 1 90) == key (target 2 80)))
    × (target_ne (target 1 90) (target 2 80) ≡ not (key (target 1 90) == key (target 2 80)))
target_order_example =
    target_order word_port-PortLaws (target 1 90) (target 2 80) (omega arith) (omega arith)

from_socket-to_sockaddr_in_example :
    from_socket (to_sockaddr_in (target 0x7F000001 (80 + 2 ^ 16))) 1 0
    ≡ target 0x7F000001 (80 + 2 ^ 16)
from_socket-to_sockaddr_in_example =
    from_socket-to_sockaddr_in (target 0x7F000001 (80 + 2 ^ 16)) word_port-PortLaws (omega arith)
