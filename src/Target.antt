-- ===== src/Target.antt =====
-- include/ns/target.h and target.cpp: a target of the scan, an IPv4 address with a port. The port
-- type is leeloo's, a library that the code calls: a parameter `P` with its operations.
pub mod Order
pub mod Address
pub mod Connected
pub mod Tests
use nodescan.Prelude.{
  ℕ, ◌/◌, ◌%◌, ◌^◌, ◌<◌, ◌≡◌, ◌↔◌, Bool, true, false, not, ◌&&◌, ◌||◌, List, [], ◌∷◌, ltb, ◌==◌,
  if◌then◌else◌,
}

-- What the code calls of `leeloo::port`: `port(value, protocol)`, its accessors, `as_u32`, `==`,
-- `protocol_from_socket_type` and the value UNSUPPORTED of `protocol_enum`.
pub record PortApi (P : Type 0) : Type 0 where
  pub make : ℕ → ℕ → P
  pub value : P → ℕ
  pub protocol : P → ℕ
  pub as_u32 : P → ℕ
  pub port_eq : P → P → Bool
  pub socket_type : P → ℕ
  pub socket_proto : P → ℕ
  pub protocol_from_socket_type : ℕ → ℕ → ℕ
  pub unsupported : ℕ

-- The documented behaviour of these operations: a port is its value and its protocol, `as_u32`
-- packs both, and a protocol can be read back from the socket options that it sets.
pub record PortLaws {P : Type 0} (api : PortApi P) : Type 0 where
  pub port_eq_iff : (p q : P) → (api.port_eq p q ≡ true) ↔ (p ≡ q)
  pub as_u32_injective : (p q : P) → api.as_u32 p ≡ api.as_u32 q → p ≡ q
  pub value-make : (v t : ℕ) → v < 2 ^ 16 → api.value (api.make v t) ≡ v
  pub value-lt : (p : P) → api.value p < 2 ^ 16
  pub make-value : (p : P) → api.make (api.value p) (api.protocol p) ≡ p
  pub protocol_from_socket :
      (p : P)
      → api.protocol_from_socket_type (api.socket_type p) (api.socket_proto p) ≡ api.protocol p

pub record Target (P : Type 0) : Type 0 where
  pub ipv4 : ℕ
  pub port : P

module _ {P : Type 0} ⦃api : PortApi P⦄ where
  unfoldable pub is_end : Target P → Bool
  is_end t = t.ipv4 == 0xFFFFFFFF && api.value t.port == 0xFFFF

  -- `operator<`
  unfoldable pub target_lt : Target P → Target P → Bool
  target_lt t o =
      if t.ipv4 == o.ipv4 then ltb (api.as_u32 t.port) (api.as_u32 o.port) else ltb t.ipv4 o.ipv4

  -- `operator==`
  unfoldable pub target_eq : Target P → Target P → Bool
  target_eq t o = t.ipv4 == o.ipv4 && api.port_eq t.port o.port

  -- `operator!=`
  unfoldable pub target_ne : Target P → Target P → Bool
  target_ne t o = not (t.ipv4 == o.ipv4) || not (api.port_eq t.port o.port)

  -- `Target::end()`
  unfoldable pub end_target : Target P
  end_target = record { ipv4 = 0xFFFFFFFF; port = api.make 0xFFFF api.unsupported }
