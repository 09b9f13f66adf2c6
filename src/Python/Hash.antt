-- ===== src/Python/Hash.antt =====
-- `__hash__` and `__eq__` of the Python class of targets.
use nodescan.Prelude.{◌^◌, ◌<◌, ◌≡◌, ◌↔◌, true, arith, ap}
use nodescan.Target.{PortApi, PortLaws, Target, target_eq}
use nodescan.Target.Order.{target_eq_iff}
use nodescan.Python.{target_hash}

module _ {P : Type 0} ⦃api : PortApi P⦄ (laws : PortLaws api) where
  -- On targets whose address and whose port's number fit 32 bits, the hash fits 64 bits, and two targets
  -- are equal to Python just if their hashes are.
  pub target_hash-target_eq :
      (t u : Target P)
      → t.ipv4 < 2 ^ 32
      → u.ipv4 < 2 ^ 32
      → api.as_u32 t.port < 2 ^ 32
      → api.as_u32 u.port < 2 ^ 32
      → (target_hash t < 2 ^ 64) × ((target_eq t u ≡ true) ↔ (target_hash t ≡ target_hash u))
  unfolding target_hash
  target_hash-target_eq t u a b p q =
      let same : target_hash t ≡ target_hash u → t ≡ u = λ e.
        let ports : api.as_u32 t.port ≡ api.as_u32 u.port = omega (arith, a, b, p, q, e) in
        let ips : t.ipv4 ≡ u.ipv4 = omega (arith, a, b, p, q, e) in
        ground (arith, ips, laws.as_u32_injective t.port u.port ports) in
      (
        omega (arith, a, p),
        (
          λ e. ap target_hash ((target_eq_iff laws t u).0 e),
          λ e. (target_eq_iff laws t u).1 (same e),
        ),
      )
