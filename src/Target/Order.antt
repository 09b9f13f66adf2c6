-- ===== src/Target/Order.antt =====
-- include/ns/target.h: the comparisons of targets.
use nodescan.Prelude.{ℕ, ◌+◌, ◌*◌, ◌^◌, ◌<◌, ap, ltb, ◌==◌, ◌≡◌, ◌↔◌, true, false, arith, not}
use nodescan.Target.{PortApi, PortLaws, Target, target_lt, target_eq, target_ne, is_end, end_target}

module _ {P : Type 0} ⦃api : PortApi P⦄ where
  -- The address and the port of a target as one number.
  abbrev pub key : Target P → ℕ
  key t = t.ipv4 * 2 ^ 32 + api.as_u32 t.port

module _ {P : Type 0} ⦃api : PortApi P⦄ where
  pub target_lt_irrefl : (t : Target P) → target_lt t t ≡ false
  unfolding target_lt
  target_lt_irrefl t = ground arith

  pub target_lt_trans :
      (t u v : Target P) → target_lt t u ≡ true → target_lt u v ≡ true → target_lt t v ≡ true
  unfolding target_lt
  target_lt_trans t u v h k = ground arith

  pub target_lt-asymm : (t u : Target P) → target_lt t u ≡ true → target_lt u t ≡ false
  unfolding target_lt
  target_lt-asymm t u h = ground arith

  module _ (laws : PortLaws api) where
    pub eq_of_not_lt : (t u : Target P) → target_lt t u ≡ false → target_lt u t ≡ false → t ≡ u
    unfolding target_lt
    eq_of_not_lt t u h k = ground (arith, laws.as_u32_injective t.port u.port)

    pub target_eq_iff : (t u : Target P) → (target_eq t u ≡ true) ↔ (t ≡ u)
    unfolding target_eq
    target_eq_iff t u = ground (arith, laws.port_eq_iff t.port u.port)

    -- With `as_u32` values that fit 32 bits, the comparisons are those of one number for each
    -- target, its address above its port: `operator<` is `<`, `operator==` is equality and
    -- `operator!=` its negation.
    pub target_order :
        (t u : Target P)
        → api.as_u32 t.port < 2 ^ 32
        → api.as_u32 u.port < 2 ^ 32
        → (target_lt t u ≡ ltb (key t) (key u))
          × (target_eq t u ≡ (key t == key u))
          × (target_ne t u ≡ not (key t == key u))
    unfolding target_lt target_eq target_ne
    target_order t u h k = ground (
      arith,
      laws.port_eq_iff t.port u.port,
      laws.as_u32_injective t.port u.port,
      ap api.as_u32 {x = t.port} {y = u.port},
    )

    -- `end()` is an end, and so is every target with its address and a port of the value 0xFFFF.
    pub is_end-end : is_end {P = P} end_target ≡ true
    unfolding is_end end_target
    is_end-end = ground (arith, laws.value-make 0xFFFF api.unsupported (omega arith))
