-- ===== src/Storage.antt =====
-- include/ns/lvl4_properties_storage.h: what a program keeps for each target, in a
-- `std::map<Target, Properties>`. The map is held by `key`, the number of a target that orders targets
-- as `operator<` does (`target_order` of Target/Order). `clear` does not compile, and is left out.
pub mod Laws
pub mod Tests
use nodescan.Prelude.{ℕ, Option, none, some, List, []}
use nodescan.Prelude.Maps
use nodescan.Target.{PortApi, Target}
use nodescan.Target.Order.{key}

-- `_new` may change the world `W`, as a Python type does when it is called.
pub record Storage (A W : Type 0) : Type 0 where
  pub storage : List (ℕ × A)
  pub new_property : W → A × W

-- `Lvl4PropertiesStorage(f)`
abbrev pub new_storage : {A W : Type 0} → (W → A × W) → Storage A W
new_storage f = record { storage = []; new_property = f }

module _ {P A W : Type 0} ⦃api : PortApi P⦄ where
  -- `_storage.find(target)`
  abbrev pub lookup : Target P → Storage A W → Option A
  lookup t s = Maps.find (key t) s.storage

  -- `properties_of(target)`, and `operator[]`: the properties that are there, or new ones.
  unfoldable pub properties_of : Target P → W → Storage A W → A × W × Storage A W
  properties_of t w s = elim (lookup t s) [
    | some a ↦ (a, w, s)
    | none ↦
        let (a, w') = s.new_property w in
        (a, w', record s { storage = Maps.insert (key t) a s.storage })
  ]

  -- What is written through the reference that `properties_of` returns.
  abbrev pub put_properties : Target P → A → Storage A W → Storage A W
  put_properties t a s = record s { storage = Maps.assign (key t) a s.storage }

  -- `remove(target)`
  unfoldable pub remove : Target P → Storage A W → Storage A W
  remove t s = elim (lookup t s) [
    | some a ↦ record s { storage = Maps.erase (key t) s.storage }
    | none ↦ s
  ]
