-- ===== src/Storage/Laws.antt =====
-- Laws of `Lvl4PropertiesStorage`.
use nodescan.Prelude.{◌^◌, ◌<◌, ◌≡◌, ◌≢◌, refl, none, some, arith, Option-cases, inl, inr}
use nodescan.Prelude.Maps
use nodescan.Prelude.Maps.{
  Ascends, find-insert_self, find-insert_ne, find-erase_self, find-erase_ne, find-erase-none,
  insert-Ascends, erase-Ascends,
}
use nodescan.Target.{PortApi, PortLaws, Target}
use nodescan.Target.Order.{key}
use nodescan.Storage.{Storage, lookup, properties_of, remove}

module _ {P : Type 0} ⦃api : PortApi P⦄ (laws : PortLaws api) where
  key_injective :
      (t u : Target P)
      → api.as_u32 t.port < 2 ^ 32
      → api.as_u32 u.port < 2 ^ 32
      → key t ≡ key u
      → t ≡ u
  key_injective t u a b e =
      let ports : api.as_u32 t.port ≡ api.as_u32 u.port = omega (arith, a, b, e) in
      let ips : t.ipv4 ≡ u.ipv4 = omega (arith, a, b, e) in
      ground (arith, ips, laws.as_u32_injective t.port u.port ports)

module _ {P A W : Type 0} ⦃api : PortApi P⦄ where
  -- What `properties_of` does to a storage.
  pub record Kept (t : Target P) (w : W) (s : Storage A W) : Type 0 where
    pub there : lookup t (properties_of t w s).2 ≡ some (properties_of t w s).0
    pub old : (a : A) → lookup t s ≡ some a → properties_of t w s ≡ (a, w, s)
    pub again :
        (w' : W)
        → properties_of t w' (properties_of t w s).2
          ≡ ((properties_of t w s).0, w', (properties_of t w s).2)
    pub removed : lookup t (remove t s) ≡ none
    pub others :
        (u : Target P)
        → api.as_u32 u.port < 2 ^ 32
        → u ≢ t
        → (lookup u (properties_of t w s).2 ≡ lookup u s) × (lookup u (remove t s) ≡ lookup u s)
    pub ordered : Ascends 0 (properties_of t w s).2.storage × Ascends 0 (remove t s).storage

  properties_of-none :
      (t : Target P) (w : W) (s : Storage A W)
      → lookup t s ≡ none
      → let (a, w') = s.new_property w in
        (properties_of t w s ≡ (a, w', record s { storage = Maps.insert (key t) a s.storage }))
        × (remove t s ≡ s)
  unfolding properties_of remove
  properties_of-none t w s h = ground (arith, h)

  properties_of-some :
      (t : Target P) (w : W) (s : Storage A W) (a : A)
      → lookup t s ≡ some a
      → (properties_of t w s ≡ (a, w, s))
        × (remove t s ≡ record s { storage = Maps.erase (key t) s.storage })
  unfolding properties_of remove
  properties_of-some t w s a h = ground (arith, h)

  -- Ports are taken to fit 32 bits. `properties_of` gives the properties of the target that are in the storage; if there are none, it
  -- adds new ones and gives these, and gives the same when it is called again, whatever the world is.
  -- After `remove` there are none. Neither changes what there is for another target, nor the order of
  -- the map.
  pub properties_of-Kept :
      PortLaws api
      → (t : Target P) (w : W) (s : Storage A W) → api.as_u32 t.port < 2 ^ 32
      → Ascends 0 s.storage
      → Kept t w s
  properties_of-Kept laws t w s fits up =
      let apart : (u : Target P) → api.as_u32 u.port < 2 ^ 32 → u ≢ t → key u ≢ key t =
        λ u fits' ne e. ne (key_injective laws u t fits' fits e) in
      elim (Option-cases (lookup t s)) [
        | inl none_there ↦
            let (a, w') = s.new_property w in
            let (adds, keeps) = properties_of-none t w s none_there in
            let s' : Storage A W = record s { storage = Maps.insert (key t) a s.storage } in
            let added : lookup t s' ≡ some a = find-insert_self (key t) a s.storage none_there in
            record {
              there = rw adds added;
              old = λ b found. ground (arith, none_there, found);
              again = λ v. rw adds (properties_of-some t v s' a added).0;
              removed = rw keeps none_there;
              others = λ u fits' ne.
                  rw (adds, keeps)
                    (find-insert_ne (key t) (key u) a s.storage (apart u fits' ne), refl);
              ordered = rw (adds, keeps) (insert-Ascends (key t) a s.storage (omega arith) up, up);
            }
        | inr (a, found) ↦
            let (keeps, erases) = properties_of-some t w s a found in
            record {
              there = rw keeps found;
              old = λ b found'. (properties_of-some t w s b found').0;
              again = λ v. rw keeps (properties_of-some t v s a found).0;
              removed = rw erases (find-erase_self (key t) 0 s.storage up);
              others = λ u fits' ne.
                  rw (keeps, erases)
                    (refl, find-erase_ne (key t) (key u) s.storage (apart u fits' ne));
              ordered = rw (keeps, erases) (up, erase-Ascends (key t) 0 s.storage up);
            }
      ]
