-- ===== src/Engine/FreeSocks.antt =====
-- The loop of `process_free_socks`.
use nodescan.Prelude.{
  ℕ, zero, suc, ◌+◌, ◌≤◌, ◌<◌, ◌≡◌, refl, sym, subst, ◌∙◌, Bool, true, false, none, List, [], ◌∷◌,
  ret, arith, if◌then◌else◌, Bool-cases, inl, inr, ◌⊎◌,
}
use nodescan.Prelude.Maps
use nodescan.Prelude.Maps.{
  find_below, Ascends, length-insert, length-erase, insert-Ascends, assign-Ascends,
  find-insert_self,
}
use nodescan.Target.{PortApi, Target, is_end}
use nodescan.TargetSet.{Next, gives, blocks}
use nodescan.Engine.{Engine, Config, Opened, no_socket, opened}
use nodescan.Engine.Handlers.{launch_target, free_socks_loop, process_free_socks}
use nodescan.Engine.Accounts.{IsAccounted}
use nodescan.Engine.Accounts.{Serves}
use nodescan.Engine.Launch.{goes_on, Launched, launch}

-- Every `socket` gives a descriptor that none of the open sockets has. One whose `connect` fails is
-- closed before the next is opened.
abbrev pub Usable : {P : Type 0} → List Opened → List (ℕ × Target P) → Type 0
Usable {P} [] m = Unit {0}
Usable {P} (no_socket errno ∷ answers) m = ⊥
Usable {P} (opened s errno ∷ answers) m =
    (1 ≤ s)
    × (Maps.find s m ≡ none)
    × ((t : Target P)
        → Usable answers
            (if goes_on errno then Maps.insert s t m else Maps.erase s (Maps.insert s t m)))

-- How many of the answers let a socket go on.
abbrev pub launches : List Opened → ℕ
launches [] = 0
launches (no_socket errno ∷ answers) = launches answers
launches (opened s errno ∷ answers) =
    if goes_on errno then suc (launches answers) else launches answers

module _ {P S H F W : Type 0} ⦃api : PortApi P⦄ (c : Config P S H F W) where
  -- A property of the engine with which its books are right and that each opening of a socket keeps.
  pub record Opens (Good : S → Type 0) (now : ℕ) (Inv : Engine P S H F W → Type 0) : Type 0 where
    pub books : (e : Engine P S H F W) → Inv e → IsAccounted c e
    pub set : (e : Engine P S H F W) (x : S) → Inv e → Good x → Inv (record e { targets = x })
    pub opens :
        (s errno : ℕ) (t : Target P) (e : Engine P S H F W)
        → Inv e
        → 0 < e.avail_socks
        → 1 ≤ s
        → Maps.find s e.sockets_targets ≡ none
        → Good e.targets
        → (e' : Engine P S H F W) × Launched c Good s errno now t e e' × Inv e'

  -- The loop keeps such a property, as far as the answers of the system go.
  module _ (Good : S → Type 0) (serves : Serves c Good) (now : ℕ) where
    next_of :
        {x : S} (n : Next P × S)
        → c.target_set.next_target x ≡ ret n
        → Good n.1
        → ((x' : S) × (c.target_set.next_target x ≡ ret (blocks, x')) × Good x')
          ⊎ ((t : Target P) × (x' : S) × (c.target_set.next_target x ≡ ret (gives t, x')) × Good x')
    next_of (blocks, x') eq good = inl (x', eq, good)
    next_of (gives t, x') eq good = inr (t, x', eq, good)

    pub next_cases :
        (x : S)
        → Good x
        → ((x' : S) × (c.target_set.next_target x ≡ ret (blocks, x')) × Good x')
          ⊎ ((t : Target P) × (x' : S) × (c.target_set.next_target x ≡ ret (gives t, x')) × Good x')
    next_cases x good = let (n, eq, good') = serves.next x good in next_of n eq good'

    pub stops :
        (answers : List Opened) (i : ℕ) (e : Engine P S H F W) (t : Target P) (x' : S)
        → is_end t ≡ true
        → c.target_set.next_target e.targets ≡ ret (gives t, x')
        → free_socks_loop c answers (suc i) now e ≡ ret (false, record e { targets = x' })
    unfolding free_socks_loop
    stops [] i e t x' end eq = ground arith
    stops (answer ∷ answers) i e t x' end eq = ground arith

    pub goes :
        (answer : Opened) (answers : List Opened) (i : ℕ) (e e' : Engine P S H F W) (t : Target P)
        (x' : S) (go : Bool)
        → is_end t ≡ false
        → c.target_set.next_target e.targets ≡ ret (gives t, x')
        → launch_target c answer t now (record e { targets = x' }) ≡ ret (go, e')
        → free_socks_loop c (answer ∷ answers) (suc i) now e
          ≡ free_socks_loop c answers (if go then i else suc i) now e'
    unfolding free_socks_loop
    goes answer answers i e e' t x' go end eq does = ground (arith, Bool-cases go)

    pub before : (a i : ℕ) → suc i ≤ a → 0 < a
    before a i h = omega arith

    pub room :
        (go : Bool) (i a a' : ℕ)
        → suc i ≤ a
        → a' + (if go then 1 else 0) ≡ a
        → (if go then i else suc i) ≤ a'
    room true i a a' h eq = omega arith
    room false i a a' h eq = omega arith

    pub fewer :
        (go : Bool) (i n : ℕ) → suc i ≤ (if go then suc n else n) → (if go then i else suc i) ≤ n
    fewer true i n h = omega arith
    fewer false i n h = h

    pub free_socks_loop-Inv :
        (Inv : Engine P S H F W → Type 0) (keeps : Opens Good now Inv) (answers : List Opened)
        (i : ℕ) (e : Engine P S H F W)
        → Inv e
        → Good e.targets
        → Usable answers e.sockets_targets
        → i ≤ e.avail_socks
        → i ≤ launches answers
        → (r : Bool × Engine P S H F W) × (free_socks_loop c answers i now e ≡ ret r)
          × Inv r.1
          × Good r.1.targets
    unfolding free_socks_loop
    free_socks_loop-Inv Inv keeps answers zero e v good usable avail enough =
        ((true, e), refl, v, good)
    free_socks_loop-Inv Inv keeps [] (suc i) e v good usable avail enough = absurd (omega arith)
    free_socks_loop-Inv Inv keeps (no_socket errno ∷ answers) (suc i) e v good usable avail enough =
        absurd usable
    free_socks_loop-Inv Inv keeps (opened s errno ∷ answers) (suc i) e v good usable avail enough =
        elim (next_cases e.targets good) [
          | inl (x', eq, good') ↦
              ((true, record e { targets = x' }), ground (arith, eq), keeps.set e x' v good', good')
          | inr (t, x', eq, good') ↦ elim (Bool-cases (is_end t)) [
            | inl end ↦ (
              (false, record e { targets = x' }),
              stops (opened s errno ∷ answers) i e t x' end eq,
              keeps.set e x' v good',
              good',
            )
            | inr more ↦
                let (e', l, v') =
                  keeps.opens s errno t (record e { targets = x' }) (keeps.set e x' v good')
                    (before e.avail_socks i avail) usable.0 usable.1 good' in
                let (r, ran, acc, good'') =
                  free_socks_loop-Inv Inv keeps answers (if goes_on errno then i else suc i) e' v'
                    l.good (subst (Usable answers) (sym l.socks) (usable.2 t))
                    (room (goes_on errno) i e.avail_socks e'.avail_socks avail l.avail)
                    (fewer (goes_on errno) i (launches answers) enough) in
                (
                  r,
                  goes (opened s errno) answers i e e' t x' (goes_on errno) more eq l.returns ∙ ran,
                  acc,
                  good'',
                )
          ]
        ]

    set_targets-IsAccounted :
        (e : Engine P S H F W) (x' : S)
        → IsAccounted c e
        → IsAccounted c (record e { targets = x' })
    set_targets-IsAccounted e x' v = record {
      socks = v.socks;
      sms = v.sms;
      available = v.available;
      launched = v.launched;
      small = v.small;
    }

    accounting : Opens Good now (IsAccounted c)
    accounting = record {
      books = λ e v. v;
      set = λ e x v good. set_targets-IsAccounted e x v;
      opens = λ s errno t e v pos bound fresh good.
          let (e', l) = launch c Good serves s errno now t e v pos bound fresh good in
          (e', l, l.accounted);
    }

    -- From an engine with right books whose target set is in a state from which `next_target` returns, and answers of the
    -- system that each give a descriptor no open socket has, with enough of them that go on:
    -- `process_free_socks` returns, with right books. A socket whose `connect` fails is finished on the way.
    pub process_free_socks-IsAccounted :
        (answers : List Opened) (e : Engine P S H F W)
        → IsAccounted c e
        → Good e.targets
        → Usable answers e.sockets_targets
        → e.avail_socks ≤ launches answers
        → (r : Bool × Engine P S H F W) × (process_free_socks c answers now e ≡ ret r)
          × IsAccounted c r.1
    unfolding process_free_socks
    process_free_socks-IsAccounted answers e v good usable enough =
        let (r, ran, acc, _) =
          free_socks_loop-Inv (IsAccounted c) accounting answers e.avail_socks e v good usable
            (omega arith) enough in
        (r, ran, acc)
