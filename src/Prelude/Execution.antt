-- ===== src/Prelude/Execution.antt =====
-- Executions of C++ code: a result, a fault (an assertion that fails, or an access out of bounds),
-- or more rounds of a loop than the fuel allows.
use mathlib.Core.Path.{◌≡◌, refl, sym, subst}
use mathlib.Core.Option.{Option, none, some}
use mathlib.Core.Bool.{Bool, true, false}
use nodescan.Prelude.Tests.{if◌then◌else◌}

pub data Exec {ℓ} (A : Type ℓ) : Type ℓ where
  ret : A → Exec A
  fault : Exec A
  out_of_fuel : Exec A

infixl 5 ◌>>=◌
abbrev pub ◌>>=◌ {ℓ κ} : {A : Type ℓ} {B : Type κ} → Exec A → (A → Exec B) → Exec B
ret a >>= f = f a
fault >>= f = fault
out_of_fuel >>= f = out_of_fuel

-- A pointer or an iterator that is not there faults when it is followed.
abbrev pub deref {ℓ} : {A : Type ℓ} → Option A → Exec A
deref (some a) = ret a
deref none = fault

-- Inversion of a bind that returns.
pub >>=-eq-ret {ℓ κ} :
    {A : Type ℓ} {B : Type κ} (m : Exec A) (f : A → Exec B) {b : B}
    → (m >>= f) ≡ ret b
    → (a : A) × (m ≡ ret a) × (f a ≡ ret b)
>>=-eq-ret (ret a) f h = (a, refl, h)
>>=-eq-ret fault f h = cc
>>=-eq-ret out_of_fuel f h = cc

-- What an execution that returns satisfies, where no execution faults. A run that ends for want of
-- fuel, or of answers of the system, satisfies it.
abbrev pub Safe {ℓ} : {A : Type ℓ} → (A → Type 0) → Exec A → Type 0
Safe P (ret a) = P a
Safe P fault = ⊥
Safe P out_of_fuel = Unit {0}

pub Safe->>= {ℓ κ} :
    {A : Type ℓ} {B : Type κ} (P : A → Type 0) (Q : B → Type 0) (m : Exec A) (f : A → Exec B)
    → Safe P m
    → ((a : A) → m ≡ ret a → P a → Safe Q (f a))
    → Safe Q (m >>= f)
Safe->>= P Q (ret a) f p next = next a refl p
Safe->>= P Q fault f p next = absurd p
Safe->>= P Q out_of_fuel f p next = tt

pub Safe-mono {ℓ} :
    {A : Type ℓ} (P Q : A → Type 0) (m : Exec A)
    → Safe P m
    → ((a : A) → m ≡ ret a → P a → Q a)
    → Safe Q m
Safe-mono P Q (ret a) p weaken = weaken a refl p
Safe-mono P Q fault p weaken = absurd p
Safe-mono P Q out_of_fuel p weaken = tt

-- A run that is known to return.
pub Safe-ret {ℓ} : {A : Type ℓ} (P : A → Type 0) (m : Exec A) {a : A} → m ≡ ret a → P a → Safe P m
Safe-ret P m {a} e p = subst (Safe P) (sym e) p

pub of-Safe {ℓ} : {A : Type ℓ} (P : A → Type 0) (m : Exec A) {a : A} → Safe P m → m ≡ ret a → P a
of-Safe P m p e = subst (Safe P) e p

-- What holds of the result that an execution is known to have holds of every result it has.
pub of_run {ℓ} :
    {A : Type ℓ} (P : A → Type 0) (m : Exec A) {a : A} → m ≡ ret a → P a → (b : A) → m ≡ ret b → P b
of_run P m e p b same = of-Safe P m (Safe-ret P m e p) same

pub ret_injective {ℓ} : {A : Type ℓ} {a b : A} → ret a ≡ ret b → a ≡ b
ret_injective same = cc

-- What an execution that returns satisfies, if it does.
abbrev pub OnRet {ℓ} : {A : Type ℓ} → (A → Type 0) → Exec A → Type 0
OnRet P (ret a) = P a
OnRet P fault = Unit {0}
OnRet P out_of_fuel = Unit {0}

pub OnRet-any {ℓ} : {A : Type ℓ} (m : Exec A) → OnRet (λ a. Unit {0}) m
OnRet-any (ret a) = tt
OnRet-any fault = tt
OnRet-any out_of_fuel = tt

pub OnRet->>= {ℓ κ} :
    {A : Type ℓ} {B : Type κ} (P : A → Type 0) (Q : B → Type 0) (m : Exec A) (f : A → Exec B)
    → OnRet P m
    → ((a : A) → m ≡ ret a → P a → OnRet Q (f a))
    → OnRet Q (m >>= f)
OnRet->>= P Q (ret a) f p next = next a refl p
OnRet->>= P Q fault f p next = tt
OnRet->>= P Q out_of_fuel f p next = tt

pub OnRet-mono {ℓ} :
    {A : Type ℓ} (P Q : A → Type 0) (m : Exec A)
    → OnRet P m
    → ((a : A) → m ≡ ret a → P a → Q a)
    → OnRet Q m
OnRet-mono P Q (ret a) p weaken = weaken a refl p
OnRet-mono P Q fault p weaken = tt
OnRet-mono P Q out_of_fuel p weaken = tt

pub OnRet-deref {ℓ κ} :
    {A : Type ℓ} {B : Type κ} (Q : B → Type 0) (o : Option A) (f : A → Exec B)
    → ((a : A) → o ≡ some a → OnRet Q (f a))
    → OnRet Q (deref o >>= f)
OnRet-deref Q none f h = tt
OnRet-deref Q (some a) f h = h a refl

pub OnRet-if {ℓ} :
    {A : Type ℓ} (Q : A → Type 0) (b : Bool) (x y : Exec A)
    → OnRet Q x
    → OnRet Q y
    → OnRet Q (if b then x else y)
OnRet-if Q true x y h g = h
OnRet-if Q false x y h g = g

pub of-OnRet {ℓ} : {A : Type ℓ} (P : A → Type 0) (m : Exec A) {a : A} → OnRet P m → m ≡ ret a → P a
of-OnRet P m p e = subst (OnRet P) e p

-- What an execution that returns satisfies, where no execution lacks fuel. One that faults satisfies
-- it.
abbrev pub Halts {ℓ} : {A : Type ℓ} → (A → Type 0) → Exec A → Type 0
Halts P (ret a) = P a
Halts P fault = Unit {0}
Halts P out_of_fuel = ⊥

pub Halts->>= {ℓ κ} :
    {A : Type ℓ} {B : Type κ} (P : A → Type 0) (Q : B → Type 0) (m : Exec A) (f : A → Exec B)
    → Halts P m
    → ((a : A) → m ≡ ret a → P a → Halts Q (f a))
    → Halts Q (m >>= f)
Halts->>= P Q (ret a) f p next = next a refl p
Halts->>= P Q fault f p next = tt
Halts->>= P Q out_of_fuel f p next = absurd p

pub Halts-mono {ℓ} :
    {A : Type ℓ} (P Q : A → Type 0) (m : Exec A)
    → Halts P m
    → ((a : A) → m ≡ ret a → P a → Q a)
    → Halts Q m
Halts-mono P Q (ret a) p weaken = weaken a refl p
Halts-mono P Q fault p weaken = tt
Halts-mono P Q out_of_fuel p weaken = absurd p

-- Any execution that halts.
abbrev pub Stops {ℓ} : {A : Type ℓ} → Exec A → Type 0
Stops = Halts (λ a. Unit {0})

pub Halts-deref {ℓ κ} :
    {A : Type ℓ} {B : Type κ} (Q : B → Type 0) (o : Option A) (f : A → Exec B)
    → ((a : A) → Halts Q (f a))
    → Halts Q (deref o >>= f)
Halts-deref Q none f h = tt
Halts-deref Q (some a) f h = h a

pub Halts-if {ℓ} :
    {A : Type ℓ} (Q : A → Type 0) (b : Bool) (x y : Exec A)
    → Halts Q x
    → Halts Q y
    → Halts Q (if b then x else y)
Halts-if Q true x y h g = h
Halts-if Q false x y h g = g

-- The same for a branch that waits for its test.
pub Halts-elim {ℓ} :
    {A : Type ℓ} (Q : A → Type 0) (b : Bool) (x y : Exec A)
    → Halts Q x
    → Halts Q y
    → Halts Q (elim b [ true ↦ x | false ↦ y ])
Halts-elim Q true x y h g = h
Halts-elim Q false x y h g = g
