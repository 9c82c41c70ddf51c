-- ===== src/Prelude/Outcome.antt =====
-- The result of code that reads memory and may reject its input.
use mathlib.Core.Path.{ap, ◌≡◌, refl}
use mathlib.Core.Bool.{Bool, true, false}

-- `fault` is a read outside of a buffer, which C leaves undefined, or a loop that has used up the
-- fuel of its model; `reject` is `return 0`, and `accept a` is `return 1` with `a` stored.
pub data Parse {ℓ} (A : Type ℓ) : Type ℓ where
  fault reject : Parse A
  accept : A → Parse A

infixl 5 ◌>>=◌ ◌>>◌
abbrev pub ◌>>=◌ {ℓ κ} : {A : Type ℓ} {B : Type κ} → Parse A → (A → Parse B) → Parse B
fault >>= f = fault
reject >>= f = reject
accept a >>= f = f a

abbrev pub ◌>>◌ {ℓ} : {B : Type ℓ} → Parse (Unit {0}) → Parse B → Parse B
m >> k = m >>= λ _. k

-- `if (!b) return 0;`
abbrev pub guard : Bool → Parse (Unit {0})
guard true = accept tt
guard false = reject

-- Inversion of a chain that accepts.
pub >>=-eq-accept {ℓ κ} :
    {A : Type ℓ} {B : Type κ} (m : Parse A) (f : A → Parse B) {b : B}
    → (m >>= f) ≡ accept b
    → (a : A) × (m ≡ accept a) × (f a ≡ accept b)
>>=-eq-accept (accept a) f h = (a, refl, h)
>>=-eq-accept fault f h = cc
>>=-eq-accept reject f h = cc

-- Two chains agree if they agree at what the first step accepts.
pub >>=-congr {ℓ κ} :
    {A : Type ℓ} {B : Type κ} (m : Parse A) (f g : A → Parse B)
    → ((a : A) → m ≡ accept a → f a ≡ g a)
    → (m >>= f) ≡ (m >>= g)
>>=-congr (accept a) f g h = h a refl
>>=-congr fault f g h = refl
>>=-congr reject f g h = refl

pub >>=-ne-fault {ℓ κ} :
    {A : Type ℓ} {B : Type κ} (m : Parse A) (f : A → Parse B)
    → ¬ (m ≡ fault)
    → ((a : A) → m ≡ accept a → ¬ (f a ≡ fault))
    → ¬ ((m >>= f) ≡ fault)
>>=-ne-fault (accept a) f h k = k a refl
>>=-ne-fault fault f h k = λ _. absurd (h refl)
>>=-ne-fault reject f h k = λ e. cc

pub guard-ne-fault : (b : Bool) → ¬ (guard b ≡ fault)
guard-ne-fault true e = cc
guard-ne-fault false e = cc

pub guard-eq-accept : (b : Bool) {u : Unit {0}} → guard b ≡ accept u → b ≡ true
guard-eq-accept true h = refl
guard-eq-accept false h = cc

pub accept-inj {ℓ} : {A : Type ℓ} {a b : A} → accept a ≡ accept b → a ≡ b
accept-inj {a} e = ap (λ (p : Parse _). elim p [ fault ↦ a | reject ↦ a | accept x ↦ x ]) e

pub >>=-assoc {ℓ κ ι} :
    {A : Type ℓ} {B : Type κ} {C : Type ι} (m : Parse A) (f : A → Parse B) (g : B → Parse C)
    → ((m >>= f) >>= g) ≡ (m >>= λ a. f a >>= g)
>>=-assoc (accept a) f g = refl
>>=-assoc fault f g = refl
>>=-assoc reject f g = refl

pub accept-ne-fault {ℓ} : {A : Type ℓ} (a : A) → ¬ (accept a ≡ fault)
accept-ne-fault a e = cc

pub guard_then-ne-fault {ℓ} :
    {A : Type ℓ} (b : Bool) (m : Parse A) → (b ≡ true → ¬ (m ≡ fault)) → ¬ ((guard b >> m) ≡ fault)
guard_then-ne-fault true m h = h refl
guard_then-ne-fault false m h = λ e. cc

-- Inversion of a test.
pub guard_then-eq-accept {ℓ} :
    {A : Type ℓ} (b : Bool) (m : Parse A) {a : A}
    → (guard b >> m) ≡ accept a
    → (b ≡ true) × (m ≡ accept a)
guard_then-eq-accept true m h = (refl, h)
guard_then-eq-accept false m h = cc
