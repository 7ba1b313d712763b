-- ===== src/Prelude/Raise.antt =====
-- A computation that returns or raises.
use mathlib.Core.Path.{◌≡◌, refl}
use mathlib.Core.Logic.{◌⊎◌, inl, inr}
use mathlib.Core.Bool.{Bool, true, false}
use mathlib.Core.Option.{Option, none, some}

pub data Outcome {ℓ κ} (E : Type κ) (A : Type ℓ) : Type (ℓ ⊔ κ) where
  ok : A → Outcome E A
  err : E → Outcome E A

infixl 5 ◌>>=◌ ◌>>◌
abbrev pub ◌>>=◌ {ℓ κ μ} :
    {E : Type μ} {A : Type ℓ} {B : Type κ} → Outcome E A → (A → Outcome E B) → Outcome E B
ok a >>= f = f a
err x >>= f = err x

abbrev pub ◌>>◌ {ℓ μ} : {E : Type μ} {B : Type ℓ} → Outcome E (Unit {0}) → Outcome E B → Outcome E B
m >> k = m >>= λ _. k

-- `if test: raise x`
abbrev pub raise_if {μ} : {E : Type μ} → Bool → E → Outcome E (Unit {0})
raise_if true x = err x
raise_if false x = ok tt

-- A missing key raises.
abbrev pub or_raise {ℓ μ} : {E : Type μ} {A : Type ℓ} → Option A → E → Outcome E A
or_raise none x = err x
or_raise (some a) x = ok a

pub >>=-eq-ok {ℓ κ μ} :
    {E : Type μ} {A : Type ℓ} {B : Type κ} (tried : Outcome E A) (after : A → Outcome E B) {out : B}
    → (tried >>= after) ≡ ok out
    → (got : A) × (tried ≡ ok got) × (after got ≡ ok out)
>>=-eq-ok (ok got) after q = (got, refl, q)
>>=-eq-ok (err x) after q = cc

pub raise_if-eq-ok {μ} :
    {E : Type μ} (b : Bool) (x : E) {u : Unit {0}} → raise_if b x ≡ ok u → b ≡ false
raise_if-eq-ok true x h = cc
raise_if-eq-ok false x h = refl

pub Outcome-cases {ℓ κ} :
    {E : Type κ} {A : Type ℓ} (m : Outcome E A) → ((a : A) × (m ≡ ok a)) ⊎ ((x : E) × (m ≡ err x))
Outcome-cases (ok a) = inl (a, refl)
Outcome-cases (err x) = inr (x, refl)

pub ok-injective {ℓ κ} :
    {E : Type κ} {A : Type ℓ} {a b : A} → ◌≡◌ {A = Outcome E A} (ok a) (ok b) → a ≡ b
ok-injective h = cc
