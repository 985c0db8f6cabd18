-- ===== src/Base/Results.antt =====
-- A call that may raise: the value, or the exception. One type of exceptions for each component.
use mathlib.Core.Bool.{Bool, true, false}
use mathlib.Core.Path.{◌≡◌, refl}
use mathlib.Core.Logic.{◌⊎◌, inl, inr}

pub data Outcome {ℓ κ} (E : Type κ) (A : Type ℓ) : Type (ℓ ⊔ κ) where
  ok : A → Outcome E A
  raised : E → Outcome E A

infixl 5 ◌>>=◌ ◌>>◌
abbrev pub ◌>>=◌ {ℓ κ μ} :
    {E : Type κ} {A : Type ℓ} {B : Type μ} → Outcome E A → (A → Outcome E B) → Outcome E B
ok a >>= f = f a
raised e >>= f = raised e

abbrev pub ◌>>◌ {ℓ κ μ} :
    {E : Type κ} {A : Type ℓ} {B : Type μ} → Outcome E A → Outcome E B → Outcome E B
m >> k = m >>= λ _. k

-- `if b: raise e`
abbrev pub raise_if {κ} : {E : Type κ} → Bool → E → Outcome E (Unit {0})
raise_if true e = raised e
raise_if false e = ok tt

pub Outcome-cases {ℓ κ} :
    {E : Type κ} {A : Type ℓ} (r : Outcome E A)
    → ((a : A) × (r ≡ ok a)) ⊎ ((e : E) × (r ≡ raised e))
Outcome-cases (ok a) = inl (a, refl)
Outcome-cases (raised e) = inr (e, refl)

-- The call did not return.
abbrev pub raises {ℓ κ} : {E : Type κ} {A : Type ℓ} → Outcome E A → Bool
raises (ok _) = false
raises (raised _) = true

-- A chain returns only if each of its calls does.
pub bind-ok {ℓ κ μ} :
    {E : Type κ} {A : Type ℓ} {B : Type μ} (m : Outcome E A) (k : A → Outcome E B) (b : B)
    → (m >>= k) ≡ ok b
    → (a : A) × (m ≡ ok a) × (k a ≡ ok b)
bind-ok (ok a) k b h = (a, refl, h)
bind-ok (raised e) k b h = absurd (cc)
