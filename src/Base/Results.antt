-- ===== src/Base/Results.antt =====
-- A value, or the exception that was raised.
use mathlib.Core.Path.{◌≡◌, refl}
use mathlib.Core.Logic.{◌⊎◌, inl, inr}
use mathlib.Core.Bool.{Bool, true, false}

pub data Result {ℓ κ} (E : Type ℓ) (A : Type κ) : Type (ℓ ⊔ κ) where
  ok : A → Result E A
  err : E → Result E A

module _ {ℓ κ μ} {Raised : Type ℓ} {A : Type κ} {B : Type μ} where
  infixl 5 ◌>>=◌
  abbrev pub ◌>>=◌ : (m : Result Raised A) (next : A → Result Raised B) → Result Raised B
  err raised >>= _ = err raised
  ok value >>= next = next value

  -- A block that succeeds has run its first step and the rest.
  pub >>=-eq-ok :
      (m : Result Raised A) (next : A → Result Raised B) {result : B}
      → (m >>= next) ≡ ok result
      → (value : A) × (m ≡ ok value) × (next value ≡ ok result)
  >>=-eq-ok (err raised) next run = absurd (cc)
  >>=-eq-ok (ok value) next run = (value, refl, run)

module _ {ℓ κ} {Raised : Type ℓ} where
  infixl 5 ◌>>◌
  abbrev pub ◌>>◌ :
      {B : Type κ} (m : Result Raised (Unit {0})) (next : Result Raised B) → Result Raised B
  m >> next = m >>= λ _. next

  abbrev pub is_ok : {A : Type κ} → Result Raised A → Bool
  is_ok (err _) = false
  is_ok (ok _) = true

-- To split on a computed result and keep the equation.
pub Result-cases {ℓ κ} :
    {E : Type ℓ} {A : Type κ} (r : Result E A) → ((a : A) × (r ≡ ok a)) ⊎ ((e : E) × (r ≡ err e))
Result-cases (ok a) = inl (a, refl)
Result-cases (err e) = inr (e, refl)

pub ok_injective {ℓ κ} :
    {E : Type ℓ} {A : Type κ} {a b : A} → ◌≡◌ {A = Result E A} (ok a) (ok b) → a ≡ b
ok_injective h = cc
