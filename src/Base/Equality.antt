-- ===== src/Base/Equality.antt =====
-- `==` of the source, one operator for every type that has an instance. A text is the list of its
-- code points.
use Prim.Native.Nat.{ℕ}
use Prim.Native.Char.{code}
use Prim.Native.String.{String}
use mathlib.Core.Path.{◌≡◌, refl}
use mathlib.Core.Logic.{◌↔◌}
use mathlib.Core.Bool.{Bool, true, false, ◌&&◌}
use mathlib.Core.Option.{Option, none, some}
use mathlib.Core.List.{List, [], ◌∷◌}
use native.Mathlib.Omega.{arith}
use stack_warden.Base.Tests.{nat_beq, nat_beq_iff}

-- A decided equality: the test, and the proof that it answers for the paths.
pub record Eq {κ} (K : Type κ) : Type κ where
  pub beq : (x y : K) → Bool
  pub beq_iff : (x y : K) → (beq x y ≡ true) ↔ (x ≡ y)

module _ {κ} {K : Type κ} ⦃same : Eq K⦄ where
  infix 50 ◌==◌
  abbrev pub ◌==◌ : (x y : K) → Bool
  x == y = same.beq x y

  pub ==_refl : (x : K) → (x == x) ≡ true
  ==_refl x = (same.beq_iff x x).1 refl

  pub eq_of_== : (x y : K) → (x == y) ≡ true → x ≡ y
  eq_of_== x y = (same.beq_iff x y).0

instance abbrev pub nat_eq : Eq ℕ
nat_eq = record { beq_iff = nat_beq_iff; beq = nat_beq }

abbrev pub Text : Type 0
Text = List ℕ

-- the code points of a literal
abbrev pub codes : String → Text
codes String.[] = []
codes (String.◌∷◌ c s) = code c ∷ codes s

unfoldable pub text_beq : Text → Text → Bool
text_beq [] [] = true
text_beq (x ∷ xs) (y ∷ ys) = nat_beq x y && text_beq xs ys
text_beq _ _ = false

pub text_beq_iff : (a b : Text) → (text_beq a b ≡ true) ↔ (a ≡ b)
unfolding text_beq
text_beq_iff [] [] = ground arith
text_beq_iff [] (y ∷ ys) = ground arith
text_beq_iff (x ∷ xs) [] = ground arith
text_beq_iff (x ∷ xs) (y ∷ ys) = ground (arith, text_beq_iff xs ys)

instance abbrev pub text_eq : Eq Text
text_eq = record { beq = text_beq; beq_iff = text_beq_iff }

abbrev pub pair_beq {ℓ κ} : {A : Type ℓ} {B : Type κ} ⦃e : Eq A⦄ ⦃f : Eq B⦄ → A × B → A × B → Bool
pair_beq (a, b) (c, d) = a == c && b == d

pub pair_beq_iff {ℓ κ} :
    {A : Type ℓ} {B : Type κ} ⦃e : Eq A⦄ ⦃f : Eq B⦄ (p q : A × B) → (pair_beq p q ≡ true) ↔ (p ≡ q)
pair_beq_iff ⦃e⦄ ⦃f⦄ (a, b) (c, d) = ground (arith, e.beq_iff a c, f.beq_iff b d)

instance abbrev pub pair_eq {ℓ κ} : {A : Type ℓ} {B : Type κ} ⦃e : Eq A⦄ ⦃f : Eq B⦄ → Eq (A × B)
pair_eq = record { beq = pair_beq; beq_iff = pair_beq_iff }

abbrev pub option_beq {ℓ} : {A : Type ℓ} ⦃e : Eq A⦄ → Option A → Option A → Bool
option_beq none none = true
option_beq (some a) (some b) = a == b
option_beq _ _ = false

pub option_beq_iff {ℓ} :
    {A : Type ℓ} ⦃e : Eq A⦄ (p q : Option A) → (option_beq p q ≡ true) ↔ (p ≡ q)
option_beq_iff ⦃e⦄ none none = ground arith
option_beq_iff ⦃e⦄ none (some b) = ground arith
option_beq_iff ⦃e⦄ (some a) none = ground arith
option_beq_iff ⦃e⦄ (some a) (some b) = ground (arith, e.beq_iff a b)

instance abbrev pub option_eq {ℓ} : {A : Type ℓ} ⦃e : Eq A⦄ → Eq (Option A)
option_eq = record { beq = option_beq; beq_iff = option_beq_iff }
