-- ===== src/Base/Order.antt =====
-- `<` of the source on the types that it sorts.
use Prim.Native.Nat.{ℕ}
use mathlib.Core.Path.{◌≡◌, refl}
use mathlib.Core.Bool.{Bool, true, false}
use mathlib.Core.List.{[], ◌∷◌}
use native.Mathlib.Omega.{arith}
use stack_warden.Base.Tests.{ltb, if◌then◌else◌}
use stack_warden.Base.Equality.{Eq, ◌==◌, nat_eq, Text, text_eq, pair_eq}

-- A strict order in which any two different values are ordered.
pub record Ord {ℓ} (A : Type ℓ) : Type ℓ where
  pub lt : A → A → Bool
  pub irrefl : (a : A) → lt a a ≡ false
  pub trans : (a b c : A) → lt a b ≡ true → lt b c ≡ true → lt a c ≡ true
  pub connex : (a b : A) → lt a b ≡ false → lt b a ≡ false → a ≡ b

infix 50 ◌≺◌
abbrev pub ◌≺◌ {ℓ} : {A : Type ℓ} ⦃o : Ord A⦄ → A → A → Bool
◌≺◌ ⦃o⦄ = o.lt

pub ltb_irrefl : (a : ℕ) → ltb a a ≡ false
ltb_irrefl a = ground arith

pub ltb_trans : (a b c : ℕ) → ltb a b ≡ true → ltb b c ≡ true → ltb a c ≡ true
ltb_trans a b c p q = ground arith

pub ltb_connex : (a b : ℕ) → ltb a b ≡ false → ltb b a ≡ false → a ≡ b
ltb_connex a b p q = ground arith

instance abbrev pub nat_ord : Ord ℕ
nat_ord = record { lt = ltb; irrefl = ltb_irrefl; trans = ltb_trans; connex = ltb_connex }

-- Python compares texts by their code points.
unfoldable pub text_lt : Text → Text → Bool
text_lt [] [] = false
text_lt [] (y ∷ ys) = true
text_lt (x ∷ xs) [] = false
text_lt (x ∷ xs) (y ∷ ys) = if ltb x y then true else if x == y then text_lt xs ys else false

pub text_lt_irrefl : (a : Text) → text_lt a a ≡ false
unfolding text_lt
text_lt_irrefl [] = refl
text_lt_irrefl (x ∷ xs) = ground (arith, text_lt_irrefl xs)

pub text_lt_trans : (a b c : Text) → text_lt a b ≡ true → text_lt b c ≡ true → text_lt a c ≡ true
unfolding text_lt
text_lt_trans [] [] c p q = q
text_lt_trans [] (y ∷ ys) [] p q = q
text_lt_trans [] (y ∷ ys) (z ∷ zs) p q = refl
text_lt_trans (x ∷ xs) [] c p q = ground arith
text_lt_trans (x ∷ xs) (y ∷ ys) [] p q = ground arith
text_lt_trans (x ∷ xs) (y ∷ ys) (z ∷ zs) p q = ground (arith, text_lt_trans xs ys zs)

pub text_lt_connex : (a b : Text) → text_lt a b ≡ false → text_lt b a ≡ false → a ≡ b
unfolding text_lt
text_lt_connex [] [] p q = refl
text_lt_connex [] (y ∷ ys) p q = ground arith
text_lt_connex (x ∷ xs) [] p q = ground arith
text_lt_connex (x ∷ xs) (y ∷ ys) p q = ground (arith, text_lt_connex xs ys)

instance abbrev pub text_ord : Ord Text
text_ord = record {
  lt = text_lt;
  irrefl = text_lt_irrefl;
  trans = text_lt_trans;
  connex = text_lt_connex;
}

-- Tuples are compared component by component.
module _ {ℓ κ} {A : Type ℓ} {B : Type κ} ⦃e : Eq A⦄ ⦃o : Ord A⦄ ⦃p : Ord B⦄ where
  abbrev pub pair_lt : A × B → A × B → Bool
  pair_lt (a, b) (c, d) = if a ≺ c then true else if a == c then b ≺ d else false

  pub pair_lt_irrefl : (x : A × B) → pair_lt x x ≡ false
  pair_lt_irrefl (a, b) = ground (arith, o.irrefl a, p.irrefl b)

  pub pair_lt_trans : (x y z : A × B) → pair_lt x y ≡ true → pair_lt y z ≡ true → pair_lt x z ≡ true
  pair_lt_trans (a, b) (c, d) (f, g) h k =
      ground (arith, o.trans a c f, p.trans b d g, e.beq_iff a c, e.beq_iff c f, e.beq_iff a f)

  pub pair_lt_connex : (x y : A × B) → pair_lt x y ≡ false → pair_lt y x ≡ false → x ≡ y
  pair_lt_connex (a, b) (c, d) h k =
      ground (arith, o.connex a c, p.connex b d, e.beq_iff a c, e.beq_iff c a)

instance abbrev pub pair_ord {ℓ κ} :
    {A : Type ℓ} {B : Type κ} ⦃e : Eq A⦄ ⦃o : Ord A⦄ ⦃p : Ord B⦄ → Ord (A × B)
pair_ord = record {
  lt = pair_lt;
  irrefl = pair_lt_irrefl;
  trans = pair_lt_trans;
  connex = pair_lt_connex;
}
