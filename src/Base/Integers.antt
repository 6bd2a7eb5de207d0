-- ===== src/Base/Integers.antt =====
-- Python's `int`, over the native numbers.
use Prim.Native.Nat.{ℕ, zero, suc, ◌+◌, ◌-◌}
use mathlib.Core.Path.{◌≡◌}
use mathlib.Core.Logic.{◌↔◌}
use mathlib.Core.Bool.{Bool, true, false}
use native.Mathlib.Omega.{arith}
use stack_warden.Base.Tests.{ltb, nat_beq, if◌then◌else◌}
use stack_warden.Base.Equality.{Eq}
use stack_warden.Base.Order.{Ord}

-- `pos n` is `n`, `negsuc n` is `-(n + 1)`
pub data ℤ : Type 0 where
  pos : ℕ → ℤ
  negsuc : ℕ → ℤ

abbrev pub int_beq : ℤ → ℤ → Bool
int_beq (pos a) (pos b) = nat_beq a b
int_beq (negsuc a) (negsuc b) = nat_beq a b
int_beq _ _ = false

pub int_beq_iff : (a b : ℤ) → (int_beq a b ≡ true) ↔ (a ≡ b)
int_beq_iff (pos a) (pos b) = ground arith
int_beq_iff (pos a) (negsuc b) = ground arith
int_beq_iff (negsuc a) (pos b) = ground arith
int_beq_iff (negsuc a) (negsuc b) = ground arith

instance abbrev pub int_eq : Eq ℤ
int_eq = record { beq = int_beq; beq_iff = int_beq_iff }

-- `a < b`
abbrev pub int_lt : ℤ → ℤ → Bool
int_lt (pos a) (pos b) = ltb a b
int_lt (pos a) (negsuc b) = false
int_lt (negsuc a) (pos b) = true
int_lt (negsuc a) (negsuc b) = ltb b a

pub int_lt_irrefl : (a : ℤ) → int_lt a a ≡ false
int_lt_irrefl (pos a) = ground arith
int_lt_irrefl (negsuc a) = ground arith

pub int_lt_trans : (a b c : ℤ) → int_lt a b ≡ true → int_lt b c ≡ true → int_lt a c ≡ true
int_lt_trans a b c p q = ground arith

pub int_lt_connex : (a b : ℤ) → int_lt a b ≡ false → int_lt b a ≡ false → a ≡ b
int_lt_connex a b p q = ground arith

instance abbrev pub int_ord : Ord ℤ
int_ord = record {
  lt = int_lt;
  irrefl = int_lt_irrefl;
  trans = int_lt_trans;
  connex = int_lt_connex;
}

infixl 60 ◌+ℤ◌
-- `a + b`
unfoldable pub ◌+ℤ◌ : ℤ → ℤ → ℤ
pos a +ℤ pos b = pos (a + b)
pos a +ℤ negsuc b = if ltb b a then pos (a - suc b) else negsuc (b - a)
negsuc a +ℤ pos b = if ltb a b then pos (b - suc a) else negsuc (a - b)
negsuc a +ℤ negsuc b = negsuc (suc (a + b))

-- `-a`
unfoldable pub neg_ℤ : ℤ → ℤ
neg_ℤ (pos zero) = pos 0
neg_ℤ (pos (suc a)) = negsuc a
neg_ℤ (negsuc a) = pos (suc a)

-- negation turns the order round
pub int_lt-neg_ℤ : (a b : ℤ) → int_lt (neg_ℤ a) (neg_ℤ b) ≡ int_lt b a
unfolding neg_ℤ
int_lt-neg_ℤ (pos zero) (pos zero) = ground arith
int_lt-neg_ℤ (pos zero) (pos (suc b)) = ground arith
int_lt-neg_ℤ (pos zero) (negsuc b) = ground arith
int_lt-neg_ℤ (pos (suc a)) (pos zero) = ground arith
int_lt-neg_ℤ (pos (suc a)) (pos (suc b)) = ground arith
int_lt-neg_ℤ (pos (suc a)) (negsuc b) = ground arith
int_lt-neg_ℤ (negsuc a) (pos zero) = ground arith
int_lt-neg_ℤ (negsuc a) (pos (suc b)) = ground arith
int_lt-neg_ℤ (negsuc a) (negsuc b) = ground arith

pub neg_ℤ_injective : (a b : ℤ) → neg_ℤ a ≡ neg_ℤ b → a ≡ b
unfolding neg_ℤ
neg_ℤ_injective (pos zero) (pos zero) h = ground arith
neg_ℤ_injective (pos zero) (pos (suc b)) h = ground arith
neg_ℤ_injective (pos zero) (negsuc b) h = ground arith
neg_ℤ_injective (pos (suc a)) (pos zero) h = ground arith
neg_ℤ_injective (pos (suc a)) (pos (suc b)) h = ground arith
neg_ℤ_injective (pos (suc a)) (negsuc b) h = ground arith
neg_ℤ_injective (negsuc a) (pos zero) h = ground arith
neg_ℤ_injective (negsuc a) (pos (suc b)) h = ground arith
neg_ℤ_injective (negsuc a) (negsuc b) h = ground arith
