-- ===== src/Base/Lists.antt =====
-- Lists: lengths by native numbers, membership as a test, predicates by recursion.
use Prim.Native.Nat.{ℕ, zero, suc}
use mathlib.Core.Path.{◌≡◌, refl}
use mathlib.Core.Bool.{Bool, true, false, ◌||◌}
use mathlib.Core.Option.{Option, none, some}
use mathlib.Core.List.{List, [], ◌∷◌, ◌++◌}
use native.Mathlib.Omega.{arith}
use stack_warden.Base.Tests.{if◌then◌else◌}
use stack_warden.Base.Equality.{Eq, ◌==◌}

module _ {ℓ} {A : Type ℓ} where
  abbrev pub length : List A → ℕ
  length [] = 0
  length (x ∷ xs) = suc (length xs)

  -- `any(p(x) for x in xs)`
  unfoldable pub any : (A → Bool) → List A → Bool
  any p [] = false
  any p (x ∷ xs) = p x || any p xs

  -- `[x for x in xs if p(x)]`
  unfoldable pub filter : (A → Bool) → List A → List A
  filter p [] = []
  filter p (x ∷ xs) = if p x then x ∷ filter p xs else filter p xs

  abbrev pub All {κ} : (A → Type κ) → List A → Type κ
  All P [] = Unit
  All P (x ∷ xs) = P x × All P xs

  pub any-append : (p : A → Bool) (xs ys : List A) → any p (xs ++ ys) ≡ (any p xs || any p ys)
  unfolding any
  any-append p [] ys = refl
  any-append p (x ∷ xs) ys = ground (arith, any-append p xs ys)

-- `s[:i]`
unfoldable pub take {ℓ} : {A : Type ℓ} → ℕ → List A → List A
take zero xs = []
take (suc i) [] = []
take (suc i) (x ∷ xs) = x ∷ take i xs

module _ {ℓ} {A : Type ℓ} ⦃e : Eq A⦄ where
  -- `a in xs`
  unfoldable pub mem : A → List A → Bool
  mem a [] = false
  mem a (x ∷ xs) = x == a || mem a xs

  -- `xs` has no element twice
  abbrev pub Distinct : List A → Type 0
  Distinct [] = Unit
  Distinct (x ∷ xs) = (mem x xs ≡ false) × Distinct xs

  pub mem-append : (a : A) (xs ys : List A) → mem a (xs ++ ys) ≡ (mem a xs || mem a ys)
  unfolding mem
  mem-append a [] ys = refl
  mem-append a (x ∷ xs) ys = ground (arith, mem-append a xs ys)

  pub All-mem_of_subset :
      (ks ls : List A)
      → ((k : A) → mem k ks ≡ true → mem k ls ≡ true)
      → All (λ k. mem k ls ≡ true) ks
  unfolding mem
  All-mem_of_subset [] ls h = tt
  All-mem_of_subset (k ∷ ks) ls h =
      (h k (ground (arith, e.beq_iff k k)), All-mem_of_subset ks ls (λ j m. h j (ground arith)))

-- `next((x for x in xs if p(x)), None)`
unfoldable pub find {ℓ} : {A : Type ℓ} → (A → Bool) → List A → Option A
find p [] = none
find p (x ∷ xs) = let later = find p xs in if p x then some x else later
