-- ===== src/Base/Sort.antt =====
-- `sorted(xs)` of the source: stable, ascending.
use mathlib.Core.Path.{◌≡◌, refl, ◌∙◌}
use mathlib.Core.Bool.{true, false, ◌||◌}
use mathlib.Core.List.{List, [], ◌∷◌}
use native.Mathlib.Omega.{arith}
use stack_warden.Base.Tests.{if◌then◌else◌}
use stack_warden.Base.Equality.{Eq, ◌==◌}
use stack_warden.Base.Lists.{mem, All, Distinct}
use stack_warden.Base.Order.{Ord, ◌≺◌}

module _ {ℓ} {A : Type ℓ} ⦃o : Ord A⦄ where
  unfoldable pub insert_sorted : A → List A → List A
  insert_sorted x [] = x ∷ []
  insert_sorted x (y ∷ ys) = if y ≺ x then y ∷ insert_sorted x ys else x ∷ y ∷ ys

  unfoldable pub sorted : List A → List A
  unfolding insert_sorted
  sorted [] = []
  sorted (x ∷ xs) = insert_sorted x (sorted xs)

  -- every element is below all that follow it
  abbrev pub IsAscending : List A → Type 0
  IsAscending [] = Unit
  IsAscending (x ∷ xs) = All (λ y. (x ≺ y) ≡ true) xs × IsAscending xs

  All-trans :
      (x y : A) (l : List A)
      → (x ≺ y) ≡ true
      → All (λ z. (y ≺ z) ≡ true) l
      → All (λ z. (x ≺ z) ≡ true) l
  All-trans x y [] h a = tt
  All-trans x y (z ∷ l) h a = (o.trans x y z h a.0, All-trans x y l h a.1)

  All-insert_sorted :
      (x y : A) (l : List A)
      → (x ≺ y) ≡ true
      → All (λ z. (x ≺ z) ≡ true) l
      → All (λ z. (x ≺ z) ≡ true) (insert_sorted y l)
  unfolding insert_sorted
  All-insert_sorted x y [] h a = (h, tt)
  All-insert_sorted x y (z ∷ l) h a = ground (arith, All-insert_sorted x y l h a.1)

module _ {ℓ} {A : Type ℓ} ⦃e : Eq A⦄ ⦃o : Ord A⦄ where
  mem-insert_sorted : (a x : A) (l : List A) → mem a (insert_sorted x l) ≡ (x == a || mem a l)
  unfolding insert_sorted mem
  mem-insert_sorted a x [] = refl
  mem-insert_sorted a x (y ∷ ys) = ground (arith, mem-insert_sorted a x ys)

  -- sorting loses no element and adds none
  pub mem-sorted : (a : A) (l : List A) → mem a (sorted l) ≡ mem a l
  unfolding sorted mem
  mem-sorted a [] = refl
  mem-sorted a (x ∷ xs) = ground (arith, mem-insert_sorted a x (sorted xs), mem-sorted a xs)

  insert_sorted-IsAscending :
      (x : A) (l : List A) → IsAscending l → mem x l ≡ false → IsAscending (insert_sorted x l)
  unfolding insert_sorted mem
  insert_sorted-IsAscending x [] h m = (tt, tt)
  insert_sorted-IsAscending x (y ∷ ys) h m = ground (
    arith,
    insert_sorted-IsAscending x ys h.1,
    All-insert_sorted y x ys,
    All-trans x y ys,
    o.connex y x,
    e.beq_iff y x,
  )

  -- the elements of a list without duplicates come out strictly ascending
  pub sorted-IsAscending : (l : List A) → Distinct l → IsAscending (sorted l)
  unfolding sorted
  sorted-IsAscending [] d = tt
  sorted-IsAscending (x ∷ xs) d =
      insert_sorted-IsAscending x (sorted xs) (sorted-IsAscending xs d.1) (mem-sorted x xs ∙ d.0)
