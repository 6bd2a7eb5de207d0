-- ===== src/Composition/Pip/Compatible.antt =====
-- The compatibility of pip constraints does not depend on which side came first.
use stack_warden.Base.{
  Text, Bool, false, List, [], ◌∷◌, ◌||◌, ◌≡◌, refl, arith, mem, any, text_eq, Eq, Option-cases,
  inl, inr, ok,
}
use stack_warden.Composition.Packaging.{Packaging}
use stack_warden.Composition.Pip.{
  pins, parse_specifier, pinned_versions, pins_compatible, constraints_compatible,
}

module _ {ℓ} {A : Type ℓ} ⦃e : Eq A⦄ where
  any-mem-nil : (xs : List A) → any (λ v. mem v []) xs ≡ false
  unfolding any mem
  any-mem-nil [] = refl
  any-mem-nil (x ∷ xs) = any-mem-nil xs

  any-mem-cons :
      (y : A) (xs ys : List A) → any (λ v. mem v (y ∷ ys)) xs ≡ (mem y xs || any (λ v. mem v ys) xs)
  unfolding any mem
  any-mem-cons y [] ys = refl
  any-mem-cons y (x ∷ xs) ys = ground (arith, any-mem-cons y xs ys, e.beq_iff y x, e.beq_iff x y)

  -- two lists share an element whichever of them is searched
  shared_comm : (xs ys : List A) → any (λ v. mem v ys) xs ≡ any (λ v. mem v xs) ys
  unfolding any
  shared_comm xs [] = any-mem-nil xs
  shared_comm xs (y ∷ ys) = ground (arith, any-mem-cons y xs ys, shared_comm xs ys)

module _ (lib : Packaging) where
  pins_compatible_comm :
      (a b : Text) (ps qs : List Text)
      → pins_compatible lib a b ps qs ≡ pins_compatible lib b a qs ps
  unfolding pins_compatible
  pins_compatible_comm a b [] [] = refl
  pins_compatible_comm a b (p ∷ ps) [] = refl
  pins_compatible_comm a b [] (q ∷ qs) = refl
  pins_compatible_comm a b (p ∷ ps) (q ∷ qs) = shared_comm (p ∷ ps) (q ∷ qs)

  -- If the check of two constraints gives an answer, the check of the same two in the other order
  -- gives the same answer.
  pub constraints_compatible_comm :
      (a b : Text) (v : Bool)
      → constraints_compatible lib a b ≡ ok v
      → constraints_compatible lib b a ≡ ok v
  unfolding constraints_compatible pinned_versions parse_specifier
  constraints_compatible_comm [] [] v h = h
  constraints_compatible_comm [] (d ∷ b) v h = h
  constraints_compatible_comm (c ∷ a) [] v h = h
  constraints_compatible_comm (c ∷ a) (d ∷ b) v h = elim (Option-cases (lib.items (c ∷ a))) [
    | inl bad ↦ ground arith
    | inr (x, left) ↦ elim (Option-cases (lib.items (d ∷ b))) [
      | inl bad ↦ ground arith
      | inr (y, right) ↦ ground (arith, pins_compatible_comm (c ∷ a) (d ∷ b) (pins x) (pins y))
    ]
  ]
