-- ===== src/Base/Ranking.antt =====
-- `xs.sort(key=key)` of the source: stable, ascending by the key.
use mathlib.Core.Path.{◌≡◌, refl, sym, subst, fun_ext}
use mathlib.Core.Bool.{true, false}
use mathlib.Core.Logic.{◌⊎◌, inl, inr}
use mathlib.Core.Option.{Option, none, some}
use mathlib.Core.List.{List, [], ◌∷◌, map}
use native.Mathlib.Omega.{arith}
use stack_warden.Base.Tests.{if◌then◌else◌, Bool-cases}
use stack_warden.Base.Lists.{All}
use stack_warden.Base.Order.{Ord, ◌≺◌}

pub List-cases {ℓ} : {A : Type ℓ} (l : List A) → (l ≡ []) ⊎ ((x : A) × (xs : List A) × (l ≡ x ∷ xs))
List-cases [] = inl refl
List-cases (x ∷ xs) = inr (x, xs, refl)

-- `xs[0]`
abbrev pub head {ℓ} : {A : Type ℓ} → List A → Option A
head [] = none
head (x ∷ xs) = some x

-- `x in xs`, as a proposition
abbrev pub Among : {A : Type 0} → A → List A → Type 0
Among x [] = ⊥
Among x (y ∷ ys) = (x ≡ y) ⊎ Among x ys

module _ {ℓ κ} {A : Type ℓ} {K : Type κ} ⦃o : Ord K⦄ (key : A → K) where
  unfoldable pub insert_by : A → List A → List A
  insert_by x [] = x ∷ []
  insert_by x (y ∷ ys) = if key y ≺ key x then y ∷ insert_by x ys else x ∷ y ∷ ys

  unfoldable pub sort_by : List A → List A
  unfolding insert_by
  sort_by [] = []
  sort_by (x ∷ xs) = insert_by x (sort_by xs)

  -- the first of the elements with the least key
  unfoldable pub least_by : A → List A → A
  least_by x [] = x
  least_by x (y ∷ ys) = let best = least_by y ys in if key best ≺ key x then best else x

  head-insert_by :
      (x y : A) (ys : List A) → head (insert_by x (y ∷ ys)) ≡ some (if key y ≺ key x then y else x)
  unfolding insert_by
  head-insert_by x y ys = ground arith

  insert_by-head :
      (x y : A) (l : List A)
      → head l ≡ some y
      → head (insert_by x l) ≡ some (if key y ≺ key x then y else x)
  insert_by-head x y [] h = absurd (cc)
  insert_by-head x y (z ∷ l) h = ground (arith, head-insert_by x z l)

  -- what stands first after sorting
  pub head-sort_by : (x : A) (xs : List A) → head (sort_by (x ∷ xs)) ≡ some (least_by x xs)
  unfolding sort_by least_by insert_by
  head-sort_by x [] = refl
  head-sort_by x (y ∷ ys) = insert_by-head x (least_by y ys) (sort_by (y ∷ ys)) (head-sort_by y ys)

  -- no key in `xs` is below that of `z`
  abbrev pub NoneBelow : List A → A → Type 0
  NoneBelow xs z = All (λ y. (key y ≺ key z) ≡ false) xs

  not_below_trans : (a b c : K) → (a ≺ b) ≡ false → (b ≺ c) ≡ false → (a ≺ c) ≡ false
  not_below_trans a b c p q = ground (arith, o.connex a b, o.trans b a c)

  All-not_below_trans :
      (b c : K) (xs : List A)
      → (b ≺ c) ≡ false
      → All (λ y. (key y ≺ b) ≡ false) xs
      → All (λ y. (key y ≺ c) ≡ false) xs
  All-not_below_trans b c [] q h = tt
  All-not_below_trans b c (y ∷ ys) q h =
      (not_below_trans (key y) b c h.0 q, All-not_below_trans b c ys q h.1)

  least_by-cons :
      (x y : A) (ys : List A)
      → ((least_by x (y ∷ ys) ≡ least_by y ys) × ((key (least_by y ys) ≺ key x) ≡ true))
        ⊎ ((least_by x (y ∷ ys) ≡ x) × ((key (least_by y ys) ≺ key x) ≡ false))
  unfolding least_by
  least_by-cons x y ys = elim (Bool-cases (key (least_by y ys) ≺ key x)) [
    | inl below ↦ inl (ground arith, below)
    | inr above ↦ inr (ground arith, above)
  ]

  least_by-nil : (x : A) → least_by x [] ≡ x
  unfolding least_by
  least_by-nil x = refl

  -- no key is below the least one
  pub least_by-All : (x : A) (xs : List A) → NoneBelow (x ∷ xs) (least_by x xs)
  least_by-All x [] = rw (least_by-nil x) (o.irrefl (key x), tt)
  least_by-All x (y ∷ ys) = elim (least_by-cons x y ys) [
    | inl (e, below) ↦ subst (NoneBelow (x ∷ y ∷ ys)) (sym e) (
      ground (arith, o.trans (key x) (key (least_by y ys)) (key x), o.irrefl (key x), below),
      least_by-All y ys,
    )
    | inr (e, above) ↦ subst (NoneBelow (x ∷ y ∷ ys)) (sym e) (
      o.irrefl (key x),
      All-not_below_trans (key (least_by y ys)) (key x) (y ∷ ys) above (least_by-All y ys),
    )
  ]

module _ {κ} {A : Type 0} {K : Type κ} ⦃o : Ord K⦄ (key : A → K) where
  -- the least element is one of them
  pub least_by-Among : (x : A) (xs : List A) → Among (least_by key x xs) (x ∷ xs)
  unfolding least_by
  least_by-Among x [] = inl refl
  least_by-Among x (y ∷ ys) = elim (least_by-cons key x y ys) [
    | inl (e, below) ↦ inr (subst (λ z. Among z (y ∷ ys)) (sym e) (least_by-Among y ys))
    | inr (e, above) ↦ inl e
  ]

-- sorting the images of a function
pub least_by-map {ℓ κ μ} :
    {A : Type ℓ} {B : Type κ} {K : Type μ} ⦃o : Ord K⦄ (key : B → K) (f : A → B) (x : A)
    (xs : List A)
    → least_by key (f x) (map f xs) ≡ f (least_by (λ a. key (f a)) x xs)
unfolding least_by
least_by-map key f x [] = refl
least_by-map key f x (y ∷ ys) = ground (arith, least_by-map key f y ys)

pub least_by_ext {ℓ κ} :
    {A : Type ℓ} {K : Type κ} ⦃o : Ord K⦄ (key key' : A → K)
    → ((a : A) → key a ≡ key' a)
    → (x : A) (xs : List A) → least_by key x xs ≡ least_by key' x xs
least_by_ext key key' h x xs = rw (fun_ext h) refl
