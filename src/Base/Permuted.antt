-- ===== src/Base/Permuted.antt =====
-- Sorting forgets the order of its input.
use mathlib.Core.Path.{◌≡◌, refl, sym, ◌∙◌, ap}
use mathlib.Core.List.Permᴰ
use mathlib.Core.List.{List, [], ◌∷◌, map, Permᴰ}
use native.Mathlib.Omega.{arith}
use stack_warden.Base.Equality.{Eq}
use stack_warden.Base.Lists.{mem, Distinct}
use stack_warden.Base.Order.{Ord, ◌≺◌}
use stack_warden.Base.Tests.{Bool-cases}
use mathlib.Core.Logic.{inl, inr}
use stack_warden.Base.Sort.{insert_sorted, sorted}
use stack_warden.Base.Ranking.{insert_by, sort_by}

module _ {ℓ κ} {A : Type ℓ} {K : Type κ} ⦃o : Ord K⦄ (key : A → K) where
  insert_by_comm :
      (x y : A) (l : List A)
      → (key x ≡ key y → x ≡ y)
      → insert_by key x (insert_by key y l) ≡ insert_by key y (insert_by key x l)
  unfolding insert_by
  insert_by_comm x y [] h =
      ground (arith, o.connex (key x) (key y), o.trans (key x) (key y) (key x), o.irrefl (key x))
  insert_by_comm x y (z ∷ l) h = ground (
    arith,
    insert_by_comm x y l h,
    o.connex (key x) (key y),
    o.trans (key x) (key y) (key x),
    o.irrefl (key x),
    o.trans (key x) (key y) (key z),
    o.trans (key y) (key x) (key z),
    o.trans (key z) (key x) (key y),
    o.trans (key z) (key y) (key x),
  )

  insert_by-Permᴰ : (x : A) (l : List A) → Permᴰ (x ∷ l) (insert_by key x l)
  unfolding insert_by
  insert_by-Permᴰ x [] = Permᴰ.refl (x ∷ [])
  insert_by-Permᴰ x (y ∷ l) = elim (Bool-cases (key y ≺ key x)) [
    | inl later ↦
        rw later (Permᴰ.trans (Permᴰ.swap refl refl) (Permᴰ.cons refl (insert_by-Permᴰ x l)))
    | inr first ↦ rw first (Permᴰ.refl (x ∷ y ∷ l))
  ]

  pub sort_by_permutes : (l : List A) → Permᴰ l (sort_by key l)
  unfolding sort_by
  sort_by_permutes [] = Permᴰ.nil
  sort_by_permutes (x ∷ l) =
      Permᴰ.trans (Permᴰ.cons refl (sort_by_permutes l)) (insert_by-Permᴰ x (sort_by key l))

  -- elements with the same key are the same
  abbrev pub Determines : Type (ℓ ⊔ κ)
  Determines = (x y : A) → key x ≡ key y → x ≡ y

  -- a list sorts to the same list as any permutation of it, if elements differ by their keys
  pub sort_by-Permᴰ : Determines → {xs ys : List A} → Permᴰ xs ys → sort_by key xs ≡ sort_by key ys
  unfolding sort_by
  sort_by-Permᴰ d Permᴰ.nil = refl
  sort_by-Permᴰ d (Permᴰ.cons {a = a} {l₂ = l} e p) = rw (sort_by-Permᴰ d p, e) refl
  sort_by-Permᴰ d (Permᴰ.swap {a = a} {b = b} {l = l} e f) =
      rw (sym e, sym f) (insert_by_comm a b (sort_by key l) (d a b))
  sort_by-Permᴰ d (Permᴰ.trans p q) = sort_by-Permᴰ d p ∙ sort_by-Permᴰ d q

module _ {ℓ} {A : Type ℓ} ⦃o : Ord A⦄ where
  insert_sorted-eq-insert_by : (x : A) (l : List A) → insert_sorted x l ≡ insert_by (λ a. a) x l
  unfolding insert_sorted insert_by
  insert_sorted-eq-insert_by x [] = refl
  insert_sorted-eq-insert_by x (y ∷ l) = ground (arith, insert_sorted-eq-insert_by x l)

  sorted-eq-sort_by : (l : List A) → sorted l ≡ sort_by (λ a. a) l
  unfolding sorted sort_by
  sorted-eq-sort_by [] = refl
  sorted-eq-sort_by (x ∷ l) =
      ap (insert_sorted x) (sorted-eq-sort_by l) ∙ insert_sorted-eq-insert_by x (sort_by (λ a. a) l)

  pub sorted-Permᴰ : {xs ys : List A} → Permᴰ xs ys → sorted xs ≡ sorted ys
  sorted-Permᴰ {xs} {ys} p =
      sorted-eq-sort_by xs ∙ (sort_by-Permᴰ (λ a. a) (λ x y e. e) p ∙ sym (sorted-eq-sort_by ys))

module _ {ℓ κ} {A : Type ℓ} {K : Type κ} ⦃e : Eq K⦄ ⦃o : Ord K⦄ (key : A → K) where
  mem-map-Permᴰ : (k : K) {xs ys : List A} → Permᴰ xs ys → mem k (map key xs) ≡ mem k (map key ys)
  unfolding mem
  mem-map-Permᴰ k Permᴰ.nil = refl
  mem-map-Permᴰ k (Permᴰ.cons q p) = rw (mem-map-Permᴰ k p, q) refl
  mem-map-Permᴰ k (Permᴰ.swap {a = a} {b = b} {l = l} q r) = rw (sym q, sym r) (ground arith)
  mem-map-Permᴰ k (Permᴰ.trans p q) = mem-map-Permᴰ k p ∙ mem-map-Permᴰ k q

  Distinct-map-Permᴰ :
      {xs ys : List A} → Permᴰ xs ys → Distinct (map key xs) → Distinct (map key ys)
  unfolding mem
  Distinct-map-Permᴰ Permᴰ.nil d = d
  Distinct-map-Permᴰ (Permᴰ.cons {b = b} q p) (fresh, d) =
      (rw (← mem-map-Permᴰ (key b) p, ← q) fresh, Distinct-map-Permᴰ p d)
  Distinct-map-Permᴰ (Permᴰ.swap {a = a} {b = b} {a' = a'} {b' = b'} q r) (f, d) = ground (
    arith,
    ap key q,
    ap key r,
    e.beq_iff (key a) (key b),
    e.beq_iff (key b) (key a),
    e.beq_iff (key b') (key a'),
  )
  Distinct-map-Permᴰ (Permᴰ.trans p q) d = Distinct-map-Permᴰ q (Distinct-map-Permᴰ p d)

  -- likewise if no key occurs twice
  pub sort_by-Permᴰ_of_Distinct :
      {xs ys : List A} → Permᴰ xs ys → Distinct (map key xs) → sort_by key xs ≡ sort_by key ys
  unfolding sort_by mem
  sort_by-Permᴰ_of_Distinct Permᴰ.nil d = refl
  sort_by-Permᴰ_of_Distinct (Permᴰ.cons q p) (fresh, d) = rw (sort_by-Permᴰ_of_Distinct p d, q) refl
  sort_by-Permᴰ_of_Distinct (Permᴰ.swap {a = a} {b = b} {l = l} q r) (f, d) =
      rw (sym q, sym r)
        (insert_by_comm key a b (sort_by key l)
          (λ (same : key a ≡ key b). absurd (ground (arith, e.beq_iff (key b) (key a)))))
  sort_by-Permᴰ_of_Distinct (Permᴰ.trans p q) d =
      sort_by-Permᴰ_of_Distinct p d ∙ sort_by-Permᴰ_of_Distinct q (Distinct-map-Permᴰ p d)
