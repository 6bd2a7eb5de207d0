-- ===== src/Base/Indexing.antt =====
-- Tables filled by `for x in xs: d[key(x)] = x` and read back by `[d[k] for k in sorted(d)]`.
use mathlib.Core.Path.{◌≡◌, refl, ◌∙◌, ap}
use mathlib.Core.Bool.{true, ◌||◌, ◌&&◌}
use mathlib.Core.Logic.{inl, inr}
use mathlib.Core.Option.{Option, none, some}
use mathlib.Core.List.{List, [], ◌∷◌, ◌++◌, map}
use native.Mathlib.Omega.{arith}
use stack_warden.Base.Tests.{if◌then◌else◌, Bool-cases, Option-cases}
use stack_warden.Base.Equality.{Eq, ◌==◌, option_eq}
use stack_warden.Base.Lists.{mem, All, Distinct, All-mem_of_subset}
use stack_warden.Base.Order.{Ord}
use stack_warden.Base.Sort.{sorted, IsAscending, mem-sorted, sorted-IsAscending}
use stack_warden.Base.Dictionary.{
  Dict, keys, get, put, get-put, mem-keys-put, put-Distinct, get-eq-some_of_mem,
  get-eq-none_of_not-mem,
}

module _ {ℓ κ} {K : Type ℓ} {V : Type κ} ⦃e : Eq K⦄ where
  -- `for x in xs: d[key(x)] = x`
  unfoldable pub index_by : (V → K) → List V → Dict K V → Dict K V
  index_by key [] d = d
  index_by key (x ∷ xs) d = index_by key xs (put (key x) x d)

  -- the last of `xs` with the key `k`, or else `o`
  unfoldable pub latest_by : (V → K) → K → List V → Option V → Option V
  latest_by key k [] o = o
  latest_by key k (x ∷ xs) o = latest_by key k xs (if key x == k then some x else o)

  -- `[d[k] for k in ks]`, for keys of `d`
  unfoldable pub values_at : List K → Dict K V → List V
  values_at [] d = []
  values_at (k ∷ ks) d = elim (get k d) [ none ↦ values_at ks d | some v ↦ v ∷ values_at ks d ]

  pub get-index_by :
      (key : V → K) (k : K) (xs : List V) (d : Dict K V)
      → get k (index_by key xs d) ≡ latest_by key k xs (get k d)
  unfolding index_by latest_by
  get-index_by key k [] d = refl
  get-index_by key k (x ∷ xs) d =
      get-index_by key k xs (put (key x) x d) ∙ ap (latest_by key k xs) (get-put (key x) k x d)

  pub index_by-append :
      (key : V → K) (xs ys : List V) (d : Dict K V)
      → index_by key (xs ++ ys) d ≡ index_by key ys (index_by key xs d)
  unfolding index_by
  index_by-append key [] ys d = refl
  index_by-append key (x ∷ xs) ys d = index_by-append key xs ys (put (key x) x d)

  pub index_by-Distinct :
      (key : V → K) (xs : List V) (d : Dict K V)
      → Distinct (keys d)
      → Distinct (keys (index_by key xs d))
  unfolding index_by
  index_by-Distinct key [] d h = h
  index_by-Distinct key (x ∷ xs) d h =
      index_by-Distinct key xs (put (key x) x d) (put-Distinct (key x) x d h)

  -- every value stands under its own key
  abbrev pub IsIndexed : (V → K) → Dict K V → Type (ℓ ⊔ κ)
  IsIndexed key d = (k : K) (v : V) → get k d ≡ some v → key v ≡ k

  put-IsIndexed :
      (key : V → K) (x : V) (d : Dict K V) → IsIndexed key d → IsIndexed key (put (key x) x d)
  put-IsIndexed key x d h k v p = ground (arith, h k v, get-put (key x) k x d, e.beq_iff (key x) k)

  pub index_by-IsIndexed :
      (key : V → K) (xs : List V) (d : Dict K V)
      → IsIndexed key d
      → IsIndexed key (index_by key xs d)
  unfolding index_by
  index_by-IsIndexed key [] d h = h
  index_by-IsIndexed key (x ∷ xs) d h =
      index_by-IsIndexed key xs (put (key x) x d) (put-IsIndexed key x d h)

  -- the values at keys of an indexed table have those keys
  pub map-values_at :
      (key : V → K) (ks : List K) (d : Dict K V)
      → IsIndexed key d
      → All (λ k. mem k (keys d) ≡ true) ks
      → map key (values_at ks d) ≡ ks
  unfolding values_at
  map-values_at key [] d h a = refl
  map-values_at key (k ∷ ks) d h a =
      let (v, p) = get-eq-some_of_mem k d a.0 in ground (arith, h k v, map-values_at key ks d h a.1)

module _ {ℓ κ} {K : Type ℓ} {V : Type κ} ⦃e : Eq K⦄ ⦃f : Eq V⦄ where
  mem-values_at :
      (key : V → K) (ks : List K) (d : Dict K V)
      → IsIndexed key d
      → (v : V) → mem v (values_at ks d) ≡ (mem (key v) ks && get (key v) d == some v)
  unfolding mem values_at
  mem-values_at key [] d h v = refl
  mem-values_at key (k ∷ ks) d h v = elim (Option-cases (get k d)) [
    | inl absent ↦ ground (arith, mem-values_at key ks d h v, e.beq_iff k (key v))
    | inr (w, present) ↦
        ground
          (arith, mem-values_at key ks d h v, h k w present, e.beq_iff k (key v), f.beq_iff w v)
  ]

module _ {ℓ κ} {K : Type ℓ} {V : Type κ} ⦃e : Eq K⦄ ⦃o : Ord K⦄ where
  -- `[d[k] for k in sorted(d)]`
  abbrev pub by_key : Dict K V → List V
  by_key d = values_at (sorted (keys d)) d

  sorted-keys : (d : Dict K V) → All (λ k. mem k (keys d) ≡ true) (sorted (keys d))
  sorted-keys d =
      All-mem_of_subset (sorted (keys d)) (keys d) (λ k m. ground (arith, mem-sorted k (keys d)))

  -- the values of an indexed table come out strictly ascending by their keys
  pub by_key-IsAscending :
      (key : V → K) (d : Dict K V)
      → IsIndexed key d
      → Distinct (keys d)
      → IsAscending (map key (by_key d))
  by_key-IsAscending key d h u =
      rw (map-values_at key (sorted (keys d)) d h (sorted-keys d)) (sorted-IsAscending (keys d) u)

module _ {ℓ κ} {K : Type ℓ} {V : Type κ} ⦃e : Eq K⦄ ⦃o : Ord K⦄ ⦃f : Eq V⦄ where
  -- a value comes out exactly if the table holds it under its key
  pub mem-by_key :
      (key : V → K) (d : Dict K V)
      → IsIndexed key d
      → (v : V) → mem v (by_key d) ≡ (get (key v) d == some v)
  mem-by_key key d h v = elim (Bool-cases (mem (key v) (keys d))) [
    | inl there ↦
        ground (arith, mem-values_at key (sorted (keys d)) d h v, mem-sorted (key v) (keys d))
    | inr gone ↦ ground (
      arith,
      mem-values_at key (sorted (keys d)) d h v,
      mem-sorted (key v) (keys d),
      get-eq-none_of_not-mem (key v) d,
    )
  ]

module _ {ℓ} {K : Type ℓ} ⦃e : Eq K⦄ where
  -- a table of elements under themselves has as keys the elements that were put in
  pub mem-keys-index_self :
      (k : K) (xs : List K) (d : Dict K K)
      → mem k (keys (index_by (λ x. x) xs d)) ≡ (mem k xs || mem k (keys d))
  unfolding index_by mem
  mem-keys-index_self k [] d = refl
  mem-keys-index_self k (x ∷ xs) d =
      ground (arith, mem-keys-index_self k xs (put x x d), mem-keys-put x k x d)
