-- ===== src/Base/Dictionary.antt =====
-- Python's `dict`: entries in insertion order. Assigning to a key that is there keeps its place.
use mathlib.Core.Path.{◌≡◌, refl}
use mathlib.Core.Bool.{true, false, ◌||◌}
use mathlib.Core.Logic.{inl, inr}
use mathlib.Core.Option.{Option, none, some}
use mathlib.Core.List.{List, [], ◌∷◌}
use native.Mathlib.Omega.{arith}
use stack_warden.Base.Tests.{if◌then◌else◌, Bool-cases}
use stack_warden.Base.Equality.{Eq, ◌==◌}
use stack_warden.Base.Lists.{mem, Distinct}

abbrev pub Dict {ℓ κ} : Type ℓ → Type κ → Type (ℓ ⊔ κ)
Dict K V = List (K × V)

module _ {ℓ κ} {K : Type ℓ} {V : Type κ} where
  -- `list(d)`
  abbrev pub keys : Dict K V → List K
  keys [] = []
  keys ((k, v) ∷ d) = k ∷ keys d

module _ {ℓ κ} {K : Type ℓ} {V : Type κ} ⦃e : Eq K⦄ where
  -- `d.get(k)`
  unfoldable pub get : K → Dict K V → Option V
  get k [] = none
  get k ((j, v) ∷ d) = if j == k then some v else get k d

  -- `d[k] = v`
  unfoldable pub put : K → V → Dict K V → Dict K V
  put k v [] = (k, v) ∷ []
  put k v ((j, w) ∷ d) = if j == k then (j, v) ∷ d else (j, w) ∷ put k v d

  -- `d.get(k, default)`
  abbrev pub get_or : K → V → Dict K V → V
  get_or k v d = elim (get k d) [ none ↦ v | some w ↦ w ]

  -- `{**d, **c}`, `d.update(c)`
  unfoldable pub update : Dict K V → Dict K V → Dict K V
  update [] d = d
  update ((k, v) ∷ c) d = update c (put k v d)

  pub get-put :
      (k j : K) (v : V) (d : Dict K V) → get j (put k v d) ≡ (if k == j then some v else get j d)
  unfolding get put
  get-put k j v [] = refl
  get-put k j v ((i, w) ∷ d) =
      ground (arith, e.beq_iff i k, e.beq_iff i j, e.beq_iff k j, get-put k j v d)

  pub mem-keys-put :
      (k j : K) (v : V) (d : Dict K V) → mem j (keys (put k v d)) ≡ (k == j || mem j (keys d))
  unfolding mem put
  mem-keys-put k j v [] = refl
  mem-keys-put k j v ((i, w) ∷ d) =
      ground (arith, e.beq_iff i k, e.beq_iff i j, e.beq_iff k j, mem-keys-put k j v d)

  pub put-Distinct :
      (k : K) (v : V) (d : Dict K V) → Distinct (keys d) → Distinct (keys (put k v d))
  unfolding mem put
  put-Distinct k v [] h = (refl, tt)
  put-Distinct k v ((i, w) ∷ d) h =
      ground (arith, e.beq_iff i k, e.beq_iff k i, mem-keys-put k i v d, put-Distinct k v d h.1)

  -- a key is among the keys exactly when it has a value
  pub get-eq-none_of_not-mem : (k : K) (d : Dict K V) → mem k (keys d) ≡ false → get k d ≡ none
  unfolding get mem
  get-eq-none_of_not-mem k [] h = refl
  get-eq-none_of_not-mem k ((i, w) ∷ d) h = ground (arith, get-eq-none_of_not-mem k d)

  pub get-eq-some_of_mem :
      (k : K) (d : Dict K V) → mem k (keys d) ≡ true → (v : V) × (get k d ≡ some v)
  unfolding get mem
  get-eq-some_of_mem k [] h = absurd (cc)
  get-eq-some_of_mem k ((i, w) ∷ d) h = elim (Bool-cases (i == k)) [
    | inl here ↦ (w, rw here)
    | inr there ↦ rw there (get-eq-some_of_mem k d (rw there at h))
  ]
