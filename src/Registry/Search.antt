-- ===== src/Registry/Search.antt =====
-- `str.rfind` and the slice `s[:i]`, as
-- packages/stackwarden/src/stackwarden/domain/registry_policy.py uses them.
use stack_warden.Base.{
  take, ℕ, suc, Text, Bool, true, false, Option, none, some, List, [], ◌∷◌, ◌++◌, ◌==◌, nat_eq, mem,
  ◌≡◌, refl, ap, arith, length, ltb, if◌then◌else◌,
}

-- the last place of a code point; `-1` of the source is `none`
unfoldable pub rfind : ℕ → Text → Option ℕ
rfind c [] = none
rfind c (x ∷ xs) = elim (rfind c xs) [
  | none ↦ if x == c then some 0 else none
  | some i ↦ some (suc i)
]

-- `i > last`, where `none` is `-1`
abbrev pub is_before : Option ℕ → ℕ → Bool
is_before none i = true
is_before (some j) i = ltb j i

pub rfind-eq-none : (c : ℕ) (s : Text) → mem c s ≡ false → rfind c s ≡ none
unfolding rfind mem
rfind-eq-none c [] h = refl
rfind-eq-none c (x ∷ xs) h = ground (arith, rfind-eq-none c xs)

pub rfind-append : (c : ℕ) (s t : Text) → mem c t ≡ false → rfind c (s ++ t) ≡ rfind c s
unfolding rfind
rfind-append c [] t h = rfind-eq-none c t h
rfind-append c (x ∷ s) t h = rw (rfind-append c s t h)

pub rfind-append_here :
    (c : ℕ) (s t : Text) → mem c t ≡ false → rfind c (s ++ c ∷ t) ≡ some (length s)
unfolding rfind
rfind-append_here c [] t h = rw (rfind-eq-none c t h) (ground arith)
rfind-append_here c (x ∷ s) t h = rw (rfind-append_here c s t h)

pub rfind-is_before-length : (c : ℕ) (s : Text) → is_before (rfind c s) (length s) ≡ true
unfolding rfind
rfind-is_before-length c [] = refl
rfind-is_before-length c (x ∷ s) = ground (arith, rfind-is_before-length c s)

pub take-length {ℓ} : {A : Type ℓ} (xs ys : List A) → take (length xs) (xs ++ ys) ≡ xs
unfolding take
take-length [] ys = refl
take-length (x ∷ xs) ys = ap (λ zs. x ∷ zs) (take-length xs ys)
