-- ===== src/Variants/Typed.antt =====
-- What normalizing gives: packages/stackwarden/src/stackwarden/domain/variants.py
use stack_warden.Base.{
  lower, All-mem_of_subset, Text, codes, Bool, true, false, some, List, [], ◌∷◌, mem, mem-sorted,
  keys, get, Dict, All, Distinct, IsAscending, sorted, sorted-IsAscending, ◌==◌, text_eq, text_ord,
  ◌≡◌, refl, sym, ap, ◌∙◌, arith, Result, ok, >>=-eq-ok, Bool-cases, inl, inr, get-eq-some_of_mem,
}
use stack_warden.Specs.{VariantDef, VariantValue, flag, choice, VariantType, bool, enum}
use stack_warden.Variants.{
  VariantError, Variants, text_of, bool_value, typed_value, checked_value, or_default,
  validate_variant_flags, normalize_names, normalize_variants,
}

-- a value of a type
abbrev pub IsOfType : VariantType → List Text → VariantValue → Type 0
IsOfType type options (flag b) = type ≡ bool
IsOfType type options (choice t) = (type ≡ enum) × (mem t options ≡ true)

-- a value of the type that its definition asks for
abbrev pub IsTyped : VariantDef → VariantValue → Type 0
IsTyped def value = IsOfType def.type def.options value

-- each entry is of a defined name and of its type
abbrev pub AllTyped : Dict Text VariantDef → Variants → Type 0
AllTyped defined [] = Unit
AllTyped defined ((name, value) ∷ rest) =
    ((def : VariantDef) × (get name defined ≡ some def) × IsTyped def value) × AllTyped defined rest

bool_value-flag :
    (name : Text) (value : VariantValue) {v : VariantValue}
    → bool_value name value ≡ ok v
    → (b : Bool) × (v ≡ flag b)
unfolding bool_value
bool_value-flag name (flag b) h = (b, ground arith)
bool_value-flag name (choice t) h = elim (Bool-cases (lower t == codes "true")) [
  | inl yea ↦ (true, ground arith)
  | inr nay ↦ (false, ground arith)
]

-- a checked value is of its type, and checks again to itself
typed_value-IsOfType :
    (name : Text) (type : VariantType) (options : List Text) (value : VariantValue)
    {v : VariantValue}
    → typed_value name type options value ≡ ok v
    → IsOfType type options v × (typed_value name type options v ≡ ok v)
unfolding typed_value bool_value
typed_value-IsOfType name bool options value h =
    let (b, e) = bool_value-flag name value h in rw e (refl, refl)
typed_value-IsOfType name enum options value {v} h =
    elim (Bool-cases (mem (text_of value) options)) [
      | inl there ↦
          let e : v ≡ choice (text_of value) = ground arith in rw e ((refl, there), rw there refl)
      | inr gone ↦ absurd (ground arith)
    ]

ok_injective : {r r' : Variants} → ◌≡◌ {A = Result VariantError Variants} (ok r) (ok r') → r ≡ r'
ok_injective h = cc

normalize_names-AllTyped :
    (defined : Dict Text VariantDef) (raw : Variants) (names : List Text) {r : Variants}
    → normalize_names defined raw names ≡ ok r
    → All (λ n. mem n (keys defined) ≡ true) names
    → AllTyped defined r × (keys r ≡ names)
unfolding normalize_names checked_value
normalize_names-AllTyped defined raw [] h a = ground arith
normalize_names-AllTyped defined raw (name ∷ names) h a =
    let (def, there) = get-eq-some_of_mem name defined a.0 in
    let (value, c, h1) =
      >>=-eq-ok (checked_value name def (or_default def (get name raw))) _
        (rw (normalize_names, there) at h) in
    let (rest, d, h2) = >>=-eq-ok (normalize_names defined raw names) _ h1 in
    let ih = normalize_names-AllTyped defined raw names d a.1 in
    let typed = (typed_value-IsOfType name def.type def.options _ c).0 in
    rw (sym (ok_injective h2)) (((def, there, typed), ih.0), ap (λ ks. name ∷ ks) ih.1)

All-mem-sorted :
    (defined : Dict Text VariantDef)
    → All (λ n. mem n (keys defined) ≡ true) (sorted (keys defined))
All-mem-sorted defined =
    All-mem_of_subset (sorted (keys defined)) (keys defined)
      (λ k m. sym (mem-sorted k (keys defined)) ∙ m)

-- If variants normalize, the names of the result are those that the stack defines, strictly
-- ascending, and each value is of the type that its definition asks for, an option of it for an
-- enumeration; where no name is defined twice.
pub normalize_variants-AllTyped :
    (defined : Dict Text VariantDef) (raw : Variants) {r : Variants}
    → Distinct (keys defined)
    → normalize_variants defined raw ≡ ok r
    → AllTyped defined r × (keys r ≡ sorted (keys defined)) × IsAscending (keys r)
unfolding normalize_variants
normalize_variants-AllTyped defined raw distinct h =
    let (_, _, run) = >>=-eq-ok (validate_variant_flags defined (keys raw)) _ h in
    let (typed, names) =
      normalize_names-AllTyped defined raw (sorted (keys defined)) run (All-mem-sorted defined) in
    (typed, names, rw names (sorted-IsAscending (keys defined) distinct))
