-- ===== src/Variants.antt =====
-- Variants of a stack: packages/stackwarden/src/stackwarden/domain/variants.py
-- The texts of the exceptions are left out.
mod Tests
pub mod Typed
use stack_warden.Base.{
  ℕ, ◌+◌, Text, codes, Bool, true, false, Option, none, some, List, [], ◌∷◌, map, mem, keys, get,
  put, Dict, ◌==◌, ◌&&◌, not, nat_eq, text_eq, text_ord, before, after, strip, lower, sorted, leb,
  if◌then◌else◌, Result, ok, err, ◌>>=◌, ◌>>◌,
}
use stack_warden.Specs.{VariantDef, VariantValue, flag, choice, VariantType, bool, enum}

pub data VariantError : Type 0 where
  not_key_value unknown_variant not_boolean not_an_option : Text → VariantError

abbrev pub Variants : Type 0
Variants = Dict Text VariantValue

abbrev pub equals_sign : ℕ
equals_sign = 61

-- a text as a value: `true` and `false` are Booleans
unfoldable pub value_of : Text → VariantValue
value_of v =
    if lower v == codes "true"
    then flag true
    else if lower v == codes "false"
    then flag false
    else choice v

-- the loop of `parse_variants`
unfoldable pub parse_items : List Text → Variants → Result VariantError Variants
parse_items [] variants = ok variants
parse_items (item ∷ items) variants =
    let rest = parse_items items (
      put (strip (before equals_sign item)) (value_of (strip (after equals_sign item))) variants) in
    if mem equals_sign item then rest else err (not_key_value item)

-- `parse_variants`
unfoldable pub parse_variants : Option (List Text) → Result VariantError Variants
parse_variants none = ok []
parse_variants (some items) = parse_items items []

-- `validate_variant_flags`
unfoldable pub validate_variant_flags :
    Dict Text VariantDef → List Text → Result VariantError (Unit {0})
validate_variant_flags defined [] = ok tt
validate_variant_flags defined (k ∷ ks) =
    let rest = validate_variant_flags defined ks in
    if mem k (keys defined) then rest else err (unknown_variant k)

-- `str(value)`
abbrev pub text_of : VariantValue → Text
text_of (choice t) = t
text_of (flag true) = codes "True"
text_of (flag false) = codes "False"

-- the check of one value against its definition
unfoldable pub bool_value : (name : Text) → VariantValue → Result VariantError VariantValue
bool_value name (flag b) = ok (flag b)
bool_value name (choice t) =
    if lower t == codes "true"
    then ok (flag true)
    else if lower t == codes "false"
    then ok (flag false)
    else err (not_boolean name)

unfoldable pub typed_value :
    (name : Text)
    → VariantType
    → (options : List Text) → VariantValue
    → Result VariantError VariantValue
typed_value name bool options value = bool_value name value
typed_value name enum options value =
    if mem (text_of value) options then ok (choice (text_of value)) else err (not_an_option name)

unfoldable pub checked_value :
    (name : Text) → VariantDef → VariantValue → Result VariantError VariantValue
checked_value name def value = typed_value name def.type def.options value

abbrev pub or_default : VariantDef → Option VariantValue → VariantValue
or_default def none = def.default
or_default def (some v) = v

-- the loop of `normalize_variants`, over the names that are defined
unfoldable pub normalize_names :
    Dict Text VariantDef → Variants → List Text → Result VariantError Variants
normalize_names defined raw [] = ok []
normalize_names defined raw (name ∷ names) = elim (get name defined) [
  | none ↦ normalize_names defined raw names
  | some def ↦ do
    value ← checked_value name def (or_default def (get name raw))
    rest ← normalize_names defined raw names
    ok ((name, value) ∷ rest)
]

-- `normalize_variants`
unfoldable pub normalize_variants : Dict Text VariantDef → Variants → Result VariantError Variants
normalize_variants defined raw = do
  validate_variant_flags defined (keys raw)
  normalize_names defined raw (sorted (keys defined))
