-- ===== src/Variants/Tests.antt =====
-- A run of the normalization, and its theorem at a concrete input.
use stack_warden.Base.{
  lower, Text, codes, true, [], ◌∷◌, Dict, keys, sorted, IsAscending, text_ord, text_eq, get, mem,
  text_beq, text_lt, ok, ◌≡◌, refl,
}
use stack_warden.Specs.{VariantDef, flag, choice, bool, enum}
use stack_warden.Variants.{
  Variants, bool_value, typed_value, checked_value, validate_variant_flags, normalize_names,
  normalize_variants,
}
use stack_warden.Variants.Typed.{AllTyped, normalize_variants-AllTyped}

-- a switch and a choice, declared out of order
abbrev defined : Dict Text VariantDef
defined =
    (
      codes "size",
      record { type = enum; options = codes "s" ∷ codes "l" ∷ []; default = choice (codes "s") },
    )
    ∷ (codes "fast", record { type = bool; options = []; default = flag true })
    ∷ []

abbrev given : Variants
given = (codes "size", choice (codes "l")) ∷ []

abbrev expected : Variants
expected = (codes "fast", flag true) ∷ (codes "size", choice (codes "l")) ∷ []

given_lem : normalize_variants defined given ≡ ok expected
unfolding normalize_variants validate_variant_flags normalize_names checked_value typed_value
    bool_value get mem sorted text_lt text_beq lower
given_lem = refl

normalize_variants-AllTyped_example :
    AllTyped defined expected
    × (keys expected ≡ sorted (keys defined))
    × IsAscending (keys expected)
unfolding mem text_beq
normalize_variants-AllTyped_example =
    normalize_variants-AllTyped defined given (refl, (refl, tt)) given_lem
