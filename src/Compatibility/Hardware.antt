-- ===== src/Compatibility/Hardware.antt =====
-- packages/stackwarden/src/stackwarden/domain/hardware_catalog.py, as compatibility uses it: no
-- lookup is of a GPU model, for which the source guesses by words.
use stack_warden.Base.{
  ℤ, Text, Bool, ◌||◌, Option, none, some, List, [], ◌∷◌, map, mem, get_or, Dict, ◌==◌, text_eq,
  is_empty, strip, lower, if◌then◌else◌,
}

pub record HardwareCatalogItem : Type 0 where
  pub id : Text
  pub label : Text
  pub aliases : List Text

-- the items of each kind
abbrev pub HardwareCatalog : Type 0
HardwareCatalog = Dict Text (List HardwareCatalogItem)

-- What lies outside: what the code does with a `float` (`float(str(v))`, `none` where it raises, `<`,
-- `>=` and printing), how an integer and a set of texts are printed, and the catalog that is loaded.
pub record Tools (F : Type 0) : Type 0 where
  pub float_of : Text → Option F
  pub lt : F → F → Bool
  pub ge : F → F → Bool
  pub show : F → Text
  pub str : ℤ → Text
  pub show_set : List Text → Text
  pub hardware : HardwareCatalog

-- the first item that passes a test
unfoldable pub find_id : (HardwareCatalogItem → Bool) → List HardwareCatalogItem → Option Text
find_id p [] = none
find_id p (item ∷ items) = let later = find_id p items in if p item then some item.id else later

abbrev is_exact : Text → HardwareCatalogItem → Bool
is_exact needle item = item.id == needle || lower (strip item.label) == needle

abbrev has_alias : Text → HardwareCatalogItem → Bool
has_alias needle item = mem needle (map (λ a. lower (strip a)) item.aliases)

abbrev or_find : Option Text → Option Text → Option Text
or_find none later = later
or_find (some id) later = some id

-- `HardwareCatalog.resolve`, without how the item was matched
unfoldable pub resolve_item : HardwareCatalog → (kind raw : Text) → Option Text
resolve_item catalog kind raw =
    let needle = lower (strip raw) in
    let items = get_or kind [] catalog in
    if is_empty needle
    then none
    else or_find (find_id (is_exact needle) items) (find_id (has_alias needle) items)

-- the identifier that was found, or the value
abbrev resolved_or : Text → Option Text → Text
resolved_or value none = value
resolved_or value (some id) = if is_empty id then value else lower (strip id)

-- `_resolve_hardware_id`
unfoldable pub resolve_hardware_id : HardwareCatalog → (kind raw : Text) → Text
resolve_hardware_id catalog kind raw =
    let value = lower (strip raw) in
    if is_empty value then [] else resolved_or value (resolve_item catalog kind value)
