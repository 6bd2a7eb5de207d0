-- ===== src/Resolver/Hints.antt =====
-- The hints of the tuple layer, put into the stack:
-- packages/stackwarden/src/stackwarden/resolvers/resolver.py
use stack_warden.Base.{
  Text, codes, Option, none, some, [], reverse, mem, put, Dict, nat_eq, text_eq, is_empty, strip,
  before, after, if◌then◌else◌,
}
use stack_warden.Specs.Profiles.{Stack, Value, text}
use stack_warden.Compatibility.Records.{TupleDecision}

-- `value.rsplit(":", 1)`, for a text with a colon
abbrev last_part : Text → Text
last_part value = reverse (before 58 (reverse value))

abbrev first_part : Text → Text
first_part value = reverse (after 58 (reverse value))

-- `_split_image_ref`
unfoldable pub split_image_ref : Text → Text × Option Text
split_image_ref image_ref =
    let value = strip image_ref in
    if mem 58 value
    then (if mem 47 (last_part value)
        then (value, none)
        else (first_part value, some (last_part value)))
    else (value, none)

-- `if value: overrides[key] = value`
abbrev put_set : Text → Text → Dict Text Value → Dict Text Value
put_set key value d = if is_empty value then d else put key (text value) d

abbrev or_no_text : Option Text → Text
or_no_text none = []
or_no_text (some t) = t

-- the overrides that the hint of a base image sets
unfoldable pub with_base_hint : Text → Dict Text Value → Dict Text Value
with_base_hint hint d =
    let (image, tag) = split_image_ref hint in
    put_set (codes "base_tag") (or_no_text tag) (put_set (codes "base_image") image d)

-- `_stack_with_tuple_hints`
unfoldable pub stack_with_tuple_hints : Stack → TupleDecision → Stack
stack_with_tuple_hints stack d =
    let base_hint = strip d.base_image_hint in
    let wheelhouse_hint = strip d.wheelhouse_hint in
    let overrides =
      if is_empty base_hint
      then stack.policy_overrides
      else with_base_hint base_hint stack.policy_overrides in
    record stack {
      policy_overrides = put_set (codes "pip_wheelhouse_path_hint") wheelhouse_hint overrides;
    }
