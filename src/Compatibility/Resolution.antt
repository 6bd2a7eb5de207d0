-- ===== src/Compatibility/Resolution.antt =====
-- Which tuple is resolved: `_evaluate_tuple_resolution` of
-- packages/stackwarden/src/stackwarden/resolvers/compatibility.py
use stack_warden.Base.{
  Bool, true, false, ◌&&◌, Option, none, some, List, [], ◌∷◌, any, ◌≡◌, refl, arith, Bool-cases,
  inl, inr, ap, ◌∙◌, find,
}
use stack_warden.Specs.Profiles.{Profile}
use stack_warden.Compatibility.Records.{SupportedTuple, TupleMode, off, shadow, warn, enforce}
use stack_warden.Compatibility.Hardware.{Tools}
use stack_warden.Compatibility.Tuples.{
  tuple_matches, Found, supported_tuple, other_tuple, is_supported, find_tuple, tuple_decision_of,
  decision_of_found, evaluate_tuple_resolution,
}

abbrev pub is_off : TupleMode → Bool
is_off off = true
is_off _ = false

module _ {F : Type 0} (tools : Tools F) where
  abbrev or_first :
      Option (SupportedTuple F) → Option (SupportedTuple F) → Option (SupportedTuple F)
  or_first none later = later
  or_first (some first) later = some first

  abbrev found_or : Option (SupportedTuple F) → Option (SupportedTuple F) → Found tools
  found_or (some tup) other = supported_tuple tup
  found_or none other = other_tuple other

  -- the first supported tuple that matches, or else the first that matches
  abbrev pub best_match : Profile → List (SupportedTuple F) → Found tools
  best_match profile tuples =
      found_or (find (λ t. tuple_matches tools profile t && is_supported tools t) tuples)
        (find (tuple_matches tools profile) tuples)

  find_tuple-find :
      (profile : Profile) (tuples : List (SupportedTuple F)) (first : Option (SupportedTuple F))
      → find_tuple tools profile tuples first
        ≡ found_or
            (find (λ t. tuple_matches tools profile t && is_supported tools t) tuples)
            (or_first first (find (tuple_matches tools profile) tuples))
  unfolding find_tuple find
  find_tuple-find profile [] none = refl
  find_tuple-find profile [] (some t) = refl
  find_tuple-find profile (t ∷ ts) none = elim (Bool-cases (tuple_matches tools profile t)) [
    | inl match ↦ ground (arith, find_tuple-find profile ts (some t))
    | inr other ↦ ground (arith, find_tuple-find profile ts none)
  ]
  find_tuple-find profile (t ∷ ts) (some u) = ground (arith, find_tuple-find profile ts (some u))

  matched-found_or :
      (mode : TupleMode) (profile : Profile) (tuples : List (SupportedTuple F))
      → (decision_of_found tools mode (best_match profile tuples)).matched
        ≡ any (tuple_matches tools profile) tuples
  unfolding decision_of_found tuple_decision_of find any
  matched-found_or mode profile [] = refl
  matched-found_or mode profile (t ∷ ts) = ground (arith, matched-found_or mode profile ts)

  evaluate-found :
      (profile : Profile) (mode : TupleMode) (tuples : List (SupportedTuple F))
      → is_off mode ≡ false
      → evaluate_tuple_resolution tools profile mode tuples
        ≡ decision_of_found tools mode (find_tuple tools profile tuples none)
  unfolding evaluate_tuple_resolution
  evaluate-found profile off tuples on = absurd (cc)
  evaluate-found profile shadow tuples on = refl
  evaluate-found profile warn tuples on = refl
  evaluate-found profile enforce tuples on = refl

  -- Unless the layer is off, the decision is that for the first supported tuple that matches the
  -- profile, or else for the first tuple that matches it; and there is a match exactly if some tuple
  -- of the catalog matches, whatever its status.
  pub evaluate_tuple_resolution-best_match :
      (profile : Profile) (mode : TupleMode) (tuples : List (SupportedTuple F))
      → is_off mode ≡ false
      → (evaluate_tuple_resolution tools profile mode tuples
          ≡ decision_of_found tools mode (best_match profile tuples))
        × ((evaluate_tuple_resolution tools profile mode tuples).matched
            ≡ any (tuple_matches tools profile) tuples)
  evaluate_tuple_resolution-best_match profile mode tuples on =
      let e =
        evaluate-found profile mode tuples on
        ∙ ap (decision_of_found tools mode) (find_tuple-find profile tuples none) in
      (e, ap (λ d. d.matched) e ∙ matched-found_or mode profile tuples)
