-- ===== src/Compatibility/Tuples.antt =====
-- The tuple layer: `_tuple_matches` and `_evaluate_tuple_resolution`.
use stack_warden.Base.{
  Text, codes, Bool, true, false, not, ◌||◌, ◌&&◌, Option, none, some, List, [], ◌∷◌, ◌++◌, ◌==◌,
  text_eq, is_empty, lower, if◌then◌else◌,
}
use stack_warden.Specs.Profiles.{Profile, runtime_value}
use stack_warden.Optimization.Facts.{or_else}
use stack_warden.Compatibility.Records.{
  SupportedTuple, supported, tuple_status_value, TupleMode, off, TupleDecision,
}
use stack_warden.Compatibility.Hardware.{Tools, resolve_hardware_id}
use stack_warden.Compatibility.Requirements.{to_float, below, arch_id, os_family_id, os_version_id}
use stack_warden.Compatibility.Cuda.{profile_cuda}

-- a fact against what is expected, where something is
unfoldable pub fact_fits : (expected actual : Text) → Bool
fact_fits expected actual =
    is_empty expected || (not (is_empty actual) && lower expected == lower actual)

-- a family that is not known fits
unfoldable pub family_fits : Option Text → (actual : Text) → Bool
family_fits none actual = true
family_fits (some expected) actual =
    is_empty expected || (is_empty actual || lower expected == lower actual)

abbrev vendor_or_cpu : Text → Text
vendor_or_cpu vendor = if is_empty vendor then codes "cpu" else vendor

module _ {F : Type 0} (tools : Tools F) where
  -- `gpu_vendor_id` and `gpu_family_id` of `_profile_tuple_facts`
  unfoldable pub gpu_vendor_id : Profile → Text
  gpu_vendor_id profile = vendor_or_cpu (
      resolve_hardware_id tools.hardware (codes "gpu_vendor")
        (or_else profile.gpu.vendor_id profile.gpu.vendor))

  unfoldable pub gpu_family_id : Profile → Text
  gpu_family_id profile =
      resolve_hardware_id tools.hardware (codes "gpu_family")
        (or_else profile.gpu.family_id profile.gpu.family)

  -- `_tuple_matches`, without the reason
  unfoldable pub tuple_matches : Profile → SupportedTuple F → Bool
  tuple_matches profile tup =
      let s = tup.selector in
      let cuda = profile_cuda tools profile.cuda in
      fact_fits s.arch (arch_id tools profile)
      && (fact_fits s.os_family_id (os_family_id tools profile)
          && (fact_fits s.os_version_id (os_version_id tools profile)
              && (fact_fits s.container_runtime (lower (runtime_value profile.container_runtime))
                  && (fact_fits s.gpu_vendor_id (gpu_vendor_id profile)
                      && (family_fits s.gpu_family_id (gpu_family_id profile)
                          && (not (below tools cuda s.cuda_min)
                              && (not (below tools s.cuda_max cuda)
                                  && not (
                                      below tools (to_float tools profile.host_facts.driver_version)
                                        s.driver_min))))))))

  -- what the loop returns: a supported tuple, or the first of the others that matched
  pub data Found : Type 0 where
    supported_tuple : SupportedTuple F → Found
    other_tuple : Option (SupportedTuple F) → Found

  abbrev pub is_supported : SupportedTuple F → Bool
  is_supported tup = elim tup.status [ supported ↦ true | _ ↦ false ]

  -- `first_experimental`, set once
  abbrev pub keep_first : Option (SupportedTuple F) → SupportedTuple F → Option (SupportedTuple F)
  keep_first none tup = some tup
  keep_first (some first) tup = some first

  -- the loop over the catalog
  unfoldable pub find_tuple : Profile → List (SupportedTuple F) → Option (SupportedTuple F) → Found
  find_tuple profile [] first = other_tuple first
  find_tuple profile (tup ∷ tups) first =
      let matched = tuple_matches profile tup in
      let rest = find_tuple profile tups (if matched then keep_first first tup else first) in
      if matched && is_supported tup then supported_tuple tup else rest

-- the decision for a tuple that matched
unfoldable pub tuple_decision_of :
    {F : Type 0} → TupleMode → (kind : Text) → SupportedTuple F → TupleDecision
tuple_decision_of mode kind tup = record {
  enabled = true;
  mode = mode;
  matched = true;
  tuple_id = tup.id;
  status = tuple_status_value tup.status;
  message = codes "Matched " ++ (kind ++ (codes " tuple '" ++ (tup.id ++ codes "'.")));
  base_image_hint = tup.base_image;
  wheelhouse_hint = tup.wheelhouse_path;
}

-- the decisions without a tuple
abbrev without_tuple :
    (enabled : Bool) → TupleMode → (matched : Bool) → (status message : Text) → TupleDecision
without_tuple enabled mode matched status message = record {
  enabled = enabled;
  mode = mode;
  matched = matched;
  tuple_id = [];
  status = status;
  message = message;
  base_image_hint = [];
  wheelhouse_hint = [];
}

module _ {F : Type 0} (tools : Tools F) where
  unfoldable pub decision_of_found : TupleMode → Found tools → TupleDecision
  decision_of_found mode (supported_tuple tup) = tuple_decision_of mode (codes "supported") tup
  decision_of_found mode (other_tuple (some tup)) =
      tuple_decision_of mode (codes "experimental") tup
  decision_of_found mode (other_tuple none) =
      without_tuple true mode false (codes "unsupported")
        (codes "No supported tuple matched current profile facts.")

  -- `_evaluate_tuple_resolution`
  unfoldable pub evaluate_tuple_resolution :
      Profile → TupleMode → List (SupportedTuple F) → TupleDecision
  evaluate_tuple_resolution profile off tuples =
      without_tuple false off true (codes "disabled") (codes "Tuple layer disabled.")
  evaluate_tuple_resolution profile mode tuples =
      decision_of_found mode (find_tuple tools profile tuples none)
