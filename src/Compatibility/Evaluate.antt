-- ===== src/Compatibility/Evaluate.antt =====
-- `evaluate_compatibility`
use stack_warden.Base.{
  Text, codes, Bool, ◌||◌, Option, none, some, List, [], ◌∷◌, ◌++◌, map, mem, get, Dict, ◌==◌,
  text_eq, is_empty, strip, lower, starts_with, if◌then◌else◌,
}
use stack_warden.Specs.{AnyValue, text, other}
use stack_warden.Specs.Profiles.{Profile, Stack, Layer, Value}
use stack_warden.Optimization.Facts.{curated_scope}
use stack_warden.Compatibility.Records.{
  CompatibilityIssue, Severity, error, warning, info, CompatibilityRule, SupportedTuple, TupleMode,
  off, enforce, TupleDecision, CompatibilityReport,
}
use stack_warden.Compatibility.Hardware.{Tools}
use stack_warden.Compatibility.Requirements.{Req}
use stack_warden.Compatibility.Cuda.{handle}
use stack_warden.Compatibility.Tuples.{evaluate_tuple_resolution}
use stack_warden.Compatibility.Rules.{Findings, apply_rules}

abbrev shown_any : Option AnyValue → Text
shown_any none = []
shown_any (some (text t)) = t
shown_any (some (other t)) = t

-- `_stack_certification`, where any other word stands for `generic_best_effort`
unfoldable pub stack_certification : Stack → Text
stack_certification stack = lower (
    strip (
      shown_any
        (get (codes "stackwarden_certification") stack.provenance.requirements.constraints)))

-- `_is_dgx_profile`
unfoldable pub is_dgx_profile : Profile → Bool
is_dgx_profile profile =
    let tags = map (λ t. lower (strip t)) profile.tags in
    starts_with (lower (strip profile.id)) (codes "dgx_")
    || (mem (codes "dgx") tags || (mem (codes "dgx-spark") tags || curated_scope profile))

abbrev certification_issue : Stack → (code message fix_hint : Text) → CompatibilityIssue
certification_issue stack code message fix_hint = record {
  code = code;
  severity = warning;
  message = message;
  rule_id = none;
  rule_version = none;
  source = some stack.id;
  field = some (codes "requirements.constraints.stackwarden_certification");
  fix_hint = some fix_hint;
  confidence_context = [];
}

-- the warning for a stack that is certified or optimized for other machines
unfoldable pub certification_warnings : Profile → Stack → List CompatibilityIssue
certification_warnings profile stack =
    if is_dgx_profile profile
    then []
    else if stack_certification stack == codes "dgx_certified"
    then certification_issue stack (codes "DGX_CERTIFIED_STACK_BEST_EFFORT")
        (codes "Selected stack is DGX-certified, but current profile is not classified as DGX. "
          ++ codes "Build remains allowed in best-effort mode.")
        (codes "Use a DGX profile for certified behavior, or continue with explicit best-effort "
          ++ codes "expectations.")
      ∷ []
    else if stack_certification stack == codes "dgx_optimized"
    then certification_issue stack (codes "DGX_OPTIMIZED_STACK_PORTABILITY_WARNING")
        (codes
            "Selected stack is optimized for DGX profiles. Current non-DGX profile remains allowed, "
          ++ codes "but performance and memory behavior may not be optimal.")
        (codes "Use a DGX profile for optimized behavior, or continue with explicit portability "
          ++ codes "expectations.")
      ∷ []
    else []

unfoldable pub conflict_issue : (layer_id other_id : Text) → CompatibilityIssue
conflict_issue layer_id other_id = record {
  code = codes "LAYER_CONFLICT";
  severity = error;
  message =
      codes "Layer '"
      ++ (layer_id ++ (codes "' is incompatible with '" ++ (other_id ++ codes "'")));
  rule_id = some (codes "layer-incompatible-with");
  rule_version = some 1;
  source = some layer_id;
  field = some (codes "incompatible_with");
  fix_hint = some (
      codes "Remove either '"
      ++ (layer_id ++ (codes "' or '" ++ (other_id ++ codes "' from stack layers"))));
  confidence_context = [];
}

-- the conflicts of a layer with those of the stack
unfoldable pub layer_conflicts : (layer_id : Text) → List Text → List Text → List CompatibilityIssue
layer_conflicts layer_id [] stack_layers = []
layer_conflicts layer_id (o ∷ others) stack_layers =
    let rest = layer_conflicts layer_id others stack_layers in
    if mem o stack_layers then conflict_issue layer_id o ∷ rest else rest

unfoldable pub all_conflicts : List Layer → List Text → List CompatibilityIssue
all_conflicts [] stack_layers = []
all_conflicts (layer ∷ layers) stack_layers =
    layer_conflicts layer.id layer.incompatible_with stack_layers
    ++ all_conflicts layers stack_layers

unfoldable pub requirements_of : Text → Dict Text Value → List Req
requirements_of layer_id [] = []
requirements_of layer_id ((k, v) ∷ d) =
    record { layer_id = layer_id; key = k; value = v } ∷ requirements_of layer_id d

unfoldable pub all_requirements : List Layer → List Req
all_requirements [] = []
all_requirements (layer ∷ layers) =
    requirements_of layer.id layer.requires ++ all_requirements layers

abbrev pub tuple_issue : (code : Text) → Severity → (message : Text) → CompatibilityIssue
tuple_issue code severity message = record {
  code = code;
  severity = severity;
  message = message;
  rule_id = none;
  rule_version = none;
  source = some (codes "tuple_catalog");
  field = none;
  fix_hint = none;
  confidence_context = [];
}

-- a tuple that is missing, as an error or a warning
unfoldable pub mismatch_issue : Severity → (message : Text) → CompatibilityIssue
mismatch_issue severity message =
    record (tuple_issue (codes "TUPLE_UNSUPPORTED") severity message) {
      field = some (codes "profile");
      fix_hint = some (
          codes "Adjust profile hardware facts or choose a tuple-supported profile/layer "
          ++ codes "combination.");
    }

-- what a decision that matched no tuple adds, by the mode
unfoldable pub file_mismatch : TupleMode → (message : Text) → Findings → Findings
file_mismatch enforce message f = record f {
  errors = f.errors ++ mismatch_issue error message ∷ [];
}
file_mismatch off message f = f
file_mismatch _ message f = record f {
  warnings = f.warnings ++ mismatch_issue warning message ∷ [];
}

unfoldable pub file_tuple : TupleMode → TupleDecision → Findings → Findings
file_tuple mode d f =
    if d.matched
    then record f {
      infos =
          f.infos
          ++ tuple_issue (codes "TUPLE_MATCHED") info (codes "Resolved tuple: " ++ d.tuple_id) ∷ [];
    }
    else file_mismatch mode d.message f

unfoldable pub compat_ok : CompatibilityIssue
compat_ok = record {
  code = codes "COMPAT_OK";
  severity = info;
  message = codes "Compatibility checks passed with current profile and stack selection.";
  rule_id = none;
  rule_version = none;
  source = none;
  field = none;
  fix_hint = none;
  confidence_context = [];
}

unfoldable pub report_of : TupleDecision → Findings → CompatibilityReport
report_of d f = record {
  compatible = is_empty f.errors;
  errors = f.errors;
  warnings = f.warnings;
  info = if is_empty f.errors then f.infos ++ compat_ok ∷ [] else f.infos;
  tuple_decision = d;
}

module _ {F : Type 0} (tools : Tools F) where
  -- the issues of the requirements, in their order
  unfoldable pub handle_all : List Req → Profile → List CompatibilityIssue
  handle_all [] profile = []
  handle_all (req ∷ reqs) profile = handle tools req profile ++ handle_all reqs profile

  -- what is found before the tuple layer and the rules
  unfoldable pub layer_findings : Profile → Stack → List Layer → Findings
  layer_findings profile stack layers = record {
    errors = all_conflicts layers stack.layers ++ handle_all (all_requirements layers) profile;
    warnings = certification_warnings profile stack;
    infos = [];
  }

  -- `evaluate_compatibility`
  unfoldable pub evaluate_compatibility :
      Profile
      → Stack
      → List Layer
      → (strict_mode : Bool) → TupleMode
      → List (SupportedTuple F)
      → List (CompatibilityRule F)
      → CompatibilityReport
  evaluate_compatibility profile stack layers strict_mode mode tuples rules =
      let d = evaluate_tuple_resolution tools profile mode tuples in
      report_of d (
        apply_rules tools strict_mode rules profile
          (file_tuple mode d (layer_findings profile stack layers)))
