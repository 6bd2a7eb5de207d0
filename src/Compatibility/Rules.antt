-- ===== src/Compatibility/Rules.antt =====
-- The rules of the catalog: `_apply_catalog_rule`.
use stack_warden.Base.{
  Text, codes, Bool, true, false, not, ◌||◌, ◌&&◌, Option, none, some, List, [], ◌∷◌, ◌++◌, get,
  filter, Dict, ◌==◌, text_eq, option_eq, is_empty, lower, if◌then◌else◌,
}
use stack_warden.Specs.Profiles.{Profile, arch_value, runtime_value}
use stack_warden.Optimization.Facts.{or_else}
use stack_warden.Compatibility.Records.{
  CompatibilityIssue, Severity, error, warning, info, CompatibilityRule, RulePredicate,
  RuleRequirement,
}
use stack_warden.Compatibility.Hardware.{Tools}
use stack_warden.Compatibility.Requirements.{to_float, below, gpu_vendor, gpu_family}
use stack_warden.Compatibility.Cuda.{profile_cuda}

-- the three lists that the evaluation fills
pub record Findings : Type 0 where
  pub errors : List CompatibilityIssue
  pub warnings : List CompatibilityIssue
  pub infos : List CompatibilityIssue

-- a condition that is not set, or that the value meets
unfoldable pub condition_holds : Option Text → (Text → Bool) → Bool
condition_holds none p = true
condition_holds (some t) p = is_empty t || p t

abbrev is_detected : Text → Bool
is_detected t = t == codes "detected"

-- the field of a violation, where there is one
abbrev field_if : Bool → Text → Option Text
field_if true field = some field
field_if false field = none

abbrev or_next : Option Text → Option Text → Option Text
or_next none next = next
or_next (some field) next = some field

module _ {F : Type 0} (tools : Tools F) where
  -- the rule is about the profile
  unfoldable pub rule_applies : RulePredicate F → Profile → Bool
  rule_applies when profile =
      let capability = to_float tools profile.gpu.compute_capability in
      condition_holds when.arch (λ t. t == arch_value profile.arch)
      && (condition_holds when.os_family
            (λ t. lower (or_else profile.os_family profile.os) == lower t)
          && (condition_holds when.gpu_vendor (λ t. gpu_vendor tools profile == lower t)
              && (condition_holds when.gpu_family (λ t. gpu_family tools profile == lower t)
                  && (not (below tools capability when.compute_capability_min)
                      && not (below tools when.compute_capability_max capability)))))

  unfoldable pub runtime_violation : Option Text → Profile → Bool
  runtime_violation none profile = false
  runtime_violation (some r) profile =
      not (lower (runtime_value profile.container_runtime) == lower r)

  -- a driver that is not known is a violation for a hard rule in strict mode, if it was detected
  unfoldable pub driver_violation :
      (hard : Bool) → (confidence : Dict Text Text) → (driver_min driver : Option F) → Bool
  driver_violation hard confidence none driver = false
  driver_violation hard confidence (some need) none =
      hard && get (codes "driver_version") confidence == some (codes "detected")
  driver_violation hard confidence (some need) (some have) = tools.lt have need

  -- the field that is violated
  unfoldable pub violated_field : (hard : Bool) → RuleRequirement F → Profile → Option Text
  violated_field hard req profile =
      let cuda = profile_cuda tools profile.cuda in
      or_next
        (field_if (runtime_violation req.container_runtime profile) (codes "container_runtime"))
        (or_next
          (field_if
            (driver_violation hard profile.host_facts.confidence req.driver_min
              (to_float tools profile.host_facts.driver_version))
            (codes "driver_version"))
          (field_if (below tools cuda req.cuda_min || below tools req.cuda_max cuda)
            (codes "cuda_runtime")))

  unfoldable pub rule_issue :
      CompatibilityRule F → Severity → (field : Option Text) → Profile → CompatibilityIssue
  rule_issue rule severity field profile = record {
    code = rule.outcome.code;
    severity = severity;
    message = rule.outcome.message;
    rule_id = some rule.id;
    rule_version = some rule.version;
    source = none;
    field = field;
    fix_hint = rule.outcome.fix_hint;
    confidence_context = filter (λ e. not (is_detected e.1)) profile.host_facts.confidence;
  }

  -- the list that an issue goes to
  unfoldable pub file_issue :
      (strict_mode : Bool)
      → CompatibilityRule F
      → (field : Option Text) → Profile
      → Severity
      → Findings
      → Findings
  file_issue strict_mode rule field profile error f =
      if rule.strict_hard && strict_mode
      then record f { errors = f.errors ++ rule_issue rule error field profile ∷ [] }
      else record f { warnings = f.warnings ++ rule_issue rule warning field profile ∷ [] }
  file_issue strict_mode rule field profile warning f = record f {
    warnings = f.warnings ++ rule_issue rule warning field profile ∷ [];
  }
  file_issue strict_mode rule field profile info f = record f {
    infos = f.infos ++ rule_issue rule info field profile ∷ [];
  }

  -- a rule that is not violated leaves only an information
  unfoldable pub file_outcome :
      (strict_mode : Bool)
      → CompatibilityRule F
      → (field : Option Text) → Profile
      → Severity
      → Findings
      → Findings
  file_outcome strict_mode rule none profile info f =
      file_issue strict_mode rule none profile info f
  file_outcome strict_mode rule none profile _ f = f
  file_outcome strict_mode rule (some field) profile severity f =
      file_issue strict_mode rule (some field) profile severity f

  -- `_apply_catalog_rule`
  unfoldable pub apply_catalog_rule :
      (strict_mode : Bool) → CompatibilityRule F → Profile → Findings → Findings
  apply_catalog_rule strict_mode rule profile f =
      if rule_applies rule.when profile
      then file_outcome strict_mode rule
          (violated_field (rule.strict_hard && strict_mode) rule.requires profile) profile
          rule.outcome.severity f
      else f

  -- the loop over the catalog
  unfoldable pub apply_rules :
      (strict_mode : Bool) → List (CompatibilityRule F) → Profile → Findings → Findings
  apply_rules strict_mode [] profile f = f
  apply_rules strict_mode (rule ∷ rules) profile f = apply_rules strict_mode rules profile (
      if not rule.enabled || rule.deprecated
      then f
      else apply_catalog_rule strict_mode rule profile f)
