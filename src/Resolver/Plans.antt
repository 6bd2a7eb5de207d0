-- ===== src/Resolver/Plans.antt =====
-- What a resolved plan consists of: packages/stackwarden/src/stackwarden/domain/models.py and the
-- helpers of resolvers/resolver.py
use stack_warden.Base.{
  ℕ, Text, codes, Bool, ◌&&◌, Option, none, some, List, [], ◌∷◌, ◌++◌, map, Dict, ltb, leb, ◌-◌,
  sort_by, text_ord, if◌then◌else◌,
}
use stack_warden.Specs.{BuildStrategy, pull, overlay, VariantValue}
use stack_warden.Specs.Profiles.{Profile, Stack, Layer}
use stack_warden.Variants.{text_of}
use stack_warden.Builds.Plans.{Plan}
use stack_warden.Optimization.Decision.{BuildOptimizationDecision}
use stack_warden.Compatibility.Records.{CompatibilityReport, TupleDecision}
use stack_warden.Resolver.Scoring.{ScoreBreakdown}
use stack_warden.Resolver.Rules.{
  check_arch_compatibility, check_serve_disallowed, check_required_capabilities, is_error,
  remove_error_prefix,
}

pub record PlanStep : Type 0 where
  pub type : Text
  pub image : Option Text
  pub dockerfile_template : Option Text
  pub context_dir : Option Text
  pub build_args : Dict Text Text
  pub buildx_flags : List Text
  pub tags : List Text
  pub labels : Dict Text Text

pub record RuleFired : Type 0 where
  pub rule : Text
  pub outcome : Text
  pub detail : Text

pub record DecisionRationale : Type 0 where
  pub rules_fired : List RuleFired
  pub candidates : List ScoreBreakdown
  pub selected_reason : Text
  pub variant_effects : List Text
  pub base_digest_status : Text
  pub compatibility_report : CompatibilityReport

-- A plan, with the fields that only the resolver fills.
pub record Resolution : Type 0 where
  pub plan : Plan
  pub steps : List PlanStep
  pub rationale : Option DecisionRationale
  pub tuple_decision : TupleDecision
  pub build_optimization : BuildOptimizationDecision

abbrev pub strategy_value : BuildStrategy → Text
strategy_value pull = codes "pull"
strategy_value overlay = codes "overlay"
strategy_value BuildStrategy.dockerfile_template = codes "dockerfile_template"
strategy_value BuildStrategy.custom = codes "custom"

-- `k.upper()`, of the ASCII letters
unfoldable pub upper : Text → Text
upper = map (λ c. if leb 97 c && leb c 122 then c - 32 else c)

-- `max((layer.schema_version for layer in layers), default=1)`
unfoldable pub layer_version : List Layer → ℕ
layer_version [] = 1
layer_version (layer ∷ []) = layer.schema_version
layer_version (layer ∷ l ∷ layers) =
    let rest = layer_version (l ∷ layers) in
    if ltb layer.schema_version rest then rest else layer.schema_version

-- the pull of the base, which every plan starts with
abbrev pull_step : Text → PlanStep
pull_step base_image = record {
  type = codes "pull";
  image = some base_image;
  dockerfile_template = none;
  context_dir = none;
  build_args = [];
  buildx_flags = [];
  tags = [];
  labels = [];
}

-- `_build_steps`, `none` for a strategy that is not known
unfoldable pub build_steps :
    BuildStrategy
    → (base_image tag : Text) → (labels build_args : Dict Text Text) → List Text
    → Option (List PlanStep)
build_steps overlay base_image tag labels build_args buildx_flags = some (
    pull_step base_image
    ∷ record {
      type = codes "build_overlay";
      image = none;
      dockerfile_template = some (codes "specs/templates/Dockerfile.overlay.j2");
      context_dir = some (codes ".");
      build_args = build_args;
      buildx_flags = buildx_flags;
      tags = tag ∷ [];
      labels = labels;
    }
    ∷ [])
build_steps pull base_image tag labels build_args buildx_flags = some (
    pull_step base_image
    ∷ record (pull_step base_image) { type = codes "tag"; tags = tag ∷ []; labels = labels }
    ∷ [])
build_steps _ base_image tag labels build_args buildx_flags = none

-- what a rule fired, or that it passed
unfoldable pub fired : (rule : Text) → List Text → List RuleFired
fired rule [] = record { rule = rule; outcome = codes "pass"; detail = [] } ∷ []
fired rule (i ∷ issues) =
    map
      (λ issue. record {
        rule = rule;
        outcome = if is_error issue then codes "fail" else codes "warn";
        detail = remove_error_prefix issue;
      })
      (i ∷ issues)

-- `_build_rationale`
unfoldable pub build_rationale :
    Profile
    → Stack
    → List ScoreBreakdown
    → (selected_reason : Text) → Dict Text VariantValue
    → (has_digest : Bool) → CompatibilityReport
    → DecisionRationale
build_rationale profile stack breakdowns selected_reason variants has_digest report = record {
  rules_fired =
      fired (codes "check_arch_compatibility") (check_arch_compatibility profile stack)
      ++ (fired (codes "check_serve_disallowed") (check_serve_disallowed profile stack)
          ++ fired (codes "check_required_capabilities")
              (check_required_capabilities profile stack));
  candidates = breakdowns;
  selected_reason = selected_reason;
  variant_effects =
      map
        (λ e.
          codes "VARIANT_"
          ++ (upper e.0 ++ (codes "=" ++ (text_of e.1 ++ codes " added as build arg"))))
        (sort_by (λ e. e.0) variants);
  base_digest_status = if has_digest then codes "known" else codes "unknown_until_pull";
  compatibility_report = report;
}
