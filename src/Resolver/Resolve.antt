-- ===== src/Resolver/Resolve.antt =====
-- `resolve` of packages/stackwarden/src/stackwarden/resolvers/resolver.py
use stack_warden.Base.{
  ℕ, pos, Text, codes, Bool, not, Option, none, some, List, [], ◌∷◌, ◌++◌, map, Dict, put, update,
  is_empty, strip, sort_by, text_eq, text_ord, if◌then◌else◌, Result, ok, err, ◌>>=◌, ◌>>◌,
}
use stack_warden.Specs.{VariantValue, pip_mode_value}
use stack_warden.Specs.Profiles.{Profile, Stack, Layer}
use stack_warden.Variants.{text_of}
use stack_warden.Optimization.Facts.{Printing}
use stack_warden.Optimization.Sizing.{risk_value}
use stack_warden.Optimization.Decision.{BuildOptimizationDecision, compute_build_optimization}
use stack_warden.Compatibility.Records.{
  CompatibilityIssue, CompatibilityReport, TupleDecision, TupleMode, mode_value, SupportedTuple,
  CompatibilityRule,
}
use stack_warden.Compatibility.Hardware.{Tools}
use stack_warden.Compatibility.Evaluate.{evaluate_compatibility}
use stack_warden.Resolver.Scoring.{SelectError, select_base, select_base_detailed}
use stack_warden.Resolver.Rules.{evaluate_all}
use stack_warden.Resolver.Validators.{ValidationError, validate_profile, validate_stack}
use stack_warden.Resolver.Fingerprint.{Payload, fingerprint, generate_tag, or_blank}
use stack_warden.Resolver.Hints.{stack_with_tuple_hints}
use stack_warden.Resolver.Plans.{
  Resolution, DecisionRationale, PlanStep, strategy_value, upper, layer_version, build_steps,
  build_rationale,
}

pub data ResolveError : Type 0 where
  invalid : ValidationError → ResolveError
  incompatible : List Text → ResolveError
  no_base : SelectError → ResolveError
  unknown_strategy : ResolveError

-- a value that is written as JSON
pub data Field : Type 0 where
  text : Text → Field
  number : ℕ → Field
  -- in hundredths
  amount : ℕ → Field
  flag : Bool → Field

-- What lies outside: printing, JSON and the hash, and the version of the tool.
pub record Outside : Type 0 where
  pub printing : Printing
  pub sha256_json : Payload → Text
  pub json_variants : Dict Text VariantValue → Text
  pub json_fields : Dict Text Field → Text
  pub builder_version : Text

-- what the clock and `uuid` give to one resolution
pub record Moment : Type 0 where
  pub created_at : Text
  pub uuid : Text

-- the arguments of `resolve`, but for those of the compatibility report
pub record Request : Type 0 where
  pub profile : Profile
  pub stack : Stack
  pub layers : List Layer
  pub base_digest : Option Text
  pub template_hash : Option Text
  pub variants : Dict Text VariantValue
  pub explain : Bool
  pub strict_host_optimization : Bool

abbrev pub lift_error {ℓ} :
    {E : Type 0} {A : Type ℓ} → (E → ResolveError) → Result E A → Result ResolveError A
lift_error f (ok a) = ok a
lift_error f (err e) = err (f e)

abbrev pub messages : List CompatibilityIssue → List Text
messages = map (λ i. i.message)

-- the exception where there are errors: those of the report with their codes, or all
unfoldable pub check_errors :
    CompatibilityReport → (errors : List Text) → Result ResolveError (Unit {0})
check_errors report errors =
    if is_empty (errors ++ messages report.errors)
    then ok tt
    else err (
        incompatible (
          if is_empty report.errors
          then errors
          else map (λ e. e.code ++ (codes ": " ++ e.message)) report.errors))

-- the warnings so far
unfoldable pub first_warnings : Request → CompatibilityReport → List Text
first_warnings r report =
    ((evaluate_all r.profile r.stack).0 ++ (messages report.warnings ++ messages report.info))
    ++ (if is_empty (or_blank r.base_digest)
        then (codes "Base tag is mutable; build may not be reproducible. "
            ++ codes "Consider pinning a digest.")
          ∷ []
        else [])

-- `{variant: str(value)}`
abbrev pub stringified : Dict Text VariantValue → Dict Text Text
stringified = map (λ e. (e.0, text_of e.1))

-- the base image, its tag and the rationale
unfoldable pub choose_base :
    Outside
    → Request
    → Stack
    → CompatibilityReport
    → Result SelectError (Text × Option DecisionRationale)
choose_base o r stack report =
    if r.explain
    then (do
      s ← select_base_detailed o.printing.str r.profile stack
      ok (
        s.candidate.name ++ (codes ":" ++ s.tag),
        some (
            build_rationale r.profile stack s.breakdowns s.reason r.variants
              (not (is_empty (or_blank r.base_digest))) report),
      ))
    else (do best ← select_base r.profile stack; ok (best.0.name ++ (codes ":" ++ best.1), none))

-- `"stackwarden." + name`
abbrev pub label_key : Text → Text
label_key name = codes "stackwarden." ++ name

-- the labels that every plan has, but for the two of the optimization
unfoldable pub fixed_labels :
    Outside → Moment → Request → Stack → TupleDecision → (fp : Text) → Dict Text Text
fixed_labels o now r stack d fp =
    (codes "stackwarden.profile", r.profile.id)
    ∷ (codes "stackwarden.stack", stack.id)
    ∷ (codes "stackwarden.fingerprint", fp)
    ∷ (codes "stackwarden.base_digest", or_blank r.base_digest)
    ∷ (codes "stackwarden.schema_version", o.printing.str (pos stack.schema_version))
    ∷ (codes "stackwarden.profile_schema_version", o.printing.str (pos r.profile.schema_version))
    ∷ (codes "stackwarden.layer_schema_version", o.printing.str (pos (layer_version r.layers)))
    ∷ (codes "stackwarden.block_schema_version", o.printing.str (pos (layer_version r.layers)))
    ∷ (codes "stackwarden.template_hash", or_blank r.template_hash)
    ∷ (codes "stackwarden.build_strategy", strategy_value stack.build_strategy)
    ∷ (codes "stackwarden.pip_install_mode", pip_mode_value stack.components.pip_install_mode)
    ∷ (codes "stackwarden.pip_wheelhouse_path", stack.components.pip_wheelhouse_path)
    ∷ (codes "stackwarden.tuple_id", d.tuple_id)
    ∷ (codes "stackwarden.tuple_status", d.status)
    ∷ (codes "stackwarden.tuple_mode", mode_value d.mode)
    ∷ (codes "stackwarden.tuple_base_image_hint", d.base_image_hint)
    ∷ (codes "stackwarden.tuple_wheelhouse_hint", d.wheelhouse_hint)
    ∷ (codes "stackwarden.builder_version", o.builder_version)
    ∷ (codes "stackwarden.created_at", now.created_at)
    ∷ []

-- `if test: d[key] = value`
abbrev pub put_if : Bool → Text → Text → Dict Text Text → Dict Text Text
put_if test key value d = if test then put key value d else d

-- the JSON of the label `build_optimization`
abbrev build_fields : BuildOptimizationDecision → Dict Text Field
build_fields b =
    (codes "strategy", text b.strategy)
    ∷ (codes "cpu_parallelism", number b.cpu_parallelism)
    ∷ (codes "memory_budget_gb", amount b.memory_budget_gb)
    ∷ (codes "oom_risk", text (risk_value b.oom_risk))
    ∷ []

-- the JSON of the label `host_optimization`
abbrev host_fields : BuildOptimizationDecision → Dict Text Field
host_fields b =
    (codes "policy", text b.policy)
    ∷ (codes "strict_host_specific", flag b.strict_host_specific)
    ∷ (codes "host_signature", text b.host_signature)
    ∷ (codes "gpu_family", text b.gpu_family)
    ∷ (codes "gpu_compute_capability", text b.gpu_compute_capability)
    ∷ (codes "driver_version", text b.driver_version)
    ∷ (codes "torch_dtype", text b.torch_dtype)
    ∷ (codes "attention_backend", text b.attention_backend)
    ∷ (codes "torch_compile_enabled", flag b.torch_compile_enabled)
    ∷ (codes "tf32_enabled", flag b.tf32_enabled)
    ∷ []

-- all labels
unfoldable pub plan_labels :
    Outside
    → Moment
    → Request
    → Stack
    → TupleDecision
    → (fp : Text) → BuildOptimizationDecision
    → Dict Text Text
plan_labels o now r stack d fp b =
    let hint = strip d.wheelhouse_hint in
    put (codes "stackwarden.host_optimization") (o.json_fields (host_fields b)) (
      put (codes "stackwarden.build_optimization") (o.json_fields (build_fields b)) (
        put_if (not (is_empty hint)) (codes "stackwarden.pip_wheelhouse_path_hint") hint (
          put_if (not (is_empty r.variants)) (codes "stackwarden.variants")
            (o.json_variants (sort_by (λ e. e.0) r.variants)) (fixed_labels o now r stack d fp))))

-- the arguments of the build
unfoldable pub plan_build_args :
    Request → TupleDecision → BuildOptimizationDecision → Dict Text Text
plan_build_args r d b =
    let hint = strip d.wheelhouse_hint in
    update (map (λ e. (codes "VARIANT_" ++ upper e.0, text_of e.1)) r.variants) (
      put_if (not (is_empty hint)) (codes "STACKWARDEN_PIP_WHEELHOUSE_PATH_HINT") hint
        (update b.build_args ((codes "PYTHON_VERSION", r.profile.python) ∷ [])))

-- the plan, from the parts that were computed
unfoldable pub assemble :
    Outside
    → Moment
    → Request
    → Stack
    → CompatibilityReport
    → (base_image : Text) → Option DecisionRationale
    → (fp : Text) → BuildOptimizationDecision
    → List PlanStep
    → Resolution
assemble o now r stack report base_image rationale fp b steps = record {
  plan = record {
    plan_id = codes "plan_" ++ now.uuid;
    profile_id = r.profile.id;
    stack_id = r.stack.id;
    decision = record {
      base_image = base_image;
      base_digest = r.base_digest;
      builder = strategy_value r.stack.build_strategy;
      warnings = first_warnings r report ++ b.warnings;
    };
    artifact = record {
      tag = generate_tag stack r.profile fp;
      fingerprint = fp;
      labels = plan_labels o now r stack report.tuple_decision fp b;
    };
  };
  steps = steps;
  rationale = rationale;
  tuple_decision = report.tuple_decision;
  build_optimization = b;
}

abbrev pub or_unknown : Option (List PlanStep) → Result ResolveError (List PlanStep)
or_unknown none = err unknown_strategy
or_unknown (some steps) = ok steps

-- `fingerprint` of the request, for a stack with its hints and a base image
unfoldable pub request_fingerprint : Outside → Request → Stack → (base_image : Text) → Text
request_fingerprint o r stack base_image =
    fingerprint o.builder_version o.sha256_json r.profile stack base_image r.base_digest
      r.template_hash (stringified r.variants) none

-- `resolve`, given the report of `evaluate_compatibility`
unfoldable pub resolve_with :
    Outside → Moment → Request → CompatibilityReport → Result ResolveError Resolution
resolve_with o now r report = do
  lift_error invalid (validate_profile r.profile)
  lift_error invalid (validate_stack r.stack)
  check_errors report (evaluate_all r.profile r.stack).1
  let stack = stack_with_tuple_hints r.stack report.tuple_decision
  base ← lift_error no_base (choose_base o r stack report)
  let fp = request_fingerprint o r stack base.0
  b ←
      lift_error (λ (e : Text). incompatible (e ∷ []))
        (compute_build_optimization o.printing r.profile stack r.layers r.strict_host_optimization)
  let labels = plan_labels o now r stack report.tuple_decision fp b
  steps ← or_unknown (
      build_steps stack.build_strategy base.0 (generate_tag stack r.profile fp) labels
        (plan_build_args r report.tuple_decision b) b.buildx_flags)
  ok (assemble o now r stack report base.0 base.1 fp b steps)

-- `resolve`
unfoldable pub resolve :
    {F : Type 0}
    → Tools F
    → Outside
    → Moment
    → Request
    → (strict_mode : Bool) → TupleMode
    → List (SupportedTuple F)
    → List (CompatibilityRule F)
    → Result ResolveError Resolution
resolve tools o now r strict_mode mode tuples rules =
    resolve_with o now r
      (evaluate_compatibility tools r.profile r.stack r.layers strict_mode mode tuples rules)
