-- ===== src/Compatibility/Passing.antt =====
-- When a profile is compatible: `evaluate_compatibility` of
-- packages/stackwarden/src/stackwarden/resolvers/compatibility.py
use stack_warden.Base.{
  Text, Bool, true, false, not, ◌||◌, ◌&&◌, Option, none, some, List, [], ◌∷◌, ◌++◌, any, mem,
  is_empty, if◌then◌else◌, ◌≡◌, refl, arith, Bool-cases, inl, inr, ◌∙◌, text_eq, List-cases,
}
use stack_warden.Specs.Profiles.{Profile, Stack, Layer, Value, text, list, mapping, other}
use stack_warden.Compatibility.Records.{
  CompatibilityIssue, Severity, error, warning, info, SupportedTuple, CompatibilityRule, TupleMode,
  off, shadow, warn, enforce, TupleDecision,
}
use stack_warden.Compatibility.Hardware.{Tools}
use stack_warden.Compatibility.Requirements.{
  Req, unless, handle_arch, handle_os, handle_os_family, handle_os_version, handle_gpu_vendor,
  handle_gpu_family, handle_runtime, handle_driver_min,
}
use stack_warden.Compatibility.Cuda.{
  Kind, arch, os, os_family, os_version, gpu_vendor, gpu_family, runtime, driver_min, cuda_runtime,
  kind_of, cuda_issues, cuda_met, handle_cuda_runtime, handle_kind, handle, kind_met, is_met,
}
use stack_warden.Compatibility.Tuples.{evaluate_tuple_resolution}
use stack_warden.Compatibility.Rules.{
  Findings, rule_applies, violated_field, file_issue, file_outcome, apply_catalog_rule, apply_rules,
}
use stack_warden.Compatibility.Evaluate.{
  layer_conflicts, all_conflicts, all_requirements, file_mismatch, file_tuple, report_of,
  handle_all, layer_findings, evaluate_compatibility,
}

is_empty-append :
    (xs ys : List CompatibilityIssue) → is_empty (xs ++ ys) ≡ (is_empty xs && is_empty ys)
is_empty-append [] ys = refl
is_empty-append (x ∷ xs) ys = refl

is_empty-unless : (b : Bool) (i : CompatibilityIssue) → is_empty (unless b i) ≡ b
is_empty-unless true i = refl
is_empty-unless false i = refl

-- a layer is incompatible with one of the stack
abbrev pub conflicts_with : List Text → Layer → Bool
conflicts_with stack_layers layer = any (λ o. mem o stack_layers) layer.incompatible_with

is_empty-layer_conflicts :
    (id : Text) (others stack_layers : List Text)
    → is_empty (layer_conflicts id others stack_layers) ≡ not (any (λ o. mem o stack_layers) others)
unfolding layer_conflicts any
is_empty-layer_conflicts id [] stack_layers = refl
is_empty-layer_conflicts id (o ∷ others) stack_layers =
    ground (arith, is_empty-layer_conflicts id others stack_layers)

is_empty-all_conflicts :
    (layers : List Layer) (stack_layers : List Text)
    → is_empty (all_conflicts layers stack_layers) ≡ not (any (conflicts_with stack_layers) layers)
unfolding all_conflicts any
is_empty-all_conflicts [] stack_layers = refl
is_empty-all_conflicts (layer ∷ layers) stack_layers = ground (
  arith,
  is_empty-append (layer_conflicts layer.id layer.incompatible_with stack_layers)
      (all_conflicts layers stack_layers),
  is_empty-layer_conflicts layer.id layer.incompatible_with stack_layers,
  is_empty-all_conflicts layers stack_layers,
)

module _ {F : Type 0} (tools : Tools F) where
  is_empty-cuda_issues :
      (req : Req) (v : Value) (profile : Profile)
      → is_empty (cuda_issues tools req v profile.cuda) ≡ cuda_met tools v profile.cuda
  unfolding cuda_issues cuda_met
  is_empty-cuda_issues req (text t) profile = refl
  is_empty-cuda_issues req (list t allowed) profile = simp (is_empty-unless) refl
  is_empty-cuda_issues req (mapping t d) profile = simp (is_empty-append, is_empty-unless) refl
  is_empty-cuda_issues req (other t b) profile = refl

  is_empty-handle_kind :
      (k : Option Kind) (req : Req) (profile : Profile)
      → is_empty (handle_kind tools k req profile) ≡ kind_met tools k req.value profile
  unfolding handle_kind kind_met handle_arch handle_os handle_os_family handle_os_version
      handle_gpu_vendor handle_gpu_family handle_runtime handle_driver_min handle_cuda_runtime
  is_empty-handle_kind none req profile = refl
  is_empty-handle_kind (some arch) req profile = is_empty-unless _ _
  is_empty-handle_kind (some os) req profile = is_empty-unless _ _
  is_empty-handle_kind (some os_family) req profile = is_empty-unless _ _
  is_empty-handle_kind (some os_version) req profile = is_empty-unless _ _
  is_empty-handle_kind (some gpu_vendor) req profile = is_empty-unless _ _
  is_empty-handle_kind (some gpu_family) req profile = is_empty-unless _ _
  is_empty-handle_kind (some runtime) req profile = is_empty-unless _ _
  is_empty-handle_kind (some driver_min) req profile = is_empty-unless _ _
  is_empty-handle_kind (some cuda_runtime) req profile = is_empty-cuda_issues req req.value profile

  is_empty-handle_all :
      (reqs : List Req) (profile : Profile)
      → is_empty (handle_all tools reqs profile)
        ≡ not (any (λ r. not (is_met tools r profile)) reqs)
  unfolding handle_all handle is_met any
  is_empty-handle_all [] profile = refl
  is_empty-handle_all (req ∷ reqs) profile = ground (
    arith,
    is_empty-append (handle_kind tools (kind_of req.key) req profile)
        (handle_all tools reqs profile),
    is_empty-handle_kind (kind_of req.key) req profile,
    is_empty-handle_all reqs profile,
  )

  abbrev is_error : Severity → Bool
  is_error error = true
  is_error _ = false

  abbrev is_violation : Option Text → Bool
  is_violation none = false
  is_violation (some field) = true

  -- a rule that turns a profile down: an enabled one about the profile, violated, of severity
  -- `error`, hard, in strict mode
  abbrev pub blocks : (strict_mode : Bool) → Profile → CompatibilityRule F → Bool
  blocks strict_mode profile rule =
      rule.enabled
      && (not rule.deprecated
          && (rule_applies tools rule.when profile
              && (is_violation
                    (violated_field tools (rule.strict_hard && strict_mode) rule.requires profile)
                  && (is_error rule.outcome.severity && (rule.strict_hard && strict_mode)))))

  errors-file_issue :
      (strict_mode : Bool) (rule : CompatibilityRule F) (field : Option Text) (profile : Profile)
      (severity : Severity) (f : Findings)
      → is_empty (file_issue tools strict_mode rule field profile severity f).errors
        ≡ (is_empty f.errors && not (is_error severity && (rule.strict_hard && strict_mode)))
  unfolding file_issue
  errors-file_issue strict_mode rule field profile error f = elim (List-cases f.errors) [
    | inl clean ↦ ground (arith, clean)
    | inr (x, xs, dirty) ↦ ground (arith, dirty)
  ]
  errors-file_issue strict_mode rule field profile warning f = ground arith
  errors-file_issue strict_mode rule field profile info f = ground arith

  errors-file_outcome :
      (strict_mode : Bool) (rule : CompatibilityRule F) (field : Option Text) (profile : Profile)
      (severity : Severity) (f : Findings)
      → is_empty (file_outcome tools strict_mode rule field profile severity f).errors ≡ (
          is_empty f.errors
          && not (is_violation field && (is_error severity && (rule.strict_hard && strict_mode))))
  unfolding file_outcome
  errors-file_outcome strict_mode rule none profile error f = ground arith
  errors-file_outcome strict_mode rule none profile warning f = ground arith
  errors-file_outcome strict_mode rule none profile info f =
      ground (arith, errors-file_issue strict_mode rule none profile info f)
  errors-file_outcome strict_mode rule (some field) profile severity f =
      ground (arith, errors-file_issue strict_mode rule (some field) profile severity f)

  errors-apply_catalog_rule :
      (strict_mode : Bool) (rule : CompatibilityRule F) (profile : Profile) (f : Findings)
      → is_empty (apply_catalog_rule tools strict_mode rule profile f).errors ≡ (
          is_empty f.errors
          && not (
              rule_applies tools rule.when profile
              && (is_violation
                    (violated_field tools (rule.strict_hard && strict_mode) rule.requires profile)
                  && (is_error rule.outcome.severity && (rule.strict_hard && strict_mode)))))
  unfolding apply_catalog_rule
  errors-apply_catalog_rule strict_mode rule profile f =
      let field = violated_field tools (rule.strict_hard && strict_mode) rule.requires profile in
      elim (Bool-cases (rule_applies tools rule.when profile)) [
        | inl about ↦
            rw (is_empty, about)
              (ground
                (arith, errors-file_outcome strict_mode rule field profile rule.outcome.severity f))
        | inr elsewhere ↦ rw (is_empty, elsewhere) (ground arith)
      ]

  errors-apply_rules :
      (strict_mode : Bool) (rules : List (CompatibilityRule F)) (profile : Profile) (f : Findings)
      → is_empty (apply_rules tools strict_mode rules profile f).errors
        ≡ (is_empty f.errors && not (any (blocks strict_mode profile) rules))
  unfolding apply_rules any
  errors-apply_rules strict_mode [] profile f = ground arith
  errors-apply_rules strict_mode (rule ∷ rules) profile f =
      let g = apply_catalog_rule tools strict_mode rule profile f in
      elim (Bool-cases (not rule.enabled || rule.deprecated)) [
        | inl skipped ↦
            errors-apply_rules strict_mode rules profile
              (if not rule.enabled || rule.deprecated then f else g)
            ∙ simp (skipped) (ground arith)
        | inr used ↦
            errors-apply_rules strict_mode rules profile
              (if not rule.enabled || rule.deprecated then f else g)
            ∙ simp (used) (ground (arith, errors-apply_catalog_rule strict_mode rule profile f))
      ]

  abbrev is_enforced : TupleMode → Bool
  is_enforced enforce = true
  is_enforced _ = false

  errors-file_mismatch :
      (mode : TupleMode) (message : Text) (f : Findings)
      → is_empty (file_mismatch mode message f).errors
        ≡ (is_empty f.errors && not (is_enforced mode))
  unfolding file_mismatch
  errors-file_mismatch off message f = ground arith
  errors-file_mismatch shadow message f = ground arith
  errors-file_mismatch warn message f = ground arith
  errors-file_mismatch enforce message f = elim (List-cases f.errors) [
    | inl clean ↦ ground (arith, clean)
    | inr (x, xs, dirty) ↦ ground (arith, dirty)
  ]

  errors-file_tuple :
      (mode : TupleMode) (d : TupleDecision) (f : Findings)
      → is_empty (file_tuple mode d f).errors
        ≡ (is_empty f.errors && not (is_enforced mode && not d.matched))
  unfolding file_tuple file_mismatch
  errors-file_tuple mode d f = elim (Bool-cases d.matched) [
    | inl hit ↦ simp (hit) (ground arith)
    | inr miss ↦ simp (miss) (errors-file_mismatch mode d.message f ∙ ground (arith, miss))
  ]

  -- A profile is compatible with a stack and its layers exactly if no layer is incompatible with a
  -- layer of the stack, the profile meets every requirement of the layers, a tuple of the catalog
  -- matched where the tuple layer is enforced, and no rule turns the profile down; outside strict
  -- mode no rule does.
  pub evaluate_compatibility-compatible :
      (profile : Profile) (stack : Stack) (layers : List Layer) (strict_mode : Bool)
      (mode : TupleMode) (tuples : List (SupportedTuple F)) (rules : List (CompatibilityRule F))
      → let report =
          evaluate_compatibility tools profile stack layers strict_mode mode tuples rules in
        (report.compatible ≡ is_empty report.errors)
        × (report.compatible ≡ (
            not (any (conflicts_with stack.layers) layers)
            && (not (any (λ r. not (is_met tools r profile)) (all_requirements layers))
                && (not (
                      is_enforced mode
                      && not (evaluate_tuple_resolution tools profile mode tuples).matched)
                    && not (any (blocks strict_mode profile) rules)))))
  unfolding evaluate_compatibility report_of layer_findings
  evaluate_compatibility-compatible profile stack layers strict_mode mode tuples rules =
      let d = evaluate_tuple_resolution tools profile mode tuples in
      let f = layer_findings tools profile stack layers in
      (
        refl,
        ground (
          arith,
          errors-apply_rules strict_mode rules profile (file_tuple mode d f),
          errors-file_tuple mode d f,
          is_empty-append (all_conflicts layers stack.layers)
              (handle_all tools (all_requirements layers) profile),
          is_empty-all_conflicts layers stack.layers,
          is_empty-handle_all (all_requirements layers) profile,
        ),
      )
