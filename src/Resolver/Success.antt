-- ===== src/Resolver/Success.antt =====
-- When a resolution succeeds: packages/stackwarden/src/stackwarden/resolvers/resolver.py
use stack_warden.Base.{
  Text, Bool, true, false, ◌&&◌, List, [], ◌∷◌, ◌++◌, is_empty, Result, ok, err, ◌>>=◌, is_ok, ◌≡◌,
  refl, sym, ◌∙◌, arith,
}
use stack_warden.Specs.{BuildStrategy, pull, overlay, dockerfile_template}
use stack_warden.Specs.Profiles.{Stack}
use stack_warden.Optimization.Decision.{compute_build_optimization}
use stack_warden.Compatibility.Records.{CompatibilityReport, CompatibilityIssue}
use stack_warden.Resolver.Selection.{select_base-IsBest}
use stack_warden.Resolver.Rules.{evaluate_all}
use stack_warden.Resolver.Validators.{validate_profile, validate_stack}
use stack_warden.Resolver.Fingerprint.{generate_tag}
use stack_warden.Resolver.Hints.{stack_with_tuple_hints}
use stack_warden.Resolver.Plans.{build_steps}
use stack_warden.Resolver.Resolve.{
  ResolveError, Outside, Moment, Request, lift_error, messages, check_errors, choose_base,
  or_unknown, plan_labels, plan_build_args, request_fingerprint, resolve_with, invalid, no_base,
  incompatible,
}
use stack_warden.Resolver.Resolved.{hinted}

and_true : (b : Bool) → (b && true) ≡ b
and_true true = refl
and_true false = refl

-- a step succeeds if `x` says so, and the rest if `b` does
is_ok-step :
    {A B : Type 0} (m : Result ResolveError A) (next : A → Result ResolveError B) (x b : Bool)
    → is_ok m ≡ x
    → ((a : A) → is_ok (next a) ≡ b)
    → is_ok (m >>= next) ≡ (x && b)
is_ok-step (err e) next x b h k = rw (sym h) refl
is_ok-step (ok a) next x b h k = rw (sym h) (k a)

is_ok-lift_error :
    {E A : Type 0} (f : E → ResolveError) (m : Result E A) → is_ok (lift_error f m) ≡ is_ok m
is_ok-lift_error f (ok a) = refl
is_ok-lift_error f (err e) = refl

is_empty-messages :
    (errors : List Text) (issues : List CompatibilityIssue)
    → is_empty (errors ++ messages issues) ≡ (is_empty errors && is_empty issues)
is_empty-messages [] [] = refl
is_empty-messages [] (i ∷ issues) = refl
is_empty-messages (e ∷ errors) issues = refl

is_ok-check_errors :
    (report : CompatibilityReport) (errors : List Text)
    → is_ok (check_errors report errors) ≡ (is_empty errors && is_empty report.errors)
unfolding check_errors
is_ok-check_errors report errors = ground (arith, is_empty-messages errors report.errors)

-- without its scores, the selection always gives a base
is_ok-choose_base :
    (o : Outside) (r : Request) (stack : Stack) (report : CompatibilityReport)
    → r.explain ≡ false
    → is_ok (choose_base o r stack report) ≡ true
unfolding choose_base
is_ok-choose_base o r stack report plain =
    let (best, chosen, is_best) = select_base-IsBest r.profile stack in
    rw (choose_base, plain, chosen) refl

abbrev pub is_built : BuildStrategy → Bool
is_built pull = true
is_built overlay = true
is_built _ = false

is_ok-build_steps :
    (strategy : BuildStrategy) (base tag : Text) (labels args : List (Text × Text))
    (flags : List Text)
    → is_ok (or_unknown (build_steps strategy base tag labels args flags)) ≡ is_built strategy
unfolding build_steps
is_ok-build_steps pull base tag labels args flags = refl
is_ok-build_steps overlay base tag labels args flags = refl
is_ok-build_steps dockerfile_template base tag labels args flags = refl
is_ok-build_steps BuildStrategy.custom base tag labels args flags = refl

-- A resolution without the scores succeeds exactly if the profile and the stack are valid, neither the
-- rules nor the report have an error, the optimization is computed, and the strategy is to pull or to
-- overlay.
pub resolve_with-is_ok :
    (o : Outside) (now : Moment) (r : Request) (report : CompatibilityReport)
    → r.explain ≡ false
    → is_ok (resolve_with o now r report) ≡ (
        is_ok (validate_profile r.profile)
        && (is_ok (validate_stack r.stack)
            && ((is_empty (evaluate_all r.profile r.stack).1 && is_empty report.errors)
                && (is_ok (
                      compute_build_optimization o.printing r.profile
                        (hinted r report)
                        r.layers
                        r.strict_host_optimization)
                    && is_built r.stack.build_strategy))))
unfolding resolve_with stack_with_tuple_hints
resolve_with-is_ok o now r report plain =
    let stack = hinted r report in
    let valid = lift_error invalid (validate_profile r.profile) in
    let optimize =
      compute_build_optimization o.printing r.profile stack r.layers r.strict_host_optimization in
    let built = is_built r.stack.build_strategy in
    let last = is_ok optimize && built in
    let clean = is_empty (evaluate_all r.profile r.stack).1 && is_empty report.errors in
    is_ok-step valid _ (is_ok (validate_profile r.profile))
      (is_ok (validate_stack r.stack) && (clean && last)) (is_ok-lift_error _ _)
      λ u.
        is_ok-step (lift_error invalid (validate_stack r.stack)) _ (is_ok (validate_stack r.stack))
          (clean && last) (is_ok-lift_error _ _)
          λ u'.
            is_ok-step (check_errors report (evaluate_all r.profile r.stack).1) _ clean last
              (is_ok-check_errors report _)
              λ u''.
                is_ok-step (lift_error no_base (choose_base o r stack report)) _ true last
                  (is_ok-lift_error _ _ ∙ is_ok-choose_base o r stack report plain)
                  λ base.
                    is_ok-step (lift_error (λ (e : Text). incompatible (e ∷ [])) optimize) _
                      (is_ok optimize) built (is_ok-lift_error _ _)
                      λ b.
                        is_ok-step
                          (or_unknown (
                            build_steps stack.build_strategy base.0
                              (generate_tag stack r.profile (request_fingerprint o r stack base.0))
                              (plan_labels o now r stack report.tuple_decision
                                (request_fingerprint o r stack base.0) b)
                              (plan_build_args r report.tuple_decision b) b.buildx_flags))
                          _ built true (is_ok-build_steps stack.build_strategy _ _ _ _ _)
                          (λ s. refl)
                        ∙ and_true built
