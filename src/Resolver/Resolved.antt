-- ===== src/Resolver/Resolved.antt =====
-- What a resolution that succeeds has computed:
-- packages/stackwarden/src/stackwarden/resolvers/resolver.py
use stack_warden.Base.{
  Text, Option, List, [], ◌∷◌, Result, ok, err, >>=-eq-ok, ok_injective, ◌≡◌, sym, ap,
}
use stack_warden.Specs.Profiles.{Stack}
use stack_warden.Optimization.Decision.{BuildOptimizationDecision, compute_build_optimization}
use stack_warden.Compatibility.Records.{CompatibilityReport}
use stack_warden.Resolver.Rules.{evaluate_all}
use stack_warden.Resolver.Validators.{validate_profile, validate_stack}
use stack_warden.Resolver.Fingerprint.{generate_tag}
use stack_warden.Resolver.Hints.{stack_with_tuple_hints}
use stack_warden.Resolver.Plans.{Resolution, DecisionRationale, PlanStep, build_steps}
use stack_warden.Resolver.Resolve.{
  ResolveError, Outside, Moment, Request, lift_error, check_errors, choose_base, or_unknown,
  plan_labels, plan_build_args, request_fingerprint, assemble, resolve_with, invalid, no_base,
  incompatible,
}

abbrev pub hinted : Request → CompatibilityReport → Stack
hinted r report = stack_with_tuple_hints r.stack report.tuple_decision

-- the parts of a plan that was resolved
pub record Parts (o : Outside) (now : Moment) (r : Request) (report : CompatibilityReport)
    (x : Resolution) : Type 0 where
  pub base_image : Text
  pub rationale : Option DecisionRationale
  pub optimization : BuildOptimizationDecision
  pub steps : List PlanStep
  pub checked : check_errors report (evaluate_all r.profile r.stack).1 ≡ ok tt
  pub chosen : choose_base o r (hinted r report) report ≡ ok (base_image, rationale)
  pub optimized :
      compute_build_optimization o.printing r.profile
        (hinted r report)
        r.layers
        r.strict_host_optimization
      ≡ ok optimization
  pub made :
      x
      ≡ assemble o now r
          (hinted r report)
          report
          base_image
          rationale
          (request_fingerprint o r (hinted r report) base_image)
          optimization
          steps

lift_error-eq-ok :
    {E A : Type 0} (f : E → ResolveError) (m : Result E A) (a : A)
    → lift_error f m ≡ ok a
    → m ≡ ok a
lift_error-eq-ok f (ok b) a h = ap ok (ok_injective h)
lift_error-eq-ok f (err e) a h = absurd (cc)

pub resolve_with-Parts :
    (o : Outside) (now : Moment) (r : Request) (report : CompatibilityReport) {x : Resolution}
    → resolve_with o now r report ≡ ok x
    → Parts o now r report x
unfolding resolve_with
resolve_with-Parts o now r report run0 =
    let stack = hinted r report in
    let (u0, valid, run1) = >>=-eq-ok (lift_error invalid (validate_profile r.profile)) _ run0 in
    let (u1, valid', run2) = >>=-eq-ok (lift_error invalid (validate_stack r.stack)) _ run1 in
    let (u2, checked, run3) =
      >>=-eq-ok (check_errors report (evaluate_all r.profile r.stack).1) _ run2 in
    let (base, chosen, run4) =
      >>=-eq-ok (lift_error no_base (choose_base o r stack report)) _ run3 in
    let (b, optimized, run5) =
      >>=-eq-ok
        (lift_error (λ (e : Text). incompatible (e ∷ []))
          (compute_build_optimization o.printing r.profile stack r.layers
            r.strict_host_optimization))
        _ run4 in
    let fp = request_fingerprint o r stack base.0 in
    let (steps, built, run6) =
      >>=-eq-ok
        (or_unknown (
          build_steps stack.build_strategy base.0 (generate_tag stack r.profile fp)
            (plan_labels o now r stack report.tuple_decision fp b)
            (plan_build_args r report.tuple_decision b) b.buildx_flags))
        _ run5 in
    record {
      base_image = base.0;
      rationale = base.1;
      optimization = b;
      steps = steps;
      checked = checked;
      chosen = lift_error-eq-ok no_base _ base chosen;
      optimized = lift_error-eq-ok (λ (e : Text). incompatible (e ∷ [])) _ b optimized;
      made = sym (ok_injective run6);
    }
