-- ===== src/Resolver/Tests.antt =====
-- Runs of the resolver.
use stack_warden.Optimization.Decision.{strict_check, compute_build_optimization}
use stack_warden.Resolver.Validators.{validate_stack, validate_tags, validate_profile}
use mathlib.Core.List.{Permᴰ}
use mathlib.Core.List.Permᴰ
use stack_warden.Base.{
  pos, err, filter, text_beq, get, mem, Text, codes, true, false, none, some, [], ◌∷◌, ok, is_ok,
  is_empty, ◌≡◌, refl, ◌↔◌, Result,
}
use stack_warden.Specs.Profiles.{Stack}
use stack_warden.Specs.Examples.{sample_profile, sample_stack, sample_layer, sample_spec}
use stack_warden.Builds.Executor.{World, produced, make_record, read_version, new_record}
use stack_warden.Builds.Drift.{detect_drift, is_stale}
use stack_warden.Compatibility.Records.{CompatibilityReport, off}
use stack_warden.Catalog.Records.{ArtifactRecord, ArtifactRow, built, row_of_record, row_to_record}
use stack_warden.Catalog.Store.{insert_artifact, get_artifact_by_tag, select_one}
use stack_warden.Verify.{Evidence, snapshot_names, resolve_artifact, verify_artifact}
use stack_warden.Verify.Verdict.{verdict}
use stack_warden.Verify.{is_fingerprint, without_last_newline}
use stack_warden.Verify.Made.{IsRecorded, IsIntact, verify_artifact-resolve_with}
use stack_warden.Resolver.Resolved.{hinted}
use stack_warden.Base.{any, sort_by}
use stack_warden.Resolver.Matching.{Occurrence, boundary_search, boundary_search_iff}
use stack_warden.Resolver.Bases.{
  image_override, profile_candidates, own_candidates, candidates_for, RuntimeBaseCandidate,
}
use stack_warden.Resolver.Scoring.{
  is_not_version, cuda_variant_match, select_base, Selection, select_base_detailed,
}
use stack_warden.Resolver.Selection.{IsBest, best_tag, select_base-IsBest}
use stack_warden.Resolver.Selection.Explained.{select_base_detailed-select_base}
use stack_warden.Resolver.Rules.{
  check_required_capabilities, check_serve_disallowed, arch_issues, check_arch_compatibility,
  all_issues, serve_disallowed, evaluate_all,
}
use stack_warden.Resolver.Rules.Errors.{evaluate_all-errors, arm64_notes}
use stack_warden.Resolver.Fingerprint.{fingerprint, Payload}
use stack_warden.Resolver.Permuted.{Reordered, IsKeyed, fingerprint-Reordered}
use stack_warden.Resolver.Plans.{Resolution}
use stack_warden.Resolver.Resolve.{Outside, Moment, Request, resolve_with}
use stack_warden.Resolver.Fresh.{resolve_with-is_stale, HasVersions}
use stack_warden.Resolver.Success.{resolve_with-is_ok}

version_ends : cuda_variant_match (codes "12.1") (codes "12.10-base") ≡ false
unfolding cuda_variant_match boundary_search
version_ends = refl

version_found : cuda_variant_match (codes "12.1") (codes "x-12.1") ≡ true
unfolding cuda_variant_match boundary_search
version_found = refl

boundary_search_iff_example : (true ≡ true) ↔ Occurrence is_not_version (codes "12") (codes "a-12")
unfolding boundary_search
boundary_search_iff_example = boundary_search_iff is_not_version (codes "12") (codes "a-12")

select_base-IsBest_example :
    (best : RuntimeBaseCandidate) × (select_base sample_profile sample_stack
      ≡ ok (best, best_tag sample_profile best.tags))
    × IsBest sample_profile sample_stack best
select_base-IsBest_example = select_base-IsBest sample_profile sample_stack

select_base_detailed-select_base_example :
    (s : Selection) × (select_base_detailed (λ n. []) sample_profile sample_stack ≡ ok s)
    × (select_base sample_profile sample_stack ≡ ok (s.candidate, s.tag))
unfolding candidates_for own_candidates profile_candidates image_override get sample_profile
    sample_stack mem text_beq
select_base_detailed-select_base_example =
    select_base_detailed-select_base (λ n. []) sample_profile sample_stack (refl, (refl, tt))

evaluate_all-errors_example :
    (is_empty (evaluate_all sample_profile sample_stack).1 ≡ true)
    × ((evaluate_all sample_profile sample_stack).0
        ≡ arm64_notes sample_profile.arch sample_stack.components.pip)
unfolding sample_profile sample_stack mem get text_beq
evaluate_all-errors_example = evaluate_all-errors sample_profile sample_stack

-- the sample with its environment and packages turned round
unfoldable turned : Stack
unfolding sample_stack
turned = record sample_stack {
  spec = record sample_spec {
    env = codes "B=2" ∷ codes "A=1" ∷ [];
    components = record sample_spec.components {
      base = record sample_spec.components.base { apt = codes "curl" ∷ codes "git" ∷ [] };
    };
  };
}

turned-Reordered : Reordered sample_stack turned
unfolding turned sample_stack sample_spec
turned-Reordered = record {
  env = Permᴰ.swap refl refl;
  ports = Permᴰ.refl _;
  apt = Permᴰ.swap refl refl;
  pip = Permᴰ.refl _;
  npm = Permᴰ.refl _;
  copy_items = Permᴰ.refl _;
  apt_constraints = Permᴰ.refl _;
  policy_overrides = Permᴰ.refl _;
  same_id = refl;
  same_serve = refl;
  same_api = refl;
  same_task = refl;
  same_build_strategy = refl;
  same_base_role = refl;
  same_apt_mode = refl;
  same_npm_mode = refl;
  same_pip_mode = refl;
  same_wheelhouse = refl;
}

sample_stack-IsKeyed : IsKeyed sample_stack
unfolding sample_stack mem
sample_stack-IsKeyed = record {
  pip = (refl, tt);
  npm = tt;
  copy_items = tt;
  apt_constraints = tt;
  policy_overrides = tt;
}

-- a stand-in for the hash
abbrev toy_hash : Payload → Text
toy_hash p = codes "0123456789ab"

fingerprint-Reordered_example :
    fingerprint
      (codes "1")
      (λ p. p.base_image)
      sample_profile
      sample_stack
      (codes "b:1")
      none
      none
      []
      none
    ≡ fingerprint
        (codes "1")
        (λ p. p.base_image)
        sample_profile
        turned
        (codes "b:1")
        none
        none
        []
        none
fingerprint-Reordered_example =
    fingerprint-Reordered (codes "1") (λ p. p.base_image) sample_profile sample_stack turned
      (codes "b:1") none none [] [] none sample_stack-IsKeyed tt turned-Reordered Permᴰ.nil

abbrev outside : Outside
outside = record {
  printing = record { str = λ n. codes "1"; str_gb = λ n. []; fixed2 = λ n. [] };
  sha256_json = toy_hash;
  json_variants = λ v. codes "{}";
  json_fields = λ f. [];
  builder_version = codes "0.1.0";
}

unfoldable request : Request
request = record {
  profile = sample_profile;
  stack = sample_stack;
  layers = sample_layer ∷ [];
  base_digest = none;
  template_hash = none;
  variants = [];
  explain = false;
  strict_host_optimization = false;
}

abbrev report : CompatibilityReport
report = record {
  compatible = true;
  errors = [];
  warnings = [];
  info = [];
  tuple_decision = record {
    enabled = false;
    mode = off;
    matched = true;
    tuple_id = [];
    status = codes "disabled";
    message = [];
    base_image_hint = [];
    wheelhouse_hint = [];
  };
}

abbrev at : Text → Moment
at t = record { created_at = t; uuid = t }

resolve_with-is_ok_example : is_ok (resolve_with outside (at (codes "1")) request report) ≡ true
unfolding request validate_profile sample_profile mem validate_tags validate_stack sample_stack
    sample_spec evaluate_all filter all_issues check_arch_compatibility arch_issues
    check_serve_disallowed serve_disallowed get check_required_capabilities
    compute_build_optimization strict_check
resolve_with-is_ok_example = resolve_with-is_ok outside (at (codes "1")) request report refl

succeeds : (t : Text) → is_ok (resolve_with outside (at t) request report) ≡ true
unfolding request validate_profile sample_profile mem validate_tags validate_stack sample_stack
    sample_spec evaluate_all filter all_issues check_arch_compatibility arch_issues
    check_serve_disallowed serve_disallowed get check_required_capabilities
    compute_build_optimization strict_check
succeeds t = resolve_with-is_ok outside (at t) request report refl

-- what a build answers
abbrev world : World
world = record {
  image_exists = true;
  image_labels = [];
  canceled_at_start = false;
  canceled_before_updates = false;
  canceled_before_build = false;
  canceled_after_build = false;
  outcome = produced none none;
  new_id = codes "id";
  hostname = codes "host";
  now = 0;
  manifest = none;
  optimization_saved = false;
  snapshots = none;
  sbom = none;
  hooks = none;
}

the_ok : {E A : Type 0} (m : Result E A) → is_ok m ≡ true → (a : A) × (m ≡ ok a)
the_ok (ok a) h = (a, refl)
the_ok (err e) h = absurd (cc)

resolved_at : (t : Text) → (x : Resolution) × (resolve_with outside (at t) request report ≡ ok x)
resolved_at t = the_ok (resolve_with outside (at t) request report) (succeeds t)

-- the record of an execution
abbrev recorded : Resolution → ArtifactRecord
recorded x = new_record world x.plan (pos 1) (pos 1) (pos 1)

recorded-HasVersions : (x : Resolution) → HasVersions (recorded x)
recorded-HasVersions x = record { stack = refl; profile = refl; layer = refl }

resolve_with-is_stale_example :
    let x = (resolved_at (codes "1")).0 in
    let y = (resolved_at (codes "2")).0 in
    let drift = detect_drift (λ t. some (pos 1)) (codes "0.1.0") x.plan.artifact.labels in
    (is_stale (drift none y.plan) ≡ false)
    × (is_stale (
          drift
            (get_artifact_by_tag x.plan.artifact.tag (row_of_record (codes "id") (recorded x) ∷ []))
            y.plan)
        ≡ false)
unfolding make_record read_version insert_artifact any
resolve_with-is_stale_example =
    let (x, ran) = resolved_at (codes "1") in
    let (y, ran') = resolved_at (codes "2") in
    resolve_with-is_stale (λ t. some (pos 1)) outside (at (codes "1")) (at (codes "2")) request
      report world {x = x} {x' = y} {rec = recorded x} [] (λ n. refl) (λ p. refl) ran ran' refl
      (recorded-HasVersions x) refl

-- the row of what was built from a plan
abbrev built_row : Resolution → ArtifactRow
built_row x =
    record (row_of_record (codes "id") (new_record world x.plan (pos 1) (pos 1) (pos 1))) {
      status = built;
      tag = codes "t";
    }

abbrev intact : Resolution → Evidence
intact x = record {
  image_exists = true;
  labels = x.plan.artifact.labels;
  files = snapshot_names;
  snapshots = some (request.profile, hinted request report);
  json_loads = λ t. some [];
}

built_row-IsRecorded : (x : Resolution) → IsRecorded x (row_to_record (built_row x))
unfolding row_of_record row_to_record
built_row-IsRecorded x = record {
  fingerprint = refl;
  base_image = refl;
  base_digest = refl;
  template_hash = refl;
  variant_json = refl;
}

intact-IsIntact : (x : Resolution) → IsIntact x request.profile (hinted request report) (intact x)
unfolding any mem text_beq
intact-IsIntact x = record { image_exists = refl; labels = refl; files = refl; snapshots = refl }

verify_artifact-resolve_with_example :
    let x = (resolved_at (codes "1")).0 in
    verdict
      (verify_artifact (codes "0.1.0") toy_hash true (intact x) (codes "t") (built_row x ∷ []))
    ≡ ok true
unfolding request resolve_artifact get_artifact_by_tag select_one row_of_record row_to_record
    text_beq sort_by is_fingerprint any without_last_newline
verify_artifact-resolve_with_example =
    let (x, ran) = resolved_at (codes "1") in
    verify_artifact-resolve_with outside (at (codes "1")) request report {x = x} true (intact x)
      (codes "t") (built_row x ∷ []) (row_to_record (built_row x)) tt refl refl (λ p. refl) ran refl
      refl (built_row-IsRecorded x) (intact-IsIntact x)
