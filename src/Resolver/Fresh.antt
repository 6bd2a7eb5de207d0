-- ===== src/Resolver/Fresh.antt =====
-- Resolving again finds the image fresh: packages/stackwarden/src/stackwarden/resolvers/resolver.py
-- with domain/drift.py and builders/plan_executor.py
use stack_warden.Base.{
  int_lt, negsuc, ℤ, int_eq, ℕ, Text, true, false, Option, none, some, List, [], ◌∷◌, is_empty,
  ==_refl, text_eq, nat_eq, Result, ok, err, >>=-eq-ok, ok_injective, ◌≡◌, refl, sym, ap, ◌∙◌,
  arith, pos,
}
use mathlib.Core.Path.{subst}
use stack_warden.Catalog.Records.{ArtifactRecord, as_stored, or_one, positive_or_one}
use stack_warden.Catalog.Store.{Table, insert_artifact, get_artifact_by_tag}
use stack_warden.Catalog.RoundTrip.{get_artifact-insert_artifact}
use stack_warden.Builds.Plans.{Plan}
use stack_warden.Builds.Drift.{
  Labels, label, layer_label, disagree, or_empty, detect_drift, is_stale, expected_version,
  or_version_one,
}
use stack_warden.Builds.Freshness.{fresh_labels, fresh_record, is_stale-detect_drift}
use stack_warden.Builds.Executor.{World, make_record, read_version, ExecError, value_error}
use stack_warden.Optimization.Decision.{BuildOptimizationDecision}
use stack_warden.Specs.Profiles.{Stack}
use stack_warden.Compatibility.Records.{CompatibilityReport}
use stack_warden.Resolver.Fingerprint.{Payload, or_blank, fingerprint}
use stack_warden.Resolver.Plans.{Resolution, DecisionRationale, PlanStep, layer_version}
use stack_warden.Resolver.Resolve.{
  Outside, Moment, Request, assemble, plan_labels, request_fingerprint, resolve_with,
}
use stack_warden.Resolver.Resolved.{hinted, resolve_with-Parts}
use stack_warden.Resolver.Labels.{
  label-fingerprint, label-base_digest, label-template_hash, label-schema_version,
  label-profile_schema_version, label-builder_version, layer_label-plan_labels,
  any-keys-plan_labels,
}

disagree_refl : (t : Text) → disagree t t ≡ false
unfolding disagree
disagree_refl t = ground (arith, ==_refl t)

or_empty-or_blank : (t : Option Text) → or_empty t ≡ or_blank t
or_empty-or_blank none = refl
or_empty-or_blank (some t) = refl

version_cases :
    (m : Option ℤ) (n : ℤ)
    → ◌≡◌ {A = Result ExecError ℤ} (elim m [ none ↦ err value_error | some k ↦ ok k ]) (ok n)
    → n ≡ or_version_one m
version_cases none n h = absurd (cc)
version_cases (some k) n h = sym (ok_injective h)

-- the version that the executor reads from a label is the one that drift expects
read_version-expected :
    (to_int : Text → Option ℤ) (builder_version t : Text) (n : ℤ)
    → is_empty t ≡ false
    → read_version to_int t ≡ ok n
    → n ≡ expected_version to_int builder_version t
unfolding read_version expected_version
read_version-expected to_int builder_version [] n h run = absurd (cc)
read_version-expected to_int builder_version (c ∷ t) n h run = version_cases (to_int (c ∷ t)) n run

-- a new record has the versions that its plan's labels say
abbrev Versions : (to_int : Text → Option ℤ) → Labels → ArtifactRecord → Type 0
Versions to_int labels rec =
    (read_version to_int (label "schema_version" labels) ≡ ok rec.stack_schema_version)
    × (read_version to_int (label "profile_schema_version" labels) ≡ ok rec.profile_schema_version)
    × (read_version to_int (layer_label labels) ≡ ok rec.layer_schema_version)

-- the same of a record that there may be
abbrev Known : (to_int : Text → Option ℤ) → Labels → Option ArtifactRecord → Type 0
Known to_int labels none = Unit
Known to_int labels (some rec) = Versions to_int labels rec

-- the versions of a record are above 0
pub record HasVersions (rec : ArtifactRecord) : Type 0 where
  pub stack : int_lt (pos 0) rec.stack_schema_version ≡ true
  pub profile : int_lt (pos 0) rec.profile_schema_version ≡ true
  pub layer : int_lt (pos 0) rec.layer_schema_version ≡ true

or_one-positive : (n : ℤ) → int_lt (pos 0) n ≡ true → or_one n ≡ n
or_one-positive (pos n) h = ground arith
or_one-positive (negsuc n) h = absurd (cc)

positive_or_one-positive : (n : ℤ) → int_lt (pos 0) n ≡ true → positive_or_one n ≡ n
positive_or_one-positive n h = rw h refl

-- such versions are read back as they were stored
Versions-as_stored :
    (to_int : Text → Option ℤ) (labels : Labels) (rec : ArtifactRecord)
    → HasVersions rec
    → Versions to_int labels rec
    → Versions to_int labels (as_stored rec)
Versions-as_stored to_int labels rec k (s, p, l) = (
  s ∙ ap ok (sym (or_one-positive rec.stack_schema_version k.stack)),
  p ∙ ap ok (sym (or_one-positive rec.profile_schema_version k.profile)),
  l ∙ ap ok (sym (positive_or_one-positive rec.layer_schema_version k.layer)),
)

make_record-Versions :
    (to_int : Text → Option ℤ) (w : World) (plan : Plan) (rec : ArtifactRecord)
    → make_record to_int w plan ≡ ok rec
    → (rec.id ≡ some w.new_id)
      × (rec.tag ≡ plan.artifact.tag)
      × Versions to_int plan.artifact.labels rec
unfolding make_record
make_record-Versions to_int w plan rec run =
    let labels = plan.artifact.labels in
    let (s, read_s, run1) = >>=-eq-ok (read_version to_int (label "schema_version" labels)) _ run in
    let (p, read_p, run2) =
      >>=-eq-ok (read_version to_int (label "profile_schema_version" labels)) _ run1 in
    let (l, read_l, run3) = >>=-eq-ok (read_version to_int (layer_label labels)) _ run2 in
    subst
      (λ (y : ArtifactRecord).
        (y.id ≡ some w.new_id) × (y.tag ≡ plan.artifact.tag) × Versions to_int labels y)
      (ok_injective run3) (refl, refl, (read_s, read_p, read_l))

-- plans of the same parts, at two moments
module _ (to_int : Text → Option ℤ) (o : Outside) (now now' : Moment) (r : Request)
    (report : CompatibilityReport) (base_image : Text) (rationale : Option DecisionRationale)
    (b : BuildOptimizationDecision) (steps steps' : List PlanStep) where
  abbrev stack : Stack
  stack = hinted r report

  abbrev fp : Text
  fp = request_fingerprint o r stack base_image

  abbrev labels_at : Moment → Labels
  labels_at m = plan_labels o m r stack report.tuple_decision fp b

  abbrev later : Resolution
  later = assemble o now' r stack report base_image rationale fp b steps'

  fresh_labels-later : is_empty fp ≡ false → fresh_labels (labels_at now) later.plan ≡ true
  unfolding assemble
  fresh_labels-later h =
      let d = report.tuple_decision in
      rw
        (
          label-fingerprint o now r stack d fp b,
          label-base_digest o now r stack d fp b,
          label-template_hash o now r stack d fp b,
          label-template_hash o now' r stack d fp b,
          label-schema_version o now r stack d fp b,
          label-schema_version o now' r stack d fp b,
          label-profile_schema_version o now r stack d fp b,
          label-profile_schema_version o now' r stack d fp b,
          layer_label-plan_labels o now r stack d fp b,
          layer_label-plan_labels o now' r stack d fp b,
          or_empty-or_blank r.base_digest,
          h,
          ==_refl fp,
          disagree_refl (or_blank r.base_digest),
          disagree_refl (or_blank r.template_hash),
          disagree_refl (o.printing.str (pos stack.schema_version)),
          disagree_refl (o.printing.str (pos r.profile.schema_version)),
          disagree_refl (o.printing.str (pos (layer_version r.layers))),
        )
        refl

  fresh_record-later :
      (rec : ArtifactRecord)
      → ((n : ℕ) → is_empty (o.printing.str (pos n)) ≡ false)
      → Versions to_int (labels_at now) rec
      → fresh_record to_int o.builder_version (some rec) later.plan ≡ true
  unfolding assemble
  fresh_record-later rec h (s, p, l) =
      let d = report.tuple_decision in
      let bv = o.builder_version in
      let versions = label-schema_version o now r stack d fp b in
      let profile_versions = label-profile_schema_version o now r stack d fp b in
      let layer_versions = layer_label-plan_labels o now r stack d fp b in
      rw
        (
          label-schema_version o now' r stack d fp b,
          label-profile_schema_version o now' r stack d fp b,
          layer_label-plan_labels o now' r stack d fp b,
          ← read_version-expected to_int bv (o.printing.str (pos stack.schema_version))
              rec.stack_schema_version (h stack.schema_version) (rw versions at s),
          ← read_version-expected to_int bv (o.printing.str (pos r.profile.schema_version))
              rec.profile_schema_version (h r.profile.schema_version) (rw profile_versions at p),
          ← read_version-expected to_int bv (o.printing.str (pos (layer_version r.layers)))
              rec.layer_schema_version (h (layer_version r.layers)) (rw layer_versions at l),
          ==_refl rec.stack_schema_version,
          ==_refl rec.profile_schema_version,
          ==_refl rec.layer_schema_version,
        )
        refl

  later_record_lem :
      (existing : Option ArtifactRecord)
      → ((n : ℕ) → is_empty (o.printing.str (pos n)) ≡ false)
      → Known to_int (labels_at now) existing
      → fresh_record to_int o.builder_version existing later.plan ≡ true
  later_record_lem none h v = refl
  later_record_lem (some rec) h v = fresh_record-later rec h v

  -- neither the labels nor the record differ
  fresh-later :
      (existing : Option ArtifactRecord)
      → is_empty fp ≡ false
      → ((n : ℕ) → is_empty (o.printing.str (pos n)) ≡ false)
      → Known to_int (labels_at now) existing
      → is_stale (detect_drift to_int o.builder_version (labels_at now) existing later.plan) ≡ false
  fresh-later existing h k v =
      let d = report.tuple_decision in
      is_stale-detect_drift to_int o.builder_version (labels_at now) existing later.plan
      ∙ rw
          (
            any-keys-plan_labels o now r stack d fp b,
            fresh_labels-later h,
            later_record_lem existing k v,
            label-builder_version o now r stack d fp b,
            ==_refl o.builder_version,
          )
          (ground arith)

-- what was resolved twice has not drifted, for a record with the versions of the labels
resolve_with-Known :
    (to_int : Text → Option ℤ) (o : Outside) (now now' : Moment) (r : Request)
    (report : CompatibilityReport) {x x' : Resolution} (existing : Option ArtifactRecord)
    → ((n : ℕ) → is_empty (o.printing.str (pos n)) ≡ false)
    → ((p : Payload) → is_empty (o.sha256_json p) ≡ false)
    → resolve_with o now r report ≡ ok x
    → resolve_with o now' r report ≡ ok x'
    → Known to_int x.plan.artifact.labels existing
    → is_stale (detect_drift to_int o.builder_version x.plan.artifact.labels existing x'.plan)
      ≡ false
unfolding assemble request_fingerprint fingerprint
resolve_with-Known to_int o now now' r report {x' = x'} existing printed hashed run run' known =
    let p = resolve_with-Parts o now r report run in
    let q = resolve_with-Parts o now' r report run' in
    let chosen : (q.base_image, q.rationale) ≡ (p.base_image, p.rationale) =
      ok_injective (sym q.chosen ∙ p.chosen) in
    let optimized : q.optimization ≡ p.optimization =
      ok_injective (sym q.optimized ∙ p.optimized) in
    let at = λ (c : Text × Option DecisionRationale) (b : BuildOptimizationDecision).
      assemble o now' r (hinted r report) report c.0 c.1
        (request_fingerprint o r (hinted r report) c.0) b q.steps in
    let same =
      q.made
      ∙ (ap (λ c. at c q.optimization) chosen ∙ ap (at (p.base_image, p.rationale)) optimized) in
    let versions =
      subst (λ (y : Resolution). Known to_int y.plan.artifact.labels existing) p.made known in
    subst
      (λ (y : Resolution).
        is_stale (detect_drift to_int o.builder_version y.plan.artifact.labels existing x'.plan)
        ≡ false)
      (sym p.made)
      (subst
        (λ (y : Resolution).
          is_stale (
            detect_drift to_int o.builder_version
              (plan_labels o now r (hinted r report) report.tuple_decision
                (request_fingerprint o r (hinted r report) p.base_image) p.optimization)
              existing y.plan)
          ≡ false)
        (sym same)
        (fresh-later to_int o now now' r report p.base_image p.rationale p.optimization p.steps
          q.steps existing (hashed _) printed versions))

-- If the same request is resolved twice with the same report, at any two moments, an image with the
-- labels of the first plan has not drifted from the second one, neither without a catalog record nor
-- with the record that the catalog has under the plan's tag once the one that the executor made from
-- the first plan was inserted; where the versions of that one are above 0, and neither the printed text
-- of a number nor a hash is empty.
pub resolve_with-is_stale :
    (to_int : Text → Option ℤ) (o : Outside) (now now' : Moment) (r : Request)
    (report : CompatibilityReport) (w : World) {x x' : Resolution} {rec : ArtifactRecord}
    (t : Table) {t' : Table}
    → ((n : ℕ) → is_empty (o.printing.str (pos n)) ≡ false)
    → ((p : Payload) → is_empty (o.sha256_json p) ≡ false)
    → resolve_with o now r report ≡ ok x
    → resolve_with o now' r report ≡ ok x'
    → make_record to_int w x.plan ≡ ok rec
    → HasVersions rec
    → insert_artifact rec t ≡ ok t'
    → let drift = detect_drift to_int o.builder_version x.plan.artifact.labels in
      (is_stale (drift none x'.plan) ≡ false)
      × (is_stale (drift (get_artifact_by_tag x.plan.artifact.tag t') x'.plan) ≡ false)
resolve_with-is_stale to_int o now now' r report w {x = x} {rec = rec} t printed hashed run run'
      recorded positive inserted =
    let (named, tagged, versions) = make_record-Versions to_int w x.plan rec recorded in
    let (by_id, by_tag, by_fingerprint) =
      get_artifact-insert_artifact rec w.new_id t named inserted in
    (
      resolve_with-Known to_int o now now' r report none printed hashed run run' tt,
      rw (← tagged, by_tag)
          (resolve_with-Known to_int o now now' r report (some (as_stored rec)) printed hashed run
            run' (Versions-as_stored to_int x.plan.artifact.labels rec positive versions)),
    )
