-- ===== src/Verify/Made.antt =====
-- Verification of what was resolved, built and recorded: `verify_artifact` of
-- packages/stackwarden/src/stackwarden/domain/verify.py on a plan of resolvers/resolver.py
use mathlib.Core.List.Permᴰ
use stack_warden.Base.{
  Text, codes, Bool, true, false, not, Option, none, some, [], ◌∷◌, Dict, put, keys, mem,
  mem-keys-put, any, is_empty, ==_refl, text_eq, Distinct, map, strip, sort_by, text_beq, text_ord,
  sort_by_permutes, sort_by-Permᴰ_of_Distinct, List-cases, ◌≡◌, refl, sym, ap, ◌∙◌, arith, ok, inl,
  inr, if◌then◌else◌,
}
use stack_warden.Catalog.Records.{ArtifactRecord}
use stack_warden.Specs.{VariantValue}
use stack_warden.Specs.Profiles.{Stack}
use stack_warden.Compatibility.Records.{TupleDecision}
use stack_warden.Optimization.Decision.{BuildOptimizationDecision}
use stack_warden.Builds.Drift.{Labels}
use stack_warden.Resolver.Fingerprint.{Payload, or_blank, fingerprint, canonicalize, override_or}
use stack_warden.Resolver.Resolve.{
  Outside, Moment, Request, put_if, plan_labels, fixed_labels, stringified, request_fingerprint,
}
use stack_warden.Compatibility.Records.{CompatibilityReport}
use stack_warden.Catalog.Store.{Table}
use stack_warden.Specs.Profiles.{Profile}
use stack_warden.Catalog.Records.{built, artifact_status_eq}
use stack_warden.Resolver.Plans.{Resolution}
use stack_warden.Resolver.Resolve.{assemble, resolve_with}
use stack_warden.Resolver.Resolved.{hinted, resolve_with-Parts}
use stack_warden.Verify.{is_fingerprint, resolve_artifact, verify_artifact}
use stack_warden.Verify.Verdict.{verdict, verdict-verify_artifact}
use stack_warden.Resolver.Labels.{
  label-fingerprint, label-base_digest, label-template_hash, label-builder_version, label-variants,
}
use stack_warden.Verify.{
  Evidence, required_labels, label_or, loaded_variants, fingerprint_of, recompute, recomputed_from,
  snapshot_names,
}
use stack_warden.Verify.Verdict.{lacks, stands}

-- the variants by their names
abbrev by_name : Dict Text VariantValue → Dict Text VariantValue
by_name v = sort_by (λ (e : Text × VariantValue). e.0) v

or_blank-label_or : (t : Option Text) → or_blank (label_or (or_blank t) none) ≡ or_blank t
or_blank-label_or none = refl
or_blank-label_or (some []) = refl
or_blank-label_or (some (c ∷ t)) = refl

or_blank-label_or_self : (t : Option Text) → or_blank (label_or (or_blank t) t) ≡ or_blank t
or_blank-label_or_self none = refl
or_blank-label_or_self (some []) = refl
or_blank-label_or_self (some (c ∷ t)) = refl

mem-keys-put_keeps :
    (l key v : Text) (d : Dict Text Text)
    → mem l (keys d) ≡ true
    → mem l (keys (put key v d)) ≡ true
mem-keys-put_keeps l key v d h = ground (arith, mem-keys-put key l v d)

mem-keys-put_if :
    (test : Bool) (l key v : Text) (d : Dict Text Text)
    → mem l (keys d) ≡ true
    → mem l (keys (put_if test key v d)) ≡ true
mem-keys-put_if true l key v d h = mem-keys-put_keeps l key v d h
mem-keys-put_if false l key v d h = h

module _ (o : Outside) (now : Moment) (r : Request) (stack : Stack) (d : TupleDecision) (fp : Text)
    (b : BuildOptimizationDecision) where
  mem-keys-plan_labels :
      (l : Text)
      → mem l (keys (fixed_labels o now r stack d fp)) ≡ true
      → mem l (keys (plan_labels o now r stack d fp b)) ≡ true
  unfolding plan_labels
  mem-keys-plan_labels l h = mem-keys-put_keeps l _ _ _ (
      mem-keys-put_keeps l _ _ _ (
        mem-keys-put_if (not (is_empty (strip d.wheelhouse_hint))) l _ _ _
          (mem-keys-put_if (not (is_empty r.variants)) l _ _ _ h)))

  -- no required label is missing
  required-plan_labels :
      any (lacks (keys (plan_labels o now r stack d fp b))) required_labels ≡ false
  unfolding any required_labels mem fixed_labels text_beq
  required-plan_labels =
      rw
        (
          mem-keys-plan_labels (codes "stackwarden.profile") refl,
          mem-keys-plan_labels (codes "stackwarden.stack") refl,
          mem-keys-plan_labels (codes "stackwarden.fingerprint") refl,
          mem-keys-plan_labels (codes "stackwarden.base_digest") refl,
          mem-keys-plan_labels (codes "stackwarden.template_hash") refl,
          mem-keys-plan_labels (codes "stackwarden.builder_version") refl,
        )
        refl

override_or-label_or : (version : Text) → override_or (label_or version none) version ≡ version
override_or-label_or [] = refl
override_or-label_or (c ∷ version) = refl

names-stringified :
    (v : Dict Text VariantValue) → map (λ (e : Text × Text). e.0) (stringified v) ≡ keys v
names-stringified [] = refl
names-stringified (x ∷ v) = ap (λ names. x.0 ∷ names) (names-stringified v)

-- variants that are sorted before they are hashed, and again
sort_by-stringified :
    (v : Dict Text VariantValue)
    → Distinct (keys v)
    → sort_by (λ (e : Text × Text). e.0) (stringified (by_name v))
      ≡ sort_by (λ (e : Text × Text). e.0) (stringified v)
sort_by-stringified v distinct = sym (
    sort_by-Permᴰ_of_Distinct (λ (e : Text × Text). e.0)
      (Permᴰ.map _ (sort_by_permutes (λ (e : Text × VariantValue). e.0) v))
      (rw (names-stringified v) distinct))

loaded_variants-label :
    (json_loads : Text → Option (Dict Text VariantValue)) (o : Outside) (v : Dict Text VariantValue)
    → is_empty (o.json_variants (by_name v)) ≡ false
    → json_loads (o.json_variants (by_name v)) ≡ some (by_name v)
    → loaded_variants json_loads (if not (is_empty v) then o.json_variants (by_name v) else []) none
      ≡ some (by_name v)
unfolding loaded_variants sort_by
loaded_variants-label json_loads o [] h k = refl
loaded_variants-label json_loads o (x ∷ v) h k =
    elim (List-cases (o.json_variants (by_name (x ∷ v)))) [
      | inl blank ↦ absurd (cc)
      | inr (c, t, text) ↦ rw text (rw text at k)
    ]

module _ (o : Outside) (now : Moment) (r : Request) (stack : Stack) (d : TupleDecision)
    (b : BuildOptimizationDecision) (rec : ArtifactRecord)
    (same_base : rec.base_digest ≡ r.base_digest) (no_template : rec.template_hash ≡ none) where
  abbrev fp : Text
  fp = request_fingerprint o r stack rec.base_image

  abbrev L : Labels
  L = plan_labels o now r stack d fp b

  fingerprint_of-recorded :
      Distinct (keys r.variants)
      → fingerprint_of o.builder_version o.sha256_json L rec (r.profile, stack) (by_name r.variants)
        ≡ fp
  unfolding fingerprint_of fingerprint canonicalize request_fingerprint
  fingerprint_of-recorded distinct =
      rw
        (
          label-base_digest o now r stack d fp b,
          label-template_hash o now r stack d fp b,
          label-builder_version o now r stack d fp b,
          same_base,
          no_template,
          or_blank-label_or_self r.base_digest,
          or_blank-label_or r.template_hash,
          override_or-label_or o.builder_version,
          sort_by-stringified r.variants distinct,
        )
        refl

  module _ (e : Evidence) (labelled : e.labels ≡ L) (saved : e.snapshots ≡ some (r.profile, stack))
      (no_variants : rec.variant_json ≡ none) where
    recompute-recorded :
        Distinct (keys r.variants)
        → is_empty (o.json_variants (by_name r.variants)) ≡ false
        → e.json_loads (o.json_variants (by_name r.variants)) ≡ some (by_name r.variants)
        → recompute o.builder_version o.sha256_json e rec ≡ some fp
    unfolding recompute recomputed_from fingerprint_of
    recompute-recorded distinct printed read =
        rw
          (
            labelled,
            saved,
            no_variants,
            label-variants o now r stack d fp b,
            loaded_variants-label e.json_loads o r.variants printed read,
          )
          (ap some (fingerprint_of-recorded distinct))

    stands-recorded :
        (strict : Bool)
        → rec.fingerprint ≡ fp
        → recompute o.builder_version o.sha256_json e rec ≡ some fp
        → any (lacks e.files) snapshot_names ≡ false
        → stands o.builder_version o.sha256_json strict e rec ≡ true
    stands-recorded strict named again complete =
        rw
          (
            again,
            labelled,
            complete,
            named,
            required-plan_labels o now r stack d fp b,
            label-fingerprint o now r stack d fp b,
            ==_refl fp,
          )
          (ground arith)

-- a record has what the executor takes from a plan
pub record IsRecorded (x : Resolution) (rec : ArtifactRecord) : Type 0 where
  pub fingerprint : rec.fingerprint ≡ x.plan.artifact.fingerprint
  pub base_image : rec.base_image ≡ x.plan.decision.base_image
  pub base_digest : rec.base_digest ≡ x.plan.decision.base_digest
  pub template_hash : rec.template_hash ≡ none
  pub variant_json : rec.variant_json ≡ none

-- the image has the labels of a plan, and the snapshot has its files, with a profile and a stack
pub record IsIntact (x : Resolution) (profile : Profile) (stack : Stack) (e : Evidence)
    : Type 0 where
  pub image_exists : e.image_exists ≡ true
  pub labels : e.labels ≡ x.plan.artifact.labels
  pub files : any (lacks e.files) snapshot_names ≡ false
  pub snapshots : e.snapshots ≡ some (profile, stack)

-- An artifact passes the verification, strict or not, if its record is BUILT and has what the executor
-- takes from a plan that was resolved, if its image has the plan's labels, and if its snapshot has the
-- four files and gives back the profile and the stack with the hints of the tuple; where the names of
-- the variants are distinct, JSON reads the variants back and a hash is 12 to 64 hexadecimal digits.
pub verify_artifact-resolve_with :
    (o : Outside) (now : Moment) (r : Request) (report : CompatibilityReport) {x : Resolution}
    (strict : Bool) (e : Evidence) (tag_or_id : Text) (table : Table) (rec : ArtifactRecord)
    → Distinct (keys r.variants)
    → is_empty (o.json_variants (by_name r.variants)) ≡ false
    → e.json_loads (o.json_variants (by_name r.variants)) ≡ some (by_name r.variants)
    → ((p : Payload) → is_fingerprint (o.sha256_json p) ≡ true)
    → resolve_with o now r report ≡ ok x
    → resolve_artifact tag_or_id table ≡ some rec
    → rec.status ≡ built
    → IsRecorded x rec
    → IsIntact x r.profile (hinted r report) e
    → verdict (verify_artifact o.builder_version o.sha256_json strict e tag_or_id table) ≡ ok true
unfolding assemble request_fingerprint fingerprint
verify_artifact-resolve_with o now r report strict e tag_or_id table rec distinct printed read
      hashed run found status k i =
    let p = resolve_with-Parts o now r report run in
    let stack = hinted r report in
    let d = report.tuple_decision in
    let fp_at = request_fingerprint o r stack in
    let base = sym (k.base_image ∙ ap (λ (y : Resolution). y.plan.decision.base_image) p.made) in
    let digest = k.base_digest ∙ ap (λ (y : Resolution). y.plan.decision.base_digest) p.made in
    let named =
      k.fingerprint
      ∙ (ap (λ (y : Resolution). y.plan.artifact.fingerprint) p.made ∙ ap fp_at base) in
    let labelled =
      i.labels
      ∙ (ap (λ (y : Resolution). y.plan.artifact.labels) p.made
          ∙ ap (λ image. plan_labels o now r stack d (fp_at image) p.optimization) base) in
    let again =
      recompute-recorded o now r stack d p.optimization rec digest k.template_hash e labelled
        i.snapshots k.variant_json distinct printed read in
    verdict-verify_artifact o.builder_version o.sha256_json strict e tag_or_id table rec found
    ∙ rw
        (
          stands-recorded o now r stack d p.optimization rec digest k.template_hash e labelled
              i.snapshots k.variant_json strict named again i.files,
          status,
          i.image_exists,
          named,
          hashed _,
        )
        refl
