-- ===== src/Builds/Freshness.antt =====
-- When an image has not drifted: packages/stackwarden/src/stackwarden/domain/drift.py
use stack_warden.Base.{
  int_eq, ℤ, Text, codes, Bool, true, false, Option, none, some, List, [], ◌∷◌, keys, any, mem,
  ◌==◌, ◌&&◌, ◌||◌, not, nat_eq, text_eq, is_empty, starts_with, ◌≡◌, refl, arith,
}
use stack_warden.Catalog.Records.{ArtifactRecord}
use stack_warden.Builds.Plans.{Plan}
use stack_warden.Builds.Drift.{
  DriftReason, builder_version_changed, drift_reason_eq, Labels, label, layer_label, or_empty,
  disagree, when_changed, when_new, expected_version, label_reasons, record_reasons, detect_drift,
  is_stale,
}

is_empty-when_changed :
    (c : Bool) (r : DriftReason) (xs : List DriftReason)
    → is_empty (when_changed c r xs) ≡ (not c && is_empty xs)
unfolding when_changed
is_empty-when_changed true r [] = refl
is_empty-when_changed true r (x ∷ xs) = refl
is_empty-when_changed false r xs = refl

is_empty-when_new :
    (c : Bool) (r : DriftReason) (xs : List DriftReason)
    → is_empty (when_new c r xs) ≡ (not c && is_empty xs)
unfolding when_new mem
is_empty-when_new true r [] = refl
is_empty-when_new true r (x ∷ xs) = ground arith
is_empty-when_new false r xs = refl

-- what the labels of an image have to say
abbrev pub fresh_labels : Labels → Plan → Bool
fresh_labels labels plan =
    let expected = plan.artifact.labels in
    not (is_empty (label "fingerprint" labels))
    && (label "fingerprint" labels == plan.artifact.fingerprint
        && (not (disagree (label "base_digest" labels) (or_empty plan.decision.base_digest))
            && (not (disagree (label "template_hash" labels) (label "template_hash" expected))
                && (not (disagree (label "schema_version" labels) (label "schema_version" expected))
                    && (not (
                          disagree (label "profile_schema_version" labels)
                            (label "profile_schema_version" expected))
                        && not (disagree (layer_label labels) (layer_label expected)))))))

module _ (to_int : Text → Option ℤ) (builder_version : Text) where
  -- what the catalog's record has to say, if there is one
  abbrev pub fresh_record : Option ArtifactRecord → Plan → Bool
  fresh_record none plan = true
  fresh_record (some r) plan =
      let expected = plan.artifact.labels in
      r.stack_schema_version
        == expected_version to_int builder_version (label "schema_version" expected)
      && (r.profile_schema_version
            == expected_version to_int builder_version (label "profile_schema_version" expected)
          && r.layer_schema_version
            == expected_version to_int builder_version (layer_label expected))

  is_empty-label_reasons :
      (labels : Labels) (plan : Plan)
      → is_empty (label_reasons to_int builder_version labels plan) ≡ fresh_labels labels plan
  unfolding label_reasons
  is_empty-label_reasons labels plan = simp (is_empty-when_changed) (ground arith)

  is_empty-record_reasons :
      (r : Option ArtifactRecord) (plan : Plan) (reasons : List DriftReason)
      → is_empty (record_reasons to_int builder_version r plan reasons)
        ≡ (fresh_record r plan && is_empty reasons)
  unfolding record_reasons
  is_empty-record_reasons none plan reasons = refl
  is_empty-record_reasons (some r) plan reasons = simp (is_empty-when_new) (ground arith)

  -- An image has not drifted exactly if it carries a label of the tool, its fingerprint is the
  -- plan's, each other label that both it and the plan carry is the same, the versions of the
  -- catalog's record, if there is one, are the plan's, and its builder label, if any, is the
  -- builder's version.
  pub is_stale-detect_drift :
      (labels : Labels) (r : Option ArtifactRecord) (plan : Plan)
      → is_stale (detect_drift to_int builder_version labels r plan)
        ≡ not (
            any (λ k. starts_with k (codes "stackwarden.")) (keys labels)
            && (fresh_labels labels plan
                && (fresh_record r plan
                    && (is_empty (label "builder_version" labels)
                        || label "builder_version" labels == builder_version))))
  unfolding is_stale detect_drift
  is_stale-detect_drift labels r plan = ground (
    arith,
    is_empty-when_changed
        (not (is_empty (label "builder_version" labels))
          && not (label "builder_version" labels == builder_version))
        builder_version_changed
        (record_reasons to_int builder_version r plan
          (label_reasons to_int builder_version labels plan)),
    is_empty-record_reasons r plan (label_reasons to_int builder_version labels plan),
    is_empty-label_reasons labels plan,
  )
