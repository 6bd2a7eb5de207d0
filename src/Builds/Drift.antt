-- ===== src/Builds/Drift.antt =====
-- Drift between an image and its plan: packages/stackwarden/src/stackwarden/domain/drift.py
-- `int` of a text is a parameter, `none` where it raises; a version is not negative.
use Prim.Native.String.{String}
use stack_warden.Base.{
  pos, int_eq, ℤ, Text, codes, Bool, true, false, Option, none, some, List, [], ◌∷◌, ◌++◌, Dict,
  get_or, keys, any, mem, Eq, ◌==◌, ◌&&◌, ◌||◌, not, nat_eq, text_eq, is_empty, starts_with, join,
  map, ◌≡◌, ◌↔◌, arith, if◌then◌else◌,
}
use stack_warden.Catalog.Records.{ArtifactRecord}
use stack_warden.Builds.Plans.{Plan}

pub data DriftReason : Type 0 where
  fingerprint_mismatch base_digest_changed template_hash_changed stack_schema_changed : DriftReason
  profile_schema_changed block_schema_changed builder_version_changed labels_missing : DriftReason

abbrev pub drift_reason_beq : DriftReason → DriftReason → Bool
drift_reason_beq fingerprint_mismatch fingerprint_mismatch = true
drift_reason_beq base_digest_changed base_digest_changed = true
drift_reason_beq template_hash_changed template_hash_changed = true
drift_reason_beq stack_schema_changed stack_schema_changed = true
drift_reason_beq profile_schema_changed profile_schema_changed = true
drift_reason_beq block_schema_changed block_schema_changed = true
drift_reason_beq builder_version_changed builder_version_changed = true
drift_reason_beq labels_missing labels_missing = true
drift_reason_beq _ _ = false

pub drift_reason_beq_iff : (a b : DriftReason) → (drift_reason_beq a b ≡ true) ↔ (a ≡ b)
drift_reason_beq_iff a b = ground arith

instance abbrev pub drift_reason_eq : Eq DriftReason
drift_reason_eq = record { beq = drift_reason_beq; beq_iff = drift_reason_beq_iff }

pub drift_reason_value : DriftReason → Text
drift_reason_value fingerprint_mismatch = codes "fingerprint_mismatch"
drift_reason_value base_digest_changed = codes "base_digest_changed"
drift_reason_value template_hash_changed = codes "template_hash_changed"
drift_reason_value stack_schema_changed = codes "stack_schema_changed"
drift_reason_value profile_schema_changed = codes "profile_schema_changed"
drift_reason_value block_schema_changed = codes "block_schema_changed"
drift_reason_value builder_version_changed = codes "builder_version_changed"
drift_reason_value labels_missing = codes "labels_missing"

abbrev pub Labels : Type 0
Labels = Dict Text Text

-- `labels.get("stackwarden." + name, "")`
unfoldable pub label : String → Labels → Text
label name labels = get_or (codes "stackwarden." ++ codes name) [] labels

-- the layer version, under its name or the one that it had
unfoldable pub layer_label : Labels → Text
layer_label labels =
    get_or (codes "stackwarden.layer_schema_version") (label "block_schema_version" labels) labels

-- `live and expected and live != expected`
unfoldable pub disagree : (live expected : Text) → Bool
disagree live expected = not (is_empty live) && (not (is_empty expected) && not (live == expected))

-- `if changed: reasons.append(reason)`
unfoldable pub when_changed : Bool → DriftReason → List DriftReason → List DriftReason
when_changed changed reason reasons = if changed then reasons ++ reason ∷ [] else reasons

-- the same, for a reason that is not there yet
unfoldable pub when_new : Bool → DriftReason → List DriftReason → List DriftReason
when_new changed reason reasons =
    if changed then (if mem reason reasons then reasons else reasons ++ reason ∷ []) else reasons

-- `text or ""`
abbrev pub or_empty : Option Text → Text
or_empty none = []
or_empty (some t) = t

abbrev pub or_version_one : Option ℤ → ℤ
or_version_one none = pos 1
or_version_one (some n) = n

module _ (to_int : Text → Option ℤ) (builder_version : Text) where
  -- `int(expected) if expected else 1`, and 1 where `int` raises
  unfoldable pub expected_version : Text → ℤ
  expected_version expected = if is_empty expected then pos 1 else or_version_one (to_int expected)

  -- the fingerprint and the labels
  unfoldable pub label_reasons : Labels → Plan → List DriftReason
  label_reasons labels plan =
      let live_fp = label "fingerprint" labels in
      let expected = plan.artifact.labels in
      let r1 =
        when_changed (is_empty live_fp || not (live_fp == plan.artifact.fingerprint))
          fingerprint_mismatch [] in
      let r2 =
        when_changed (disagree (label "base_digest" labels) (or_empty plan.decision.base_digest))
          base_digest_changed r1 in
      let r3 =
        when_changed (disagree (label "template_hash" labels) (label "template_hash" expected))
          template_hash_changed r2 in
      let r4 =
        when_changed (disagree (label "schema_version" labels) (label "schema_version" expected))
          stack_schema_changed r3 in
      let r5 =
        when_changed
          (disagree (label "profile_schema_version" labels)
            (label "profile_schema_version" expected))
          profile_schema_changed r4 in
      when_changed (disagree (layer_label labels) (layer_label expected)) block_schema_changed r5

  -- the versions that the catalog has
  unfoldable pub record_reasons : Option ArtifactRecord → Plan → List DriftReason → List DriftReason
  record_reasons none plan reasons = reasons
  record_reasons (some r) plan reasons =
      let expected = plan.artifact.labels in
      let r1 =
        when_new
          (not (r.stack_schema_version == expected_version (label "schema_version" expected)))
          stack_schema_changed reasons in
      let r2 =
        when_new
          (not (
            r.profile_schema_version == expected_version (label "profile_schema_version" expected)))
          profile_schema_changed r1 in
      when_new (not (r.layer_schema_version == expected_version (layer_label expected)))
        block_schema_changed r2

  -- `detect_drift`
  unfoldable pub detect_drift : Labels → Option ArtifactRecord → Plan → List DriftReason
  detect_drift labels catalog_record plan =
      if any (λ k. starts_with k (codes "stackwarden.")) (keys labels)
      then (let reasons = record_reasons catalog_record plan (label_reasons labels plan) in
          let live_bv = label "builder_version" labels in
          when_changed (not (is_empty live_bv) && not (live_bv == builder_version))
            builder_version_changed reasons)
      else labels_missing ∷ []

-- `drift_summary`
unfoldable pub drift_summary : List DriftReason → Text
unfolding drift_reason_value
drift_summary reasons = join (codes ", ") (map drift_reason_value reasons)

-- `is_stale`
unfoldable pub is_stale : List DriftReason → Bool
is_stale reasons = not (is_empty reasons)
