-- ===== src/Verify.antt =====
-- Integrity of an artifact: packages/stackwarden/src/stackwarden/domain/verify.py
-- Docker, the files of the snapshots and JSON answer as a value of `Evidence`. A problem is kept by
-- its kind, without its text; the facts of a report and the warnings on the fingerprint are left out.
mod Tests
pub mod Verdict
pub mod Fix
pub mod Made
use stack_warden.Base.{
  any, leb, length, Result, ok, err, nat_eq, ℕ, Text, codes, Bool, true, false, not, ◌&&◌, ◌||◌,
  Option, none, some, List, [], ◌∷◌, ◌++◌, ◌==◌, Dict, get, get_or, keys, mem, text_eq, nat_eq,
  is_empty, leb, length, if◌then◌else◌, Result, ok, err, ◌>>=◌,
}
use stack_warden.Specs.{VariantValue}
use stack_warden.Specs.Profiles.{Profile, Stack}
use stack_warden.Catalog.Records.{ArtifactRecord, ArtifactStatus, built, artifact_status_eq}
use stack_warden.Catalog.Store.{
  Table, get_artifact_by_tag, get_artifact_by_fingerprint, get_artifact_by_id,
}
use stack_warden.Builds.Drift.{Labels, label}
use stack_warden.Resolver.Fingerprint.{Payload, fingerprint}
use stack_warden.Resolver.Resolve.{stringified}

pub data VerifyErrorCode : Type 0 where
  fingerprint_mismatch label_missing image_missing catalog_missing recompute_diverged unknown :
      VerifyErrorCode

pub data Problem : Type 0 where
  no_record : Text → Problem
  not_built : ArtifactStatus → Problem
  image_not_found : Text → Problem
  missing_label : Text → Problem
  label_differs : Problem
  missing_snapshot : Text → Problem
  diverged_from_label : Problem
  diverged_from_catalog : Problem

-- the `ValueError` of `_validate_fingerprint`
pub data VerifyError : Type 0 where
  invalid_fingerprint : Text → VerifyError

-- `[a-f0-9]`
abbrev pub is_hex : ℕ → Bool
is_hex c = (leb 97 c && leb c 102) || (leb 48 c && leb c 57)

-- a text without the newline that ends it: `$` also matches before that one
unfoldable pub without_last_newline : Text → Text
without_last_newline [] = []
without_last_newline (c ∷ []) = if c == 10 then [] else c ∷ []
without_last_newline (c ∷ d ∷ s) = c ∷ without_last_newline (d ∷ s)

-- `_FINGERPRINT_RE.match`: `^[a-f0-9]{12,64}$`
unfoldable pub is_fingerprint : Text → Bool
is_fingerprint t =
    let body = without_last_newline t in
    not (any (λ c. not (is_hex c)) body) && (leb 12 (length body) && leb (length body) 64)

-- `_REQUIRED_LABELS`
unfoldable pub required_labels : List Text
required_labels =
    codes "stackwarden.profile"
    ∷ codes "stackwarden.stack"
    ∷ codes "stackwarden.fingerprint"
    ∷ codes "stackwarden.base_digest"
    ∷ codes "stackwarden.template_hash"
    ∷ codes "stackwarden.builder_version"
    ∷ []

pub record Evidence : Type 0 where
  pub image_exists : Bool
  pub labels : Labels
  -- the snapshot files that exist
  pub files : List Text
  -- the profile and the stack that are read back, `none` where that raises
  pub snapshots : Option (Profile × Stack)
  pub json_loads : Text → Option (Dict Text VariantValue)

pub record VerifyReport : Type 0 where
  pub is_valid : Bool
  pub errors : List Problem
  pub error_codes : List VerifyErrorCode
  pub warnings : List Text

abbrev or_else_record : Option ArtifactRecord → Option ArtifactRecord → Option ArtifactRecord
or_else_record none later = later
or_else_record (some r) later = some r

-- `_resolve_artifact`
unfoldable pub resolve_artifact : Text → Table → Option ArtifactRecord
resolve_artifact tag_or_id table = or_else_record (get_artifact_by_tag tag_or_id table) (
    or_else_record (get_artifact_by_fingerprint tag_or_id table)
      (get_artifact_by_id tag_or_id table))

-- a report of one error
abbrev pub failing : Problem → VerifyErrorCode → VerifyReport
failing problem code = record {
  is_valid = false;
  errors = problem ∷ [];
  error_codes = code ∷ [];
  warnings = [];
}

-- the required labels that an image has not
unfoldable pub missing_labels : List Text → Labels → List Problem
missing_labels [] labels = []
missing_labels (l ∷ ls) labels =
    let rest = missing_labels ls labels in
    if mem l (keys labels) then rest else missing_label l ∷ rest

-- the label of the fingerprint, where there is one, is not the catalog's
unfoldable pub label_problems : Labels → ArtifactRecord → List Problem
label_problems labels r =
    let live = label "fingerprint" labels in
    if is_empty live || live == r.fingerprint then [] else label_differs ∷ []

abbrev pub snapshot_names : List Text
snapshot_names =
    codes "profile.json" ∷ codes "stack.json" ∷ codes "manifest.json" ∷ codes "plan.json" ∷ []

-- the snapshot files that are missing
unfoldable pub missing_files : List Text → List Text → List Text
missing_files [] files = []
missing_files (n ∷ ns) files =
    let rest = missing_files ns files in if mem n files then rest else n ∷ rest

unfoldable pub as_problems : List Text → List Problem
as_problems [] = []
as_problems (n ∷ ns) = missing_snapshot n ∷ as_problems ns

-- `a or b`, for a label and a field of the record
abbrev pub label_or : Text → Option Text → Option Text
label_or t field = if is_empty t then field else some t

-- the variants of the label, or else of the record; `none` where they cannot be read
unfoldable pub loaded_variants :
    (Text → Option (Dict Text VariantValue)) → Text → Option Text → Option (Dict Text VariantValue)
loaded_variants json_loads [] none = some []
loaded_variants json_loads [] (some []) = some []
loaded_variants json_loads [] (some (c ∷ s)) = json_loads (c ∷ s)
loaded_variants json_loads (c ∷ s) field = json_loads (c ∷ s)

-- what a fingerprint that was computed again differs from
unfoldable pub divergences : Labels → ArtifactRecord → Option Text → List Problem
divergences labels r none = []
divergences labels r (some fp) =
    let live = label "fingerprint" labels in
    (if is_empty live || fp == live then [] else diverged_from_label ∷ [])
    ++ (if fp == r.fingerprint then [] else diverged_from_catalog ∷ [])

-- the two files that are read back exist
abbrev pub has_specs : Evidence → Bool
has_specs e = mem (codes "profile.json") e.files && mem (codes "stack.json") e.files

-- `[code]` where there are problems
abbrev code_for : VerifyErrorCode → List Problem → List VerifyErrorCode
code_for code [] = []
code_for code (p ∷ ps) = code ∷ []

module _ (builder_version : Text) (sha256_json : Payload → Text) where
  unfoldable pub fingerprint_of :
      Labels → ArtifactRecord → Profile × Stack → Dict Text VariantValue → Text
  fingerprint_of labels r (profile, stack) variants =
      fingerprint builder_version sha256_json profile stack r.base_image
        (label_or (label "base_digest" labels) r.base_digest)
        (label_or (label "template_hash" labels) r.template_hash) (stringified variants)
        (label_or (label "builder_version" labels) none)

  -- the fingerprint that is computed again, `none` where a step raises
  unfoldable pub recomputed_from :
      Labels
      → ArtifactRecord
      → Option (Profile × Stack)
      → Option (Dict Text VariantValue)
      → Option Text
  recomputed_from labels r (some snapshots) (some variants) =
      some (fingerprint_of labels r snapshots variants)
  recomputed_from labels r _ _ = none

  unfoldable pub recompute : Evidence → ArtifactRecord → Option Text
  recompute e r =
      recomputed_from e.labels r e.snapshots
        (loaded_variants e.json_loads (label "variants" e.labels) r.variant_json)

  unfoldable pub recompute_problems : Evidence → ArtifactRecord → List Problem
  recompute_problems e r = if has_specs e then divergences e.labels r (recompute e r) else []

  -- the report on an image that exists
  unfoldable pub image_report : (strict : Bool) → Evidence → ArtifactRecord → VerifyReport
  image_report strict e r =
      let labels_missing = missing_labels required_labels e.labels in
      let differing = label_problems e.labels r in
      let absent = missing_files snapshot_names e.files in
      let diverged = recompute_problems e r in
      let errors =
        labels_missing
        ++ (differing ++ ((if strict then as_problems absent else []) ++ diverged)) in
      record {
        is_valid = is_empty errors;
        errors = errors;
        error_codes =
            code_for label_missing labels_missing
            ++ (code_for fingerprint_mismatch differing ++ code_for recompute_diverged diverged);
        warnings = if strict then [] else absent;
      }

  -- the checks of an image that exists; `artifact_dir` may raise
  unfoldable pub check_image :
      (strict : Bool) → Evidence → ArtifactRecord → Result VerifyError VerifyReport
  check_image strict e r =
      if is_fingerprint r.fingerprint
      then ok (image_report strict e r)
      else err (invalid_fingerprint r.fingerprint)

  -- the checks of a record that was found
  unfoldable pub check_record :
      (strict : Bool) → Evidence → ArtifactRecord → Result VerifyError VerifyReport
  check_record strict e r =
      if r.status == built
      then (if e.image_exists
          then check_image strict e r
          else ok (failing (image_not_found r.tag) image_missing))
      else ok (failing (not_built r.status) image_missing)

  unfoldable pub check_found :
      (strict : Bool) → Evidence → Text → Option ArtifactRecord → Result VerifyError VerifyReport
  check_found strict e tag_or_id none = ok (failing (no_record tag_or_id) catalog_missing)
  check_found strict e tag_or_id (some r) = check_record strict e r

  -- `verify_artifact`
  unfoldable pub verify_artifact :
      (strict : Bool) → Evidence → Text → Table → Result VerifyError VerifyReport
  verify_artifact strict e tag_or_id table =
      check_found strict e tag_or_id (resolve_artifact tag_or_id table)
