-- ===== src/Verify/Verdict.antt =====
-- When an artifact passes: `verify_artifact` of
-- packages/stackwarden/src/stackwarden/domain/verify.py
use stack_warden.Base.{
  if◌then◌else◌, ap, Result, ok, err, Text, Bool, true, false, not, ◌&&◌, ◌||◌, Option, none, some,
  List, [], ◌∷◌, ◌++◌, ◌==◌, mem, any, keys, text_eq, nat_eq, is_empty, ◌≡◌, refl, arith,
  Bool-cases, inl, inr,
}
use stack_warden.Catalog.Records.{ArtifactRecord, built, artifact_status_eq}
use stack_warden.Catalog.Store.{Table}
use stack_warden.Builds.Drift.{Labels, label}
use stack_warden.Resolver.Fingerprint.{Payload}
use stack_warden.Verify.{
  VerifyError, VerifyReport, invalid_fingerprint, is_fingerprint, image_report, Evidence, Problem,
  required_labels, snapshot_names, missing_labels, label_problems, missing_files, as_problems,
  recompute, divergences, has_specs, recompute_problems, check_image, check_record, check_found,
  verify_artifact, resolve_artifact,
}

-- whether a verification passes, or what it raises
abbrev pub verdict : Result VerifyError VerifyReport → Result VerifyError Bool
verdict (ok report) = ok report.is_valid
verdict (err e) = err e

is_empty-append : (xs ys : List Problem) → is_empty (xs ++ ys) ≡ (is_empty xs && is_empty ys)
is_empty-append [] ys = refl
is_empty-append (x ∷ xs) ys = refl

-- a value has no element
abbrev pub lacks : List Text → Text → Bool
lacks names name = not (mem name names)

is_empty-missing_labels :
    (ls : List Text) (labels : Labels)
    → is_empty (missing_labels ls labels) ≡ not (any (lacks (keys labels)) ls)
unfolding missing_labels any
is_empty-missing_labels [] labels = refl
is_empty-missing_labels (l ∷ ls) labels = ground (arith, is_empty-missing_labels ls labels)

is_empty-missing_files :
    (ns files : List Text)
    → is_empty (as_problems (missing_files ns files)) ≡ not (any (lacks files) ns)
unfolding missing_files as_problems any
is_empty-missing_files [] files = refl
is_empty-missing_files (n ∷ ns) files = elim (Bool-cases (mem n files)) [
  | inl there ↦ simp (there) (is_empty-missing_files ns files)
  | inr absent ↦ simp (absent) refl
]

-- the image's label of the fingerprint, where there is one, is the one given
abbrev pub agrees : Labels → Text → Bool
agrees labels fp = is_empty (label "fingerprint" labels) || fp == label "fingerprint" labels

-- a fingerprint that was computed again is the label's and the catalog's
abbrev pub confirms : Labels → ArtifactRecord → Option Text → Bool
confirms labels r none = true
confirms labels r (some fp) = agrees labels fp && fp == r.fingerprint

is_empty-divergences :
    (labels : Labels) (r : ArtifactRecord) (fp : Option Text)
    → is_empty (divergences labels r fp) ≡ confirms labels r fp
unfolding divergences
is_empty-divergences labels r none = refl
is_empty-divergences labels r (some fp) = ground arith

is_empty-label_problems :
    (labels : Labels) (r : ArtifactRecord)
    → is_empty (label_problems labels r)
      ≡ (is_empty (label "fingerprint" labels) || label "fingerprint" labels == r.fingerprint)
unfolding label_problems
is_empty-label_problems labels r = ground arith

module _ (builder_version : Text) (sha256_json : Payload → Text) where
  -- the image of a built record stands up to the checks
  abbrev pub stands : (strict : Bool) → Evidence → ArtifactRecord → Bool
  stands strict e r =
      not (any (lacks (keys e.labels)) required_labels)
      && ((is_empty (label "fingerprint" e.labels) || label "fingerprint" e.labels == r.fingerprint)
          && (not (strict && any (lacks e.files) snapshot_names)
              && not (
                  has_specs e
                  && not (confirms e.labels r (recompute builder_version sha256_json e r)))))

  is_empty-recompute_problems :
      (e : Evidence) (r : ArtifactRecord)
      → is_empty (recompute_problems builder_version sha256_json e r)
        ≡ not (has_specs e && not (confirms e.labels r (recompute builder_version sha256_json e r)))
  unfolding recompute_problems
  is_empty-recompute_problems e r =
      ground (arith, is_empty-divergences e.labels r (recompute builder_version sha256_json e r))

  image_report-is_valid :
      (strict : Bool) (e : Evidence) (r : ArtifactRecord)
      → (image_report builder_version sha256_json strict e r).is_valid ≡ stands strict e r
  unfolding image_report
  image_report-is_valid true e r =
      simp
        (
          is_empty-append, is_empty-missing_labels, is_empty-label_problems, is_empty-missing_files,
          is_empty-recompute_problems,
        )
        refl
  image_report-is_valid false e r =
      simp
        (
          is_empty-append, is_empty-missing_labels, is_empty-label_problems,
          is_empty-recompute_problems,
        )
        refl

  -- The verification of an artifact that is found raises exactly if its record is BUILT, its image
  -- exists and its fingerprint does not have 12 to 64 hexadecimal digits. Else it passes exactly if the
  -- record is BUILT, the image exists and has every required label, the label of the fingerprint is
  -- empty or the catalog's, in strict mode the four snapshot files exist, and the fingerprint that is
  -- computed again, where the profile and the stack of the snapshot exist and nothing raises, is the
  -- catalog's and, where there is one, the label's.
  pub verdict-verify_artifact :
      (strict : Bool) (e : Evidence) (tag_or_id : Text) (table : Table) (r : ArtifactRecord)
      → resolve_artifact tag_or_id table ≡ some r
      → verdict (verify_artifact builder_version sha256_json strict e tag_or_id table) ≡ (
          if r.status == built && (e.image_exists && not (is_fingerprint r.fingerprint))
          then err (invalid_fingerprint r.fingerprint)
          else ok (r.status == built && (e.image_exists && stands strict e r)))
  unfolding verify_artifact check_found check_record check_image
  verdict-verify_artifact strict e tag_or_id table r found = elim (Bool-cases (r.status == built)) [
    | inl finished ↦ elim (Bool-cases e.image_exists) [
      | inl there ↦ elim (Bool-cases (is_fingerprint r.fingerprint)) [
        | inl named ↦
            simp (found, finished, there, named) (ap ok (image_report-is_valid strict e r))
        | inr unnamed ↦ simp (found, finished, there, unnamed) refl
      ]
      | inr absent ↦ simp (found, finished, absent) refl
    ]
    | inr other ↦ simp (found, other) refl
  ]
