-- ===== src/Verify/Tests.antt =====
-- Runs of the verification.
use stack_warden.Base.{
  false, ok, Text, codes, true, none, some, [], ◌∷◌, text_beq, get, mem, any, filter, starts_with,
  ◌≡◌, refl, map,
}
use stack_warden.Specs.Examples.{sample_profile, sample_stack}
use stack_warden.Catalog.Records.{
  stale, ArtifactStatus, ArtifactRow, ArtifactRecord, built, failed, artifact_status_eq,
  row_of_record, row_to_record,
}
use stack_warden.Catalog.Store.{
  get_artifact_by_fingerprint, Table, get_artifact_by_tag, get_artifact_by_id, select_one,
}
use stack_warden.Catalog.Samples.{artifact}
use stack_warden.Builds.Drift.{label}
use stack_warden.Resolver.Fingerprint.{Payload, fingerprint}
use stack_warden.Verify.{
  is_fingerprint, without_last_newline, image_report, label_problems, loaded_variants,
  recompute_problems, recomputed_from, recompute, fingerprint_of, divergences, as_problems,
  missing_files, missing_labels, check_image, check_record, check_found, Evidence, failing,
  not_built, image_missing, resolve_artifact, verify_artifact, required_labels, snapshot_names,
}
use stack_warden.Verify.Verdict.{verdict, verdict-verify_artifact, stands}
use stack_warden.Verify.Fix.{apply_fix, apply_fix-get_artifact_by_id, stale_where}

-- a stand-in for the hash
abbrev toy_hash : Payload → Text
toy_hash p = codes "0123456789ab"

-- the row, and the record that is read from it
abbrev row_at : ArtifactStatus → ArtifactRow
row_at status = row_of_record (codes "a1") (artifact (codes "a1") (codes "0123456789ab") status 10)

abbrev stored : ArtifactStatus → ArtifactRecord
stored status = row_to_record (row_at status)

abbrev one_row : Table
one_row = row_at built ∷ []

abbrev one_failed : Table
one_failed = row_at failed ∷ []

-- an image with every label, and every snapshot
unfoldable evidence : Evidence
evidence = record {
  image_exists = true;
  labels = map (λ l. (l, codes "0123456789ab")) required_labels;
  files = snapshot_names;
  snapshots = some (sample_profile, sample_stack);
  json_loads = λ t. none;
}

found : resolve_artifact (codes "0123456789ab") one_row ≡ some (stored built)
unfolding resolve_artifact get_artifact_by_tag select_one row_of_record text_beq
found = refl

found_failed : resolve_artifact (codes "a1") one_failed ≡ some (stored failed)
unfolding resolve_artifact get_artifact_by_tag select_one text_beq row_of_record
    get_artifact_by_fingerprint get_artifact_by_id
found_failed = refl

verdict-verify_artifact_example :
    verdict (verify_artifact (codes "1") toy_hash true evidence (codes "0123456789ab") one_row)
    ≡ ok (stands (codes "1") toy_hash true evidence (stored built))
unfolding any row_to_record required_labels row_of_record mem evidence is_fingerprint
    without_last_newline
verdict-verify_artifact_example =
    verdict-verify_artifact (codes "1") toy_hash true evidence (codes "0123456789ab") one_row
      (stored built) found

verified :
    verdict (verify_artifact (codes "1") toy_hash true evidence (codes "0123456789ab") one_row)
    ≡ ok true
unfolding verify_artifact check_found resolve_artifact get_artifact_by_tag select_one text_beq
    row_of_record check_record row_to_record evidence check_image image_report missing_labels
    required_labels mem starts_with filter get missing_files as_problems divergences fingerprint_of
    recompute recomputed_from recompute_problems loaded_variants label_problems fingerprint any
    label is_fingerprint without_last_newline
verified = refl

-- a fingerprint that is too short for a folder
short_name : is_fingerprint (codes "t1") ≡ false
unfolding is_fingerprint without_last_newline any
short_name = refl

-- a failed build is marked, although there is no image to look at
apply_fix-get_artifact_by_id_example :
    let report = failing (not_built failed) image_missing in
    (id : Text) × ((stored failed).id ≡ some id)
    × (apply_fix (codes "a1") report one_failed
        ≡ map (stale_where id (codes "IMAGE_MISSING")) one_failed)
    × (get_artifact_by_id id (apply_fix (codes "a1") report one_failed)
        ≡ some (record (stored failed) {
          status = stale;
          stale_reason = some (codes "verify:IMAGE_MISSING");
        }))
unfolding any
apply_fix-get_artifact_by_id_example =
    apply_fix-get_artifact_by_id (codes "a1") (failing (not_built failed) image_missing) one_failed
      (stored failed) (refl, tt) found_failed
