-- ===== src/Builds/Tests.antt =====
-- Runs of the executor, and each theorem at a concrete input.
use stack_warden.Base.{
  Text, codes, true, Option, none, some, [], ◌++◌, ◌==◌, ◌&&◌, ◌||◌, not, text_eq, nat_eq, ◌≡◌,
  refl, any, get, mem, keys, starts_with, text_beq, is_empty, if◌then◌else◌, Result, ok, err,
}
use stack_warden.Catalog.Records.{
  ArtifactStatus, stale, artifact_status_eq, ArtifactRecord, as_stored, row_to_record,
  row_of_record, resolve_layer_schema_value,
}
use stack_warden.Catalog.Store.{
  Table, count_where, is_superseded, get_artifact_by_id, get_artifact_by_tag,
  get_artifact_by_fingerprint, insert_artifact, updated, update_where, delete_where, select_one,
  update_artifact, staled, mark_stale, prune_artifact,
}
use stack_warden.Builds.Drift.{
  label, layer_label, disagree, when_changed, when_new, expected_version, label_reasons,
  record_reasons, detect_drift, is_stale,
}
use stack_warden.Builds.Freshness.{fresh_labels, fresh_record, is_stale-detect_drift}
use stack_warden.Builds.Plans.{Plan}
use stack_warden.Builds.Executor.{
  World, Flags, is_built_record, ExecError, retire, check_existing, read_version, make_record,
  capture_manifest, capture_optimization_manifest, capture_snapshots, capture_sbom, hook_failures,
  run_all_hooks,
}
use stack_warden.Builds.Lifecycle.{
  Executed, capture_all, after_build, run_builder, build_inserted, build_started, build_made,
  prune_found, cleared, lifecycle, unless_canceled, after_check, do_execute,
}
use stack_warden.Builds.Live.{is_built_result, lifecycle-live}
use stack_warden.Builds.Outcome.{lifecycle-stored, do_execute-immutable}
use stack_warden.Builds.Samples.{
  digit, plan, other_plan, fresh_world, built_world, ordinary, frozen,
}

-- `unfolding runs` opens all that an execution computes with
unfoldable runs : Unit {0}
unfolding row_to_record row_of_record resolve_layer_schema_value count_where get_artifact_by_id
    get_artifact_by_tag get_artifact_by_fingerprint insert_artifact updated update_where
    delete_where select_one update_artifact staled mark_stale prune_artifact label layer_label
    disagree when_changed when_new expected_version label_reasons record_reasons detect_drift
    is_stale retire check_existing read_version make_record capture_manifest
    capture_optimization_manifest capture_snapshots capture_sbom hook_failures run_all_hooks
    capture_all after_build run_builder build_inserted build_started build_made prune_found cleared
    lifecycle unless_canceled after_check do_execute any get mem starts_with text_beq digit
runs = tt

abbrev quote : Text → Text
quote t = codes "'" ++ (t ++ codes "'")

abbrev version : Text
version = codes "9"

abbrev execute : Flags → World → Plan → Table → Executed
execute flags world p table = do_execute digit quote version flags world p table

-- the table after a build of each of the two variants
abbrev one_built : Table
one_built = (execute ordinary (fresh_world (codes "a")) plan []).1

abbrev both_built : Table
both_built = (execute ordinary (fresh_world (codes "b")) other_plan one_built).1

first_is_built : is_built_result (execute ordinary (fresh_world (codes "a")) plan []).0 ≡ true
unfolding runs
first_is_built = refl

status_of : Result ExecError ArtifactRecord → Option ArtifactStatus
status_of (ok r) = some r.status
status_of (err e) = none

-- the image of the first variant is there and has not drifted, and its record comes back as `STALE`
returned_stale : status_of (execute ordinary built_world plan both_built).0 ≡ some stale
unfolding runs status_of
returned_stale = refl

is_stale-detect_drift_example :
    is_stale (detect_drift digit version built_world.image_labels none plan)
    ≡ not (
        any (λ k. starts_with k (codes "stackwarden.")) (keys built_world.image_labels)
        && (fresh_labels built_world.image_labels plan
            && (fresh_record digit version none plan
                && (is_empty (label "builder_version" built_world.image_labels)
                    || label "builder_version" built_world.image_labels == version))))
is_stale-detect_drift_example =
    is_stale-detect_drift digit version built_world.image_labels none plan

lifecycle-live_example :
    count_where
      (is_superseded (codes "dgx") (codes "vllm"))
      (lifecycle digit quote true (fresh_world (codes "b")) other_plan one_built).1
    ≡ (if is_built_result
          (lifecycle digit quote true (fresh_world (codes "b")) other_plan one_built).0
        then 1
        else 0)
lifecycle-live_example =
    lifecycle-live digit quote true (fresh_world (codes "b")) other_plan one_built refl

-- the artifact that the second build returns
returned :
    (r : ArtifactRecord) × ((lifecycle digit quote true
        (fresh_world (codes "b"))
        other_plan
        one_built).0
      ≡ ok r)
unfolding runs
returned = (_, refl)

lifecycle-stored_example :
    get_artifact_by_id
      (codes "b")
      (lifecycle digit quote true (fresh_world (codes "b")) other_plan one_built).1
    ≡ some (as_stored returned.0)
lifecycle-stored_example =
    lifecycle-stored digit quote true (fresh_world (codes "b")) other_plan one_built refl returned.1

one_built_known : is_built_record (get_artifact_by_tag (codes "t1") one_built) ≡ true
unfolding runs
one_built_known = refl

do_execute-immutable_example :
    ((execute frozen built_world plan one_built).1 ≡ one_built)
    × ((r : ArtifactRecord)
        → (execute frozen built_world plan one_built).0 ≡ ok r
        → get_artifact_by_tag (codes "t1") one_built ≡ some r)
do_execute-immutable_example =
    do_execute-immutable digit quote version frozen built_world plan one_built refl refl
      one_built_known
