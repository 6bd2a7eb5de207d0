-- ===== src/Builds/Executor.antt =====
-- Executing a plan: packages/stackwarden/src/stackwarden/builders/plan_executor.py
-- What Docker, the builders, the clock and the capture tools answer during one execution is a value
-- of `World`. The file lock around the execution, the log handler and the written files are left
-- out, and every write to the catalog goes through.
use stack_warden.Base.{
  true, ℤ, ℕ, Text, codes, Bool, false, Option, none, some, List, [], ◌∷◌, ◌++◌, ◌==◌, ◌&&◌, ◌||◌,
  text_eq, is_empty, join, if◌then◌else◌, Result, ok, err, ◌>>=◌,
}
use stack_warden.Catalog.Records.{
  building, built, failed, stale, artifact_status_eq, ArtifactRecord,
}
use stack_warden.Catalog.Store.{Table, update_artifact, get_artifact_by_tag}
use stack_warden.Builds.Plans.{Plan}
use stack_warden.Builds.Drift.{Labels, label, layer_label, detect_drift, drift_summary, is_stale}

pub data ExecError : Type 0 where
  cancellation_requested : Text → ExecError
  drift_error : (tag detail : Text) → ExecError
  build_error : (builder detail : Text) → ExecError
  catalog_error value_error : ExecError

-- How `builder.execute` ends.
pub data BuildOutcome : Type 0 where
  produced : (image_id digest : Option Text) → BuildOutcome
  -- one of the two exceptions that pass through
  passes : ExecError → BuildOutcome
  -- any other exception, with its text
  raised : Text → BuildOutcome

pub data HookRun : Type 0 where
  ran : (name logs : Text) (success : Bool) → HookRun
  hook_raised : (name detail : Text) → HookRun

pub record World : Type 0 where
  pub image_exists : Bool
  pub image_labels : Labels
  -- the answers of `should_cancel` at the four places that ask
  pub canceled_at_start : Bool
  pub canceled_before_updates : Bool
  pub canceled_before_build : Bool
  pub canceled_after_build : Bool
  pub outcome : BuildOutcome
  pub new_id : Text
  pub hostname : Text
  pub now : ℕ
  -- the paths that the captures give, `none` where one fails
  pub manifest : Option Text
  pub optimization_saved : Bool
  pub snapshots : Option (Text × (Text × Text))
  pub sbom : Option Text
  -- `none` where there is no module of hooks
  pub hooks : Option (List HookRun)

pub record Flags : Type 0 where
  pub rebuild : Bool
  pub immutable : Bool
  pub run_hooks : Bool

-- a text, or another where it is empty
abbrev pub or_text : Text → Text → Text
or_text t default = if is_empty t then default else t

abbrev pub known_builder : Text → Bool
known_builder name = name == codes "overlay" || name == codes "pull"

-- `get_artifact_by_tag` and a status that is `BUILT`
abbrev pub is_built_record : Option ArtifactRecord → Bool
is_built_record none = false
is_built_record (some r) = r.status == built

-- the update of a drifted record that was `BUILT`
unfoldable pub retire : Text → Option ArtifactRecord → Table → Table
retire summary none table = table
retire summary (some r) table =
    if r.status == built
    then update_artifact (record r { status = stale; stale_reason = some summary }) table
    else table

module _ (to_int : Text → Option ℤ) (builder_version : Text) where
  -- `check_existing`
  unfoldable pub check_existing :
      (immutable : Bool) → World → Plan → Table → Result ExecError (Option ArtifactRecord) × Table
  check_existing immutable w plan table =
      let tag = plan.artifact.tag in
      let existing = get_artifact_by_tag tag table in
      let reasons = detect_drift to_int builder_version w.image_labels existing plan in
      if w.image_exists
      then (if is_stale reasons
          then (if immutable
              then (err (drift_error tag (drift_summary reasons)), table)
              else (ok none, retire (drift_summary reasons) existing table))
          else (ok existing, table))
      else if immutable && is_built_record existing
      then (
        err (drift_error tag (codes "Image no longer present locally but catalog entry exists")),
        table,
      )
      else (ok none, table)

-- `_make_record` with the versions read
abbrev pub new_record :
    World → Plan → (stack_version profile_version layer_version : ℤ) → ArtifactRecord
new_record w plan stack_version profile_version layer_version = record {
  id = some w.new_id;
  profile_id = plan.profile_id;
  stack_id = plan.stack_id;
  tag = plan.artifact.tag;
  fingerprint = plan.artifact.fingerprint;
  image_id = none;
  digest = none;
  base_image = plan.decision.base_image;
  base_digest = plan.decision.base_digest;
  build_strategy = plan.decision.builder;
  template_hash = none;
  stack_schema_version = stack_version;
  profile_schema_version = profile_version;
  layer_schema_version = layer_version;
  manifest_path = none;
  sbom_path = none;
  profile_snapshot_path = none;
  stack_snapshot_path = none;
  plan_path = none;
  variant_json = none;
  host_id = some w.hostname;
  docker_context = none;
  daemon_arch = none;
  status = building;
  stale_reason = none;
  error_detail = none;
  created_at = record { clock = w.now; has_zone = true };
}

-- a version label, 1 where it is missing or empty; `int` may raise
unfoldable pub read_version : (to_int : Text → Option ℤ) → Text → Result ExecError ℤ
read_version to_int t = elim (to_int (or_text t (codes "1"))) [
  | none ↦ err value_error
  | some n ↦ ok n
]

-- `_make_record`, with the status `BUILDING`
unfoldable pub make_record :
    (to_int : Text → Option ℤ) → World → Plan → Result ExecError ArtifactRecord
make_record to_int w plan = do
  let labels = plan.artifact.labels
  stack_version ← read_version to_int (label "schema_version" labels)
  profile_version ← read_version to_int (label "profile_schema_version" labels)
  layer_version ← read_version to_int (layer_label labels)
  ok (new_record w plan stack_version profile_version layer_version)

-- the record under construction, and the table
abbrev pub Progress : Type 0
Progress = ArtifactRecord × Table

-- change the record and write it
abbrev pub write : ArtifactRecord → Table → Progress
write r table = (r, update_artifact r table)

-- `_capture_manifest`, `_capture_optimization_manifest`, `_capture_snapshots`, `_capture_sbom`: a
-- capture that fails leaves the record alone
unfoldable pub capture_manifest : Option Text → Progress → Progress
capture_manifest none p = p
capture_manifest (some path) (r, table) = write (record r { manifest_path = some path }) table

unfoldable pub capture_optimization_manifest : Bool → Progress → Progress
capture_optimization_manifest saved (r, table) = if saved then write r table else (r, table)

unfoldable pub capture_snapshots : Option (Text × (Text × Text)) → Progress → Progress
capture_snapshots none p = p
capture_snapshots (some (profile, (stack, plan))) (r, table) =
    write
      (record r {
        profile_snapshot_path = some profile;
        stack_snapshot_path = some stack;
        plan_path = some plan;
      })
      table

unfoldable pub capture_sbom : Option Text → Progress → Progress
capture_sbom none p = p
capture_sbom (some path) (r, table) = write (record r { sbom_path = some path }) table

-- the lines that `_run_hooks` collects
unfoldable pub hook_failures : List HookRun → List Text
hook_failures [] = []
hook_failures (ran name logs success ∷ runs) =
    if success
    then hook_failures runs
    else (codes "[" ++ (name ++ (codes "] " ++ logs))) ∷ hook_failures runs
hook_failures (hook_raised name detail ∷ runs) =
    (codes "[" ++ (name ++ (codes "] " ++ detail))) ∷ hook_failures runs

-- `_run_hooks`
unfoldable pub run_all_hooks : Option (List HookRun) → Progress → Progress
run_all_hooks none p = p
run_all_hooks (some runs) (r, table) =
    let failures = hook_failures runs in
    if is_empty failures
    then (r, table)
    else write
        (record r {
          status = failed;
          error_detail = some (codes "Hook failures:\n" ++ join (codes "\n") failures);
        })
        table

-- the record as failed, with the reason
abbrev pub failed_with : Text → ArtifactRecord → ArtifactRecord
failed_with detail r = record r { status = failed; error_detail = some detail }
