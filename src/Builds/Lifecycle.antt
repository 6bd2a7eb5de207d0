-- ===== src/Builds/Lifecycle.antt =====
-- The lifecycle of an artifact: `_do_execute` of
-- packages/stackwarden/src/stackwarden/builders/plan_executor.py
-- `repr` of a text is a parameter.
use stack_warden.Base.{
  ℤ, Text, codes, Bool, Option, none, some, ◌++◌, if◌then◌else◌, Result, ok, err,
}
use stack_warden.Catalog.Records.{built, ArtifactRecord}
use stack_warden.Catalog.Store.{
  CatalogError, Table, insert_artifact, update_artifact, mark_stale, get_artifact_by_fingerprint,
  prune_artifact,
}
use stack_warden.Builds.Plans.{Plan}
use stack_warden.Builds.Executor.{
  ExecError, cancellation_requested, build_error, catalog_error, produced, passes, raised, World,
  Flags, known_builder, check_existing, make_record, Progress, capture_manifest,
  capture_optimization_manifest, capture_snapshots, capture_sbom, run_all_hooks, failed_with,
}

abbrev pub Executed : Type 0
Executed = Result ExecError ArtifactRecord × Table

-- the captures and the hooks, after a build that was not canceled
unfoldable pub capture_all : (run_hooks : Bool) → World → Progress → Progress
capture_all run_hooks w p =
    let captured = capture_sbom w.sbom (
      capture_snapshots w.snapshots
        (capture_optimization_manifest w.optimization_saved (capture_manifest w.manifest p))) in
    if run_hooks then run_all_hooks w.hooks captured else captured

-- the record after a build that gave an image
abbrev pub built_with : (image_id digest : Option Text) → ArtifactRecord → ArtifactRecord
built_with image_id digest r = record r { status = built; image_id = image_id; digest = digest }

-- what follows a build that gave an image
unfoldable pub after_build :
    (run_hooks : Bool) → World → (image_id digest : Option Text) → ArtifactRecord → Table → Executed
after_build run_hooks w image_id digest r table =
    let r' = built_with image_id digest r in
    let table' = update_artifact r' table in
    if w.canceled_after_build
    then (
      err (cancellation_requested (codes "Build canceled after builder execution")),
      update_artifact (failed_with (codes "Build canceled after builder execution") r') table',
    )
    else (let p = capture_all run_hooks w (r', table') in (ok p.0, p.1))

-- the `try` around the builder, for a builder that is known
unfoldable pub run_builder : (run_hooks : Bool) → World → Plan → ArtifactRecord → Table → Executed
run_builder run_hooks w plan r table =
    if w.canceled_before_build
    then (
      err (cancellation_requested (codes "Build canceled before builder execution")),
      update_artifact (failed_with (codes "Build canceled before builder execution") r) table,
    )
    else elim w.outcome [
      | produced image_id digest ↦ after_build run_hooks w image_id digest r table
      | passes e ↦ (err e, table)
      | raised detail ↦ (
        err (build_error plan.decision.builder detail),
        update_artifact (failed_with detail r) table,
      )
    ]

-- `if existing: catalog.prune_artifact(existing.id)`
unfoldable pub prune_found : Option ArtifactRecord → Table → Table
prune_found none table = table
prune_found (some r) table = prune_artifact r.id table

-- the table in which the new record is inserted
unfoldable pub cleared : Plan → Table → Table
cleared plan table =
    let marked = (mark_stale plan.profile_id plan.stack_id none table).1 in
    prune_found (get_artifact_by_fingerprint plan.artifact.fingerprint marked) marked

module _ (to_int : Text → Option ℤ) (repr : Text → Text) where
  -- from the inserted record on
  unfoldable pub build_inserted :
      (run_hooks : Bool) → World → Plan → ArtifactRecord → Table → Executed
  build_inserted run_hooks w plan r table =
      let unknown = codes "Unknown builder: " ++ repr plan.decision.builder in
      if known_builder plan.decision.builder then run_builder run_hooks w plan r table else (
        err (build_error plan.decision.builder unknown),
        update_artifact (failed_with unknown r) table,
      )

  -- the record goes into the table and is built, or its tag is another's
  unfoldable pub build_started :
      (run_hooks : Bool)
      → World
      → Plan
      → ArtifactRecord
      → (before : Table) → Result CatalogError Table
      → Executed
  build_started run_hooks w plan r before (err e) = (err catalog_error, before)
  build_started run_hooks w plan r before (ok t) = build_inserted run_hooks w plan r t

  unfoldable pub build_made :
      (run_hooks : Bool) → World → Plan → Table → Result ExecError ArtifactRecord → Executed
  build_made run_hooks w plan t (err e) = (err e, t)
  build_made run_hooks w plan t (ok r) = build_started run_hooks w plan r t (insert_artifact r t)

  -- `_do_execute` from its lifecycle updates on
  unfoldable pub lifecycle : (run_hooks : Bool) → World → Plan → Table → Executed
  lifecycle run_hooks w plan table =
      build_made run_hooks w plan (cleared plan table) (make_record to_int w plan)

  -- the second question to `should_cancel`
  unfoldable pub unless_canceled : (run_hooks : Bool) → World → Plan → Table → Executed
  unless_canceled run_hooks w plan table =
      if w.canceled_before_updates
      then (err (cancellation_requested (codes "Build canceled before lifecycle updates")), table)
      else lifecycle run_hooks w plan table

  -- what `check_existing` found is returned, or the lifecycle begins
  unfoldable pub after_check :
      (run_hooks : Bool)
      → World
      → Plan
      → Result ExecError (Option ArtifactRecord) × Table
      → Executed
  after_check run_hooks w plan (err e, table) = (err e, table)
  after_check run_hooks w plan (ok none, table) = unless_canceled run_hooks w plan table
  after_check run_hooks w plan (ok (some r), table) = (ok r, table)

  -- `_do_execute`
  unfoldable pub do_execute : (builder_version : Text) → Flags → World → Plan → Table → Executed
  do_execute builder_version flags w plan table =
      if w.canceled_at_start
      then (err (cancellation_requested (codes "Build canceled before execution started")), table)
      else if flags.rebuild
      then unless_canceled flags.run_hooks w plan table
      else after_check flags.run_hooks w plan
          (check_existing to_int builder_version flags.immutable w plan table)
