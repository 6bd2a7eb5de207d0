-- ===== src/Builds/Outcome.antt =====
-- What an execution returns, next to what it stores:
-- packages/stackwarden/src/stackwarden/builders/plan_executor.py
use stack_warden.Base.{
  ℤ, ok_injective, Text, Bool, true, false, Option, some, text_eq, ◌≡◌, refl, sym, ap, ◌∙◌, arith,
  Result, ok, err, ==_refl,
}
use stack_warden.Catalog.Records.{artifact_status_eq, ArtifactRecord, as_stored}
use stack_warden.Catalog.Store.{
  Table, CatalogError, has_id, insert_artifact, get_artifact_by_id, get_artifact_by_tag,
}
use stack_warden.Catalog.RoundTrip.{select_one-snoc}
use stack_warden.Builds.Plans.{Plan}
use stack_warden.Builds.Executor.{
  ExecError, World, Flags, is_built_record, check_existing, make_record,
}
use stack_warden.Builds.Lifecycle.{
  Executed, build_inserted, build_started, build_made, cleared, lifecycle, after_check, do_execute,
}
use stack_warden.Builds.Tracked.{Tracked, insert_artifact-Tracked}
use stack_warden.Builds.Captured.{Ended, passes_through, build_inserted-Ended}
use stack_warden.Builds.Live.{made-named}

Tracked-get :
    {id : Text} {rows : Table} {r : ArtifactRecord} {t : Table}
    → Tracked id rows r t
    → get_artifact_by_id id t ≡ some (as_stored r)
unfolding get_artifact_by_id
Tracked-get {id} {rows} k =
    rw (k.table, select_one-snoc (has_id id) k.row rows k.others (rw k.row_id (==_refl id)))
      (ap some k.row_record)

Ended-get :
    {id : Text} {rows : Table} {start : ArtifactRecord} (e : Executed) {r : ArtifactRecord}
    → Ended id rows start e
    → e.0 ≡ ok r
    → get_artifact_by_id id e.1 ≡ some (as_stored r)
Ended-get (ok r', t) k h =
    Tracked-get k.tracked ∙ ap (λ x. some (as_stored x)) (sym k.status.0 ∙ ok_injective h)
Ended-get (err x, t) k h = absurd (cc)

module _ (to_int : Text → Option ℤ) (repr : Text → Text) (run_hooks : Bool) (w : World)
    (plan : Plan) where
  build_started-stored :
      (r : ArtifactRecord) (rows : Table) (inserted : Result CatalogError Table)
      {r' : ArtifactRecord}
      → passes_through w.outcome ≡ false
      → r.id ≡ some w.new_id
      → insert_artifact r rows ≡ inserted
      → (build_started to_int repr run_hooks w plan r rows inserted).0 ≡ ok r'
      → get_artifact_by_id w.new_id (build_started to_int repr run_hooks w plan r rows inserted).1
        ≡ some (as_stored r')
  unfolding build_started
  build_started-stored r rows (err x) n named h e = absurd (cc)
  build_started-stored r rows (ok t) n named h e =
      Ended-get (build_inserted to_int repr run_hooks w plan r t)
        (build_inserted-Ended to_int repr run_hooks w plan r t n
          (insert_artifact-Tracked r w.new_id rows named h))
        e

  build_made-stored :
      (rows : Table) (made : Result ExecError ArtifactRecord) {r' : ArtifactRecord}
      → passes_through w.outcome ≡ false
      → make_record to_int w plan ≡ made
      → (build_made to_int repr run_hooks w plan rows made).0 ≡ ok r'
      → get_artifact_by_id w.new_id (build_made to_int repr run_hooks w plan rows made).1
        ≡ some (as_stored r')
  unfolding build_made
  build_made-stored rows (err x) n h e = absurd (cc)
  build_made-stored rows (ok r) n h e =
      build_started-stored r rows (insert_artifact r rows) n
        (made-named to_int repr run_hooks w plan h).0 refl e

  -- The artifact that a run returns from its lifecycle is the one that the catalog has under its id,
  -- but for the time zone of its time, which the catalog loses, a schema version 0 of the stack or the
  -- profile, which it reads as 1, and one of the layers below 1, which it reads as 1 too; where
  -- the builder raises neither a BuildError nor a cancellation of its own.
  pub lifecycle-stored :
      (t : Table) {r : ArtifactRecord}
      → passes_through w.outcome ≡ false
      → (lifecycle to_int repr run_hooks w plan t).0 ≡ ok r
      → get_artifact_by_id w.new_id (lifecycle to_int repr run_hooks w plan t).1
        ≡ some (as_stored r)
  unfolding lifecycle
  lifecycle-stored t n h = build_made-stored (cleared plan t) (make_record to_int w plan) n refl h

module _ (to_int : Text → Option ℤ) (repr : Text → Text) (builder_version : Text) (flags : Flags)
    (w : World) (plan : Plan) (t : Table) where
  -- If the catalog has the plan's tag as `BUILT`, an immutable execution that is not a rebuild
  -- leaves the catalog as it is, and an artifact that it returns is the catalog's.
  pub do_execute-immutable :
      flags.immutable ≡ true
      → flags.rebuild ≡ false
      → is_built_record (get_artifact_by_tag plan.artifact.tag t) ≡ true
      → ((do_execute to_int repr builder_version flags w plan t).1 ≡ t)
        × ((r : ArtifactRecord)
            → (do_execute to_int repr builder_version flags w plan t).0 ≡ ok r
            → get_artifact_by_tag plan.artifact.tag t ≡ some r)
  unfolding do_execute check_existing after_check
  do_execute-immutable i b known = ground arith
