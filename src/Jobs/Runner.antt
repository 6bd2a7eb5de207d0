-- ===== src/Jobs/Runner.antt =====
-- `run_ensure_job`: packages/stackwarden/src/stackwarden/web/jobs/runners.py
-- The event loop runs it in two pieces, before and after the build in a thread, and nothing comes
-- between the steps of one piece. How the build ends is a value; the lines of the log are events
-- that others publish.
use stack_warden.Base.{
  ℕ, Text, codes, Bool, false, Option, none, some, ◌==◌, is_empty, if◌then◌else◌,
}
use stack_warden.Catalog.Records.{ArtifactRecord, built, artifact_status_eq}
use stack_warden.Jobs.Records.{
  JobStatus, running, succeeded, failed, canceled, job_status_eq, JobRecord, EventType, status,
  error, result,
}
use stack_warden.Jobs.Manager.{
  JobManager, get_job, update_job, publish_event, publish_sentinel, clear_cancel_signal,
}

-- How `_run_ensure_sync` ends: an artifact and the optimization of the plan, or an exception.
pub data Ensured : Type 0 where
  returned : ArtifactRecord → Ensured
  cancellation : Text → Ensured
  raised : Text → Ensured

-- `_publish`
abbrev pub publish : (now : ℕ) → Text → EventType → Text → JobManager → JobManager
publish now job_id type payload m =
    publish_event job_id (record { type = type; ts = now; payload = payload }) m

-- `fresh and fresh.status == JobStatus.CANCELED`
abbrev pub is_canceled : Option JobRecord → Bool
is_canceled none = false
is_canceled (some r) = r.status == canceled

-- the record as it begins to run
abbrev pub begun : ℕ → JobRecord → JobRecord
begun now r = record r { status = running; started_at = some now }

-- up to the build: the record to build for, `none` where the job is canceled
unfoldable pub begin_job : (now : ℕ) → JobRecord → JobManager → Option JobRecord × JobManager
begin_job now r m =
    if is_canceled (get_job r.job_id m)
    then (
      none,
      clear_cancel_signal r.job_id
          (publish_sentinel r.job_id (publish now r.job_id status (codes "canceled") m)),
    )
    else (
      some (begun now r),
      publish now r.job_id status (codes "running") (update_job (begun now r) m),
    )

abbrev pub or_unfinished : Option Text → Text
or_unfinished none = codes "Build did not finish in built state"
or_unfinished (some detail) =
    if is_empty detail then codes "Build did not finish in built state" else detail

-- the records that the ends of the build write
abbrev pub with_artifact : JobStatus → ℕ → ArtifactRecord → JobRecord → JobRecord
with_artifact s now a r = record r {
  status = s;
  ended_at = some now;
  result_artifact_id = a.id;
  result_tag = some a.tag;
}

abbrev pub with_message : JobStatus → ℕ → Text → JobRecord → JobRecord
with_message s now message r = record r {
  status = s;
  ended_at = some now;
  error_message = some message;
}

-- from the build on, without `finally`; `payload` is the JSON of the result
unfoldable pub end_build :
    (payload : ArtifactRecord → Text) (now : ℕ) → JobRecord → Ensured → JobManager → JobManager
end_build payload now r (returned a) m =
    if is_canceled (get_job r.job_id m)
    then publish now r.job_id status (codes "canceled") m
    else if a.status == built
    then publish now r.job_id status (codes "succeeded")
        (publish now r.job_id result (payload a) (update_job (with_artifact succeeded now a r) m))
    else publish now r.job_id status (codes "failed") (
        update_job
          (record (with_artifact failed now a r) {
            error_message = some (or_unfinished a.error_detail);
          })
          m)
end_build payload now r (cancellation message) m =
    publish now r.job_id status (codes "canceled")
      (update_job (with_message canceled now message r) m)
end_build payload now r (raised message) m =
    if is_canceled (get_job r.job_id m)
    then publish now r.job_id status (codes "canceled") m
    else publish now r.job_id status (codes "failed") (
        publish now r.job_id error (codes "{\"message\": \"internal_error\"}")
          (update_job (with_message failed now message r) m))

-- from the build on, `finally` included
unfoldable pub end_job :
    (payload : ArtifactRecord → Text) (now : ℕ) → JobRecord → Ensured → JobManager → JobManager
end_job payload now r outcome m =
    clear_cancel_signal r.job_id (publish_sentinel r.job_id (end_build payload now r outcome m))
