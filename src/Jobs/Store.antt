-- ===== src/Jobs/Store.antt =====
-- The table of jobs: packages/stackwarden/src/stackwarden/web/jobs/store.py
-- A row holds what a record does, so that the table is a list of records.
use stack_warden.Base.{
  ℕ, suc, Text, codes, Bool, Option, none, some, List, [], ◌∷◌, ◌++◌, any, ◌==◌, ◌&&◌, ◌||◌,
  text_eq, ltb, if◌then◌else◌, Result, ok, err,
}
use stack_warden.Jobs.Records.{
  JobStatus, queued, running, failed, canceled, job_status_eq, JobRecord,
}

abbrev pub Jobs : Type 0
Jobs = List JobRecord

pub data StoreError : Type 0 where
  integrity_error : StoreError

-- `JobStore.insert`
unfoldable pub insert : JobRecord → Jobs → Result StoreError Jobs
insert r jobs =
    if any (λ row. row.job_id == r.job_id) jobs then err integrity_error else ok (jobs ++ r ∷ [])

unfoldable pub update_where : (JobRecord → Bool) → (JobRecord → JobRecord) → Jobs → Jobs
update_where p f [] = []
update_where p f (row ∷ rows) = (if p row then f row else row) ∷ update_where p f rows

unfoldable pub count_where : (JobRecord → Bool) → Jobs → ℕ
count_where p [] = 0
count_where p (row ∷ rows) = if p row then suc (count_where p rows) else count_where p rows

-- the values that `JobStore.update` sets; the selection is not among them
abbrev pub updated : JobRecord → JobRecord → JobRecord
updated r row = record row {
  status = r.status;
  started_at = r.started_at;
  ended_at = r.ended_at;
  result_artifact_id = r.result_artifact_id;
  result_tag = r.result_tag;
  error_message = r.error_message;
}

-- `JobStore.update`
unfoldable pub update_row : JobRecord → Jobs → Jobs
update_row r jobs = update_where (λ row. row.job_id == r.job_id) (updated r) jobs

-- `JobStore.get`
unfoldable pub find_job : Text → Jobs → Option JobRecord
find_job id [] = none
find_job id (row ∷ rows) = if row.job_id == id then some row else find_job id rows

abbrev pub is_active : JobStatus → Bool
is_active s = s == queued || s == running

-- the `WHERE` and the values of `cancel_if_active`
abbrev pub is_cancelable : Text → JobRecord → Bool
is_cancelable id row = row.job_id == id && is_active row.status

abbrev pub canceled_by_user : ℕ → JobRecord → JobRecord
canceled_by_user now row = record row {
  status = canceled;
  ended_at = some now;
  error_message = some (codes "Canceled by user");
}

-- `JobStore.cancel_if_active`
unfoldable pub cancel_if_active : (now : ℕ) → Text → Jobs → Bool × Jobs
cancel_if_active now id jobs = (
  ltb 0 (count_where (is_cancelable id) jobs),
  update_where (is_cancelable id) (canceled_by_user now) jobs,
)

-- `JobStore.mark_orphaned_running_as_failed`
unfoldable pub mark_orphaned_running_as_failed : (now : ℕ) → Jobs → ℕ × Jobs
mark_orphaned_running_as_failed now jobs = (
  count_where (λ row. row.status == running) jobs,
  update_where (λ row. row.status == running)
      (λ row. record row {
        status = failed;
        ended_at = some now;
        error_message = some (codes "Server restarted while job was running");
      })
      jobs,
)
