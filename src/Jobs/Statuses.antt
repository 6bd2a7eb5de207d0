-- ===== src/Jobs/Statuses.antt =====
-- What each operation does to the status of a job:
-- packages/stackwarden/src/stackwarden/web/jobs/store.py and manager.py
use stack_warden.Base.{
  ℕ, Text, false, Option, none, some, [], ◌∷◌, ◌++◌, any, get, ◌==◌, text_eq, ◌≡◌, refl, arith,
  if◌then◌else◌, ok, Bool-cases, Option-cases, inl, inr, eq_of_==, ==_refl,
}
use stack_warden.Jobs.Records.{JobStatus, queued, canceled, job_status_eq, JobRecord, Selection}
use stack_warden.Jobs.Store.{
  Jobs, insert, update_where, update_row, find_job, is_active, is_cancelable, canceled_by_user,
  cancel_if_active,
}
use stack_warden.Jobs.Events.{Queue}
use stack_warden.Jobs.Manager.{
  JobManager, new_job, create_job, update_job, request_cancel, at_queues,
}

abbrev pub status_in : Option JobRecord → Option JobStatus
status_in none = none
status_in (some r) = some r.status

-- the status that the table has for a job
abbrev pub status_of : Text → JobManager → Option JobStatus
status_of id m = status_in (find_job id m.store)

-- what a cancel does to a status
abbrev pub cancel_status : Option JobStatus → Option JobStatus
cancel_status none = none
cancel_status (some s) = if is_active s then some canceled else some s

-- what a write does to a status
abbrev pub write_status : JobStatus → Option JobStatus → Option JobStatus
write_status s none = none
write_status s (some old) = some s

status-cancel :
    (now : ℕ) (id j : Text) (jobs : Jobs)
    → status_in (find_job j (update_where (is_cancelable id) (canceled_by_user now) jobs)) ≡ (
        if id == j
        then cancel_status (status_in (find_job j jobs))
        else status_in (find_job j jobs))
unfolding find_job update_where
status-cancel now id j [] = ground arith
status-cancel now id j (row ∷ rows) = ground (
  arith,
  status-cancel now id j rows,
  eq_of_== row.job_id id,
  eq_of_== row.job_id j,
  eq_of_== id j,
  ==_refl id,
)

status-update_row :
    (r : JobRecord) (j : Text) (jobs : Jobs)
    → status_in (find_job j (update_row r jobs)) ≡ (
        if r.job_id == j
        then write_status r.status (status_in (find_job j jobs))
        else status_in (find_job j jobs))
unfolding find_job update_row update_where
status-update_row r j [] = ground arith
status-update_row r j (row ∷ rows) = ground (
  arith,
  status-update_row r j rows,
  eq_of_== row.job_id r.job_id,
  eq_of_== row.job_id j,
  eq_of_== r.job_id j,
  ==_refl j,
)

find_job-snoc :
    (r : JobRecord) (j : Text) (jobs : Jobs)
    → any (λ row. row.job_id == r.job_id) jobs ≡ false
    → status_in (find_job j (jobs ++ r ∷ []))
      ≡ (if r.job_id == j then some r.status else status_in (find_job j jobs))
unfolding find_job any
find_job-snoc r j [] h = ground arith
find_job-snoc r j (row ∷ rows) h =
    ground (arith, find_job-snoc r j rows, eq_of_== row.job_id j, eq_of_== r.job_id j, ==_refl j)

pub status_of-request_cancel :
    (now : ℕ) (id j : Text) (m : JobManager)
    → status_of j (request_cancel now id m).1
      ≡ (if id == j then cancel_status (status_of j m) else status_of j m)
unfolding request_cancel cancel_if_active
status_of-request_cancel now id j m = ground (arith, status-cancel now id j m.store)

pub status_of-update_job :
    (r : JobRecord) (j : Text) (m : JobManager)
    → status_of j (update_job r m)
      ≡ (if r.job_id == j then write_status r.status (status_of j m) else status_of j m)
unfolding update_job
status_of-update_job r j m = status-update_row r j m.store

find_job-none :
    (id : Text) (jobs : Jobs)
    → any (λ row. row.job_id == id) jobs ≡ false
    → status_in (find_job id jobs) ≡ none
unfolding find_job any
find_job-none id [] h = refl
find_job-none id (row ∷ rows) h = ground (arith, find_job-none id rows)

-- a job that is created is new and queued, and the others stay
pub status_of-create_job :
    (id : Text) (now : ℕ) (s : Selection) (log_path : Text) (m : JobManager) {r : JobRecord}
    {m' : JobManager} (j : Text)
    → create_job id now s log_path m ≡ ok (r, m')
    → (r.job_id ≡ id)
      × (status_of id m ≡ none)
      × (status_of j m' ≡ (if id == j then some queued else status_of j m))
unfolding create_job insert
status_of-create_job id now s log_path m {r} {m'} j h =
    elim (Bool-cases (any (λ row. row.job_id == id) m.store)) [
      | inl taken ↦ absurd (ground arith)
      | inr fresh ↦ (
        ground arith,
        find_job-none id m.store fresh,
        ground (arith, find_job-snoc (new_job id now s log_path) j m.store fresh),
      )
    ]

-- the queues do not touch the table
pub store-at_queues :
    (f : Queue → Queue) (id : Text) (m : JobManager) → (at_queues f id m).store ≡ m.store
unfolding at_queues
store-at_queues f id m = elim (Option-cases (get id m.subscribers)) [
  | inl none_there ↦ rw (at_queues, none_there) refl
  | inr (qs, there) ↦ rw (at_queues, there) refl
]
