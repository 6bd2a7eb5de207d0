-- ===== src/Jobs/Manager.antt =====
-- The job manager: packages/stackwarden/src/stackwarden/web/jobs/manager.py
-- The event loop runs one operation at a time. Making the directory of the logs is left out, and
-- `subscribe` is the queue that it adds.
use stack_warden.Base.{
  ℕ, Text, Bool, true, false, Option, none, some, List, [], ◌∷◌, ◌++◌, map, Dict, get, get_or, put,
  ◌==◌, text_eq, if◌then◌else◌, Result, ok, err,
}
use stack_warden.Jobs.Records.{queued, Selection, JobRecord, JobEvent}
use stack_warden.Jobs.Store.{
  Jobs, StoreError, insert, update_row, find_job, cancel_if_active, mark_orphaned_running_as_failed,
}
use stack_warden.Jobs.Events.{Queue, offer, finish}

pub record JobManager : Type 0 where
  pub store : Jobs
  pub subscribers : Dict Text (List Queue)
  pub cancel_signals : Dict Text Bool

-- `JobManager.__init__`
unfoldable pub started_manager : (now : ℕ) → Jobs → JobManager
started_manager now jobs = record {
  store = (mark_orphaned_running_as_failed now jobs).1;
  subscribers = [];
  cancel_signals = [];
}

abbrev pub new_job : (job_id : Text) (now : ℕ) → Selection → (log_path : Text) → JobRecord
new_job job_id now selection log_path = record {
  job_id = job_id;
  status = queued;
  created_at = now;
  started_at = none;
  ended_at = none;
  selection = selection;
  result_artifact_id = none;
  result_tag = none;
  error_message = none;
  log_path = log_path;
}

-- `create_job`, at the id and the log path that it makes up
unfoldable pub create_job :
    (job_id : Text) (now : ℕ)
    → Selection
    → (log_path : Text) → JobManager
    → Result StoreError (JobRecord × JobManager)
create_job job_id now selection log_path m =
    let r = new_job job_id now selection log_path in
    elim (insert r m.store) [
      | err e ↦ err e
      | ok jobs ↦
          ok (r, record m { store = jobs; cancel_signals = put job_id false m.cancel_signals })
    ]

unfoldable pub get_job : Text → JobManager → Option JobRecord
get_job job_id m = find_job job_id m.store

unfoldable pub update_job : JobRecord → JobManager → JobManager
update_job r m = record m { store = update_row r m.store }

-- `request_cancel`
unfoldable pub request_cancel : (now : ℕ) → Text → JobManager → Bool × JobManager
request_cancel now job_id m =
    let (cancelled, jobs) = cancel_if_active now job_id m.store in
    (
      cancelled,
      if cancelled
          then record m { store = jobs; cancel_signals = put job_id true m.cancel_signals }
          else record m { store = jobs },
    )

-- `is_cancel_requested`
unfoldable pub is_cancel_requested : Text → JobManager → Bool
is_cancel_requested job_id m = get_or job_id false m.cancel_signals

-- `d.pop(k, None)`
unfoldable pub pop {ℓ} : {V : Type ℓ} → Text → Dict Text V → Dict Text V
pop k [] = []
pop k ((j, v) ∷ d) = if j == k then d else (j, v) ∷ pop k d

-- `clear_cancel_signal`
unfoldable pub clear_cancel_signal : Text → JobManager → JobManager
clear_cancel_signal job_id m = record m { cancel_signals = pop job_id m.cancel_signals }

-- change the queues of a job, where it has any
unfoldable pub at_queues : (Queue → Queue) → Text → JobManager → JobManager
at_queues f job_id m = elim (get job_id m.subscribers) [
  | none ↦ m
  | some queues ↦ record m { subscribers = put job_id (map f queues) m.subscribers }
]

-- `publish_event` and `publish_sentinel`
unfoldable pub publish_event : Text → JobEvent → JobManager → JobManager
publish_event job_id e m = at_queues (offer e) job_id m

unfoldable pub publish_sentinel : Text → JobManager → JobManager
publish_sentinel job_id m = at_queues finish job_id m

-- the queue that `subscribe` adds
unfoldable pub subscribe : Text → JobManager → JobManager
subscribe job_id m = record m {
  subscribers = put job_id (get_or job_id [] m.subscribers ++ [] ∷ []) m.subscribers;
}
