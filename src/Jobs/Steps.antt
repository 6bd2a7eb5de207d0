-- ===== src/Jobs/Steps.antt =====
-- Jobs as the server runs them: packages/stackwarden/src/stackwarden/web/jobs/manager.py and
-- packages/stackwarden/src/stackwarden/web/jobs/runners.py, with the requests that come between.
-- A step is what the event loop runs without a break.
use stack_warden.Base.{
  ℕ, Text, Bool, false, Option, none, some, ◌==◌, text_eq, ◌≡◌, refl, ap, ◌∙◌, arith, if◌then◌else◌,
  Bool-cases, Option-cases, inl, inr, eq_of_==,
}
use stack_warden.Catalog.Records.{ArtifactRecord, built, artifact_status_eq}
use stack_warden.Jobs.Records.{
  JobStatus, running, succeeded, failed, canceled, job_status_eq, JobRecord, EventType,
}
use stack_warden.Jobs.Store.{find_job}
use stack_warden.Jobs.Events.{finish}
use stack_warden.Jobs.Manager.{
  JobManager, get_job, clear_cancel_signal, publish_event, publish_sentinel,
}
use stack_warden.Jobs.Runner.{
  Ensured, returned, cancellation, raised, publish, is_canceled, begun, begin_job, with_artifact,
  with_message, end_build, end_job,
}
use stack_warden.Jobs.Statuses.{
  status_in, status_of, write_status, status_of-update_job, store-at_queues,
}

pub status_of-publish :
    (now : ℕ) (id : Text) (t : EventType) (payload : Text) (j : Text) (m : JobManager)
    → status_of j (publish now id t payload m) ≡ status_of j m
unfolding publish_event
status_of-publish now id t payload j m = ap (λ s. status_in (find_job j s)) (store-at_queues _ id m)

status_of-close :
    (id j : Text) (m : JobManager)
    → status_of j (clear_cancel_signal id (publish_sentinel id m)) ≡ status_of j m
unfolding clear_cancel_signal publish_sentinel
status_of-close id j m = ap (λ s. status_in (find_job j s)) (store-at_queues finish id m)

abbrev pub was_canceled : Option JobStatus → Bool
was_canceled none = false
was_canceled (some s) = s == canceled

pub is_canceled-get_job :
    (id : Text) (m : JobManager) → is_canceled (get_job id m) ≡ was_canceled (status_of id m)
unfolding get_job
is_canceled-get_job id m = elim (Option-cases (find_job id m.store)) [
  | inl missing ↦ rw missing refl
  | inr (r, there) ↦ rw there refl
]

-- what the first piece of a run does to the status of its job
abbrev pub begin_status : Option JobStatus → Option JobStatus
begin_status s = if was_canceled s then s else write_status running s

pub status_of-begin_job :
    (now : ℕ) (r : JobRecord) (j : Text) (m : JobManager)
    → status_of j (begin_job now r m).1
      ≡ (if r.job_id == j then begin_status (status_of j m) else status_of j m)
unfolding begin_job
status_of-begin_job now r j m = elim (Bool-cases (is_canceled (get_job r.job_id m))) [
  | inl gone ↦
      rw (begin_job, gone)
        (status_of-close r.job_id j _
          ∙ (status_of-publish now r.job_id _ _ j m
              ∙ ground (arith, eq_of_== r.job_id j, is_canceled-get_job r.job_id m)))
  | inr active ↦
      rw (begin_job, active)
        (status_of-publish now r.job_id _ _ j _
          ∙ (status_of-update_job (begun now r) j m
              ∙ ground (arith, eq_of_== r.job_id j, is_canceled-get_job r.job_id m)))
]

abbrev pub build_status : ArtifactRecord → JobStatus
build_status a = if a.status == built then succeeded else failed

-- what the second piece does
abbrev pub end_status : Ensured → Option JobStatus → Option JobStatus
end_status (returned a) s = if was_canceled s then s else write_status (build_status a) s
end_status (cancellation message) s = write_status canceled s
end_status (raised message) s = if was_canceled s then s else write_status failed s

module _ (payload : ArtifactRecord → Text) where
  status_of-end_build :
      (now : ℕ) (r : JobRecord) (o : Ensured) (j : Text) (m : JobManager)
      → status_of j (end_build payload now r o m)
        ≡ (if r.job_id == j then end_status o (status_of j m) else status_of j m)
  unfolding end_build
  status_of-end_build now r (returned a) j m =
      elim (Bool-cases (is_canceled (get_job r.job_id m))) [
        | inl gone ↦
            rw (end_build, gone)
              (status_of-publish now r.job_id _ _ j m
                ∙ ground (arith, eq_of_== r.job_id j, is_canceled-get_job r.job_id m))
        | inr active ↦ elim (Bool-cases (a.status == built)) [
          | inl good ↦
              rw (end_build, active, good)
                (status_of-publish now r.job_id _ _ j _
                  ∙ (status_of-publish now r.job_id _ _ j _
                      ∙ (status_of-update_job (with_artifact succeeded now a r) j m
                          ∙ ground (arith, eq_of_== r.job_id j, is_canceled-get_job r.job_id m))))
          | inr bad ↦
              rw (end_build, active, bad)
                (status_of-publish now r.job_id _ _ j _
                  ∙ (status_of-update_job _ j m
                      ∙ ground (arith, eq_of_== r.job_id j, is_canceled-get_job r.job_id m)))
        ]
      ]
  status_of-end_build now r (cancellation message) j m =
      status_of-publish now r.job_id _ _ j _
      ∙ status_of-update_job (with_message canceled now message r) j m
  status_of-end_build now r (raised message) j m =
      elim (Bool-cases (is_canceled (get_job r.job_id m))) [
        | inl gone ↦
            rw (end_build, gone)
              (status_of-publish now r.job_id _ _ j m
                ∙ ground (arith, eq_of_== r.job_id j, is_canceled-get_job r.job_id m))
        | inr active ↦
            rw (end_build, active)
              (status_of-publish now r.job_id _ _ j _
                ∙ (status_of-publish now r.job_id _ _ j _
                    ∙ (status_of-update_job (with_message failed now message r) j m
                        ∙ ground (arith, eq_of_== r.job_id j, is_canceled-get_job r.job_id m))))
      ]

  pub status_of-end_job :
      (now : ℕ) (r : JobRecord) (o : Ensured) (j : Text) (m : JobManager)
      → status_of j (end_job payload now r o m)
        ≡ (if r.job_id == j then end_status o (status_of j m) else status_of j m)
  unfolding end_job
  status_of-end_job now r o j m =
      status_of-close r.job_id j (end_build payload now r o m) ∙ status_of-end_build now r o j m
