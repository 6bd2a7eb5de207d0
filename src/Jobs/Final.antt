-- ===== src/Jobs/Final.antt =====
-- A job that is over stays over:
-- packages/stackwarden/src/stackwarden/web/jobs/manager.py and runners.py
use mathlib.Core.Path.{subst}
use stack_warden.Base.{
  Text, Bool, true, Option, some, ◌==◌, ◌||◌, text_eq, ◌≡◌, ap, ◌∙◌, arith, if◌then◌else◌,
  Bool-cases, inl, inr, ◌⊎◌, eq_of_==,
}
use stack_warden.Catalog.Records.{ArtifactRecord}
use stack_warden.Jobs.Records.{
  JobStatus, queued, running, succeeded, failed, canceled, job_status_eq,
}
use stack_warden.Jobs.Manager.{JobManager}
use stack_warden.Jobs.Runner.{Ensured, returned, cancellation, raised}
use stack_warden.Jobs.Statuses.{status_of, status_of-request_cancel, status_of-create_job}
use stack_warden.Jobs.Steps.{
  begin_status, end_status, status_of-publish, status_of-begin_job, status_of-end_job,
}
use stack_warden.Jobs.Phases.{
  waiting, building, Phases, Step, creates, cancels, publishes, begins, ends, Reachable, Fits,
  AllFit, Reachable-AllFit, none-some, at_job,
}

module _ (payload : ArtifactRecord → Text) where
  -- a status that no run and no request changes
  abbrev pub is_over : JobStatus → Bool
  is_over s = s == succeeded || (s == failed || s == canceled)

  begin-over :
      (st : Option JobStatus) (s : JobStatus)
      → (st ≡ some queued) ⊎ (st ≡ some canceled)
      → st ≡ some s
      → is_over s ≡ true
      → begin_status st ≡ some s
  begin-over st s (inl h) before o = absurd (ground arith)
  begin-over st s (inr h) before o = rw h (rw⁻¹ h before)

  end-over :
      (out : Ensured) (st : Option JobStatus) (s : JobStatus)
      → (st ≡ some running) ⊎ (st ≡ some canceled)
      → st ≡ some s
      → is_over s ≡ true
      → end_status out st ≡ some s
  end-over out st s (inl h) before o = absurd (ground arith)
  end-over (returned a) st s (inr h) before o = rw h (ground arith)
  end-over (cancellation message) st s (inr h) before o = rw h (ground arith)
  end-over (raised message) st s (inr h) before o = rw h (ground arith)

  -- a status that is kept at the job of a step
  kept_at_job :
      (f : Option JobStatus → Option JobStatus) (id j : Text) (m : JobManager) (s : JobStatus)
      → (status_of id m ≡ some s → f (status_of id m) ≡ some s)
      → status_of j m ≡ some s
      → (if id == j then f (status_of id m) else status_of j m) ≡ some s
  kept_at_job f id j m s keeps before = elim (Bool-cases (id == j)) [
    | inl same ↦ rw same (keeps (ap (λ i. status_of i m) (eq_of_== id j same) ∙ before))
    | inr other ↦ rw other before
  ]

  over-kept :
      {m m' : JobManager} {ph ph' : Phases}
      → Step payload m ph m' ph'
      → AllFit m ph
      → (j : Text) (s : JobStatus) → status_of j m ≡ some s
      → is_over s ≡ true
      → status_of j m' ≡ some s
  over-kept (creates {m = m} {m'} {ph} {r} id now sel log_path h) fit j s before o =
      let made = status_of-create_job id now sel log_path m j h in
      made.2 ∙ kept_at_job (λ st. some queued) id j m s (λ k. absurd (none-some made.1 k)) before
  over-kept (cancels {m = m} {ph} now id) fit j s before o =
      status_of-request_cancel now id j m ∙ rw before (ground arith)
  over-kept (publishes {m = m} {ph} now id t text) fit j s before o =
      status_of-publish now id t text j m ∙ before
  over-kept (begins {m = m} {ph} now id r h) fit j s before o =
      let here : Fits id (some (waiting r)) (status_of id m) =
        subst (λ p. Fits id p (status_of id m)) h (fit id) in
      status_of-begin_job now r j m
      ∙ (at_job begin_status id r.job_id j m here.0
          ∙ kept_at_job begin_status id j m s (λ k. begin-over (status_of id m) s here.1 k o)
              before)
  over-kept (ends {m = m} {ph} now id r out h) fit j s before o =
      let here : Fits id (some (building r)) (status_of id m) =
        subst (λ p. Fits id p (status_of id m)) h (fit id) in
      status_of-end_job payload now r out j m
      ∙ (at_job (end_status out) id r.job_id j m here.0
          ∙ kept_at_job (end_status out) id j m s (λ k. end-over out (status_of id m) s here.1 k o)
              before)

  -- However runs and requests follow each other from a server without runs on, no step changes the
  -- status of a job that has succeeded, failed or been canceled; so a cancel that took effect is
  -- never overwritten by the run of its job.
  pub Step-is_over :
      {m m' : JobManager} {ph ph' : Phases}
      → Reachable payload m ph
      → Step payload m ph m' ph'
      → (j : Text) (s : JobStatus) → status_of j m ≡ some s
      → is_over s ≡ true
      → status_of j m' ≡ some s
  Step-is_over r step j s before o = over-kept step (Reachable-AllFit payload r) j s before o
