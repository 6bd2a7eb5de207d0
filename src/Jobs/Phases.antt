-- ===== src/Jobs/Phases.antt =====
-- Runs of jobs and requests, one step at a time, and the status that fits a run:
-- packages/stackwarden/src/stackwarden/web/jobs/manager.py and runners.py
use mathlib.Core.Path.{subst}
use stack_warden.Base.{
  ℕ, Text, Option, none, some, [], Dict, get, put, get-put, ◌==◌, text_eq, ◌≡◌, refl, sym, ap, ◌∙◌,
  if◌then◌else◌, ok, Bool-cases, inl, inr, ◌⊎◌, eq_of_==,
}
use stack_warden.Catalog.Records.{ArtifactRecord}
use stack_warden.Jobs.Records.{
  JobStatus, queued, running, canceled, job_status_eq, JobRecord, Selection, EventType,
}
use stack_warden.Jobs.Manager.{JobManager, create_job, get_job, request_cancel}
use stack_warden.Jobs.Runner.{Ensured, publish, is_canceled, begin_job, end_job}
use stack_warden.Jobs.Statuses.{
  status_of, cancel_status, status_of-request_cancel, status_of-create_job,
}
use stack_warden.Jobs.Steps.{
  begin_status, end_status, status_of-publish, status_of-begin_job, status_of-end_job,
}

-- Where the run of a job is, with the record that it holds.
pub data Phase : Type 0 where
  waiting building : JobRecord → Phase
  over : Phase

abbrev pub Phases : Type 0
Phases = Dict Text Phase

-- where a run is after its first piece
abbrev pub next_phase : Option JobRecord → Phase
next_phase none = over
next_phase (some r) = building r

module _ (payload : ArtifactRecord → Text) where
  -- One piece of a run, or one request.
  pub data Step : JobManager → Phases → JobManager → Phases → Type 0 where
    creates :
        {m m' : JobManager} {ph : Phases} {r : JobRecord} (id : Text) (now : ℕ) (s : Selection)
        (log_path : Text)
        → create_job id now s log_path m ≡ ok (r, m')
        → Step m ph m' (put id (waiting r) ph)
    cancels :
        {m : JobManager} {ph : Phases} (now : ℕ) (id : Text)
        → Step m ph (request_cancel now id m).1 ph
    publishes :
        {m : JobManager} {ph : Phases} (now : ℕ) (id : Text) (t : EventType) (text : Text)
        → Step m ph (publish now id t text m) ph
    begins :
        {m : JobManager} {ph : Phases} (now : ℕ) (id : Text) (r : JobRecord)
        → get id ph ≡ some (waiting r)
        → Step m ph (begin_job now r m).1 (put id (next_phase (begin_job now r m).0) ph)
    ends :
        {m : JobManager} {ph : Phases} (now : ℕ) (id : Text) (r : JobRecord) (o : Ensured)
        → get id ph ≡ some (building r)
        → Step m ph (end_job payload now r o m) (put id over ph)

  -- What steps from a server without runs lead to.
  pub data Reachable : JobManager → Phases → Type 0 where
    started : {m : JobManager} → Reachable m []
    then_step :
        {m m' : JobManager} {ph ph' : Phases} → Reachable m ph → Step m ph m' ph' → Reachable m' ph'

pub none-some : {o : Option JobStatus} {s : JobStatus} → o ≡ none → o ≡ some s → ⊥
none-some h k = cc

-- the status that fits a run
abbrev pub Fits : Text → Option Phase → Option JobStatus → Type 0
Fits id none s = Unit
Fits id (some (waiting r)) s = (r.job_id ≡ id) × ((s ≡ some queued) ⊎ (s ≡ some canceled))
Fits id (some (building r)) s = (r.job_id ≡ id) × ((s ≡ some running) ⊎ (s ≡ some canceled))
Fits id (some over) s = Unit

abbrev pub AllFit : JobManager → Phases → Type 0
AllFit m ph = (id : Text) → Fits id (get id ph) (status_of id m)

-- a step of one job
AllFit-put :
    (id : Text) (x : Phase) (s : Option JobStatus) (m m' : JobManager) (ph : Phases)
    → AllFit m ph
    → ((j : Text) → status_of j m' ≡ (if id == j then s else status_of j m))
    → Fits id (some x) s
    → AllFit m' (put id x ph)
AllFit-put id x s m m' ph fit change here j = elim (Bool-cases (id == j)) [
  | inl same ↦
      rw (get-put id j x ph, change j, same)
        (subst (λ i. Fits i (some x) s) (eq_of_== id j same) here)
  | inr other ↦ rw (get-put id j x ph, change j, other) (fit j)
]

Fits-cancel :
    (id : Text) (p : Option Phase) (s : Option JobStatus)
    → Fits id p s
    → Fits id p (cancel_status s)
Fits-cancel id none s h = tt
Fits-cancel id (some (waiting r)) s (named, inl h) = (named, inr (rw h))
Fits-cancel id (some (waiting r)) s (named, inr h) = (named, inr (rw h))
Fits-cancel id (some (building r)) s (named, inl h) = (named, inr (rw h))
Fits-cancel id (some (building r)) s (named, inr h) = (named, inr (rw h))
Fits-cancel id (some over) s h = tt

begun_status :
    {s : Option JobStatus}
    → (s ≡ some queued) ⊎ (s ≡ some canceled)
    → (begin_status s ≡ some running) ⊎ (begin_status s ≡ some canceled)
begun_status (inl h) = inl (rw h)
begun_status (inr h) = inr (rw h)

-- a change of the status of one job
pub at_job :
    (f : Option JobStatus → Option JobStatus) (id : Text) (job_id j : Text) (m : JobManager)
    → job_id ≡ id
    → (if job_id == j then f (status_of j m) else status_of j m)
      ≡ (if id == j then f (status_of id m) else status_of j m)
at_job f id job_id j m named = elim (Bool-cases (id == j)) [
  | inl same ↦ rw (named, same) (ap (λ i. f (status_of i m)) (sym (eq_of_== id j same)))
  | inr other ↦ rw (named, other)
]

-- the record that goes to the build fits the status that the first piece leaves
Fits-begun :
    (now : ℕ) (id : Text) (r : JobRecord) (m : JobManager)
    → Fits id (some (waiting r)) (status_of id m)
    → Fits id (some (next_phase (begin_job now r m).0)) (begin_status (status_of id m))
unfolding begin_job
Fits-begun now id r m (named, h) = elim (Bool-cases (is_canceled (get_job r.job_id m))) [
  | inl gone ↦ rw (begin_job, gone) tt
  | inr active ↦ rw (begin_job, active) (named, begun_status h)
]

module _ (payload : ArtifactRecord → Text) where
  Step-AllFit :
      {m m' : JobManager} {ph ph' : Phases} → Step payload m ph m' ph' → AllFit m ph → AllFit m' ph'
  Step-AllFit (creates {m = m} {m'} {ph} {r} id now s log_path h) fit k =
      let made = status_of-create_job id now s log_path m id h in
      AllFit-put id (waiting r) (some queued) m m' ph fit
        (λ j. (status_of-create_job id now s log_path m j h).2) (made.0, inl refl) k
  Step-AllFit (cancels {m = m} {ph} now id) fit j =
      rw (status_of-request_cancel now id j m) (elim (Bool-cases (id == j)) [
        | inl same ↦ rw same (Fits-cancel j (get j ph) (status_of j m) (fit j))
        | inr other ↦ rw other (fit j)
      ])
  Step-AllFit (publishes {m = m} {ph} now id t text) fit j =
      rw (status_of-publish now id t text j m) (fit j)
  Step-AllFit (begins {m = m} {ph} now id r h) fit k =
      let here : Fits id (some (waiting r)) (status_of id m) =
        subst (λ p. Fits id p (status_of id m)) h (fit id) in
      AllFit-put id (next_phase (begin_job now r m).0) (begin_status (status_of id m)) m
        (begin_job now r m).1 ph fit
        (λ j. status_of-begin_job now r j m ∙ at_job begin_status id r.job_id j m here.0)
        (Fits-begun now id r m here) k
  Step-AllFit (ends {m = m} {ph} now id r o h) fit k =
      let here : Fits id (some (building r)) (status_of id m) =
        subst (λ p. Fits id p (status_of id m)) h (fit id) in
      AllFit-put id over (end_status o (status_of id m)) m (end_job payload now r o m) ph fit
        (λ j. status_of-end_job payload now r o j m ∙ at_job (end_status o) id r.job_id j m here.0)
        tt k

  pub Reachable-AllFit : {m : JobManager} {ph : Phases} → Reachable payload m ph → AllFit m ph
  unfolding get
  Reachable-AllFit started id = tt
  Reachable-AllFit (then_step r s) id = Step-AllFit s (Reachable-AllFit r) id
