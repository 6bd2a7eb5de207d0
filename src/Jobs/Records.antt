-- ===== src/Jobs/Records.antt =====
-- Jobs and their events: packages/stackwarden/src/stackwarden/web/jobs/models.py, and the row of
-- packages/stackwarden/src/stackwarden/web/jobs/store.py. A time is a number of ticks. What the
-- row holds as JSON is one value here.
use stack_warden.Base.{ℕ, Text, Bool, true, false, Option, Dict, Eq, ◌≡◌, ◌↔◌, arith}

pub data JobStatus : Type 0 where
  queued running succeeded failed canceled : JobStatus

abbrev pub job_status_beq : JobStatus → JobStatus → Bool
job_status_beq queued queued = true
job_status_beq running running = true
job_status_beq succeeded succeeded = true
job_status_beq failed failed = true
job_status_beq canceled canceled = true
job_status_beq _ _ = false

pub job_status_beq_iff : (a b : JobStatus) → (job_status_beq a b ≡ true) ↔ (a ≡ b)
job_status_beq_iff a b = ground arith

instance abbrev pub job_status_eq : Eq JobStatus
job_status_eq = record { beq = job_status_beq; beq_iff = job_status_beq_iff }

-- what a job asks for
pub record Selection : Type 0 where
  pub profile_id : Text
  pub stack_id : Text
  pub variants : Dict Text Text
  pub flags : Dict Text Bool
  pub build_optimization : Text

pub record JobRecord : Type 0 where
  pub job_id : Text
  pub status : JobStatus
  pub created_at : ℕ
  pub started_at : Option ℕ
  pub ended_at : Option ℕ
  pub selection : Selection
  pub result_artifact_id : Option Text
  pub result_tag : Option Text
  pub error_message : Option Text
  pub log_path : Text

pub data EventType : Type 0 where
  status log progress result error : EventType

pub record JobEvent : Type 0 where
  pub type : EventType
  pub ts : ℕ
  pub payload : Text
