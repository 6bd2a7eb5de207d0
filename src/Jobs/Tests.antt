-- ===== src/Jobs/Tests.antt =====
-- Runs of jobs, and each theorem at a concrete input.
use stack_warden.Base.{
  text_eq, arith, Text, codes, false, some, [], ◌∷◌, All, get, put, any, text_beq, ◌≡◌, refl, ok,
}
use stack_warden.Catalog.Records.{ArtifactRecord}
use stack_warden.Jobs.Records.{canceled, JobEvent, log}
use stack_warden.Jobs.Store.{
  insert, update_where, count_where, cancel_if_active, find_job, update_row,
}
use stack_warden.Jobs.Events.{IsFinished, IsBounded}
use stack_warden.Jobs.Manager.{
  JobManager, create_job, get_job, update_job, request_cancel, publish_event, publish_sentinel,
  clear_cancel_signal, at_queues, pop,
}
use stack_warden.Jobs.Runner.{begin_job, begun, end_job, end_build, raised}
use stack_warden.Jobs.Statuses.{status_of}
use stack_warden.Jobs.Phases.{
  Reachable, started, then_step, creates, begins, cancels, ends, waiting, building, Phases,
}
use stack_warden.Jobs.Final.{Step-is_over}
use stack_warden.Jobs.Delivery.{publish_all, queues_of, publish_sentinel-IsFinished}
use stack_warden.Jobs.Samples.{selection, idle, job}

-- `unfolding runs` opens what a run of a job computes with
unfoldable runs : Unit {0}
unfolding insert update_where count_where cancel_if_active find_job update_row create_job get_job
    update_job request_cancel publish_event publish_sentinel clear_cancel_signal at_queues pop
    begin_job end_job end_build get put any text_beq
runs = tt

abbrev no_payload : ArtifactRecord → Text
no_payload a = []

-- created, begun and canceled while it builds
abbrev with_job : JobManager
with_job = record idle { store = job ∷ []; cancel_signals = (codes "j", false) ∷ [] }

created_lem : create_job (codes "j") 1 selection (codes "j.log") idle ≡ ok (job, with_job)
unfolding runs
created_lem = refl

abbrev building_job : JobManager
building_job = (begin_job 2 job with_job).1

abbrev canceled_job : JobManager
canceled_job = (request_cancel 3 (codes "j") building_job).1

abbrev phases : Phases
phases = put (codes "j") (building (begun 2 job)) (put (codes "j") (waiting job) [])

canceled_job-Reachable : Reachable no_payload canceled_job phases
unfolding runs
canceled_job-Reachable =
    then_step
      (then_step
        (then_step started (creates {m = idle} (codes "j") 1 selection (codes "j.log") created_lem))
        (begins 2 (codes "j") job refl))
      (cancels 3 (codes "j"))

-- the build fails after the cancel, and the job stays canceled
Step-is_over_example :
    status_of
      (codes "j")
      (end_job no_payload 4 (begun 2 job) (raised (codes "no space")) canceled_job)
    ≡ some canceled
unfolding runs
Step-is_over_example =
    Step-is_over no_payload canceled_job-Reachable
      (ends {ph = phases} 4 (codes "j") (begun 2 job) (raised (codes "no space")) refl) (codes "j")
      canceled refl refl

abbrev line : JobEvent
line = record { type = log; ts = 1; payload = codes "step 1" }

idle-IsBounded : All IsBounded (queues_of (codes "j") idle)
unfolding runs
idle-IsBounded = (omega arith, tt)

publish_sentinel-IsFinished_example : All IsFinished (
    queues_of (codes "j") (publish_sentinel (codes "j") (publish_all (codes "j") (line ∷ []) idle)))
publish_sentinel-IsFinished_example =
    publish_sentinel-IsFinished (codes "j") (line ∷ []) idle idle-IsBounded
