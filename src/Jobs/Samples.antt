-- ===== src/Jobs/Samples.antt =====
-- A job, and a server with one subscriber to it.
use stack_warden.Base.{codes, [], ◌∷◌}
use stack_warden.Jobs.Records.{Selection, JobRecord}
use stack_warden.Jobs.Manager.{JobManager, new_job}

abbrev pub selection : Selection
selection = record {
  profile_id = codes "dgx";
  stack_id = codes "vllm";
  variants = [];
  flags = [];
  build_optimization = [];
}

abbrev pub idle : JobManager
idle = record { store = []; subscribers = (codes "j", [] ∷ []) ∷ []; cancel_signals = [] }

abbrev pub job : JobRecord
job = new_job (codes "j") 1 selection (codes "j.log")
