-- ===== src/Builds/Samples.antt =====
-- A plan, and what the world answers to its execution.
use stack_warden.Base.{
  ℤ, pos, ◌-◌, Text, codes, true, false, Option, none, some, [], ◌∷◌, leb, ◌&&◌, if◌then◌else◌,
}
use stack_warden.Builds.Plans.{Plan}
use stack_warden.Builds.Executor.{World, Flags, produced}

-- a number of one digit
unfoldable pub digit : Text → Option ℤ
digit [] = none
digit (c ∷ []) = if leb 48 c && leb c 57 then some (pos (c - 48)) else none
digit (c ∷ d ∷ cs) = none

abbrev pub plan : Plan
plan = record {
  plan_id = codes "p";
  profile_id = codes "dgx";
  stack_id = codes "vllm";
  decision = record {
    base_image = codes "nvcr.io/nvidia/pytorch";
    base_digest = none;
    builder = codes "overlay";
    warnings = [];
  };
  artifact = record {
    tag = codes "t1";
    fingerprint = codes "f1";
    labels = (codes "stackwarden.schema_version", codes "1") ∷ [];
  };
}

-- the plan of another variant
abbrev pub other_plan : Plan
other_plan = record plan {
  artifact = record {
    tag = codes "t2";
    fingerprint = codes "f2";
    labels = (codes "stackwarden.schema_version", codes "1") ∷ [];
  };
}

-- no image yet, and a build that succeeds
abbrev pub fresh_world : (new_id : Text) → World
fresh_world new_id = record {
  image_exists = false;
  image_labels = [];
  canceled_at_start = false;
  canceled_before_updates = false;
  canceled_before_build = false;
  canceled_after_build = false;
  outcome = produced (some (codes "sha")) none;
  new_id = new_id;
  hostname = codes "host";
  now = 7;
  manifest = some (codes "m.json");
  optimization_saved = true;
  snapshots = none;
  sbom = none;
  hooks = none;
}

-- the image of the first plan is there
abbrev pub built_world : World
built_world = record (fresh_world (codes "c")) {
  image_exists = true;
  image_labels = (codes "stackwarden.fingerprint", codes "f1") ∷ [];
}

abbrev pub ordinary : Flags
ordinary = record { rebuild = false; immutable = false; run_hooks = true }

abbrev pub frozen : Flags
frozen = record { rebuild = false; immutable = true; run_hooks = true }
