-- ===== src/Specs/Examples.antt =====
-- A profile, a stack and a layer for the tests of resolution.
use stack_warden.Base.{codes, none, some, [], ◌∷◌, pos}
use stack_warden.Specs.Enums.{overlay, latest, index, spec, repo}
use stack_warden.Specs.Records.{StackSpec}
use stack_warden.Specs.Profiles.{
  Profile, Stack, Layer, amd64, nvidia, TaskType, ServeType, fastapi, text,
}

unfoldable pub sample_profile : Profile
sample_profile = record {
  schema_version = 2;
  id = codes "x86";
  arch = amd64;
  os = codes "linux";
  os_family = none;
  os_version = none;
  os_family_id = none;
  os_version_id = none;
  container_runtime = nvidia;
  cuda = some (record { major = pos 12; minor = pos 4; variant = codes "12.4" });
  gpu = record {
    vendor = codes "nvidia";
    family = codes "hopper";
    vendor_id = none;
    family_id = none;
    compute_capability = none;
  };
  gpu_devices = [];
  disallow = [];
  base_candidates =
      record { name = codes "b"; tags = codes "1" ∷ codes "12.4" ∷ []; score_bias = pos 0 }
      ∷ record { name = codes "a/vllm"; tags = codes "1" ∷ []; score_bias = pos 0 }
      ∷ [];
  python = codes "3.10";
  derived_capabilities = [];
  host_facts = record {
    driver_version = none;
    cpu_cores_logical = some (pos 16);
    memory_gb_total = some 1000;
    confidence = [];
  };
  labels = [];
  tags = [];
}

unfoldable pub sample_spec : StackSpec
sample_spec = record {
  schema_version = 2;
  id = codes "s";
  display_name = [];
  description = [];
  build_strategy = overlay;
  components = record {
    base = record {
      pip = record { name = codes "torch"; version = []; version_mode = latest } ∷ [];
      npm = [];
      apt = codes "git" ∷ codes "curl" ∷ [];
      apt_constraints = [];
      apt_install_mode = repo;
      pip_install_mode = index;
      pip_wheelhouse_path = [];
      npm_install_mode = spec;
    };
    base_role = codes "vllm";
  };
  env = codes "A=1" ∷ codes "B=2" ∷ [];
  ports = 80 ∷ [];
  entrypoint = record { cmd = codes "run" ∷ [] };
  copy_items = [];
  variants = [];
  layers = codes "serving_fastapi" ∷ [];
  provenance = record {
    intent = record { outcome = none; summary = none };
    requirements = record { needs = []; optimize_for = []; constraints = [] };
    derived_capabilities = [];
    selected_features = [];
    rejected_candidates = [];
    fix_suggestions = [];
    decision_trace = [];
  };
}

unfoldable pub sample_stack : Stack
unfolding sample_spec
sample_stack = record {
  spec = sample_spec;
  task = TaskType.custom;
  serve = ServeType.custom;
  api = fastapi;
  policy_overrides = [];
}

unfoldable pub sample_layer : Layer
sample_layer = record {
  id = codes "serving_fastapi";
  schema_version = 2;
  tags = [];
  requires = (codes "arch", text (codes "amd64")) ∷ [];
  incompatible_with = codes "triton" ∷ [];
}
