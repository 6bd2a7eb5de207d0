-- ===== src/Optimization/Decision.antt =====
-- The settings, and the whole decision.
use stack_warden.Base.{
  ℕ, pos, Text, codes, Bool, true, false, not, ◌||◌, ◌&&◌, List, [], ◌∷◌, ◌++◌, mem, Dict, ◌==◌,
  text_eq, if◌then◌else◌, Result, ok, err, ◌>>=◌,
}
use stack_warden.Specs.Profiles.{Profile, Stack, Layer}
use stack_warden.Optimization.Facts.{
  Printing, stack_requires_gpu, is_aggressive, route, is_nvidia_gpu, gpu_compute_capability,
  gpu_family, driver_version, known_cpus, known_memory, is_known, host_signature,
  validate_strict_host_facts, is_curated_profile,
}
use stack_warden.Optimization.Tokens.{layer_tokens, workload_family, serving_stack}
use stack_warden.Optimization.Sizing.{
  estimate_build_memory_gb, cpu_limit, memory_budget, OomRisk, high, risk_value, oom_risk,
  parallel_jobs,
}

pub record Knobs : Type 0 where
  pub dtype : Text
  pub attention : Text
  pub compile_enabled : Bool
  pub compile_mode : Text
  pub serving_tuning : Text
  pub batch_profile : Text
  pub memory_strategy : Text
  pub cuda_graph : Text
  pub prefill_policy : Text

-- `serving_tuning` where there is a serving layer
unfoldable pub tuning : (aggressive : Bool) → (serving : Text) → Text
tuning false serving = codes "balanced"
tuning true serving =
    if serving == codes "grpc"
    then codes "grpc_channel_pool_aggressive"
    else if serving == codes "triton"
    then codes "triton_dynamic_batching_aggressive"
    else if serving == codes "fastapi"
    then codes "fastapi_worker_replica_aggressive"
    else codes "aggressive"

-- `_bounded_knobs`
unfoldable pub bounded_knobs :
    (aggressive nvidia has_inference_layer has_serving_layer : Bool) → (serving : Text) → Knobs
bounded_knobs true nvidia has_inference_layer has_serving_layer serving = record {
  dtype = if nvidia then codes "bf16" else codes "fp16";
  attention = if nvidia then codes "sdpa_flash_prefer" else codes "sdpa_auto";
  compile_enabled = has_inference_layer;
  compile_mode = codes "max_autotune";
  serving_tuning = if has_serving_layer then tuning true serving else codes "none";
  batch_profile = codes "throughput_high";
  memory_strategy = codes "device_first";
  cuda_graph = codes "hybrid";
  prefill_policy = codes "none";
}
bounded_knobs false nvidia has_inference_layer has_serving_layer serving = record {
  dtype = codes "fp16";
  attention = codes "sdpa_auto";
  compile_enabled = has_inference_layer;
  compile_mode = codes "default";
  serving_tuning = if has_serving_layer then tuning false serving else codes "none";
  batch_profile = codes "balanced";
  memory_strategy = codes "portable";
  cuda_graph = codes "off";
  prefill_policy = codes "none";
}

pub record BuildOptimizationDecision : Type 0 where
  pub strategy : Text
  pub policy : Text
  pub strict_host_specific : Bool
  pub host_signature : Text
  pub gpu_family : Text
  pub gpu_compute_capability : Text
  pub driver_version : Text
  pub torch_dtype : Text
  pub attention_backend : Text
  pub torch_compile_enabled : Bool
  pub tf32_enabled : Bool
  pub cpu_parallelism : ℕ
  pub memory_budget_gb : ℕ
  pub estimated_build_memory_gb : ℕ
  pub oom_risk : OomRisk
  pub build_args : Dict Text Text
  pub optimization_env : Dict Text Text
  pub buildx_flags : List Text
  pub warnings : List Text
  pub notes : List Text

abbrev one_or_zero : Bool → Text
one_or_zero true = codes "1"
one_or_zero false = codes "0"

-- what the arguments and the environment are filled from
pub record Settings : Type 0 where
  pub policy : Text
  pub profile_route : Text
  pub workload : Text
  pub serving : Text
  pub signature : Text
  pub family : Text
  pub capability : Text
  pub driver : Text
  pub knobs : Knobs
  pub tf32_enabled : Bool

-- `knobs["compile_mode"] if torch_compile else "default"`
abbrev compile_mode_of : Knobs → Text
compile_mode_of k = if k.compile_enabled then k.compile_mode else codes "default"

-- `optimization_env`, the last nineteen of the build arguments
unfoldable pub optimization_env_of : Settings → Dict Text Text
optimization_env_of s =
    (codes "STACKWARDEN_OPT_MODE", codes "build_time")
    ∷ (codes "STACKWARDEN_OPT_POLICY", s.policy)
    ∷ (codes "STACKWARDEN_OPT_PROFILE", s.profile_route)
    ∷ (codes "STACKWARDEN_OPT_WORKLOAD", s.workload)
    ∷ (codes "STACKWARDEN_OPT_SERVING", s.serving)
    ∷ (codes "STACKWARDEN_OPT_HOST_SIGNATURE", s.signature)
    ∷ (codes "STACKWARDEN_OPT_GPU_FAMILY", s.family)
    ∷ (codes "STACKWARDEN_OPT_GPU_COMPUTE_CAPABILITY", s.capability)
    ∷ (codes "STACKWARDEN_OPT_DRIVER_VERSION", s.driver)
    ∷ (codes "STACKWARDEN_TORCH_DTYPE", s.knobs.dtype)
    ∷ (codes "STACKWARDEN_TORCH_ATTENTION", s.knobs.attention)
    ∷ (codes "STACKWARDEN_TORCH_COMPILE", one_or_zero s.knobs.compile_enabled)
    ∷ (codes "STACKWARDEN_TORCH_COMPILE_MODE", compile_mode_of s.knobs)
    ∷ (codes "STACKWARDEN_TORCH_TF32", one_or_zero s.tf32_enabled)
    ∷ (codes "STACKWARDEN_SERVING_TUNING", s.knobs.serving_tuning)
    ∷ (codes "STACKWARDEN_BATCH_PROFILE", s.knobs.batch_profile)
    ∷ (codes "STACKWARDEN_MEMORY_STRATEGY", s.knobs.memory_strategy)
    ∷ (codes "STACKWARDEN_CUDA_GRAPH", s.knobs.cuda_graph)
    ∷ (codes "STACKWARDEN_PREFILL_POLICY", s.knobs.prefill_policy)
    ∷ []

-- `[what]` where the test holds
abbrev pub when : Bool → Text → List Text
when true what = what ∷ []
when false what = []

-- the warning of the strict check, or the exception that it lets through
unfoldable pub strict_check : Profile → (strict requires_gpu : Bool) → Result Text (List Text)
strict_check profile strict requires_gpu =
    if strict && requires_gpu
    then elim (validate_strict_host_facts profile) [
      | err message ↦
          if is_curated_profile profile
          then ok (
              (codes "Strict host-specific optimization facts missing on curated profile; "
                ++ codes "falling back to conservative host tuning defaults.")
              ∷ [])
          else err message
      | ok _ ↦ ok []
    ]
    else ok []

-- the two warnings about missing facts
unfoldable pub fact_warnings : Profile → List Text
fact_warnings profile =
    when (not (is_known (known_cpus profile.host_facts.cpu_cores_logical)))
      (codes "Host logical CPU count unavailable; using conservative parallelism")
    ++ when (not (is_known (known_memory profile.host_facts.memory_gb_total)))
        (codes "Host memory facts unavailable; using conservative memory budget")

abbrev risk_notes : OomRisk → List Text
risk_notes high = codes "High OOM risk detected; throttling build parallelism" ∷ []
risk_notes _ = []

abbrev policy_of : Bool → Text
policy_of true = codes "strict_host_specific"
policy_of false = codes "portable"

module _ (p : Printing) where
  -- the locals of `compute_build_optimization` that the settings are made from
  unfoldable pub settings_for : Profile → Stack → List Layer → Settings
  settings_for profile stack layers =
      let tokens = layer_tokens layers in
      let aggressive = is_aggressive profile in
      let serving = serving_stack stack.api tokens in
      record {
        policy = policy_of aggressive;
        profile_route = route aggressive;
        workload = workload_family stack.task tokens;
        serving = serving;
        signature = host_signature p profile;
        family = gpu_family profile;
        capability = gpu_compute_capability profile;
        driver = driver_version profile;
        knobs =
            bounded_knobs aggressive (is_nvidia_gpu profile)
              (mem (codes "inference") tokens || mem (codes "runtime") tokens)
              (mem (codes "serving") tokens
                || (mem (codes "fastapi") tokens || mem (codes "grpc") tokens))
              serving;
        tf32_enabled = is_nvidia_gpu profile;
      }

  -- the decision, from the settings and the warnings
  unfoldable pub decision_from :
      Profile
      → Stack
      → (strict : Bool) → Settings
      → (warnings : List Text) → BuildOptimizationDecision
  decision_from profile stack strict s warnings =
      let budget = memory_budget profile.host_facts.memory_gb_total in
      let estimate = estimate_build_memory_gb stack in
      let cpus = cpu_limit profile.host_facts.cpu_cores_logical in
      let jobs = parallel_jobs (is_aggressive profile) cpus budget estimate in
      record {
        strategy = s.profile_route;
        policy = s.policy;
        strict_host_specific = strict;
        host_signature = s.signature;
        gpu_family = s.family;
        gpu_compute_capability = s.capability;
        driver_version = s.driver;
        torch_dtype = s.knobs.dtype;
        attention_backend = s.knobs.attention;
        torch_compile_enabled = s.knobs.compile_enabled;
        tf32_enabled = s.tf32_enabled;
        cpu_parallelism = jobs;
        memory_budget_gb = budget;
        estimated_build_memory_gb = estimate;
        oom_risk = oom_risk estimate budget;
        build_args =
            (codes "STACKWARDEN_BUILD_JOBS", p.str (pos jobs))
            ∷ (codes "STACKWARDEN_BUILD_MEMORY_BUDGET_GB", p.fixed2 budget)
            ∷ (codes "STACKWARDEN_EST_BUILD_MEMORY_GB", p.fixed2 estimate)
            ∷ (codes "STACKWARDEN_OOM_RISK", risk_value (oom_risk estimate budget))
            ∷ optimization_env_of s;
        optimization_env = optimization_env_of s;
        buildx_flags = codes "--progress=plain" ∷ [];
        warnings = warnings;
        notes =
            codes "Applied bounded heuristic optimization profile."
            ∷ risk_notes (oom_risk estimate budget);
      }

  -- `compute_build_optimization`
  unfoldable pub compute_build_optimization :
      Profile
      → Stack
      → List Layer
      → (strict_host_specific : Bool) → Result Text BuildOptimizationDecision
  compute_build_optimization profile stack layers strict = do
    warnings ← strict_check profile strict (stack_requires_gpu layers)
    ok (
        decision_from profile stack strict (settings_for profile stack layers)
          (warnings ++ fact_warnings profile))
