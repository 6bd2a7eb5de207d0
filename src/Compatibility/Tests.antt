-- ===== src/Compatibility/Tests.antt =====
-- Runs of the compatibility checks, with numbers for the floating-point ones.
use stack_warden.Base.{
  mem, text_beq, get, strip, lower, ℕ, codes, true, false, leb, any, none, [], ◌∷◌, ltb, is_empty,
  ◌≡◌, refl,
}
use stack_warden.Specs.Profiles.{other}
use stack_warden.Specs.Examples.{sample_spec, sample_profile, sample_stack, sample_layer}
use stack_warden.Compatibility.Records.{SupportedTuple, unsupported, enforce}
use stack_warden.Compatibility.Hardware.{find_id, resolve_item, Tools, resolve_hardware_id}
use stack_warden.Compatibility.Requirements.{
  expected_id, arch_met, os_version_id, os_family_id, to_float, below, arch_id,
}
use stack_warden.Compatibility.Cuda.{kind_met, kind_of, profile_cuda, is_met}
use stack_warden.Compatibility.Tuples.{
  tuple_decision_of, find_tuple, gpu_vendor_id, gpu_family_id, family_fits, fact_fits,
  evaluate_tuple_resolution, decision_of_found, tuple_matches,
}
use stack_warden.Compatibility.Resolution.{best_match, evaluate_tuple_resolution-best_match}
use stack_warden.Compatibility.Passing.{evaluate_compatibility-compatible}
use stack_warden.Compatibility.Evaluate.{requirements_of, all_requirements, evaluate_compatibility}

abbrev tools : Tools ℕ
tools = record {
  float_of = λ t. none;
  lt = ltb;
  ge = λ a b. leb b a;
  show = λ n. [];
  str = λ n. [];
  show_set = λ s. [];
  hardware =
      (
        codes "arch",
        record { id = codes "amd64"; label = codes "AMD64"; aliases = codes "x86_64" ∷ [] } ∷ [],
      )
      ∷ [];
}

-- a tuple that is marked as unsupported
unfoldable marked : SupportedTuple ℕ
marked = record {
  id = codes "t";
  status = unsupported;
  selector = record {
    arch = codes "amd64";
    os_family_id = [];
    os_version_id = [];
    container_runtime = codes "nvidia";
    gpu_vendor_id = [];
    gpu_family_id = none;
    cuda_min = none;
    cuda_max = none;
    driver_min = none;
  };
  base_image = codes "img:1";
  wheelhouse_path = [];
}

-- a requirement that is `null` asks for no architecture
null_arch : arch_met tools (other (codes "None") false) sample_profile ≡ true
unfolding arch_met expected_id resolve_hardware_id lower strip arch_id sample_profile resolve_item
    find_id get text_beq
null_arch = refl

alias : resolve_hardware_id tools.hardware (codes "arch") (codes "X86_64") ≡ codes "amd64"
unfolding resolve_hardware_id lower strip resolve_item find_id get text_beq mem
alias = refl

evaluate_tuple_resolution-best_match_example :
    (evaluate_tuple_resolution tools sample_profile enforce (marked ∷ [])
      ≡ decision_of_found tools enforce (best_match tools sample_profile (marked ∷ [])))
    × ((evaluate_tuple_resolution tools sample_profile enforce (marked ∷ [])).matched ≡ true)
unfolding any tuple_matches fact_fits marked arch_id resolve_hardware_id lower strip sample_profile
    resolve_item find_id get text_beq family_fits below profile_cuda to_float mem os_family_id
    os_version_id gpu_family_id gpu_vendor_id
evaluate_tuple_resolution-best_match_example =
    evaluate_tuple_resolution-best_match tools sample_profile enforce (marked ∷ []) refl

evaluate_compatibility-compatible_example :
    let report =
      evaluate_compatibility tools sample_profile sample_stack
        (sample_layer ∷ [])
        true
        enforce
        (marked ∷ [])
        [] in
    (report.compatible ≡ is_empty report.errors) × (report.compatible ≡ true)
unfolding any tuple_matches fact_fits marked arch_id resolve_hardware_id lower strip sample_profile
    resolve_item find_id get text_beq family_fits below profile_cuda to_float mem os_family_id
    os_version_id gpu_family_id gpu_vendor_id sample_stack sample_spec sample_layer all_requirements
    requirements_of is_met kind_of kind_met arch_met expected_id evaluate_tuple_resolution
    find_tuple decision_of_found tuple_decision_of
evaluate_compatibility-compatible_example =
    evaluate_compatibility-compatible tools sample_profile sample_stack (sample_layer ∷ []) true
      enforce (marked ∷ []) []
