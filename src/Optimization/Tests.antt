-- ===== src/Optimization/Tests.antt =====
-- Runs of the optimization.
use stack_warden.Base.{strip, lower, text_beq, mem, codes, [], ◌∷◌, false, ◌≤◌, ◌≡◌, refl}
use stack_warden.Specs.Examples.{sample_profile, sample_stack, sample_layer}
use stack_warden.Optimization.Facts.{Printing, is_aggressive}
use stack_warden.Optimization.Tokens.{split}
use stack_warden.Optimization.Sizing.{
  unthrottled_jobs, oom_risk, throttled, memory_budget, parallel_jobs, estimate_build_memory_gb,
  cpu_limit,
}
use stack_warden.Optimization.Decision.{
  fact_warnings, strict_check, compute_build_optimization, settings_for, decision_from,
}
use stack_warden.Optimization.Bounds.{IsBounded, compute_build_optimization-IsBounded}

abbrev blank : Printing
blank = record { str = λ n. []; str_gb = λ n. []; fixed2 = λ n. [] }

splits : split 95 (codes "a__b") ≡ codes "a" ∷ [] ∷ codes "b" ∷ []
unfolding split
splits = refl

compute_build_optimization-IsBounded_example : IsBounded 5 16 800 215 × (150 ≤ 800)
unfolding compute_build_optimization strict_check fact_warnings sample_profile decision_from
    cpu_limit estimate_build_memory_gb parallel_jobs memory_budget sample_stack throttled oom_risk
    unthrottled_jobs is_aggressive mem text_beq lower strip
compute_build_optimization-IsBounded_example =
    compute_build_optimization-IsBounded blank sample_profile sample_stack (sample_layer ∷ []) false
      {d = decision_from blank sample_profile sample_stack false
        (settings_for blank sample_profile sample_stack (sample_layer ∷ [])) []}
      refl
