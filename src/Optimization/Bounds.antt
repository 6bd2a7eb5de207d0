-- ===== src/Optimization/Bounds.antt =====
-- Bounds of the parallelism and of the memory:
-- packages/stackwarden/src/stackwarden/resolvers/build_optimization.py
use mathlib.Core.Path.{subst}
use stack_warden.Base.{
  ℕ, zero, suc, ◌+◌, ◌*◌, ◌≤◌, Bool, Option, none, some, ltb, ◌≡◌, arith, ℤ, pos, negsuc,
  Bool-cases, ◌⊎◌, inl, inr, ok_injective, ok, >>=-eq-ok, List,
}
use stack_warden.Specs.Profiles.{Profile, Stack, Layer}
use stack_warden.Optimization.Facts.{Printing, is_aggressive, stack_requires_gpu}
use stack_warden.Optimization.Sizing.{
  larger, smaller, estimate_build_memory_gb, cpu_limit, memory_budget, oom_risk, throttled,
  unthrottled_jobs, parallel_jobs,
}
use stack_warden.Optimization.Decision.{
  BuildOptimizationDecision, strict_check, decision_from, compute_build_optimization,
}

memory_budget_bounds : (total : Option ℕ) → 150 ≤ memory_budget total
unfolding memory_budget larger
memory_budget_bounds none = omega arith
memory_budget_bounds (some zero) = omega arith
memory_budget_bounds (some (suc n)) = ground arith

-- the system keeps 2.00 of a total from 3.50 on
memory_budget_headroom : (n : ℕ) → 350 ≤ n → memory_budget (some n) + 200 ≤ n
unfolding memory_budget larger
memory_budget_headroom zero h = omega arith
memory_budget_headroom (suc n) h = ground arith

unthrottled_bounds :
    (aggressive : Bool) (cpus budget : ℕ)
    → 150 ≤ budget
    → 1 ≤ cpus
    → (1 ≤ unthrottled_jobs aggressive cpus budget)
      × (unthrottled_jobs aggressive cpus budget ≤ cpus)
      × (unthrottled_jobs aggressive cpus budget * 150 ≤ budget)
unfolding unthrottled_jobs larger smaller
unthrottled_bounds aggressive cpus budget h k = ground arith

cpu_limit_pos : (cpus : Option ℤ) → 1 ≤ cpu_limit cpus
unfolding cpu_limit
cpu_limit_pos none = omega arith
cpu_limit_pos (some (pos zero)) = omega arith
cpu_limit_pos (some (pos (suc n))) = omega arith
cpu_limit_pos (some (negsuc n)) = omega arith

throttled_bounds :
    (estimate budget jobs : ℕ)
    → 1 ≤ jobs
    → let t = throttled (oom_risk estimate budget) jobs in
      (1 ≤ t) × (t ≤ jobs) × ((t ≤ 2) ⊎ (estimate * 100 ≤ budget * 85))
unfolding throttled oom_risk larger smaller
throttled_bounds estimate budget jobs h = elim (Bool-cases (ltb (budget * 85) (estimate * 100))) [
  | inl over ↦ rw over (ground arith, ground arith, inl (ground arith))
  | inr fits ↦ elim (Bool-cases (ltb (budget * 65) (estimate * 100))) [
    | inl medium_risk ↦ rw (fits, medium_risk) (h, omega arith, inr (ground arith))
    | inr low_risk ↦ rw (fits, low_risk) (h, omega arith, inr (ground arith))
  ]
]

-- A number of jobs that the host carries: one at least, no more than the CPUs, 1.50 of memory for
-- each, and two at most where the estimate is over 85 hundredths of the budget.
abbrev pub IsBounded : (jobs cpus budget estimate : ℕ) → Type 0
IsBounded jobs cpus budget estimate =
    (1 ≤ jobs)
    × (jobs ≤ cpus)
    × (jobs * 150 ≤ budget)
    × ((jobs ≤ 2) ⊎ (estimate * 100 ≤ budget * 85))

parallel_jobs-IsBounded :
    (aggressive : Bool) (cpus budget estimate : ℕ)
    → 150 ≤ budget
    → 1 ≤ cpus
    → IsBounded (parallel_jobs aggressive cpus budget estimate) cpus budget estimate
unfolding parallel_jobs
parallel_jobs-IsBounded aggressive cpus budget estimate h k =
    let (some_job, below_cpus, in_memory) = unthrottled_bounds aggressive cpus budget h k in
    let jobs = unthrottled_jobs aggressive cpus budget in
    let (a, b, c) = throttled_bounds estimate budget jobs some_job in
    (a, omega arith, omega arith, c)

-- If an optimization is computed, its parallelism is at least one job, at most the host's CPUs, two
-- where they are not known, and leaves 1.50 GB of the budget to each job; it is at most two where the
-- estimate is over 85 hundredths of the budget; and the budget is at least 1.50 GB.
pub compute_build_optimization-IsBounded :
    (p : Printing) (profile : Profile) (stack : Stack) (layers : List Layer) (strict : Bool)
    {d : BuildOptimizationDecision}
    → compute_build_optimization p profile stack layers strict ≡ ok d
    → IsBounded d.cpu_parallelism
        (cpu_limit profile.host_facts.cpu_cores_logical)
        d.memory_budget_gb
        (estimate_build_memory_gb stack)
      × (150 ≤ d.memory_budget_gb)
unfolding compute_build_optimization decision_from
compute_build_optimization-IsBounded p profile stack layers strict run =
    let (warnings, checked, e) =
      >>=-eq-ok (strict_check profile strict (stack_requires_gpu layers)) _ run in
    let budget = memory_budget_bounds profile.host_facts.memory_gb_total in
    subst
      (λ (d : BuildOptimizationDecision).
        IsBounded d.cpu_parallelism (cpu_limit profile.host_facts.cpu_cores_logical)
          d.memory_budget_gb (estimate_build_memory_gb stack)
        × (150 ≤ d.memory_budget_gb))
      (ok_injective e)
      (
        parallel_jobs-IsBounded (is_aggressive profile)
            (cpu_limit profile.host_facts.cpu_cores_logical)
            (memory_budget profile.host_facts.memory_gb_total) (estimate_build_memory_gb stack)
            budget (cpu_limit_pos profile.host_facts.cpu_cores_logical),
        budget,
      )
