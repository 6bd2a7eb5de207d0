-- ===== src/Optimization/Sizing.antt =====
-- Memory and parallelism.
use Prim.Native.Nat.{◌/◌}
use stack_warden.Base.{
  ℕ, zero, suc, ◌+◌, ◌-◌, ◌*◌, ℤ, pos, negsuc, Text, codes, Bool, Option, none, some, ltb, length,
  if◌then◌else◌,
}
use stack_warden.Specs.Profiles.{Stack}

-- `max(a, b)` and `min(a, b)`
unfoldable pub larger : ℕ → ℕ → ℕ
larger a b = if ltb a b then b else a

unfoldable pub smaller : ℕ → ℕ → ℕ
smaller a b = if ltb b a then b else a

-- `estimate_build_memory_gb`: 1.50, and 0.25, 0.35, 0.20 and 0.05 for each item
unfoldable pub estimate_build_memory_gb : Stack → ℕ
estimate_build_memory_gb stack =
    150
    + (25 * length stack.components.pip
        + (35 * length stack.components.npm
            + (20 * length stack.components.apt + 5 * length stack.copy_items)))

-- `max(1, int(cpu_logical or _DEFAULT_JOBS))`
unfoldable pub cpu_limit : Option ℤ → ℕ
cpu_limit none = 2
cpu_limit (some (pos zero)) = 2
cpu_limit (some (pos (suc n))) = suc n
cpu_limit (some (negsuc n)) = 1

-- the total less 2.00 for the system, and 1.50 at least; 4.00 where the total is not known or 0
unfoldable pub memory_budget : Option ℕ → ℕ
unfolding larger
memory_budget none = 400
memory_budget (some zero) = 400
memory_budget (some (suc n)) = larger 150 (suc n - 200)

pub data OomRisk : Type 0 where
  low medium high : OomRisk

abbrev pub risk_value : OomRisk → Text
risk_value low = codes "low"
risk_value medium = codes "medium"
risk_value high = codes "high"

-- above 85 and 65 hundredths of the budget
unfoldable pub oom_risk : (estimate budget : ℕ) → OomRisk
oom_risk estimate budget =
    if ltb (budget * 85) (estimate * 100)
    then high
    else if ltb (budget * 65) (estimate * 100)
    then medium
    else low

-- the jobs that a high risk leaves
unfoldable pub throttled : OomRisk → ℕ → ℕ
unfolding larger smaller
throttled high jobs = larger 1 (smaller jobs 2)
throttled _ jobs = jobs

-- the jobs that the CPUs and the memory allow
unfoldable pub unthrottled_jobs : (aggressive : Bool) → (cpus budget : ℕ) → ℕ
unfolding larger smaller
unthrottled_jobs aggressive cpus budget =
    let memory_bound_jobs = larger 1 (budget / 150) in
    let cpu_bound_jobs = larger 1 (if aggressive then cpus else cpus - 1) in
    larger 1 (smaller cpu_bound_jobs memory_bound_jobs)

-- `parallel_jobs` in the end
unfoldable pub parallel_jobs : (aggressive : Bool) → (cpus budget estimate : ℕ) → ℕ
parallel_jobs aggressive cpus budget estimate =
    throttled (oom_risk estimate budget) (unthrottled_jobs aggressive cpus budget)
