-- ===== src/Optimization/Facts.antt =====
-- What is read off a profile and the layers.
use stack_warden.Base.{
  ℕ, zero, suc, ℤ, pos, Text, codes, Bool, true, false, not, ◌||◌, Option, none, some, List, [],
  ◌∷◌, ◌++◌, map, mem, get, put, Dict, ◌==◌, text_eq, option_eq, int_eq, is_empty, strip, lower,
  join, if◌then◌else◌, Result, ok, err,
}
use stack_warden.Specs.Profiles.{
  Profile, Layer, GpuDeviceSpec, arch_value, runtime_value, Value, text, truth,
}

-- `str` of an integer and of an amount of memory, and an amount to two places
pub record Printing : Type 0 where
  pub str : ℤ → Text
  pub str_gb : ℕ → Text
  pub fixed2 : ℕ → Text

-- `a or b`, of two texts that may be missing
abbrev pub or_else : Option Text → Text → Text
or_else none b = b
or_else (some a) b = if is_empty a then b else a

abbrev pub is_set : Option Value → Bool
is_set none = false
is_set (some v) = truth v

-- `req.get(key) == t`
abbrev pub is_text : Text → Option Value → Bool
is_text t (some (text u)) = u == t
is_text t _ = false

-- `_stack_requires_gpu`
unfoldable pub stack_requires_gpu : List Layer → Bool
stack_requires_gpu [] = false
stack_requires_gpu (layer ∷ layers) =
    is_set (get (codes "gpu_vendor") layer.requires)
    || (is_set (get (codes "cuda_runtime") layer.requires)
        || (is_text (codes "nvidia") (get (codes "container_runtime") layer.requires)
            || stack_requires_gpu layers))

-- `_profile_optimization_route` is `aggressive`
unfoldable pub is_aggressive : Profile → Bool
is_aggressive profile =
    mem (lower (strip (or_else profile.gpu.vendor_id profile.gpu.vendor)))
      (codes "nvidia" ∷ codes "amd" ∷ codes "intel" ∷ [])

abbrev pub route : Bool → Text
route true = codes "aggressive"
route false = codes "balanced"

-- the vendor is NVIDIA
unfoldable pub is_nvidia_gpu : Profile → Bool
is_nvidia_gpu profile = lower (or_else profile.gpu.vendor_id profile.gpu.vendor) == codes "nvidia"

-- the first device with a compute capability
unfoldable pub device_capability : List GpuDeviceSpec → Text
device_capability [] = []
device_capability (d ∷ ds) = or_else d.compute_capability (device_capability ds)

-- `_gpu_compute_capability`
unfoldable pub gpu_compute_capability : Profile → Text
gpu_compute_capability profile =
    or_else profile.gpu.compute_capability (device_capability profile.gpu_devices)

abbrev pub gpu_family : Profile → Text
gpu_family profile = or_else profile.gpu.family_id profile.gpu.family

abbrev pub driver_version : Profile → Text
driver_version profile = or_else profile.host_facts.driver_version []

-- a number of CPUs that is there and not 0
abbrev pub known_cpus : Option ℤ → Option ℤ
known_cpus (some n) = if n == pos 0 then none else some n
known_cpus none = none

-- likewise an amount of memory
abbrev pub known_memory : Option ℕ → Option ℕ
known_memory none = none
known_memory (some zero) = none
known_memory (some (suc n)) = some (suc n)

abbrev pub is_known {ℓ} : {A : Type ℓ} → Option A → Bool
is_known none = false
is_known (some _) = true

module _ (p : Printing) where
  abbrev pub str_or_empty {ℓ} : {A : Type ℓ} → (A → Text) → Option A → Text
  str_or_empty f none = []
  str_or_empty f (some a) = f a

  -- `_host_signature`
  unfoldable pub host_signature : Profile → Text
  host_signature profile = join (codes "|") (
      arch_value profile.arch
      ∷ runtime_value profile.container_runtime
      ∷ profile.gpu.vendor
      ∷ gpu_family profile
      ∷ gpu_compute_capability profile
      ∷ driver_version profile
      ∷ str_or_empty p.str (known_cpus profile.host_facts.cpu_cores_logical)
      ∷ str_or_empty p.str_gb (known_memory profile.host_facts.memory_gb_total)
      ∷ [])

-- `[what]` where the test fails
abbrev unless : Bool → Text → List Text
unless true what = []
unless false what = what ∷ []

-- the facts that `_validate_strict_host_facts` misses; it is called where a GPU is required
unfoldable pub missing_host_facts : Profile → List Text
missing_host_facts profile =
    unless (is_known (known_cpus profile.host_facts.cpu_cores_logical))
      (codes "host_facts.cpu_cores_logical")
    ++ (unless (is_known (known_memory profile.host_facts.memory_gb_total))
          (codes "host_facts.memory_gb_total")
        ++ (unless (not (is_empty (driver_version profile))) (codes "host_facts.driver_version")
            ++ unless (not (is_empty (gpu_compute_capability profile)))
                (codes "gpu.compute_capability (or gpu_devices[].compute_capability)")))

-- `_validate_strict_host_facts`
unfoldable pub validate_strict_host_facts : Profile → Result Text (Unit {0})
validate_strict_host_facts profile =
    let missing = missing_host_facts profile in
    if is_empty missing
    then ok tt
    else err (
        codes "Strict host-specific optimization requires detected host facts. Missing: "
        ++ join (codes ", ") missing)

-- `{lower(strip(k)): lower(strip(v)) for k, v in d.items()}`
unfoldable pub normalized : Dict Text Text → Dict Text Text → Dict Text Text
normalized [] d = d
normalized ((k, v) ∷ rest) d = normalized rest (put (lower (strip k)) (lower (strip v)) d)

-- the labels say that the profile is curated
unfoldable pub curated_scope : Profile → Bool
curated_scope profile =
    get (codes "optimization_scope") (normalized profile.labels [])
    == some (codes "curated_authoritative")

-- `_is_curated_profile`
unfoldable pub is_curated_profile : Profile → Bool
is_curated_profile profile =
    mem (codes "curated") (map (λ t. lower (strip t)) profile.tags) || curated_scope profile
