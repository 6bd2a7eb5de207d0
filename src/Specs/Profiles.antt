-- ===== src/Specs/Profiles.antt =====
-- The models of a profile in domain/models.py and domain/enums.py, and the further fields of a stack
-- and of a layer that resolution reads. An amount of memory is in hundredths of a gigabyte.
use stack_warden.Base.{ℕ, ℤ, Text, codes, Bool, Option, List, Dict, not, is_empty}
use stack_warden.Specs.Records.{StackSpec}

pub data Arch : Type 0 where
  arm64 amd64 : Arch

pub data ContainerRuntime : Type 0 where
  nvidia runc : ContainerRuntime

pub data ServeType : Type 0 where
  python_api triton vllm custom : ServeType

pub data ApiType : Type 0 where
  fastapi grpc none custom : ApiType

pub data TaskType : Type 0 where
  diffusion llm embedding vision asr tts custom : TaskType

abbrev pub arch_value : Arch → Text
arch_value arm64 = codes "arm64"
arch_value amd64 = codes "amd64"

abbrev pub runtime_value : ContainerRuntime → Text
runtime_value nvidia = codes "nvidia"
runtime_value runc = codes "runc"

abbrev pub serve_value : ServeType → Text
serve_value python_api = codes "python_api"
serve_value triton = codes "triton"
serve_value vllm = codes "vllm"
serve_value ServeType.custom = codes "custom"

abbrev pub api_value : ApiType → Text
api_value fastapi = codes "fastapi"
api_value grpc = codes "grpc"
api_value ApiType.none = codes "none"
api_value ApiType.custom = codes "custom"

abbrev pub task_value : TaskType → Text
task_value diffusion = codes "diffusion"
task_value llm = codes "llm"
task_value embedding = codes "embedding"
task_value vision = codes "vision"
task_value asr = codes "asr"
task_value tts = codes "tts"
task_value TaskType.custom = codes "custom"

pub record CudaSpec : Type 0 where
  pub major : ℤ
  pub minor : ℤ
  pub variant : Text

pub record GpuSpec : Type 0 where
  pub vendor : Text
  pub family : Text
  pub vendor_id : Option Text
  pub family_id : Option Text
  pub compute_capability : Option Text

pub record GpuDeviceSpec : Type 0 where
  pub compute_capability : Option Text

pub record HostDiscoveryFacts : Type 0 where
  pub driver_version : Option Text
  pub cpu_cores_logical : Option ℤ
  pub memory_gb_total : Option ℕ
  pub confidence : Dict Text Text

pub record BaseCandidate : Type 0 where
  pub name : Text
  pub tags : List Text
  pub score_bias : ℤ

pub record Profile : Type 0 where
  pub schema_version : ℕ
  pub id : Text
  pub arch : Arch
  pub os : Text
  pub os_family : Option Text
  pub os_version : Option Text
  pub os_family_id : Option Text
  pub os_version_id : Option Text
  pub container_runtime : ContainerRuntime
  pub cuda : Option CudaSpec
  pub gpu : GpuSpec
  pub gpu_devices : List GpuDeviceSpec
  -- `constraints.disallow`
  pub disallow : Dict Text (List Text)
  pub base_candidates : List BaseCandidate
  -- `defaults.python`
  pub python : Text
  pub derived_capabilities : List Text
  pub host_facts : HostDiscoveryFacts
  pub labels : Dict Text Text
  pub tags : List Text

-- A value of an untyped field, with what `str()` makes of it: a text, a list by the texts of its
-- elements, a mapping by the texts of its values, or another value by its truth.
pub data Value : Type 0 where
  text : Text → Value
  list : (shown : Text) → List Text → Value
  mapping : (shown : Text) → Dict Text Text → Value
  other : (shown : Text) → (truth : Bool) → Value

-- `str(v)`
abbrev pub shown : Value → Text
shown (text t) = t
shown (list t _) = t
shown (mapping t _) = t
shown (other t _) = t

-- `bool(v)`
abbrev pub truth : Value → Bool
truth (text t) = not (is_empty t)
truth (list _ xs) = not (is_empty xs)
truth (mapping _ d) = not (is_empty d)
truth (other _ b) = b

-- A stack with the fields that a composed stack holds at fixed values.
pub record Stack : Type 0 where
  pub spec : StackSpec
  pub open spec use *
  pub task : TaskType
  pub serve : ServeType
  pub api : ApiType
  pub policy_overrides : Dict Text Value

-- A layer, as far as resolution reads it.
pub record Layer : Type 0 where
  pub id : Text
  pub schema_version : ℕ
  pub tags : List Text
  pub requires : Dict Text Value
  pub incompatible_with : List Text
