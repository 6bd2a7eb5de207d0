-- ===== src/Compatibility/Cuda.antt =====
-- The requirement on CUDA, and which handler a requirement has.
use stack_warden.Base.{
  Text, codes, Bool, true, not, ◌||◌, ◌&&◌, Option, none, some, List, [], ◌++◌, mem, get, Dict,
  ◌==◌, text_eq, is_empty, if◌then◌else◌,
}
use stack_warden.Specs.Profiles.{Profile, CudaSpec, Value, list, mapping}
use stack_warden.Compatibility.Records.{CompatibilityIssue}
use stack_warden.Compatibility.Hardware.{Tools}
use stack_warden.Compatibility.Requirements.{
  Req, requirement_issue, unless, to_float, below, shown_float, arch_met, os_met, os_family_met,
  os_version_met, gpu_vendor_met, gpu_family_met, runtime_met, driver_met, handle_arch, handle_os,
  handle_os_family, handle_os_version, handle_gpu_vendor, handle_gpu_family, handle_runtime,
  handle_driver_min,
}

-- what a layer can require
pub data Kind : Type 0 where
  arch os os_family os_version gpu_vendor gpu_family runtime driver_min cuda_runtime : Kind

-- `_REQUIREMENT_HANDLERS.get(key)`
unfoldable pub kind_of : Text → Option Kind
kind_of key =
    if key == codes "arch" || key == codes "arch_id"
    then some arch
    else if key == codes "os"
    then some os
    else if key == codes "os_family_id"
    then some os_family
    else if key == codes "os_version_id"
    then some os_version
    else if key == codes "gpu_vendor" || key == codes "gpu_vendor_id"
    then some gpu_vendor
    else if key == codes "gpu_family_id"
    then some gpu_family
    else if key == codes "container_runtime"
    then some runtime
    else if key == codes "driver_min"
    then some driver_min
    else if key == codes "cuda_runtime"
    then some cuda_runtime
    else none

abbrev variant_of : Option CudaSpec → Text
variant_of none = []
variant_of (some c) = c.variant

module _ {F : Type 0} (tools : Tools F) where
  -- `_profile_cuda`
  unfoldable pub profile_cuda : Option CudaSpec → Option F
  profile_cuda none = none
  profile_cuda (some c) = tools.float_of (tools.str c.major ++ (codes "." ++ tools.str c.minor))

  abbrev lt_known : Option F → Option F → Bool
  lt_known = below tools

  -- a bound of a mapping, as a number
  unfoldable pub bound : Text → Dict Text Text → Option F
  bound key d = to_float tools (get key d)

  unfoldable pub variant_met : List Text → Option CudaSpec → Bool
  variant_met allowed cuda = is_empty (variant_of cuda) || mem (variant_of cuda) allowed

  unfoldable pub cuda_issue :
      Req → (what : Text) → Option F → Option F → (rule field : Text) → CompatibilityIssue
  cuda_issue req what need have rule field =
      requirement_issue req (codes "CUDA_RANGE_UNSUPPORTED")
        (codes "Layer '"
          ++ (req.layer_id
              ++ (codes "' requires cuda "
                  ++ (what
                      ++ (shown_float tools need
                          ++ (codes ", profile has " ++ shown_float tools have))))))
        rule field none []

  unfoldable pub variant_issue : Req → List Text → Text → CompatibilityIssue
  variant_issue req allowed actual =
      requirement_issue req (codes "CUDA_VARIANT_UNSUPPORTED")
        (codes "Layer '"
          ++ (req.layer_id
              ++ (codes "' requires one of "
                  ++ (tools.show_set allowed
                      ++ (codes ", profile has '" ++ (actual ++ codes "'"))))))
        (codes "layer-requires-cuda-variant") (codes "requires.cuda_runtime") none []

  -- the issues of a value that is a mapping, a list, or neither
  unfoldable pub cuda_issues : Req → Value → Option CudaSpec → List CompatibilityIssue
  cuda_issues req (mapping _ d) cuda =
      let have = profile_cuda cuda in
      unless (not (lt_known have (bound (codes "min") d))) (
        cuda_issue req (codes ">= ") (bound (codes "min") d) have (codes "layer-requires-cuda-min")
          (codes "requires.cuda_runtime.min"))
      ++ unless (not (lt_known (bound (codes "max") d) have)) (
          cuda_issue req (codes "<= ") (bound (codes "max") d) have
            (codes "layer-requires-cuda-max") (codes "requires.cuda_runtime.max"))
  cuda_issues req (list _ allowed) cuda =
      unless (variant_met allowed cuda) (variant_issue req allowed (variant_of cuda))
  cuda_issues req _ cuda = []

  -- `_handle_cuda_runtime`
  unfoldable pub handle_cuda_runtime : Req → Profile → List CompatibilityIssue
  handle_cuda_runtime req profile = cuda_issues req req.value profile.cuda

  unfoldable pub cuda_met : Value → Option CudaSpec → Bool
  cuda_met (mapping _ d) cuda =
      not (lt_known (profile_cuda cuda) (bound (codes "min") d))
      && not (lt_known (bound (codes "max") d) (profile_cuda cuda))
  cuda_met (list _ allowed) cuda = variant_met allowed cuda
  cuda_met _ cuda = true

  -- the handler of a kind
  unfoldable pub handle_kind : Option Kind → Req → Profile → List CompatibilityIssue
  handle_kind none req profile = []
  handle_kind (some arch) req profile = handle_arch tools req profile
  handle_kind (some os) req profile = handle_os tools req profile
  handle_kind (some os_family) req profile = handle_os_family tools req profile
  handle_kind (some os_version) req profile = handle_os_version tools req profile
  handle_kind (some gpu_vendor) req profile = handle_gpu_vendor tools req profile
  handle_kind (some gpu_family) req profile = handle_gpu_family tools req profile
  handle_kind (some runtime) req profile = handle_runtime tools req profile
  handle_kind (some driver_min) req profile = handle_driver_min tools req profile
  handle_kind (some cuda_runtime) req profile = handle_cuda_runtime req profile

  -- `handler(req, profile, field_conf)`, and nothing for a key that has no handler
  unfoldable pub handle : Req → Profile → List CompatibilityIssue
  handle req profile = handle_kind (kind_of req.key) req profile

  unfoldable pub kind_met : Option Kind → Value → Profile → Bool
  kind_met none v profile = true
  kind_met (some arch) v profile = arch_met tools v profile
  kind_met (some os) v profile = os_met tools v profile
  kind_met (some os_family) v profile = os_family_met tools v profile
  kind_met (some os_version) v profile = os_version_met tools v profile
  kind_met (some gpu_vendor) v profile = gpu_vendor_met tools v profile
  kind_met (some gpu_family) v profile = gpu_family_met tools v profile
  kind_met (some runtime) v profile = runtime_met tools v profile
  kind_met (some driver_min) v profile = driver_met tools v profile
  kind_met (some cuda_runtime) v profile = cuda_met v profile.cuda

  -- whether a profile meets a requirement
  unfoldable pub is_met : Req → Profile → Bool
  is_met req profile = kind_met (kind_of req.key) req.value profile
