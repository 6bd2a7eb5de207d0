-- ===== src/Compatibility/Requirements.antt =====
-- The requirements of layers and their handlers.
use stack_warden.Base.{
  Text, codes, Bool, true, false, ◌||◌, Option, none, some, List, [], ◌∷◌, ◌++◌, map, get_or, Dict,
  ◌==◌, nat_eq, text_eq, is_empty, lower, if◌then◌else◌,
}
use stack_warden.Specs.Profiles.{Profile, Value, shown, truth, arch_value, runtime_value}
use stack_warden.Optimization.Facts.{or_else}
use stack_warden.Compatibility.Records.{CompatibilityIssue, error}
use stack_warden.Compatibility.Hardware.{Tools, resolve_hardware_id}

-- `_Req`
pub record Req : Type 0 where
  pub layer_id : Text
  pub key : Text
  pub value : Value

-- `_requirement_issue`
unfoldable pub requirement_issue :
    Req
    → (code message rule_id field : Text) → (fix_hint : Option Text)
    → (confidence_context : Dict Text Text) → CompatibilityIssue
requirement_issue req code message rule_id field fix_hint confidence_context = record {
  code = code;
  severity = error;
  message = message;
  rule_id = some rule_id;
  rule_version = some 1;
  source = some req.layer_id;
  field = some field;
  fix_hint = fix_hint;
  confidence_context = confidence_context;
}

-- an issue with neither a hint nor a context
abbrev plain_issue : Req → (code message rule_id field : Text) → CompatibilityIssue
plain_issue req code message rule_id field =
    requirement_issue req code message rule_id field none []

-- `Layer '<id>' requires <what> '<expected>', profile <verb> '<actual>'`
unfoldable pub mismatch : Req → (what expected verb actual : Text) → Text
mismatch req what expected verb actual =
    codes "Layer '"
    ++ (req.layer_id
        ++ (codes "' requires "
            ++ (what
                ++ (codes " '"
                    ++ (expected
                        ++ (codes "', profile "
                            ++ (verb ++ (codes " '" ++ (actual ++ codes "'")))))))))

-- `[issue]` where the test fails
abbrev pub unless : Bool → CompatibilityIssue → List CompatibilityIssue
unless true issue = []
unless false issue = issue ∷ []

abbrev pub first_of : Option Text → Option Text → Text → Text
first_of a b c = or_else a (or_else b c)

-- `text or ""`
abbrev text_or_empty : Option Text → Text
text_or_empty a = or_else a []

module _ {F : Type 0} (tools : Tools F) where
  -- `_to_float` of a text that may be missing
  unfoldable pub to_float : Option Text → Option F
  to_float none = none
  to_float (some t) = tools.float_of t

  -- `a < b`, where both are known
  unfoldable pub below : Option F → Option F → Bool
  below (some a) (some b) = tools.lt a b
  below _ _ = false

  -- `a >= b`, or one of them is not known
  abbrev pub at_least : Option F → Option F → Bool
  at_least (some a) (some b) = tools.ge a b
  at_least _ _ = true

  abbrev pub shown_float : Option F → Text
  shown_float none = []
  shown_float (some a) = tools.show a

  -- a value that is falsy counts as empty
  unfoldable pub expected_id : (kind : Text) → Value → Text
  expected_id kind v = resolve_hardware_id tools.hardware kind (if truth v then shown v else [])

  -- the identifiers of a profile
  unfoldable pub arch_id : Profile → Text
  arch_id profile = resolve_hardware_id tools.hardware (codes "arch") (arch_value profile.arch)

  unfoldable pub os_family_id : Profile → Text
  os_family_id profile =
      resolve_hardware_id tools.hardware (codes "os_family")
        (first_of profile.os_family_id profile.os_family profile.os)

  unfoldable pub os_version_id : Profile → Text
  os_version_id profile =
      resolve_hardware_id tools.hardware (codes "os_version")
        (or_else profile.os_version_id (text_or_empty profile.os_version))

  abbrev pub gpu_vendor : Profile → Text
  gpu_vendor profile = lower (or_else profile.gpu.vendor_id profile.gpu.vendor)

  abbrev pub gpu_family : Profile → Text
  gpu_family profile = lower (or_else profile.gpu.family_id profile.gpu.family)

  -- whether a requirement is met, handler by handler
  unfoldable pub arch_met : Value → Profile → Bool
  arch_met v profile =
      is_empty (arch_id profile)
      || (is_empty (expected_id (codes "arch") v)
          || expected_id (codes "arch") v == arch_id profile)

  unfoldable pub os_met : Value → Profile → Bool
  os_met v profile = lower (shown v) == lower profile.os

  unfoldable pub os_family_met : Value → Profile → Bool
  os_family_met v profile =
      is_empty (os_family_id profile) || os_family_id profile == expected_id (codes "os_family") v

  unfoldable pub os_version_met : Value → Profile → Bool
  os_version_met v profile =
      is_empty (os_version_id profile)
      || os_version_id profile == expected_id (codes "os_version") v

  unfoldable pub gpu_vendor_met : Value → Profile → Bool
  gpu_vendor_met v profile = is_empty (gpu_vendor profile) || gpu_vendor profile == lower (shown v)

  unfoldable pub gpu_family_met : Value → Profile → Bool
  gpu_family_met v profile = is_empty (gpu_family profile) || gpu_family profile == lower (shown v)

  unfoldable pub runtime_met : Value → Profile → Bool
  runtime_met v profile = runtime_value profile.container_runtime == lower (shown v)

  unfoldable pub driver_met : Value → Profile → Bool
  driver_met v profile =
      at_least (to_float profile.host_facts.driver_version) (tools.float_of (shown v))

  -- `_handle_arch`
  unfoldable pub handle_arch : Req → Profile → List CompatibilityIssue
  handle_arch req profile = unless (arch_met req.value profile) (
      plain_issue req (codes "ARCH_MISMATCH")
        (mismatch req (codes "arch") (expected_id (codes "arch") req.value) (codes "is")
          (arch_id profile))
        (codes "layer-requires-arch") (codes "requires." ++ req.key))

  -- `_handle_os`
  unfoldable pub handle_os : Req → Profile → List CompatibilityIssue
  handle_os req profile = unless (os_met req.value profile) (
      plain_issue req (codes "OS_MISMATCH")
        (mismatch req (codes "os") (shown req.value) (codes "is") profile.os)
        (codes "layer-requires-os") (codes "requires.os"))

  -- `_handle_os_family`
  unfoldable pub handle_os_family : Req → Profile → List CompatibilityIssue
  handle_os_family req profile = unless (os_family_met req.value profile) (
      plain_issue req (codes "OS_FAMILY_MISMATCH")
        (mismatch req (codes "os_family_id") (expected_id (codes "os_family") req.value)
          (codes "has") (os_family_id profile))
        (codes "layer-requires-os-family-id") (codes "requires.os_family_id"))

  -- `_handle_os_version`
  unfoldable pub handle_os_version : Req → Profile → List CompatibilityIssue
  handle_os_version req profile = unless (os_version_met req.value profile) (
      plain_issue req (codes "OS_VERSION_MISMATCH")
        (mismatch req (codes "os_version_id") (expected_id (codes "os_version") req.value)
          (codes "has") (os_version_id profile))
        (codes "layer-requires-os-version-id") (codes "requires.os_version_id"))

  -- `_handle_gpu_vendor`
  unfoldable pub handle_gpu_vendor : Req → Profile → List CompatibilityIssue
  handle_gpu_vendor req profile = unless (gpu_vendor_met req.value profile) (
      plain_issue req (codes "GPU_VENDOR_MISMATCH")
        (mismatch req (codes "gpu vendor") (lower (shown req.value)) (codes "has")
          (gpu_vendor profile))
        (codes "layer-requires-" ++ map (λ c. if c == 95 then 45 else c) req.key)
        (codes "requires." ++ req.key))

  -- `_handle_gpu_family`
  unfoldable pub handle_gpu_family : Req → Profile → List CompatibilityIssue
  handle_gpu_family req profile = unless (gpu_family_met req.value profile) (
      plain_issue req (codes "GPU_FAMILY_MISMATCH")
        (mismatch req (codes "gpu family") (lower (shown req.value)) (codes "has")
          (gpu_family profile))
        (codes "layer-requires-gpu-family-id") (codes "requires.gpu_family_id"))

  -- `_handle_runtime`
  unfoldable pub handle_runtime : Req → Profile → List CompatibilityIssue
  handle_runtime req profile = unless (runtime_met req.value profile) (
      plain_issue req (codes "RUNTIME_MISMATCH")
        (mismatch req (codes "runtime") (lower (shown req.value)) (codes "has")
          (runtime_value profile.container_runtime))
        (codes "layer-requires-container-runtime") (codes "requires.container_runtime"))

  -- `_handle_driver_min`
  unfoldable pub handle_driver_min : Req → Profile → List CompatibilityIssue
  handle_driver_min req profile = unless (driver_met req.value profile) (
      requirement_issue req (codes "DRIVER_TOO_OLD")
        (codes "Layer '"
          ++ (req.layer_id
              ++ (codes "' needs driver >= "
                  ++ (shown_float (tools.float_of (shown req.value))
                      ++ (codes ", detected "
                          ++ shown_float (to_float profile.host_facts.driver_version))))))
        (codes "layer-requires-driver-min") (codes "requires.driver_min")
        (some (codes "Upgrade host driver or choose a compatible layer version"))
        ((
          codes "driver_version",
          get_or (codes "driver_version") (codes "unknown") profile.host_facts.confidence,
        )
          ∷ []))
