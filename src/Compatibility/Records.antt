-- ===== src/Compatibility/Records.antt =====
-- The models of a report, of the rules and of the tuples.
use stack_warden.Base.{ℕ, Text, codes, Bool, Option, List, Dict}

pub data Severity : Type 0 where
  error warning info : Severity

pub record CompatibilityIssue : Type 0 where
  pub code : Text
  pub severity : Severity
  pub message : Text
  pub rule_id : Option Text
  pub rule_version : Option ℕ
  pub source : Option Text
  pub field : Option Text
  pub fix_hint : Option Text
  pub confidence_context : Dict Text Text

module _ (F : Type 0) where
  pub record TupleSelector : Type 0 where
    pub arch : Text
    pub os_family_id : Text
    pub os_version_id : Text
    pub container_runtime : Text
    pub gpu_vendor_id : Text
    pub gpu_family_id : Option Text
    pub cuda_min : Option F
    pub cuda_max : Option F
    pub driver_min : Option F

  pub record RulePredicate : Type 0 where
    pub arch : Option Text
    pub os_family : Option Text
    pub gpu_vendor : Option Text
    pub gpu_family : Option Text
    pub compute_capability_min : Option F
    pub compute_capability_max : Option F

  pub record RuleRequirement : Type 0 where
    pub driver_min : Option F
    pub cuda_min : Option F
    pub cuda_max : Option F
    pub container_runtime : Option Text

pub data TupleStatus : Type 0 where
  supported experimental unsupported : TupleStatus

abbrev pub tuple_status_value : TupleStatus → Text
tuple_status_value supported = codes "supported"
tuple_status_value experimental = codes "experimental"
tuple_status_value unsupported = codes "unsupported"

pub record SupportedTuple (F : Type 0) : Type 0 where
  pub id : Text
  pub status : TupleStatus
  pub selector : TupleSelector F
  pub base_image : Text
  pub wheelhouse_path : Text

pub record RuleOutcome : Type 0 where
  pub code : Text
  pub severity : Severity
  pub message : Text
  pub fix_hint : Option Text

pub record CompatibilityRule (F : Type 0) : Type 0 where
  pub id : Text
  pub version : ℕ
  pub enabled : Bool
  pub strict_hard : Bool
  pub when : RulePredicate F
  pub requires : RuleRequirement F
  pub outcome : RuleOutcome
  pub deprecated : Bool

-- `tuple_layer_mode`
pub data TupleMode : Type 0 where
  off shadow warn enforce : TupleMode

abbrev pub mode_value : TupleMode → Text
mode_value off = codes "off"
mode_value shadow = codes "shadow"
mode_value warn = codes "warn"
mode_value enforce = codes "enforce"

-- the dictionary that the tuple layer returns; a hint that is not there is the empty text
pub record TupleDecision : Type 0 where
  pub enabled : Bool
  pub mode : TupleMode
  pub matched : Bool
  pub tuple_id : Text
  pub status : Text
  pub message : Text
  pub base_image_hint : Text
  pub wheelhouse_hint : Text

pub record CompatibilityReport : Type 0 where
  pub compatible : Bool
  pub errors : List CompatibilityIssue
  pub warnings : List CompatibilityIssue
  pub info : List CompatibilityIssue
  pub tuple_decision : TupleDecision
