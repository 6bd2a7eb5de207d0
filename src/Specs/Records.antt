-- ===== src/Specs/Records.antt =====
-- The models of domain/models.py that a stack is composed from, field by field.
use stack_warden.Base.{ℕ, Text, Bool, Option, List, Dict}
use stack_warden.Specs.Enums.{
  BuildStrategy, VersionMode, PackageManager, InstallScope, PipInstallMode, NpmInstallMode,
  AptInstallMode,
}

-- A value of Python's `Any`: a text, or something else by what `str()` makes of it.
pub data AnyValue : Type 0 where
  text : Text → AnyValue
  other : Text → AnyValue

pub record PipDep : Type 0 where
  pub name : Text
  pub version : Text
  pub version_mode : VersionMode

pub record NpmDep : Type 0 where
  pub name : Text
  pub version : Text
  pub version_mode : VersionMode
  pub package_manager : PackageManager
  pub install_scope : InstallScope

-- `_StackComponentsBase`: the fields that `StackComponents` and `StackComponentsPartial` share.
pub record ComponentsBase : Type 0 where
  pub pip : List PipDep
  pub npm : List NpmDep
  pub apt : List Text
  pub apt_constraints : Dict Text Text
  pub apt_install_mode : AptInstallMode
  pub pip_install_mode : PipInstallMode
  pub pip_wheelhouse_path : Text
  pub npm_install_mode : NpmInstallMode

pub record StackComponents : Type 0 where
  pub base : ComponentsBase
  pub open base use *
  pub base_role : Text

pub record StackComponentsPartial : Type 0 where
  pub base : ComponentsBase
  pub open base use *
  pub base_role : Option Text

pub record StackEntrypoint : Type 0 where
  pub cmd : List Text

pub record CopyItem : Type 0 where
  pub src : Text
  pub dst : Text

pub data VariantValue : Type 0 where
  flag : Bool → VariantValue
  choice : Text → VariantValue

pub data VariantType : Type 0 where
  bool enum : VariantType

pub record VariantDef : Type 0 where
  pub type : VariantType
  pub options : List Text
  pub default : VariantValue

pub record IntentSpec : Type 0 where
  pub outcome : Option Text
  pub summary : Option Text

pub record RequirementsSpec : Type 0 where
  pub needs : List Text
  pub optimize_for : List Text
  pub constraints : Dict Text AnyValue

pub record RejectedCandidateSpec : Type 0 where
  pub name : Text
  pub reason : Text

-- What a recipe hands on to its stack unchanged.
pub record Provenance : Type 0 where
  pub intent : IntentSpec
  pub requirements : RequirementsSpec
  pub derived_capabilities : List Text
  pub selected_features : List Text
  pub rejected_candidates : List RejectedCandidateSpec
  pub fix_suggestions : List Text
  pub decision_trace : List Text

-- The fields that `LayerSpec` and `StackRecipeSpec` share.
pub record Part : Type 0 where
  pub build_strategy : Option BuildStrategy
  pub components : StackComponentsPartial
  pub env : List Text
  pub ports : List ℕ
  pub entrypoint : Option StackEntrypoint
  pub copy_items : List CopyItem
  pub variants : Dict Text VariantDef

pub record LayerSpec : Type 0 where
  pub id : Text
  pub part : Part
  pub open part use *
  pub requires : Dict Text AnyValue

pub record StackRecipeSpec : Type 0 where
  pub schema_version : ℕ
  pub id : Text
  pub display_name : Text
  pub description : Text
  pub layers : List Text
  pub part : Part
  pub open part use *
  pub provenance : Provenance

-- A composed stack. `task`, `serve` and `api` are `custom` in every composed stack.
pub record StackSpec : Type 0 where
  pub schema_version : ℕ
  pub id : Text
  pub display_name : Text
  pub description : Text
  pub build_strategy : BuildStrategy
  pub components : StackComponents
  pub env : List Text
  pub ports : List ℕ
  pub entrypoint : StackEntrypoint
  pub copy_items : List CopyItem
  pub variants : Dict Text VariantDef
  pub layers : List Text
  pub provenance : Provenance
