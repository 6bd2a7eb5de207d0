-- ===== src/Specs/Enums.antt =====
-- The enumerations of domain/enums.py and the `Literal[...]` types of domain/models.py, with the
-- text of a value where the program compares or prints it.
use stack_warden.Base.{Text, codes, Eq, ◌≡◌, ◌↔◌, Bool, true, false, arith}

pub data BuildStrategy : Type 0 where
  pull overlay dockerfile_template custom : BuildStrategy

pub data VersionMode : Type 0 where
  latest custom : VersionMode

pub data PackageManager : Type 0 where
  npm pnpm yarn : PackageManager

pub data InstallScope : Type 0 where
  prod dev : InstallScope

pub data PipInstallMode : Type 0 where
  index wheelhouse_prefer wheelhouse_only : PipInstallMode

pub data NpmInstallMode : Type 0 where
  spec lock_prefer lock_only : NpmInstallMode

pub data AptInstallMode : Type 0 where
  repo pin_prefer pin_only : AptInstallMode

abbrev pub manager_value : PackageManager → Text
manager_value npm = codes "npm"
manager_value pnpm = codes "pnpm"
manager_value yarn = codes "yarn"

abbrev pub scope_value : InstallScope → Text
scope_value prod = codes "prod"
scope_value dev = codes "dev"

abbrev pub pip_mode_value : PipInstallMode → Text
pip_mode_value index = codes "index"
pip_mode_value wheelhouse_prefer = codes "wheelhouse_prefer"
pip_mode_value wheelhouse_only = codes "wheelhouse_only"

abbrev pub version_mode_beq : VersionMode → VersionMode → Bool
version_mode_beq latest latest = true
version_mode_beq VersionMode.custom VersionMode.custom = true
version_mode_beq _ _ = false

pub version_mode_beq_iff : (a b : VersionMode) → (version_mode_beq a b ≡ true) ↔ (a ≡ b)
version_mode_beq_iff a b = ground arith

instance abbrev pub version_mode_eq : Eq VersionMode
version_mode_eq = record { beq = version_mode_beq; beq_iff = version_mode_beq_iff }

abbrev pub pip_mode_beq : PipInstallMode → PipInstallMode → Bool
pip_mode_beq index index = true
pip_mode_beq wheelhouse_prefer wheelhouse_prefer = true
pip_mode_beq wheelhouse_only wheelhouse_only = true
pip_mode_beq _ _ = false

pub pip_mode_beq_iff : (a b : PipInstallMode) → (pip_mode_beq a b ≡ true) ↔ (a ≡ b)
pip_mode_beq_iff a b = ground arith

instance abbrev pub pip_mode_eq : Eq PipInstallMode
pip_mode_eq = record { beq = pip_mode_beq; beq_iff = pip_mode_beq_iff }
