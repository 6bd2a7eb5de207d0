-- ===== src/Licenses.antt =====
-- Licenses of packages: packages/stackwarden/src/stackwarden/licenses/spdx.py and licenses/policy.py
-- The YAML file was read before; the scan of an SBOM is left out.
mod Tests
pub mod Restricted
use stack_warden.Base.{
  Text, codes, Bool, true, false, Option, none, some, List, [], ◌∷◌, ◌==◌, Dict, get, put, any,
  lower, text_eq, if◌then◌else◌, map,
}
use stack_warden.Specs.{PipDep}
use stack_warden.Specs.Profiles.{Stack}

-- `permitted` is `OK`
pub data LicenseSeverity : Type 0 where
  permitted review restricted : LicenseSeverity

pub record LicenseInfo : Type 0 where
  pub spdx : Text
  pub severity : LicenseSeverity

-- the two keys of an entry of the file
pub record Entry : Type 0 where
  pub spdx : Option Text
  pub severity : Option Text

-- `LicenseSeverity(…)`, and `REVIEW` where that raises
unfoldable pub severity_of : Option Text → LicenseSeverity
severity_of none = review
severity_of (some t) =
    if t == codes "ok" then permitted else if t == codes "restricted" then restricted else review

abbrev pub or_unlisted : Option Text → Text
or_unlisted none = codes "UNKNOWN"
or_unlisted (some t) = t

abbrev pub info_of : Entry → LicenseInfo
info_of e = record { spdx = or_unlisted e.spdx; severity = severity_of e.severity }

-- the loop of `SpdxMap.__init__`
unfoldable pub enter_all : Dict Text Entry → Dict Text LicenseInfo → Dict Text LicenseInfo
enter_all [] entered = entered
enter_all ((pkg, e) ∷ entries) entered = enter_all entries (put (lower pkg) (info_of e) entered)

-- `SpdxMap`
unfoldable pub spdx_map : Dict Text Entry → Dict Text LicenseInfo
spdx_map entries = enter_all entries []

abbrev pub or_unknown_info : Option LicenseInfo → LicenseInfo
or_unknown_info none = record { spdx = codes "UNKNOWN"; severity = review }
or_unknown_info (some i) = i

-- `SpdxMap.lookup`
unfoldable pub lookup : Text → Dict Text LicenseInfo → LicenseInfo
lookup package_name entered = or_unknown_info (get (lower package_name) entered)

pub record ComponentLicense : Type 0 where
  pub name : Text
  pub version : Text
  pub spdx : Text
  pub severity : LicenseSeverity
  pub source : Text

unfoldable pub component_license : Dict Text LicenseInfo → PipDep → ComponentLicense
component_license entered dep =
    let info = lookup dep.name entered in
    record {
      name = dep.name;
      version = dep.version;
      spdx = info.spdx;
      severity = info.severity;
      source = if info.spdx == codes "UNKNOWN" then codes "unknown" else codes "spdx_map";
    }

-- `evaluate_components`
unfoldable pub evaluate_components : Stack → Dict Text LicenseInfo → List ComponentLicense
evaluate_components stack entered = map (component_license entered) stack.components.pip

abbrev pub is_restricted : LicenseSeverity → Bool
is_restricted restricted = true
is_restricted _ = false

abbrev pub is_review : LicenseSeverity → Bool
is_review review = true
is_review _ = false

unfoldable pub has_restricted : List ComponentLicense → Bool
has_restricted results = any (λ (c : ComponentLicense). is_restricted c.severity) results

unfoldable pub has_review : List ComponentLicense → Bool
has_review results = any (λ (c : ComponentLicense). is_review c.severity) results
