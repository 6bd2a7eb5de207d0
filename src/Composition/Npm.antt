-- ===== src/Composition/Npm.antt =====
-- The merge of npm dependencies: `_merge_npm` of domain/composition.py.

use stack_warden.Base.{
  Text, Bool, some, none, List, [], ◌∷◌, ◌&&◌, not, Dict, get, put, ◌==◌, text_eq, pair_eq,
  if◌then◌else◌, Result, ok, err, ◌>>=◌,
}
use stack_warden.Specs.{NpmDep, VersionMode, manager_value, scope_value, version_mode_eq}
use stack_warden.Composition.Packaging.{ComposeError, npm_conflict}

-- `_NpmOrigin`
pub record NpmOrigin : Type 0 where
  pub dep : NpmDep
  pub source : Text

abbrev pub NpmKey : Type 0
NpmKey = Text × (Text × Text)

-- the key `(dep.name, dep.package_manager, dep.install_scope)`
abbrev pub npm_key : NpmDep → NpmKey
npm_key dep = (dep.name, (manager_value dep.package_manager, scope_value dep.install_scope))

abbrev pub is_custom : VersionMode → Bool
is_custom m = m == VersionMode.custom

-- two versions that the user asked for, and that differ
unfoldable pub hard_npm_conflict : VersionMode → Text → VersionMode → Text → Bool
hard_npm_conflict prev_mode prev_version mode version =
    is_custom prev_mode && is_custom mode && not (prev_version == version)

unfoldable pub merge_npm_seen :
    Dict NpmKey NpmOrigin → NpmOrigin → NpmDep → Text → Result ComposeError (Dict NpmKey NpmOrigin)
merge_npm_seen accum prev dep source =
    if prev.dep.version_mode == dep.version_mode && prev.dep.version == dep.version
    then ok accum
    else if hard_npm_conflict prev.dep.version_mode prev.dep.version dep.version_mode dep.version
    then err (npm_conflict dep.name prev.dep.version prev.source dep.version source)
    else ok (put (npm_key dep) (record { dep = dep; source = source }) accum)

-- one round of the loop of `_merge_npm`
unfoldable pub merge_npm_dep :
    Dict NpmKey NpmOrigin → NpmDep → Text → Result ComposeError (Dict NpmKey NpmOrigin)
unfolding merge_npm_seen
merge_npm_dep accum dep source = elim (get (npm_key dep) accum) [
  | none ↦ ok (put (npm_key dep) (record { dep = dep; source = source }) accum)
  | some prev ↦ merge_npm_seen accum prev dep source
]

-- `_merge_npm`
unfoldable pub merge_npm :
    Dict NpmKey NpmOrigin → List NpmDep → Text → Result ComposeError (Dict NpmKey NpmOrigin)
merge_npm accum [] source = ok accum
merge_npm accum (dep ∷ incoming) source = do
  accum' ← merge_npm_dep accum dep source
  merge_npm accum' incoming source
