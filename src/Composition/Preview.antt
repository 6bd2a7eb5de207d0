-- ===== src/Composition/Preview.antt =====
-- The preview of dependency conflicts: `analyze_recipe_dependency_conflicts` of
-- domain/composition.py. The nested functions that push a conflict and the variables that they
-- share are functions on one state.
use stack_warden.Base.{
  Text, codes, Bool, Option, some, none, List, [], ◌∷◌, ◌++◌, ◌&&◌, not, Dict, get, put, strip,
  is_empty, ◌==◌, text_eq, pair_eq, if◌then◌else◌, Result, ok, ◌>>=◌,
}
use stack_warden.Specs.{
  PipDep, NpmDep, VersionMode, PipInstallMode, wheelhouse_only, pip_mode_value, ComponentsBase,
  LayerSpec, StackRecipeSpec, version_mode_eq, pip_mode_eq,
}
use stack_warden.Composition.Packaging.{Packaging, ComposeError}
use stack_warden.Composition.Pip.{constraints_compatible}
use stack_warden.Composition.Npm.{NpmKey, npm_key, is_custom, hard_npm_conflict}
use stack_warden.Composition.Layers.{by_id, known_layers}

pub data ConflictType : Type 0 where
  pip npm pip_wheelhouse tuple env entrypoint base_role : ConflictType

pub data Severity : Type 0 where
  warning error : Severity

-- One conflict; its message follows from the type, the name and the severity.
pub record Conflict : Type 0 where
  pub type : ConflictType
  pub name : Text
  pub severity : Severity
  pub existing : Text
  pub incoming : Text
  pub existing_source : Text
  pub incoming_source : Text

pub record Seen : Type 0 where
  pub pip_seen : Dict Text (Text × Text)
  pub npm_seen : Dict NpmKey (Text × VersionMode × Text)
  pub wheelhouse_seen : Option (PipInstallMode × Text × Text)
  pub conflicts : List Conflict

abbrev pub nothing_seen : Seen
nothing_seen = record { pip_seen = []; npm_seen = []; wheelhouse_seen = none; conflicts = [] }

abbrev pub or_latest : Text → Text
or_latest v = if is_empty v then codes "latest" else v

abbrev pub severity_of : Bool → Severity
severity_of hard = if hard then error else warning

abbrev pub report : Conflict → Seen → Seen
report c s = record s { conflicts = s.conflicts ++ c ∷ [] }

-- `_push_wheelhouse`
unfoldable pub push_wheelhouse : PipInstallMode → Text → Text → Seen → Seen
push_wheelhouse mode path source s =
    let here : PipInstallMode × Text × Text = (mode, strip path, source) in
    elim s.wheelhouse_seen [
      | none ↦ record s { wheelhouse_seen = some here }
      | some (prev_mode, prev_path, prev_source) ↦
          if prev_mode == mode && prev_path == strip path
          then s
          else let shown = λ (p : Text). if is_empty p then codes "-" else p in
            let hard =
              prev_mode == wheelhouse_only
              && mode == wheelhouse_only
              && not (prev_path == strip path) in
            report
              (record {
                type = pip_wheelhouse;
                name = codes "pip_install_mode";
                severity = severity_of hard;
                existing = pip_mode_value prev_mode ++ (codes ":" ++ shown prev_path);
                incoming = pip_mode_value mode ++ (codes ":" ++ shown (strip path));
                existing_source = prev_source;
                incoming_source = source;
              })
              (record s { wheelhouse_seen = some here })
    ]

-- `incoming_version` of `_push_npm`
abbrev pub asked_version : NpmDep → Text
asked_version dep = if is_custom dep.version_mode then dep.version else []

-- `_push_npm` on a package that was seen before
unfoldable pub push_npm_seen : NpmDep → Text → Seen → Text → VersionMode → Text → Seen
push_npm_seen dep source s prev_version prev_mode prev_source =
    if prev_version == asked_version dep && prev_mode == dep.version_mode
    then s
    else report
        (record {
          type = npm;
          name = dep.name;
          severity =
              severity_of
                (hard_npm_conflict prev_mode prev_version dep.version_mode (asked_version dep));
          existing = or_latest prev_version;
          incoming = or_latest (asked_version dep);
          existing_source = prev_source;
          incoming_source = source;
        })
        (record s {
          npm_seen = put (npm_key dep) (asked_version dep, dep.version_mode, source) s.npm_seen;
        })

-- `_push_npm`
unfoldable pub push_npm : NpmDep → Text → Seen → Seen
unfolding push_npm_seen
push_npm dep source s = elim (get (npm_key dep) s.npm_seen) [
  | none ↦ record s {
    npm_seen = put (npm_key dep) (asked_version dep, dep.version_mode, source) s.npm_seen;
  }
  | some (prev_version, prev_mode, prev_source) ↦
      push_npm_seen dep source s prev_version prev_mode prev_source
]

unfoldable pub push_all_npm : List NpmDep → Text → Seen → Seen
push_all_npm [] source s = s
push_all_npm (dep ∷ deps) source s = push_all_npm deps source (push_npm dep source s)

module _ (lib : Packaging) where
  -- `_push_pip` on a package that was seen before
  unfoldable pub push_pip_seen : PipDep → Text → Seen → Text → Text → Result ComposeError Seen
  push_pip_seen dep source s prev_version prev_source =
      if prev_version == dep.version then ok s else do
        compatible ← constraints_compatible lib prev_version dep.version
        ok (
            report
              (record {
                type = pip;
                name = dep.name;
                severity = severity_of (not compatible);
                existing = or_latest prev_version;
                incoming = or_latest dep.version;
                existing_source = prev_source;
                incoming_source = source;
              })
              (record s { pip_seen = put dep.name (dep.version, source) s.pip_seen }))

  -- `_push_pip`
  unfoldable pub push_pip : PipDep → Text → Seen → Result ComposeError Seen
  unfolding push_pip_seen
  push_pip dep source s = elim (get dep.name s.pip_seen) [
    | none ↦ ok (record s { pip_seen = put dep.name (dep.version, source) s.pip_seen })
    | some (prev_version, prev_source) ↦ push_pip_seen dep source s prev_version prev_source
  ]

  unfoldable pub push_all_pip : List PipDep → Text → Seen → Result ComposeError Seen
  push_all_pip [] source s = ok s
  push_all_pip (dep ∷ deps) source s = do s' ← push_pip dep source s; push_all_pip deps source s'

  -- what the loop does for one layer, and what follows it for the recipe
  unfoldable pub push_components : ComponentsBase → Text → Seen → Result ComposeError Seen
  push_components c source s = do
    s' ←
        push_all_pip c.pip source
          (push_wheelhouse c.pip_install_mode c.pip_wheelhouse_path source s)
    ok (push_all_npm c.npm source s')

  unfoldable pub push_layers : List LayerSpec → Seen → Result ComposeError Seen
  push_layers [] s = ok s
  push_layers (layer ∷ layers) s = do
    s' ← push_components layer.components.base (codes "layer:" ++ layer.id) s
    push_layers layers s'

  -- `analyze_recipe_dependency_conflicts`
  unfoldable pub dependency_conflicts :
      StackRecipeSpec → List LayerSpec → Result ComposeError (List Conflict)
  dependency_conflicts recipe layers = do
    s ← push_layers (known_layers recipe.layers (by_id layers)) nothing_seen
    s' ← push_components recipe.components.base (codes "recipe:" ++ recipe.id) s
    ok s'.conflicts
