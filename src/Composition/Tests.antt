-- ===== src/Composition/Tests.antt =====
-- Runs of the composition, and each theorem at a concrete input.
use stack_warden.Base.{
  ℕ, Text, codes, true, none, some, List, [], ◌∷◌, map, ◌≡◌, refl, mem, ◌==◌, option_eq, text_eq,
  nat_eq, IsAscending, nat_ord, text_ord, latest_by, index_by, get, put, starts_with, sorted,
  before, update, strip, values_at, any, ok, is_ok, Result, if◌then◌else◌, text_beq, text_lt,
}
use stack_warden.Specs.{StackSpec, LayerSpec, index, pip_mode_eq}
use stack_warden.Specs.Validation.{
  validate_components, validate_env_entries, validate_port_values, validate_npm_lock_policy,
  check_all,
}
use stack_warden.Composition.Packaging.{ComposeError}
use stack_warden.Composition.Samples.{simple_packaging, recipe, layers, web, serving}
use stack_warden.Composition.Layers.{by_id, find_layers, known_layers, check_duplicates}
use stack_warden.Composition.Pip.{
  constraints_compatible, merge_pip, merge_pip_dep, merge_pip_seen, pinned_versions,
  parse_specifier, pins, pins_compatible, any_contained,
}
use stack_warden.Composition.Pip.Compatible.{constraints_compatible_comm}
use stack_warden.Composition.Pip.Merge.{latest_version}
use stack_warden.Composition.Npm.{merge_npm, merge_npm_dep, merge_npm_seen, hard_npm_conflict}
use stack_warden.Composition.Compose.{
  compose_stack, consume, consume_rest, consume_layers, consume_all, build_stack, env_key,
  merged_components, entries_at,
}
use stack_warden.Composition.Compose.Tables.{declared, compose_stack-env, compose_stack-ports}
use stack_warden.Composition.Compose.Policies.{compose_stack-modes}
use stack_warden.Composition.Compose.Packages.{version_in, compose_stack-pip}
use stack_warden.Composition.Preview.{
  dependency_conflicts, push_layers, push_components, push_wheelhouse, push_all_pip, push_pip,
  push_pip_seen, push_all_npm, push_npm, push_npm_seen,
}
use stack_warden.Composition.Agreement.View.{is_clean, is_hard}
use stack_warden.Composition.Agreement.Parts.{consume_all-eq-is_clean}

-- `unfolding runs` opens all that a run of the composition or of the preview computes with.
unfoldable runs : Unit {0}
unfolding compose_stack check_duplicates find_layers known_layers by_id index_by get put update mem
    any consume_all consume_layers consume consume_rest merge_pip merge_pip_dep merge_pip_seen
    constraints_compatible pinned_versions parse_specifier pins pins_compatible any_contained
    merge_npm merge_npm_dep merge_npm_seen hard_npm_conflict build_stack merged_components
    validate_components validate_env_entries validate_port_values validate_npm_lock_policy check_all
    values_at entries_at sorted env_key text_beq text_lt strip before starts_with
    dependency_conflicts push_layers push_components push_wheelhouse push_all_pip push_pip
    push_pip_seen push_all_npm push_npm push_npm_seen is_clean is_hard latest_by latest_version
    version_in
runs = tt

abbrev run : Result ComposeError StackSpec
run = compose_stack simple_packaging recipe layers

abbrev found : List LayerSpec
found = serving ∷ web ∷ []

found_lem : find_layers recipe.layers (by_id layers) ≡ ok found
unfolding runs
found_lem = refl

-- the stack that the run returns
composed : (stack : StackSpec) × (run ≡ ok stack)
unfolding runs
composed = (_, refl)

compose_stack-env_example :
    ((entry : Text)
      → mem entry composed.0.env ≡ (
          latest_by env_key (env_key entry) (declared (λ p. p.env) found recipe) none
          == some entry))
    × IsAscending (map env_key composed.0.env)
compose_stack-env_example =
    compose_stack-env simple_packaging recipe layers composed.1 found found_lem

compose_stack-ports_example :
    ((p : ℕ) → mem p composed.0.ports ≡ mem p (declared (λ q. q.ports) found recipe))
    × IsAscending composed.0.ports
compose_stack-ports_example =
    compose_stack-ports simple_packaging recipe layers composed.1 found found_lem

compose_stack-pip_example :
    ((name : Text)
      → version_in name composed.0.components.pip
        ≡ latest_version name (declared (λ p. p.components.pip) found recipe) none)
    × IsAscending (map (λ d. d.name) composed.0.components.pip)
compose_stack-pip_example =
    compose_stack-pip simple_packaging recipe layers composed.1 found found_lem

compose_stack-modes_example :
    (composed.0.components.pip_install_mode ≡ recipe.components.pip_install_mode)
    × (composed.0.components.npm_install_mode ≡ recipe.components.npm_install_mode)
    × (composed.0.components.apt_install_mode ≡ recipe.components.apt_install_mode)
    × (composed.0.components.pip_wheelhouse_path ≡ (
        if recipe.components.pip_install_mode == index
        then []
        else strip recipe.components.pip_wheelhouse_path))
compose_stack-modes_example = compose_stack-modes simple_packaging recipe layers composed.1

consume_all-eq-is_clean_example :
    is_ok (consume_all simple_packaging recipe found)
    ≡ is_clean (dependency_conflicts simple_packaging recipe layers)
consume_all-eq-is_clean_example =
    consume_all-eq-is_clean simple_packaging recipe layers found found_lem

-- a pin against a range, in both orders
pin_in_range : constraints_compatible simple_packaging (codes "==2") (codes ">=1") ≡ ok true
unfolding runs
pin_in_range = refl

constraints_compatible_comm_example :
    constraints_compatible simple_packaging (codes ">=1") (codes "==2") ≡ ok true
constraints_compatible_comm_example =
    constraints_compatible_comm simple_packaging (codes "==2") (codes ">=1") true pin_in_range
