-- ===== src/Composition/Compose.antt =====
-- `compose_stack` of domain/composition.py. Its local variables are the fields of one record; the
-- nested `_consume_layer` and the recipe-level statements, which are the same, are `consume`.
pub mod Inversion
pub mod Tables
pub mod Policies
pub mod Packages
use stack_warden.Base.{
  ℕ, Text, codes, Bool, true, false, Option, some, none, List, [], ◌∷◌, ◌++◌, Dict, keys, put, get,
  update, before, is_empty, sorted, by_key, index_by, nat_eq, text_eq, pair_eq, nat_ord, text_ord,
  pair_ord, map, if◌then◌else◌, Result, ok, err, ◌>>=◌, ◌>>◌,
}
use stack_warden.Specs.{
  BuildStrategy, PipInstallMode, NpmInstallMode, AptInstallMode, index, spec, repo, overlay, Part,
  ComponentsBase, StackEntrypoint, CopyItem, VariantDef, LayerSpec, StackRecipeSpec, StackSpec,
}
use stack_warden.Specs.Validation.{
  validate_components, validate_env_entries, validate_port_values, validate_npm_lock_policy,
}
use stack_warden.Composition.Packaging.{Packaging, ComposeError, validated}
use stack_warden.Composition.Pip.{PipOrigin, merge_pip}
use stack_warden.Composition.Npm.{NpmKey, NpmOrigin, merge_npm}
use stack_warden.Composition.Layers.{by_id, check_duplicates, find_layers}

-- `_env_key`
unfoldable pub env_key : Text → Text
unfolding before
env_key entry = before b'=' entry

abbrev pub copy_key : CopyItem → Text × Text
copy_key item = (item.src, item.dst)

pub record Accum : Type 0 where
  pub base_role : Option Text
  pub build_strategy : Option BuildStrategy
  pub entrypoint : Option StackEntrypoint
  pub pip_install_mode : PipInstallMode
  pub pip_wheelhouse_path : Text
  pub npm_install_mode : NpmInstallMode
  pub apt_install_mode : AptInstallMode
  pub pip_accum : Dict Text PipOrigin
  pub npm_accum : Dict NpmKey NpmOrigin
  pub apt_accum : Dict Text Text
  pub apt_constraints_accum : Dict Text Text
  pub env_accum : Dict Text Text
  pub ports_accum : Dict ℕ ℕ
  pub copy_accum : Dict (Text × Text) CopyItem
  pub variants : Dict Text VariantDef

abbrev pub initial : StackRecipeSpec → Accum
initial recipe = record {
  base_role = none;
  build_strategy = recipe.build_strategy;
  entrypoint = none;
  pip_install_mode = index;
  pip_wheelhouse_path = [];
  npm_install_mode = spec;
  apt_install_mode = repo;
  pip_accum = [];
  npm_accum = [];
  apt_accum = [];
  apt_constraints_accum = [];
  env_accum = [];
  ports_accum = [];
  copy_accum = [];
  variants = [];
}

-- `if new: old = new`, where an empty text counts as absent
abbrev pub override_text : Option Text → Option Text → Option Text
override_text none old = old
override_text (some []) old = old
override_text (some (c ∷ s)) old = some (c ∷ s)

-- `if new is not None: old = new`
abbrev pub override {ℓ} : {A : Type ℓ} → Option A → Option A → Option A
override none old = old
override (some a) old = some a

-- what a part without its dependencies does to the variables
unfoldable pub consume_rest : Part → Dict Text PipOrigin → Dict NpmKey NpmOrigin → Accum → Accum
consume_rest part pip npm s = record {
  base_role = override_text part.components.base_role s.base_role;
  build_strategy = override part.build_strategy s.build_strategy;
  entrypoint = override part.entrypoint s.entrypoint;
  pip_install_mode = part.components.pip_install_mode;
  pip_wheelhouse_path = part.components.pip_wheelhouse_path;
  npm_install_mode = part.components.npm_install_mode;
  apt_install_mode = part.components.apt_install_mode;
  pip_accum = pip;
  npm_accum = npm;
  apt_accum = index_by (λ pkg. pkg) part.components.apt s.apt_accum;
  apt_constraints_accum = update part.components.apt_constraints s.apt_constraints_accum;
  env_accum = index_by env_key part.env s.env_accum;
  ports_accum = index_by (λ port. port) part.ports s.ports_accum;
  copy_accum = index_by copy_key part.copy_items s.copy_accum;
  variants = update part.variants s.variants;
}

-- `{k: d[k] for k in ks}`, for keys of `d`
unfoldable pub entries_at : List Text → Dict Text Text → Dict Text Text
entries_at [] d = []
entries_at (k ∷ ks) d = elim (get k d) [
  | none ↦ entries_at ks d
  | some v ↦ (k, v) ∷ entries_at ks d
]

-- `if not base_role: base_role = "python"`
abbrev pub role_or_python : Option Text → Text
role_or_python none = codes "python"
role_or_python (some []) = codes "python"
role_or_python (some (c ∷ s)) = c ∷ s

abbrev pub strategy_or_overlay : Option BuildStrategy → BuildStrategy
strategy_or_overlay none = overlay
strategy_or_overlay (some b) = b

abbrev pub entrypoint_or_sleep : Option StackEntrypoint → StackEntrypoint
entrypoint_or_sleep (some e) = e
entrypoint_or_sleep none = record {
  cmd = codes "python" ∷ codes "-c" ∷ codes "import time; time.sleep(3600)" ∷ [];
}

-- the components that the final `StackComponents(...)` is called with
unfoldable pub merged_components : Accum → ComponentsBase
merged_components s = record {
  pip = map (λ o. o.dep) (by_key s.pip_accum);
  npm = map (λ o. o.dep) (by_key s.npm_accum);
  apt = sorted (keys s.apt_accum);
  apt_constraints = entries_at (sorted (keys s.apt_constraints_accum)) s.apt_constraints_accum;
  apt_install_mode = s.apt_install_mode;
  pip_install_mode = s.pip_install_mode;
  pip_wheelhouse_path = s.pip_wheelhouse_path;
  npm_install_mode = s.npm_install_mode;
}

-- the `return StackSpec(...)`, with the validators that it runs
unfoldable pub build_stack : StackRecipeSpec → Accum → Result ComposeError StackSpec
unfolding merged_components
build_stack recipe s = do
  components ← validated (validate_components (merged_components s))
  let env = by_key s.env_accum
  let ports = sorted (keys s.ports_accum)
  let items = by_key s.copy_accum
  validated (validate_env_entries env)
  validated (validate_port_values ports)
  validated (validate_npm_lock_policy components.npm_install_mode items)
  ok (record {
    schema_version = recipe.schema_version;
    id = recipe.id;
    display_name = recipe.display_name;
    description = recipe.description;
    build_strategy = strategy_or_overlay s.build_strategy;
    components = record { base = components; base_role = role_or_python s.base_role };
    env = env;
    ports = ports;
    entrypoint = entrypoint_or_sleep s.entrypoint;
    copy_items = items;
    variants = s.variants;
    layers = recipe.layers;
    provenance = recipe.provenance;
  })

module _ (lib : Packaging) where
  -- `_consume_layer`, and the same statements for the recipe
  unfoldable pub consume : Part → Text → Accum → Result ComposeError Accum
  unfolding consume_rest
  consume part source s = do
    pip ← merge_pip lib s.pip_accum part.components.pip source
    npm ← merge_npm s.npm_accum part.components.npm source
    ok (consume_rest part pip npm s)

  unfoldable pub consume_layers : List LayerSpec → Accum → Result ComposeError Accum
  consume_layers [] s = ok s
  consume_layers (layer ∷ layers) s = do
    s' ← consume layer.part (codes "layer:" ++ layer.id) s
    consume_layers layers s'

  -- the loops of `compose_stack` over layers found in the recipe's order, and over the recipe
  unfoldable pub consume_all : StackRecipeSpec → List LayerSpec → Result ComposeError Accum
  consume_all recipe ordered = do
    s ← consume_layers ordered (initial recipe)
    consume recipe.part (codes "recipe:" ++ recipe.id) s

  -- `compose_stack`
  unfoldable pub compose_stack : StackRecipeSpec → List LayerSpec → Result ComposeError StackSpec
  compose_stack recipe layers = do
    check_duplicates [] recipe.layers
    ordered ← find_layers recipe.layers (by_id layers)
    s ← consume_all recipe ordered
    build_stack recipe s
