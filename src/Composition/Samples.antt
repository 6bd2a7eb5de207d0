-- ===== src/Composition/Samples.antt =====
-- Inputs for the tests: a reading of simple constraints, two layers and a recipe.
use stack_warden.Base.{
  Text, codes, not, Option, some, none, List, [], ◌∷◌, starts_with, ◌≺◌, text_ord, if◌then◌else◌,
}
use stack_warden.Specs.{
  PipDep, NpmDep, VersionMode, npm, prod, repo, index, wheelhouse_only, spec, overlay,
  ComponentsBase, LayerSpec, StackRecipeSpec, Provenance,
}
use stack_warden.Composition.Packaging.{Packaging}

abbrev pub after_operator : Text → Text
after_operator (a ∷ b ∷ version) = version
after_operator s = []

-- `==v` and `>=v`; versions are compared as texts
abbrev pub simple_items : Text → Option (List (Text × Text))
simple_items s =
    if starts_with s (codes "==")
    then some ((codes "==", after_operator s) ∷ [])
    else if starts_with s (codes ">=")
    then some ((codes ">=", after_operator s) ∷ [])
    else none

abbrev pub simple_packaging : Packaging
simple_packaging = record {
  items = simple_items;
  contains = λ s v. some (not (v ≺ after_operator s));
}

abbrev pub pip_dep : Text → Text → PipDep
pip_dep name version = record { name = name; version = version; version_mode = VersionMode.custom }

abbrev pub npm_dep : Text → Text → NpmDep
npm_dep name version = record {
  name = name;
  version = version;
  version_mode = VersionMode.custom;
  package_manager = npm;
  install_scope = prod;
}

abbrev pub components : List PipDep → List NpmDep → ComponentsBase
components pips npms = record {
  pip = pips;
  npm = npms;
  apt = codes "curl" ∷ [];
  apt_constraints = [];
  apt_install_mode = repo;
  pip_install_mode = index;
  pip_wheelhouse_path = [];
  npm_install_mode = spec;
}

abbrev pub serving : LayerSpec
serving = record {
  id = codes "serving";
  part = record {
    build_strategy = none;
    components = record {
      base = record (components (pip_dep (codes "torch") (codes ">=1") ∷ []) []) {
        pip_install_mode = wheelhouse_only;
        pip_wheelhouse_path = codes "wheels";
      };
      base_role = some (codes "cuda");
    };
    env = codes "PORT=80" ∷ codes "MODE=a" ∷ [];
    ports = 8080 ∷ 80 ∷ [];
    entrypoint = none;
    copy_items = [];
    variants = [];
  };
  requires = [];
}

abbrev pub web : LayerSpec
web = record {
  id = codes "web";
  part = record {
    build_strategy = some overlay;
    components = record {
      base =
          components
            (pip_dep (codes "torch") (codes "==2") ∷ pip_dep (codes "flask") (codes "==1") ∷ [])
            (npm_dep (codes "vue") (codes "3") ∷ []);
      base_role = none;
    };
    env = codes "PORT=8080" ∷ [];
    ports = 80 ∷ [];
    entrypoint = none;
    copy_items = [];
    variants = [];
  };
  requires = [];
}

abbrev pub no_provenance : Provenance
no_provenance = record {
  intent = record { outcome = none; summary = none };
  requirements = record { needs = []; optimize_for = []; constraints = [] };
  derived_capabilities = [];
  selected_features = [];
  rejected_candidates = [];
  fix_suggestions = [];
  decision_trace = [];
}

abbrev pub recipe : StackRecipeSpec
recipe = record {
  schema_version = 2;
  id = codes "demo";
  display_name = codes "Demo";
  description = [];
  layers = codes "serving" ∷ codes "web" ∷ [];
  part = record {
    build_strategy = none;
    components = record { base = components [] []; base_role = none };
    env = codes "MODE=b" ∷ [];
    ports = [];
    entrypoint = none;
    copy_items = [];
    variants = [];
  };
  provenance = no_provenance;
}

abbrev pub layers : List LayerSpec
layers = web ∷ serving ∷ []
