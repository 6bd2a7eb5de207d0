-- ===== src/Resolver/Fingerprint.antt =====
-- packages/stackwarden/src/stackwarden/domain/hashing.py
-- The payload is the dictionary that `canonicalize` fills, as a record. That it is written as JSON
-- and hashed by SHA-256 is the parameter `sha256_json`.
use stack_warden.Base.{
  ℕ, Text, codes, true, false, Option, none, some, List, [], ◌∷◌, ◌++◌, map, filter, Dict, not,
  is_empty, is_space, sorted, text_ord, nat_ord, pair_ord, text_eq, sort_by, join, take,
}
use stack_warden.Specs.{
  PipDep, NpmDep, CopyItem, BuildStrategy, VersionMode, AptInstallMode, PipInstallMode,
  NpmInstallMode, PackageManager, InstallScope, manager_value, scope_value,
}
use stack_warden.Specs.Profiles.{
  Profile, Stack, Arch, ApiType, ServeType, TaskType, Value, CudaSpec, serve_value, api_value,
}

-- `_normalize_version`; stripping first removes nothing more
unfoldable pub normalize_version : Text → Text
normalize_version = filter (λ c. not (is_space c))

pub record PipEntry : Type 0 where
  pub name : Text
  pub version : Text

pub record NpmEntry : Type 0 where
  pub name : Text
  pub version : Text
  pub version_mode : VersionMode
  pub package_manager : PackageManager
  pub install_scope : InstallScope

pub record Payload : Type 0 where
  pub base_digest : Text
  pub base_image : Text
  pub builder_version : Text
  pub copy_items : List CopyItem
  pub profile_arch : Arch
  pub profile_cuda_variant : Text
  pub profile_id : Text
  pub api : ApiType
  pub apt : List Text
  pub apt_constraints : Dict Text Text
  pub apt_install_mode : AptInstallMode
  pub base_role : Text
  pub build_strategy : BuildStrategy
  pub env : List Text
  pub stack_id : Text
  pub npm : List NpmEntry
  pub npm_install_mode : NpmInstallMode
  pub pip : List PipEntry
  pub pip_install_mode : PipInstallMode
  pub pip_wheelhouse_path : Text
  pub ports : List ℕ
  pub serve : ServeType
  pub task : TaskType
  pub policy_overrides : Dict Text Value
  pub template_hash : Text
  pub variants : Dict Text Text

-- `text or ""`
abbrev pub or_blank : Option Text → Text
or_blank none = []
or_blank (some t) = t

-- `profile.cuda.variant`, or a word where there is no CUDA
abbrev pub variant_or : Text → Option CudaSpec → Text
variant_or word none = word
variant_or word (some c) = c.variant

abbrev pub pip_entry : PipDep → PipEntry
pip_entry p = record { name = p.name; version = normalize_version p.version }

abbrev pub npm_entry : NpmDep → NpmEntry
npm_entry n = record {
  name = n.name;
  version = normalize_version n.version;
  version_mode = n.version_mode;
  package_manager = n.package_manager;
  install_scope = n.install_scope;
}

-- `(e["name"], e["package_manager"], e["install_scope"])`
abbrev pub npm_key : NpmEntry → Text × (Text × Text)
npm_key e = (e.name, (manager_value e.package_manager, scope_value e.install_scope))

-- `builder_version_override or _builder_version`
abbrev pub override_or : Option Text → Text → Text
override_or none version = version
override_or (some t) version = elim (is_empty t) [ true ↦ version | false ↦ t ]

module _ (builder_version : Text) where
  -- `canonicalize`, but for the JSON
  unfoldable pub canonicalize :
      Profile
      → Stack
      → (base_image : Text) → (base_digest template_hash : Option Text)
      → (variants : Dict Text Text) → (builder_version_override : Option Text) → Payload
  canonicalize profile stack base_image base_digest template_hash variants override = record {
    base_digest = or_blank base_digest;
    base_image = base_image;
    builder_version = override_or override builder_version;
    copy_items = sort_by (λ c. c.src) stack.copy_items;
    profile_arch = profile.arch;
    profile_cuda_variant = variant_or (codes "none") profile.cuda;
    profile_id = profile.id;
    api = stack.api;
    apt = sorted stack.components.apt;
    apt_constraints = sort_by (λ e. e.0) stack.components.apt_constraints;
    apt_install_mode = stack.components.apt_install_mode;
    base_role = stack.components.base_role;
    build_strategy = stack.build_strategy;
    env = sorted stack.env;
    stack_id = stack.id;
    npm = sort_by npm_key (map npm_entry stack.components.npm);
    npm_install_mode = stack.components.npm_install_mode;
    pip = sort_by (λ (e : PipEntry). e.name) (map pip_entry stack.components.pip);
    pip_install_mode = stack.components.pip_install_mode;
    pip_wheelhouse_path = stack.components.pip_wheelhouse_path;
    ports = sorted stack.ports;
    serve = stack.serve;
    task = stack.task;
    policy_overrides = sort_by (λ e. e.0) stack.policy_overrides;
    template_hash = or_blank template_hash;
    variants = sort_by (λ e. e.0) variants;
  }

  module _ (sha256_json : Payload → Text) where
    -- `fingerprint`
    unfoldable pub fingerprint :
        Profile
        → Stack
        → (base_image : Text) → (base_digest template_hash : Option Text)
        → (variants : Dict Text Text) → (builder_version_override : Option Text) → Text
    fingerprint profile stack base_image base_digest template_hash variants override =
        sha256_json
          (canonicalize profile stack base_image base_digest template_hash variants override)

-- `generate_tag`
unfoldable pub generate_tag : Stack → Profile → Text → Text
generate_tag stack profile fp =
    codes "local/stackwarden:"
    ++ join (codes "-") (
        stack.id
        ∷ profile.id
        ∷ variant_or (codes "nocuda") profile.cuda
        ∷ serve_value stack.serve
        ∷ api_value stack.api
        ∷ take 12 fp
        ∷ [])
