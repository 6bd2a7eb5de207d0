-- ===== src/Resolver/Permuted.antt =====
-- What a fingerprint does not depend on: packages/stackwarden/src/stackwarden/domain/hashing.py
use mathlib.Core.List.{Permᴰ}
use stack_warden.Base.{
  Text, Option, map, Dict, Distinct, text_eq, text_ord, nat_ord, pair_eq, pair_ord, sorted-Permᴰ,
  sort_by-Permᴰ_of_Distinct, ◌≡◌, refl,
}
use stack_warden.Specs.{CopyItem}
use stack_warden.Specs.Profiles.{Profile, Stack, Value}
use stack_warden.Resolver.Fingerprint.{
  canonicalize, fingerprint, Payload, pip_entry, npm_entry, npm_key, PipEntry,
}

-- two stacks with the same contents, in lists that may be ordered otherwise
pub record Reordered (s t : Stack) : Type 0 where
  pub env : Permᴰ s.env t.env
  pub ports : Permᴰ s.ports t.ports
  pub apt : Permᴰ s.components.apt t.components.apt
  pub pip : Permᴰ (map pip_entry s.components.pip) (map pip_entry t.components.pip)
  pub npm : Permᴰ (map npm_entry s.components.npm) (map npm_entry t.components.npm)
  pub copy_items : Permᴰ s.copy_items t.copy_items
  pub apt_constraints : Permᴰ s.components.apt_constraints t.components.apt_constraints
  pub policy_overrides : Permᴰ s.policy_overrides t.policy_overrides
  -- the other fields that are hashed are the same
  pub same_id : s.id ≡ t.id
  pub same_serve : s.serve ≡ t.serve
  pub same_api : s.api ≡ t.api
  pub same_task : s.task ≡ t.task
  pub same_build_strategy : s.build_strategy ≡ t.build_strategy
  pub same_base_role : s.components.base_role ≡ t.components.base_role
  pub same_apt_mode : s.components.apt_install_mode ≡ t.components.apt_install_mode
  pub same_npm_mode : s.components.npm_install_mode ≡ t.components.npm_install_mode
  pub same_pip_mode : s.components.pip_install_mode ≡ t.components.pip_install_mode
  pub same_wheelhouse : s.components.pip_wheelhouse_path ≡ t.components.pip_wheelhouse_path

-- no two entries of a list are sorted by the same key
pub record IsKeyed (s : Stack) : Type 0 where
  pub pip : Distinct (map (λ (e : PipEntry). e.name) (map pip_entry s.components.pip))
  pub npm : Distinct (map npm_key (map npm_entry s.components.npm))
  pub copy_items : Distinct (map (λ (c : CopyItem). c.src) s.copy_items)
  pub apt_constraints : Distinct (map (λ (e : Text × Text). e.0) s.components.apt_constraints)
  pub policy_overrides : Distinct (map (λ (e : Text × Value). e.0) s.policy_overrides)

-- The fingerprint of a stack is that of any stack with the same contents in another order, if no two
-- of its pip packages have the same name, no two npm packages the same name, manager and scope, and
-- no two copied files the same source; where the variants are the same but for their order, with no
-- name twice.
pub fingerprint-Reordered :
    (builder_version : Text) (sha256_json : Payload → Text) (profile : Profile) (s t : Stack)
    (base_image : Text) (base_digest template_hash : Option Text) (v w : Dict Text Text)
    (override : Option Text)
    → IsKeyed s
    → Distinct (map (λ (e : Text × Text). e.0) v)
    → Reordered s t
    → Permᴰ v w
    → fingerprint builder_version sha256_json profile s base_image base_digest template_hash v
        override
      ≡ fingerprint builder_version sha256_json profile t base_image base_digest template_hash w
          override
unfolding fingerprint canonicalize
fingerprint-Reordered builder_version sha256_json profile s t base_image base_digest template_hash v
      w override k d r p =
    rw
      (
        sorted-Permᴰ r.env,
        sorted-Permᴰ r.ports,
        sorted-Permᴰ r.apt,
        sort_by-Permᴰ_of_Distinct (λ (e : PipEntry). e.name) r.pip k.pip,
        sort_by-Permᴰ_of_Distinct npm_key r.npm k.npm,
        sort_by-Permᴰ_of_Distinct (λ (c : CopyItem). c.src) r.copy_items k.copy_items,
        sort_by-Permᴰ_of_Distinct (λ (e : Text × Text). e.0) r.apt_constraints k.apt_constraints,
        sort_by-Permᴰ_of_Distinct (λ (e : Text × Value). e.0) r.policy_overrides k.policy_overrides,
        sort_by-Permᴰ_of_Distinct (λ (e : Text × Text). e.0) p d,
        r.same_id,
        r.same_serve,
        r.same_api,
        r.same_task,
        r.same_build_strategy,
        r.same_base_role,
        r.same_apt_mode,
        r.same_npm_mode,
        r.same_pip_mode,
        r.same_wheelhouse,
      )
      refl
