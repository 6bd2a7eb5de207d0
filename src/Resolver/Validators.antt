-- ===== src/Resolver/Validators.antt =====
-- packages/stackwarden/src/stackwarden/resolvers/validators.py
use stack_warden.Base.{
  pos, Text, codes, Bool, true, false, not, ◌||◌, ◌&&◌, Option, none, some, List, [], ◌∷◌, mem, leb,
  text_eq, int_lt, is_empty, if◌then◌else◌, Result, ok, err, ◌>>◌,
}
use stack_warden.Specs.Profiles.{Profile, Stack, CudaSpec, BaseCandidate}

-- `ValidationError`, by its field
pub data ValidationError : Type 0 where
  no_base_candidates cuda_major cuda_minor cuda_missing no_base_role no_cmd no_needs :
      ValidationError
  no_tags : Text → ValidationError

abbrev require : Bool → ValidationError → Result ValidationError (Unit {0})
require true e = ok tt
require false e = err e

-- `"cuda" in profile.derived_capabilities`
abbrev pub derives_cuda : Profile → Bool
derives_cuda profile = mem (codes "cuda") profile.derived_capabilities

-- the CUDA details of a profile that derives the capability
unfoldable pub validate_cuda : (is_v3 : Bool) → Option CudaSpec → Result ValidationError (Unit {0})
validate_cuda is_v3 none = require (not is_v3) cuda_missing
validate_cuda is_v3 (some c) =
    require (int_lt (pos 0) c.major) cuda_major >> require (not (int_lt c.minor (pos 0))) cuda_minor

unfoldable pub validate_tags : List BaseCandidate → Result ValidationError (Unit {0})
validate_tags [] = ok tt
validate_tags (c ∷ cs) = require (not (is_empty c.tags)) (no_tags c.name) >> validate_tags cs

-- `validate_profile`
unfoldable pub validate_profile : Profile → Result ValidationError (Unit {0})
validate_profile profile =
    require (leb 2 profile.schema_version || not (is_empty profile.base_candidates))
      no_base_candidates
    >> (if derives_cuda profile
        then validate_cuda (leb 3 profile.schema_version) profile.cuda
        else ok tt)
    >> validate_tags profile.base_candidates

-- `validate_stack`
unfoldable pub validate_stack : Stack → Result ValidationError (Unit {0})
validate_stack stack =
    let is_v2_composition = leb 2 stack.schema_version && not (is_empty stack.layers) in
    require (is_v2_composition || not (is_empty stack.components.base_role)) no_base_role
    >> require (is_v2_composition || not (is_empty stack.entrypoint.cmd)) no_cmd
    >> require
        (not (
          leb 3 stack.schema_version
          && (not (is_empty stack.provenance.derived_capabilities)
              && is_empty stack.provenance.requirements.needs)))
        no_needs
