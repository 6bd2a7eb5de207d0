-- ===== src/Resolver/Bases.antt =====
-- packages/stackwarden/src/stackwarden/resolvers/base_catalog.py
use stack_warden.Base.{
  ℤ, pos, Text, codes, Bool, true, false, ◌||◌, Option, none, some, List, [], ◌∷◌, map, mem, get,
  text_eq, int_lt, is_empty, strip, if◌then◌else◌,
}
use stack_warden.Specs.Profiles.{
  Profile, Stack, BaseCandidate, CudaSpec, ContainerRuntime, nvidia, runc, Value, text, shown,
  truth,
}

pub record RuntimeBaseCandidate : Type 0 where
  pub name : Text
  pub tags : List Text
  pub score_bias : ℤ
  pub source : Text

-- `profile.cuda is not None and profile.cuda.major > 0`
abbrev pub has_cuda : Option CudaSpec → Bool
has_cuda none = false
has_cuda (some c) = int_lt (pos 0) c.major

abbrev pub is_nvidia : ContainerRuntime → Bool
is_nvidia nvidia = true
is_nvidia runc = false

-- `"cuda" in effective_caps`; no other capability is added to those of the profile
unfoldable pub cuda_capable : Profile → Bool
cuda_capable profile =
    mem (codes "cuda") profile.derived_capabilities
    || (has_cuda profile.cuda || is_nvidia profile.container_runtime)

-- a text that is not blank, stripped
unfoldable pub image_override : Option Value → Option Text
image_override (some (text t)) = if is_empty (strip t) then none else some (strip t)
image_override _ = none

unfoldable pub override_tags : Option Value → List Text
override_tags none = codes "latest" ∷ []
override_tags (some v) = if truth v then strip (shown v) ∷ [] else codes "latest" ∷ []

unfoldable pub profile_candidates : List BaseCandidate → List RuntimeBaseCandidate
profile_candidates = map (λ c. record {
  name = c.name;
  tags = c.tags;
  score_bias = c.score_bias;
  source = codes "profile";
})

unfoldable pub default_candidate : Bool → RuntimeBaseCandidate
default_candidate true = record {
  name = codes "nvidia/cuda";
  tags = codes "12.4.1-runtime-ubuntu22.04" ∷ [];
  score_bias = pos 0;
  source = codes "default";
}
default_candidate false = record {
  name = codes "python";
  tags = codes "3.10-slim" ∷ [];
  score_bias = pos 0;
  source = codes "default";
}

-- the candidates where the stack overrides nothing
unfoldable pub own_candidates : Profile → List RuntimeBaseCandidate
own_candidates profile =
    if is_empty profile.base_candidates
    then default_candidate (cuda_capable profile) ∷ []
    else profile_candidates profile.base_candidates

-- `candidates_for`
unfoldable pub candidates_for : Profile → Stack → List RuntimeBaseCandidate
candidates_for profile stack =
    elim (image_override (get (codes "base_image") stack.policy_overrides)) [
      | none ↦ own_candidates profile
      | some name ↦
          record {
            name = name;
            tags = override_tags (get (codes "base_tag") stack.policy_overrides);
            score_bias = pos 1000;
            source = codes "policy_override";
          }
          ∷ []
    ]
