-- ===== src/Registry/Tests.antt =====
-- Runs of the registry policy, and each theorem at a concrete input.
use stack_warden.Base.{
  take, Text, codes, true, false, some, [], ◌∷◌, ◌++◌, not, ◌&&◌, ◌||◌, ◌≡◌, refl, any, mem, before,
  starts_with, is_empty, text_beq, is_ok, ◌⊎◌, ◌↔◌,
}
use stack_warden.Registry.{
  slash, RegistryPolicy, extract_registry, cut_digest, cut_tag, cut_at, matches_pattern,
  some_matches, check_registry, assert_registry_allowed,
}
use stack_warden.Registry.Search.{rfind}
use stack_warden.Registry.References.{
  Reference, IsReference, render, repository, check_registry-render,
}
use stack_warden.Registry.Decision.{assert_registry_allowed-eq-ok, matches_pattern_iff}

-- `localhost:5000/team/tool:v1@sha256:ab`
abbrev tool : Reference
tool = record {
  path = some (codes "localhost:5000/team");
  base = codes "tool";
  tag = some (codes "v1");
  digest = some (codes "sha256:ab");
}

abbrev policy : RegistryPolicy
policy = record { allow = codes "localhost:5000" ∷ []; deny = codes "localhost:5000/team/to" ∷ [] }

tool-IsReference : IsReference tool
unfolding mem
tool-IsReference = record {
  base = record { no_colon = refl; no_slash = refl; no_at = refl };
  path = refl;
  tag = record { no_colon = refl; no_slash = refl; no_at = refl };
  digest = refl;
}

-- the deny list names another repository that only begins alike
tool_allowed : check_registry (render tool) policy ≡ (true, [])
unfolding check_registry extract_registry cut_digest cut_tag cut_at matches_pattern some_matches
    rfind take mem before starts_with text_beq
tool_allowed = refl

bare_denied :
    check_registry (codes "ubuntu:22.04") (record { allow = []; deny = codes "docker.io" ∷ [] })
    ≡ (false, codes "Registry 'docker.io' is denied by policy")
unfolding check_registry extract_registry cut_digest cut_tag cut_at matches_pattern some_matches
    rfind take mem before starts_with text_beq
bare_denied = refl

assert_registry_allowed-eq-ok_example : is_ok (assert_registry_allowed (render tool) policy) ≡ (
    not (any (matches_pattern (extract_registry (render tool)) (render tool)) policy.deny)
    && (is_empty policy.allow
        || any (matches_pattern (extract_registry (render tool)) (render tool)) policy.allow))
assert_registry_allowed-eq-ok_example = assert_registry_allowed-eq-ok (render tool) policy

matches_pattern_iff_example :
    (matches_pattern (codes "localhost:5000") (render tool) (codes "localhost:5000/team") ≡ true)
    ↔ ((codes "localhost:5000" ≡ codes "localhost:5000/team")
        ⊎ ((repository tool ≡ codes "localhost:5000/team")
            ⊎ ((rest : Text) × (repository tool
                  ≡ (codes "localhost:5000/team" ++ slash ∷ []) ++ rest))))
matches_pattern_iff_example =
    matches_pattern_iff tool tool-IsReference (codes "localhost:5000") (codes "localhost:5000/team")

check_registry-render_example :
    check_registry (render tool) policy ≡ check_registry (repository tool) policy
check_registry-render_example = check_registry-render tool tool-IsReference policy
