-- ===== src/Registry.antt =====
-- The trust policy for registries: packages/stackwarden/src/stackwarden/domain/registry_policy.py
mod Tests
pub mod Search
pub mod References
pub mod Decision
use stack_warden.Base.{
  take, ℕ, Text, codes, Bool, true, false, Option, none, some, List, [], ◌∷◌, ◌++◌, ◌||◌, ◌&&◌,
  ◌==◌, text_eq, nat_eq, mem, before, starts_with, is_empty, if◌then◌else◌, Result, ok, err,
}
use stack_warden.Registry.Search.{rfind, is_before}

pub record RegistryPolicy : Type 0 where
  pub allow : List Text
  pub deny : List Text

abbrev pub colon : ℕ
colon = 58

abbrev pub slash : ℕ
slash = 47

abbrev pub dot : ℕ
dot = 46

abbrev pub at_sign : ℕ
at_sign = 64

-- `_extract_registry`: a first part with a dot or a port is a host, all else is Docker Hub's
unfoldable pub extract_registry : Text → Text
extract_registry image =
    let first = before slash image in
    if mem slash image
    then if mem dot first || mem colon first then first else codes "docker.io"
    else codes "docker.io"

-- the lines of `_matches_pattern` that cut the digest and the tag
unfoldable pub cut_digest : Text → Text
cut_digest image = if mem at_sign image then before at_sign image else image

-- `if last_colon > last_slash: image_name = image_name[:last_colon]`
unfoldable pub cut_at : Text → (last_colon last_slash : Option ℕ) → Text
cut_at name none last_slash = name
cut_at name (some i) last_slash = if is_before last_slash i then take i name else name

unfoldable pub cut_tag : Text → Text
cut_tag name = cut_at name (rfind colon name) (rfind slash name)

-- `_matches_pattern`
unfoldable pub matches_pattern : (registry image pattern : Text) → Bool
matches_pattern registry image pattern =
    let name = cut_tag (cut_digest image) in
    registry == pattern || name == pattern || starts_with name (pattern ++ slash ∷ [])

-- a loop that returns at the first pattern that matches
unfoldable pub some_matches : (registry image : Text) → List Text → Bool
some_matches registry image [] = false
some_matches registry image (pattern ∷ patterns) =
    if matches_pattern registry image pattern then true else some_matches registry image patterns

-- `check_registry`
unfoldable pub check_registry : Text → RegistryPolicy → Bool × Text
check_registry image policy =
    let registry = extract_registry image in
    if is_empty policy.allow && is_empty policy.deny
    then (true, [])
    else if some_matches registry image policy.deny
    then (false, codes "Registry '" ++ (registry ++ codes "' is denied by policy"))
    else if is_empty policy.allow
    then (true, [])
    else if some_matches registry image policy.allow
    then (true, [])
    else (false, codes "Registry '" ++ (registry ++ codes "' is not in the allow list"))

pub data RegistryError : Type 0 where
  registry_policy_error : Text → RegistryError

-- `assert_registry_allowed`
unfoldable pub assert_registry_allowed : Text → RegistryPolicy → Result RegistryError (Unit {0})
assert_registry_allowed image policy =
    let (allowed, reason) = check_registry image policy in
    if allowed then ok tt else err (registry_policy_error (reason ++ (codes ": " ++ image)))
