-- ===== src/Specs/Validation.antt =====
-- The validators of domain/models.py that run when a `StackSpec` is built. Pydantic puts all the
-- failures of a model into one exception; the first one is kept here.
use stack_warden.Base.{
  ℕ, Text, codes, Bool, true, false, not, ◌&&◌, ◌||◌, List, [], ◌∷◌, map, reverse, keys, mem, any,
  leb, ◌==◌, nat_eq, text_eq, before, strip, is_empty, if◌then◌else◌, Dict, Result, ok, err, ◌>>◌,
}
use stack_warden.Specs.Enums.{index, lock_only, pin_only, NpmInstallMode, pip_mode_eq}
use stack_warden.Specs.Records.{ComponentsBase, CopyItem}

pub data Invalid : Type 0 where
  apt_name unknown_constraint constraint_newline : Text → Invalid
  missing_constraints wheelhouse_path_required lockfile_required : Invalid
  env_entry : Text → Invalid
  port : ℕ → Invalid

abbrev pub guard : Bool → Invalid → Result Invalid (Unit {0})
guard true e = ok tt
guard false e = err e

-- every element passes, or the first that does not is reported
unfoldable pub check_all {ℓ} :
    {A : Type ℓ} → (A → Bool) → (A → Invalid) → List A → Result Invalid (Unit {0})
check_all p e [] = ok tt
check_all p e (x ∷ xs) = guard (p x) (e x) >> check_all p e xs

abbrev is_upper : ℕ → Bool
is_upper c = leb b'A' c && leb c b'Z'

abbrev is_lower : ℕ → Bool
is_lower c = leb b'a' c && leb c b'z'

abbrev is_digit : ℕ → Bool
is_digit c = leb b'0' c && leb c b'9'

-- `[^\n\r]*$`: in Python `$` also matches before a newline that ends the text.
unfoldable pub line_rest : Text → Bool
line_rest [] = true
line_rest (c ∷ []) = not (c == 13)
line_rest (c ∷ d ∷ s) = not (c == 10) && not (c == 13) && line_rest (d ∷ s)

-- `[A-Za-z0-9_]*=[^\n\r]*$`
unfoldable pub env_rest : Text → Bool
unfolding line_rest
env_rest [] = false
env_rest (c ∷ s) =
    if c == b'='
    then line_rest s
    else ((is_upper c || is_lower c || is_digit c || c == b'_') && env_rest s)

-- `_ENV_RE`
unfoldable pub env_re : Text → Bool
unfolding env_rest
env_re [] = false
env_re (c ∷ s) = (is_upper c || is_lower c || c == b'_') && env_rest s

abbrev is_apt_char : ℕ → Bool
is_apt_char c = is_lower c || is_digit c || c == b'.' || c == b'+' || c == b'-'

-- `[a-z0-9.+\-]*$`
unfoldable pub apt_rest : Text → Bool
apt_rest [] = true
apt_rest (c ∷ []) = is_apt_char c || c == 10
apt_rest (c ∷ d ∷ s) = is_apt_char c && apt_rest (d ∷ s)

-- `_APT_NAME_RE`
unfoldable pub apt_name_re : Text → Bool
unfolding apt_rest
apt_name_re (c ∷ d ∷ s) = (is_lower c || is_digit c) && is_apt_char d && apt_rest s
apt_name_re _ = false

unfoldable pub validate_env_entries : List Text → Result Invalid (Unit {0})
unfolding env_re check_all
validate_env_entries = check_all env_re env_entry

unfoldable pub validate_port_values : List ℕ → Result Invalid (Unit {0})
unfolding check_all
validate_port_values = check_all (λ p. leb 1 p && leb p 65535) port

abbrev has_newline : Text → Bool
has_newline s = mem 10 s || mem 13 s

-- the loop over the constraints
unfoldable pub check_constraints : List Text → Dict Text Text → Result Invalid (Unit {0})
check_constraints apt [] = ok tt
check_constraints apt ((name, constraint) ∷ rest) = do
  guard (mem name apt) (unknown_constraint name)
  guard (not (has_newline constraint)) (constraint_newline name)
  check_constraints apt rest

-- `_validate_component_policies`, after the names of `apt`. It returns the components with the
-- wheelhouse path cleaned.
unfoldable pub validate_components : ComponentsBase → Result Invalid ComponentsBase
unfolding apt_name_re check_all check_constraints strip
validate_components c = do
  check_all apt_name_re apt_name c.apt
  check_constraints c.apt c.apt_constraints
  elim c.apt_install_mode [
    | pin_only ↦
        guard (not (any (λ p. not (mem p (keys c.apt_constraints))) c.apt)) missing_constraints
    | _ ↦ ok tt
  ]
  let path = strip c.pip_wheelhouse_path
  guard (c.pip_install_mode == index || not (is_empty path)) wheelhouse_path_required
  ok (record c { pip_wheelhouse_path = if c.pip_install_mode == index then [] else path })

-- `s.rsplit("/", 1)[-1]`
pub leaf : Text → Text
leaf s = reverse (before b'/' (reverse s))

lstrip_slashes : Text → Text
lstrip_slashes [] = []
lstrip_slashes (c ∷ t) = if c == b'/' then lstrip_slashes t else c ∷ t

backslashes_to_slashes : Text → Text
backslashes_to_slashes = map (λ c. if c == 92 then b'/' else c)

-- `_has_supported_lockfile`
unfoldable pub has_supported_lockfile : List CopyItem → Bool
unfolding leaf lstrip_slashes backslashes_to_slashes before
has_supported_lockfile = any (λ item.
    let name = leaf (reverse (lstrip_slashes (reverse (backslashes_to_slashes item.src)))) in
    mem name (codes "package-lock.json" ∷ codes "pnpm-lock.yaml" ∷ codes "yarn.lock" ∷ []))

-- `StackSpec._validate_npm_lock_policy`
unfoldable pub validate_npm_lock_policy : NpmInstallMode → List CopyItem → Result Invalid (Unit {0})
unfolding has_supported_lockfile
validate_npm_lock_policy lock_only items = guard (has_supported_lockfile items) lockfile_required
validate_npm_lock_policy _ items = ok tt
