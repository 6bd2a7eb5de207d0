-- ===== src/Composition/Packaging.antt =====
-- What composition.py takes from the third-party package `packaging`, and the errors it raises.
use stack_warden.Base.{Text, Bool, Option, List, Result, ok, err}
use stack_warden.Specs.Validation.{Invalid}

pub record Packaging : Type 0 where
  -- the (operator, version) items of `SpecifierSet(s)`; `none` is `InvalidSpecifier`
  pub items : Text → Option (List (Text × Text))
  -- `SpecifierSet(s).contains(Version(v), prereleases=True)`; `none` is `InvalidVersion`
  pub contains : Text → Text → Option Bool

-- One constructor for each `raise ValueError(...)`, with what its message names.
pub data ComposeError : Type 0 where
  invalid_specifier : Text → ComposeError
  -- package, version and source of the earlier and of the later dependency
  pip_conflict npm_conflict : Text → Text → Text → Text → Text → ComposeError
  duplicate_layer unknown_layer : Text → ComposeError
  invalid_model : Invalid → ComposeError

abbrev pub validated {ℓ} : {A : Type ℓ} → Result Invalid A → Result ComposeError A
validated (ok a) = ok a
validated (err e) = err (invalid_model e)
