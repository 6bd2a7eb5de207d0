-- ===== src/Composition/Pip.antt =====
-- Pip constraints and their merge: `_parse_specifier`, `_pinned_versions`,
-- `_pip_constraints_compatible` and `_merge_pip` of domain/composition.py.
pub mod Compatible
pub mod Merge
use stack_warden.Base.{
  Text, codes, Bool, true, false, Option, some, none, List, [], ◌∷◌, ◌||◌, Dict, get, put, mem, any,
  ◌==◌, text_eq, is_empty, if◌then◌else◌, Result, ok, err, ◌>>=◌,
}
use stack_warden.Specs.{PipDep}
use stack_warden.Composition.Packaging.{Packaging, ComposeError, invalid_specifier, pip_conflict}

-- `_PipOrigin`
pub record PipOrigin : Type 0 where
  pub dep : PipDep
  pub source : Text

-- the versions of the items with operator `==` or `===`
unfoldable pub pins : List (Text × Text) → List Text
pins [] = []
pins ((op, version) ∷ items) =
    if op == codes "==" || op == codes "===" then version ∷ pins items else pins items

module _ (lib : Packaging) where
  -- `_parse_specifier`
  unfoldable pub parse_specifier : Text → Result ComposeError (List (Text × Text))
  parse_specifier spec = elim (lib.items spec) [
    | none ↦ err (invalid_specifier spec)
    | some items ↦ ok items
  ]

  -- `_pinned_versions`
  unfoldable pub pinned_versions : Text → Result ComposeError (List Text)
  unfolding parse_specifier pins
  pinned_versions spec = do items ← parse_specifier spec; ok (pins items)

  -- whether some pinned version lies in a set of constraints; an invalid version is passed over
  unfoldable pub any_contained : Text → List Text → Bool
  any_contained spec [] = false
  any_contained spec (version ∷ pinned) = elim (lib.contains spec version) [
    | some true ↦ true
    | _ ↦ any_contained spec pinned
  ]

  -- the tests of `_pip_constraints_compatible` on the pins of both sides
  unfoldable pub pins_compatible : Text → Text → List Text → List Text → Bool
  pins_compatible existing incoming [] [] = true
  pins_compatible existing incoming (p ∷ ps) [] = any_contained incoming (p ∷ ps)
  pins_compatible existing incoming [] (q ∷ qs) = any_contained existing (q ∷ qs)
  pins_compatible existing incoming (p ∷ ps) (q ∷ qs) = any (λ v. mem v (q ∷ qs)) (p ∷ ps)

  -- `_pip_constraints_compatible`
  unfoldable pub constraints_compatible : Text → Text → Result ComposeError Bool
  unfolding pinned_versions pins_compatible any_contained
  constraints_compatible [] incoming = ok true
  constraints_compatible (c ∷ existing) [] = ok true
  constraints_compatible (c ∷ existing) (d ∷ incoming) = do
    existing_set ← parse_specifier (c ∷ existing)
    incoming_set ← parse_specifier (d ∷ incoming)
    existing_pins ← pinned_versions (c ∷ existing)
    incoming_pins ← pinned_versions (d ∷ incoming)
    ok (pins_compatible (c ∷ existing) (d ∷ incoming) existing_pins incoming_pins)

  -- the decision of `_merge_pip` on a package that was seen before
  unfoldable pub merge_pip_seen :
      Dict Text PipOrigin → PipOrigin → PipDep → Text → Result ComposeError (Dict Text PipOrigin)
  merge_pip_seen accum prev dep source = if prev.dep.version == dep.version then ok accum else do
    compatible ← constraints_compatible prev.dep.version dep.version
    if compatible
        then ok (put dep.name (record { dep = dep; source = source }) accum)
        else err (pip_conflict dep.name prev.dep.version prev.source dep.version source)

  -- one round of the loop of `_merge_pip`
  unfoldable pub merge_pip_dep :
      Dict Text PipOrigin → PipDep → Text → Result ComposeError (Dict Text PipOrigin)
  unfolding merge_pip_seen
  merge_pip_dep accum dep source = elim (get dep.name accum) [
    | none ↦ ok (put dep.name (record { dep = dep; source = source }) accum)
    | some prev ↦ merge_pip_seen accum prev dep source
  ]

  -- `_merge_pip`
  unfoldable pub merge_pip :
      Dict Text PipOrigin → List PipDep → Text → Result ComposeError (Dict Text PipOrigin)
  merge_pip accum [] source = ok accum
  merge_pip accum (dep ∷ incoming) source = do
    accum' ← merge_pip_dep accum dep source
    merge_pip accum' incoming source
