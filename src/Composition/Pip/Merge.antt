-- ===== src/Composition/Pip/Merge.antt =====
-- What `_merge_pip` leaves behind.
use stack_warden.Base.{
  Text, Option, some, none, List, [], ◌∷◌, ◌≡◌, ◌∙◌, ap, arith, Dict, keys, get, put, get-put,
  put-Distinct, Distinct, ◌==◌, text_eq, eq_of_==, if◌then◌else◌, Option-cases, inl, inr, ok,
  >>=-eq-ok,
}
use stack_warden.Specs.{PipDep}
use stack_warden.Composition.Packaging.{Packaging}
use stack_warden.Composition.Pip.{PipOrigin, merge_pip_dep, merge_pip}

-- the version that the table holds for a package
abbrev pub version_of : Text → Dict Text PipOrigin → Option Text
version_of name accum = elim (get name accum) [ none ↦ none | some o ↦ some o.dep.version ]

-- The version that the last dependency on a package asks for, or else the version given.
unfoldable pub latest_version : Text → List PipDep → Option Text → Option Text
latest_version name [] v = v
latest_version name (dep ∷ deps) v =
    latest_version name deps (if dep.name == name then some dep.version else v)

module _ (lib : Packaging) where
  version_of-put :
      (name : Text) (o : PipOrigin) (accum : Dict Text PipOrigin)
      → version_of name (put o.dep.name o accum)
        ≡ (if o.dep.name == name then some o.dep.version else version_of name accum)
  version_of-put name o accum = ground (arith, get-put o.dep.name name o accum)

  -- one round, as a client of the table sees it
  merge_pip_dep-version :
      (accum : Dict Text PipOrigin) (dep : PipDep) (source : Text) {accum' : Dict Text PipOrigin}
      → merge_pip_dep lib accum dep source ≡ ok accum'
      → (name : Text)
      → version_of name accum'
        ≡ (if dep.name == name then some dep.version else version_of name accum)
  unfolding merge_pip_dep
  merge_pip_dep-version accum dep source h name =
      let o : PipOrigin = record { dep = dep; source = source } in
      elim (Option-cases (get dep.name accum)) [
        | inl new ↦ ground (arith, version_of-put name o accum, eq_of_== dep.name name)
        | inr (prev, old) ↦ ground (
          arith,
          version_of-put name o accum,
          eq_of_== dep.name name,
          eq_of_== prev.dep.version dep.version,
        )
      ]

  merge_pip_dep-Distinct :
      (accum : Dict Text PipOrigin) (dep : PipDep) (source : Text) {accum' : Dict Text PipOrigin}
      → merge_pip_dep lib accum dep source ≡ ok accum'
      → Distinct (keys accum)
      → Distinct (keys accum')
  unfolding merge_pip_dep
  merge_pip_dep-Distinct accum dep source h d =
      ground (arith, put-Distinct dep.name (record { dep = dep; source = source }) accum d)

  -- A merge that succeeds leaves for each package the version of the last dependency on it among
  -- those merged, and the version held before where there is none.
  pub merge_pip-last_wins :
      (accum : Dict Text PipOrigin) (deps : List PipDep) (source : Text)
      {accum' : Dict Text PipOrigin}
      → merge_pip lib accum deps source ≡ ok accum'
      → (name : Text) → version_of name accum' ≡ latest_version name deps (version_of name accum)
  unfolding merge_pip latest_version
  merge_pip-last_wins accum [] source h name = ground arith
  merge_pip-last_wins accum (dep ∷ deps) source h name =
      let (mid, first, rest) = >>=-eq-ok (merge_pip_dep lib accum dep source) _ h in
      merge_pip-last_wins mid deps source rest name
      ∙ ap (latest_version name deps) (merge_pip_dep-version accum dep source first name)

  -- no package has two entries
  pub merge_pip-Distinct :
      (accum : Dict Text PipOrigin) (deps : List PipDep) (source : Text)
      {accum' : Dict Text PipOrigin}
      → merge_pip lib accum deps source ≡ ok accum'
      → Distinct (keys accum)
      → Distinct (keys accum')
  unfolding merge_pip
  merge_pip-Distinct accum [] source h d = ground arith
  merge_pip-Distinct accum (dep ∷ deps) source h d =
      let (mid, first, rest) = >>=-eq-ok (merge_pip_dep lib accum dep source) _ h in
      merge_pip-Distinct mid deps source rest (merge_pip_dep-Distinct accum dep source first d)
