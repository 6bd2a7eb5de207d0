-- ===== src/Composition/Agreement/Pip.antt =====
-- One pip dependency, and all of a part, in the preview and in the merge.
use stack_warden.Base.{
  Text, Bool, true, false, some, none, List, [], ◌∷◌, ◌≡◌, refl, arith, Dict, get, put, get-put,
  ◌==◌, text_eq, Option-cases, Bool-cases, inl, inr, ◌⊎◌, Result, ok, err,
}
use stack_warden.Specs.{PipDep}
use stack_warden.Composition.Packaging.{Packaging, ComposeError}
use stack_warden.Composition.Pip.{
  PipOrigin, constraints_compatible, merge_pip_seen, merge_pip_dep, merge_pip,
}
use stack_warden.Composition.Npm.{NpmKey, NpmOrigin}
use stack_warden.Composition.Preview.{Seen, push_pip_seen, push_pip, push_all_pip}
use stack_warden.Composition.Agreement.View.{
  is_hard, pip_seen_at, pip_merged_at, Sees, Agree, Agree-bind, Grows, Grows-bind, has_hard-report,
  Sees-report, clean-report,
}

put_same :
    (s : Seen) (pips : Dict Text PipOrigin) (dep : PipDep) (source : Text)
    → ((name : Text) → pip_seen_at name s.pip_seen ≡ pip_merged_at name pips)
    → (name : Text)
    → pip_seen_at name (put dep.name (dep.version, source) s.pip_seen)
      ≡ pip_merged_at name (put dep.name (record { dep = dep; source = source }) pips)
put_same s pips dep source h name =
    let o : PipOrigin = record { dep = dep; source = source } in
    ground (
      arith,
      h name,
      get-put dep.name name (dep.version, source) s.pip_seen,
      get-put dep.name name o pips,
    )

abbrev after_pip : Seen → PipDep → Text → Seen
after_pip s dep source = record s { pip_seen = put dep.name (dep.version, source) s.pip_seen }

Sees-put :
    (s : Seen) (pips : Dict Text PipOrigin) {npms : Dict NpmKey NpmOrigin} (dep : PipDep)
    (source : Text)
    → Sees s pips npms
    → Sees (after_pip s dep source) (put dep.name (record { dep = dep; source = source }) pips) npms
Sees-put s pips dep source h = record {
  pip_same = put_same s pips dep source h.pip_same;
  npm_same = h.npm_same;
  none_hard = h.none_hard;
}

found_merged :
    (pips : Dict Text PipOrigin) (name v : Text)
    → some v ≡ pip_merged_at name pips
    → (o : PipOrigin) × (get name pips ≡ some o) × (o.dep.version ≡ v)
found_merged pips name v h = elim (Option-cases (get name pips)) [
  | inl absent ↦ absurd (ground arith)
  | inr (o, present) ↦ (o, present, ground arith)
]

Result-cases :
    (r : Result ComposeError Bool)
    → (r ≡ ok true) ⊎ ((r ≡ ok false) ⊎ ((e : ComposeError) × (r ≡ err e)))
Result-cases (ok true) = inl refl
Result-cases (ok false) = inr (inl refl)
Result-cases (err e) = inr (inr (e, refl))

module _ (lib : Packaging) where
  push_pip_seen-Agree :
      (s : Seen) (pips : Dict Text PipOrigin) (npms : Dict NpmKey NpmOrigin) (prev : PipOrigin)
      (dep : PipDep) (from source : Text)
      → Sees s pips npms
      → Agree
          (λ t p. Sees t p npms)
          (push_pip_seen lib dep source s prev.dep.version from)
          (merge_pip_seen lib pips prev dep source)
  unfolding push_pip_seen merge_pip_seen is_hard
  push_pip_seen-Agree s pips npms prev dep from source h =
      elim (Bool-cases (prev.dep.version == dep.version)) [
        | inl same ↦ rw same (s, refl, h)
        | inr differ ↦
            elim (Result-cases (constraints_compatible lib prev.dep.version dep.version)) [
              | inl fits ↦
                  rw (differ, fits) (_, refl, Sees-report _ _ refl (Sees-put s pips dep source h))
              | inr (inl clash) ↦ rw (differ, clash) (clean-report (after_pip s dep source) _ refl)
              | inr (inr (e, bad)) ↦ rw (differ, bad) refl
            ]
      ]

  push_pip-Agree :
      (s : Seen) (pips : Dict Text PipOrigin) (npms : Dict NpmKey NpmOrigin) (dep : PipDep)
      (source : Text)
      → Sees s pips npms
      → Agree (λ t p. Sees t p npms) (push_pip lib dep source s) (merge_pip_dep lib pips dep source)
  unfolding push_pip merge_pip_dep
  push_pip-Agree s pips npms dep source h = elim (Option-cases (get dep.name s.pip_seen)) [
    | inl new ↦
        let absent : get dep.name pips ≡ none = ground (arith, h.pip_same dep.name) in
        rw (new, absent, push_pip, merge_pip_dep)
          (after_pip s dep source, refl, Sees-put s pips dep source h)
    | inr ((v, from), old) ↦
        let (prev, there, version) =
          found_merged pips dep.name v (rw (old, pip_seen_at) at (h.pip_same dep.name)) in
        rw (old, there, ← version, push_pip, merge_pip_dep)
          (push_pip_seen-Agree s pips npms prev dep from source h)
  ]

  push_pip-Grows : (dep : PipDep) (source : Text) → Grows (push_pip lib dep source)
  unfolding push_pip push_pip_seen
  push_pip-Grows dep source s hard = elim (Option-cases (get dep.name s.pip_seen)) [
    | inl new ↦ rw (new, push_pip) (ground (arith, hard))
    | inr ((v, from), old) ↦ elim (Bool-cases (v == dep.version)) [
      | inl same ↦ rw (old, push_pip, same) (ground (arith, hard))
      | inr differ ↦ elim (Result-cases (constraints_compatible lib v dep.version)) [
        | inl fits ↦
            rw (old, push_pip, differ, fits, has_hard-report s.conflicts) (ground (arith, hard))
        | inr (inl clash) ↦
            rw (old, push_pip, differ, clash, has_hard-report s.conflicts) (ground (arith, hard))
        | inr (inr (e, bad)) ↦ rw (old, push_pip, differ, bad) refl
      ]
    ]
  ]

  pub push_all_pip-Grows :
      (deps : List PipDep) (source : Text) → Grows (push_all_pip lib deps source)
  unfolding push_all_pip
  push_all_pip-Grows [] source s hard = ground (arith, hard)
  push_all_pip-Grows (dep ∷ deps) source s hard =
      Grows-bind (push_pip lib dep source) (push_all_pip lib deps source)
        (push_pip-Grows dep source) (push_all_pip-Grows deps source) s hard

  -- The pip dependencies of a part: the preview and the merge go on together, or the merge fails
  -- and the preview is not clean.
  pub push_all_pip-Agree :
      (s : Seen) (pips : Dict Text PipOrigin) (npms : Dict NpmKey NpmOrigin) (deps : List PipDep)
      (source : Text)
      → Sees s pips npms
      → Agree
          (λ t p. Sees t p npms)
          (push_all_pip lib deps source s)
          (merge_pip lib pips deps source)
  unfolding push_all_pip merge_pip
  push_all_pip-Agree s pips npms [] source h = (s, refl, h)
  push_all_pip-Agree s pips npms (dep ∷ deps) source h =
      Agree-bind (λ t p. Sees t p npms) (λ t p. Sees t p npms) (push_pip lib dep source s)
        (merge_pip_dep lib pips dep source) (push_all_pip lib deps source)
        (λ p. merge_pip lib p deps source) (push_pip-Agree s pips npms dep source h)
        (λ t p h'. push_all_pip-Agree t p npms deps source h') (push_all_pip-Grows deps source)
