-- ===== src/Composition/Agreement/Npm.antt =====
-- One npm dependency, and all of a part, in the preview and in the merge.
use stack_warden.Base.{
  Text, true, false, ◌&&◌, some, none, List, [], ◌∷◌, ◌≡◌, refl, ap, ◌∙◌, arith, Dict, get, put,
  get-put, ◌==◌, text_eq, pair_eq, eq_of_==, Option-cases, Bool-cases, inl, inr, ok,
}
use stack_warden.Specs.{NpmDep, VersionMode, version_mode_eq}
use stack_warden.Composition.Pip.{PipOrigin}
use stack_warden.Composition.Npm.{
  NpmKey, NpmOrigin, npm_key, hard_npm_conflict, merge_npm_seen, merge_npm_dep, merge_npm,
}
use stack_warden.Composition.Preview.{Seen, push_npm_seen, push_npm, push_all_npm, asked_version}
use stack_warden.Composition.Agreement.View.{
  is_hard, has_hard, npm_view, npm_seen_at, npm_merged_at, Sees, Agree, Agree-bind, has_hard-report,
  Sees-report, clean-report,
}

abbrev after_npm : Seen → NpmDep → Text → Seen
after_npm s dep source = record s {
  npm_seen = put (npm_key dep) (asked_version dep, dep.version_mode, source) s.npm_seen;
}

abbrev origin : NpmDep → Text → NpmOrigin
origin dep source = record { dep = dep; source = source }

module _ (s : Seen) (npms : Dict NpmKey NpmOrigin) (dep : NpmDep) (source : Text)
    (h : (key : NpmKey) → npm_seen_at key s.npm_seen ≡ npm_merged_at key npms) where
  both_put :
      (key : NpmKey)
      → npm_seen_at key (after_npm s dep source).npm_seen
        ≡ npm_merged_at key (put (npm_key dep) (origin dep source) npms)
  both_put key = ground (
    arith,
    h key,
    get-put (npm_key dep) key (asked_version dep, dep.version_mode, source) s.npm_seen,
    get-put (npm_key dep) key (origin dep source) npms,
  )

  -- the merge keeps an entry that looks like the new one
  seen_put :
      npm_merged_at (npm_key dep) npms ≡ some (npm_view dep.version_mode dep.version)
      → (key : NpmKey) → npm_seen_at key (after_npm s dep source).npm_seen ≡ npm_merged_at key npms
  seen_put same key = elim (Bool-cases (npm_key dep == key)) [
    | inl here ↦ ground (
      arith,
      ap (λ k. npm_merged_at k npms) (eq_of_== (npm_key dep) key here),
      get-put (npm_key dep) key (asked_version dep, dep.version_mode, source) s.npm_seen,
    )
    | inr other ↦ ground (
      arith,
      h key,
      get-put (npm_key dep) key (asked_version dep, dep.version_mode, source) s.npm_seen,
    )
  ]

  -- the preview keeps an entry that looks like the new one
  merged_put :
      npm_seen_at (npm_key dep) s.npm_seen ≡ some (npm_view dep.version_mode dep.version)
      → (key : NpmKey)
      → npm_seen_at key s.npm_seen ≡ npm_merged_at key (put (npm_key dep) (origin dep source) npms)
  merged_put same key = elim (Bool-cases (npm_key dep == key)) [
    | inl here ↦ ground (
      arith,
      ap (λ k. npm_seen_at k s.npm_seen) (eq_of_== (npm_key dep) key here),
      get-put (npm_key dep) key (origin dep source) npms,
    )
    | inr other ↦ ground (arith, h key, get-put (npm_key dep) key (origin dep source) npms)
  ]

hard_same :
    (pm : VersionMode) (pv : Text) (prev dep : NpmDep)
    → npm_view pm pv ≡ npm_view prev.version_mode prev.version
    → hard_npm_conflict pm pv dep.version_mode (asked_version dep)
      ≡ hard_npm_conflict prev.version_mode prev.version dep.version_mode dep.version
unfolding hard_npm_conflict
hard_same pm pv prev dep view = ground arith

not_hard_of_same :
    (prev dep : NpmDep)
    → (prev.version_mode == dep.version_mode && prev.version == dep.version) ≡ true
    → hard_npm_conflict prev.version_mode prev.version dep.version_mode dep.version ≡ false
unfolding hard_npm_conflict
not_hard_of_same prev dep same = ground arith

not_hard_of_seen :
    (pm : VersionMode) (pv : Text) (dep : NpmDep)
    → (pv == asked_version dep && pm == dep.version_mode) ≡ true
    → hard_npm_conflict pm pv dep.version_mode (asked_version dep) ≡ false
unfolding hard_npm_conflict
not_hard_of_seen pm pv dep same = ground arith

view_of_same :
    (prev dep : NpmDep)
    → (prev.version_mode == dep.version_mode && prev.version == dep.version) ≡ true
    → npm_view prev.version_mode prev.version ≡ npm_view dep.version_mode dep.version
view_of_same prev dep same =
    ground (arith, eq_of_== prev.version_mode dep.version_mode, eq_of_== prev.version dep.version)

view_of_seen :
    (pm : VersionMode) (pv : Text) (dep : NpmDep)
    → (pv == asked_version dep && pm == dep.version_mode) ≡ true
    → npm_view pm pv ≡ npm_view dep.version_mode dep.version
view_of_seen pm pv dep same =
    ground (arith, eq_of_== pm dep.version_mode, eq_of_== pv (asked_version dep))

module _ (s : Seen) (pips : Dict Text PipOrigin) (npms : Dict NpmKey NpmOrigin) (dep : NpmDep)
    (source : Text) (h : Sees s pips npms) where
  abbrev Both : Seen → Dict NpmKey NpmOrigin → Type 0
  Both t n = Sees t pips n

  with_npm :
      (t : Seen) (n : Dict NpmKey NpmOrigin)
      → t.pip_seen ≡ s.pip_seen
      → t.conflicts ≡ s.conflicts
      → ((key : NpmKey) → npm_seen_at key t.npm_seen ≡ npm_merged_at key n)
      → Sees t pips n
  with_npm t n p c same = record {
    pip_same = λ name. rw p (h.pip_same name);
    npm_same = same;
    none_hard = rw c h.none_hard;
  }

  push_npm_seen-Agree :
      (prev : NpmOrigin) (pv : Text) (pm : VersionMode) (from : Text)
      → get (npm_key dep) s.npm_seen ≡ some (pv, pm, from)
      → get (npm_key dep) npms ≡ some prev
      → npm_view pm pv ≡ npm_view prev.dep.version_mode prev.dep.version
      → Agree Both
          (ok (push_npm_seen dep source s pv pm from))
          (merge_npm_seen npms prev dep source)
  unfolding push_npm_seen merge_npm_seen is_hard
  push_npm_seen-Agree prev pv pm from old there view =
      let same_seen = pv == asked_version dep && pm == dep.version_mode in
      let same_merged =
        prev.dep.version_mode == dep.version_mode && prev.dep.version == dep.version in
      let hard =
        hard_npm_conflict prev.dep.version_mode prev.dep.version dep.version_mode dep.version in
      elim (Bool-cases same_merged) [
        | inl m ↦ elim (Bool-cases same_seen) [
          | inl q ↦ rw (q, m, merge_npm_seen, push_npm_seen) (s, refl, h)
          | inr q ↦
              let kept =
                seen_put s npms dep source h.npm_same
                  (ground (arith, there, view_of_same prev.dep dep m)) in
              rw (q, m, merge_npm_seen, push_npm_seen)
                (
                  _,
                  refl,
                  Sees-report (after_npm s dep source) _
                      (ground
                        (arith, hard_same pm pv prev.dep dep view, not_hard_of_same prev.dep dep m))
                      (with_npm (after_npm s dep source) npms refl refl kept),
                )
        ]
        | inr m ↦ elim (Bool-cases hard) [
          | inl clash ↦
              let loud : hard_npm_conflict pm pv dep.version_mode (asked_version dep) ≡ true =
                hard_same pm pv prev.dep dep view ∙ clash in
              elim (Bool-cases same_seen) [
                | inl q ↦ absurd (ground (arith, not_hard_of_seen pm pv dep q))
                | inr q ↦
                    rw (m, clash, q, merge_npm_seen, push_npm_seen)
                      (clean-report (after_npm s dep source) _ (ground arith))
              ]
          | inr soft ↦ elim (Bool-cases same_seen) [
            | inl q ↦
                let kept =
                  merged_put s npms dep source h.npm_same
                    (ground (arith, old, view_of_seen pm pv dep q)) in
                rw (m, soft, q, merge_npm_seen, push_npm_seen)
                  (s, refl, with_npm s (put (npm_key dep) (origin dep source) npms) refl refl kept)
            | inr q ↦
                let quiet : hard_npm_conflict pm pv dep.version_mode (asked_version dep) ≡ false =
                  hard_same pm pv prev.dep dep view ∙ soft in
                rw (m, soft, q, merge_npm_seen, push_npm_seen)
                  (
                    _,
                    refl,
                    Sees-report (after_npm s dep source) _ (ground arith) (
                        with_npm (after_npm s dep source)
                          (put (npm_key dep) (origin dep source) npms) refl refl
                          (both_put s npms dep source h.npm_same)),
                  )
          ]
        ]
      ]

  found_npm :
      (v : VersionMode × Text)
      → some v ≡ npm_merged_at (npm_key dep) npms
      → (o : NpmOrigin) × (get (npm_key dep) npms ≡ some o)
        × (v ≡ npm_view o.dep.version_mode o.dep.version)
  found_npm v e = elim (Option-cases (get (npm_key dep) npms)) [
    | inl absent ↦ absurd (ground arith)
    | inr (o, present) ↦ (o, present, ground arith)
  ]

  push_npm-Agree : Agree Both (ok (push_npm dep source s)) (merge_npm_dep npms dep source)
  unfolding push_npm merge_npm_dep
  push_npm-Agree = elim (Option-cases (get (npm_key dep) s.npm_seen)) [
    | inl new ↦
        let absent : get (npm_key dep) npms ≡ none = ground (arith, h.npm_same (npm_key dep)) in
        rw (new, absent, push_npm, merge_npm_dep)
          (
            _,
            refl,
            with_npm (after_npm s dep source) (put (npm_key dep) (origin dep source) npms) refl refl
                (both_put s npms dep source h.npm_same),
          )
    | inr ((pv, pm, from), old) ↦
        let (prev, there, view) =
          found_npm (npm_view pm pv) (rw (old, npm_seen_at) at (h.npm_same (npm_key dep))) in
        rw (old, there, push_npm, merge_npm_dep)
          (push_npm_seen-Agree prev pv pm from old there view)
  ]

push_npm_seen-hard :
    (dep : NpmDep) (source : Text) (s : Seen) (pv : Text) (pm : VersionMode) (from : Text)
    → has_hard s.conflicts ≡ true
    → has_hard (push_npm_seen dep source s pv pm from).conflicts ≡ true
unfolding push_npm_seen
push_npm_seen-hard dep source s pv pm from hard =
    elim (Bool-cases (pv == asked_version dep && pm == dep.version_mode)) [
      | inl same ↦ rw (same, push_npm_seen) hard
      | inr differ ↦ rw (differ, push_npm_seen, has_hard-report s.conflicts) (ground (arith, hard))
    ]

push_npm-hard :
    (dep : NpmDep) (source : Text) (s : Seen)
    → has_hard s.conflicts ≡ true
    → has_hard (push_npm dep source s).conflicts ≡ true
unfolding push_npm
push_npm-hard dep source s hard = elim (Option-cases (get (npm_key dep) s.npm_seen)) [
  | inl new ↦ rw (new, push_npm) hard
  | inr ((pv, pm, from), old) ↦ rw (old, push_npm) (push_npm_seen-hard dep source s pv pm from hard)
]

pub push_all_npm-hard :
    (deps : List NpmDep) (source : Text) (s : Seen)
    → has_hard s.conflicts ≡ true
    → has_hard (push_all_npm deps source s).conflicts ≡ true
unfolding push_all_npm
push_all_npm-hard [] source s hard = hard
push_all_npm-hard (dep ∷ deps) source s hard =
    push_all_npm-hard deps source (push_npm dep source s) (push_npm-hard dep source s hard)

-- The npm dependencies of a part: the preview and the merge go on together, or the merge fails and
-- the preview is not clean.
pub push_all_npm-Agree :
    (s : Seen) (pips : Dict Text PipOrigin) (npms : Dict NpmKey NpmOrigin) (deps : List NpmDep)
    (source : Text)
    → Sees s pips npms
    → Agree (λ t n. Sees t pips n) (ok (push_all_npm deps source s)) (merge_npm npms deps source)
unfolding push_all_npm merge_npm
push_all_npm-Agree s pips npms [] source h = (s, refl, h)
push_all_npm-Agree s pips npms (dep ∷ deps) source h =
    Agree-bind (λ t n. Sees t pips n) (λ t n. Sees t pips n) (ok (push_npm dep source s))
      (merge_npm_dep npms dep source) (λ t. ok (push_all_npm deps source t))
      (λ n. merge_npm n deps source) (push_npm-Agree s pips npms dep source h)
      (λ t n h'. push_all_npm-Agree t pips n deps source h')
      (λ t hard. ground (arith, push_all_npm-hard deps source t hard))
