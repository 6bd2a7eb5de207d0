-- ===== src/Builds/Live.antt =====
-- Which artifacts of a profile and stack are live after an execution:
-- packages/stackwarden/src/stackwarden/builders/plan_executor.py
use stack_warden.Base.{
  ℤ, ℕ, Text, Bool, false, Option, none, some, [], ◌∷◌, ◌++◌, ◌==◌, text_eq, ◌≡◌, refl, ap, ◌∙◌,
  inl, inr, arith, if◌then◌else◌, Result, ok, err, >>=-eq-ok, ==_refl,
}
use stack_warden.Catalog.Records.{
  built, artifact_status_eq, ArtifactRecord, ArtifactRow, row_to_record, as_stored,
}
use stack_warden.Catalog.Store.{
  Table, count_where, update_where, delete_where, has_id, is_live, is_superseded, staled,
  mark_stale, prune_artifact, insert_artifact, CatalogError,
}
use stack_warden.Builds.Plans.{Plan}
use stack_warden.Builds.Executor.{ExecError, World, make_record, read_version}
use stack_warden.Builds.Lifecycle.{
  Executed, build_inserted, build_started, build_made, prune_found, cleared, lifecycle,
}
use stack_warden.Builds.Tracked.{fixed, insert_artifact-Tracked}
use stack_warden.Builds.Captured.{EndStatus, Ended, passes_through, build_inserted-Ended}

count_where-mark_stale :
    (profile_id stack_id : Text) (t : Table)
    → count_where
        (is_superseded profile_id stack_id)
        (update_where (is_superseded profile_id stack_id) (staled none) t)
      ≡ 0
unfolding count_where update_where staled
count_where-mark_stale profile_id stack_id [] = refl
count_where-mark_stale profile_id stack_id (row ∷ rows) =
    ground (arith, count_where-mark_stale profile_id stack_id rows)

count_where-delete_where :
    (p q : ArtifactRow → Bool) (t : Table)
    → count_where p t ≡ 0
    → count_where p (delete_where q t) ≡ 0
unfolding count_where delete_where
count_where-delete_where p q [] h = refl
count_where-delete_where p q (row ∷ rows) h = ground (arith, count_where-delete_where p q rows)

count_where-prune_artifact :
    (p : ArtifactRow → Bool) (id : Option Text) (t : Table)
    → count_where p t ≡ 0
    → count_where p (prune_artifact id t) ≡ 0
unfolding prune_artifact
count_where-prune_artifact p none t h = h
count_where-prune_artifact p (some id) t h =
    ground (arith, count_where-delete_where p (has_id id) t h)

count_where-snoc :
    (p : ArtifactRow → Bool) (t : Table) (row : ArtifactRow)
    → count_where p t ≡ 0
    → count_where p (t ++ row ∷ []) ≡ (if p row then 1 else 0)
unfolding count_where
count_where-snoc p [] row h = refl
count_where-snoc p (r ∷ rows) row h = ground (arith, count_where-snoc p rows row)

abbrev live : Plan → ArtifactRow → Bool
live plan = is_superseded plan.profile_id plan.stack_id

count_where-prune_found :
    (p : ArtifactRow → Bool) (found : Option ArtifactRecord) (t : Table)
    → count_where p t ≡ 0
    → count_where p (prune_found found t) ≡ 0
unfolding prune_found
count_where-prune_found p none t h = h
count_where-prune_found p (some r) t h = count_where-prune_artifact p r.id t h

none_live : (plan : Plan) (t : Table) → count_where (live plan) (cleared plan t) ≡ 0
unfolding cleared mark_stale
none_live plan t =
    count_where-prune_found (live plan) _ _ (count_where-mark_stale plan.profile_id plan.stack_id t)

-- the result is an artifact that is `BUILT`
abbrev pub is_built_result : Result ExecError ArtifactRecord → Bool
is_built_result (ok r) = r.status == built
is_built_result (err e) = false

live-row :
    (plan : Plan) (row : ArtifactRow) (final start : ArtifactRecord)
    → row_to_record row ≡ as_stored final
    → fixed final ≡ fixed start
    → start.profile_id ≡ plan.profile_id
    → start.stack_id ≡ plan.stack_id
    → live plan row ≡ is_live final.status
unfolding row_to_record
live-row plan row final start stored same p s =
    let profile : row.profile_id ≡ plan.profile_id =
      ap (λ x. x.profile_id) stored ∙ (ap (λ x. x.profile_id) same ∙ p) in
    let stack : row.stack_id ≡ plan.stack_id =
      ap (λ x. x.stack_id) stored ∙ (ap (λ x. x.stack_id) same ∙ s) in
    let status : row.status ≡ final.status = ap (λ x. x.status) stored in
    rw (profile, stack, status, ==_refl plan.profile_id, ==_refl plan.stack_id)

-- an end with a tracked record leaves it live exactly if the result is `BUILT`
Ended-live :
    {id : Text} (plan : Plan) (rows : Table) (start : ArtifactRecord) (e : Executed)
    → start.profile_id ≡ plan.profile_id
    → start.stack_id ≡ plan.stack_id
    → count_where (live plan) rows ≡ 0
    → Ended id rows start e
    → count_where (live plan) e.1 ≡ (if is_built_result e.0 then 1 else 0)
Ended-live plan rows start (result, t) p s zero_live k = rw k.tracked.table (
    count_where-snoc (live plan) rows k.tracked.row zero_live
    ∙ rw (live-row plan k.tracked.row k.final start k.tracked.row_record k.same p s)
        (result_live result k.final k.status))
  where
    result_live :
        (result : Result ExecError ArtifactRecord) (final : ArtifactRecord)
        → EndStatus result final
        → ◌≡◌ {A = ℕ}
            (if is_live final.status then 1 else 0)
            (if is_built_result result then 1 else 0)
    result_live (ok r) final (same, inl h) = rw (same, h)
    result_live (ok r) final (same, inr h) = rw (same, h)
    result_live (err e) final h = rw h

module _ (to_int : Text → Option ℤ) (repr : Text → Text) (run_hooks : Bool) (w : World)
    (plan : Plan) where
  -- the result of an insertion, and what follows
  build_started-live :
      (r : ArtifactRecord) (rows : Table) (inserted : Result CatalogError Table)
      → passes_through w.outcome ≡ false
      → r.id ≡ some w.new_id
      → r.profile_id ≡ plan.profile_id
      → r.stack_id ≡ plan.stack_id
      → count_where (live plan) rows ≡ 0
      → insert_artifact r rows ≡ inserted
      → (let e = build_started to_int repr run_hooks w plan r rows inserted in
          count_where (live plan) e.1 ≡ (if is_built_result e.0 then 1 else 0))
  unfolding build_started
  build_started-live r rows (err x) n named p s zero_live h = zero_live
  build_started-live r rows (ok t) n named p s zero_live h =
      Ended-live plan rows r (build_inserted to_int repr run_hooks w plan r t) p s zero_live (
        build_inserted-Ended to_int repr run_hooks w plan r t n
          (insert_artifact-Tracked r w.new_id rows named h))

  pub made-named :
      {r : ArtifactRecord}
      → make_record to_int w plan ≡ ok r
      → (r.id ≡ some w.new_id) × (r.profile_id ≡ plan.profile_id) × (r.stack_id ≡ plan.stack_id)
  unfolding make_record
  made-named h =
      let (a, _, h1) = >>=-eq-ok (read_version to_int _) _ h in
      let (b, _, h2) = >>=-eq-ok (read_version to_int _) _ h1 in
      let (c, _, h3) = >>=-eq-ok (read_version to_int _) _ h2 in ground arith

  build_made-live :
      (rows : Table) (made : Result ExecError ArtifactRecord)
      → passes_through w.outcome ≡ false
      → count_where (live plan) rows ≡ 0
      → make_record to_int w plan ≡ made
      → (let e = build_made to_int repr run_hooks w plan rows made in
          count_where (live plan) e.1 ≡ (if is_built_result e.0 then 1 else 0))
  unfolding build_made
  build_made-live rows (err x) n zero_live h = zero_live
  build_made-live rows (ok r) n zero_live h =
      let (named, p, s) = made-named h in
      build_started-live r rows (insert_artifact r rows) n named p s zero_live refl

  -- After a run that gets to its lifecycle updates, no artifact of the profile and stack is
  -- `PLANNED`, `BUILDING` or `BUILT`, but for a single one if the run returns an artifact that is
  -- `BUILT`; where the builder raises neither a BuildError nor a cancellation of its own.
  pub lifecycle-live :
      (t : Table)
      → passes_through w.outcome ≡ false
      → count_where
          (is_superseded plan.profile_id plan.stack_id)
          (lifecycle to_int repr run_hooks w plan t).1
        ≡ (if is_built_result (lifecycle to_int repr run_hooks w plan t).0 then 1 else 0)
  unfolding lifecycle
  lifecycle-live t n =
      build_made-live (cleared plan t) (make_record to_int w plan) n (none_live plan t) refl
