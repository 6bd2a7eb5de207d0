-- ===== src/Builds/Captured.antt =====
-- How an execution leaves its record:
-- packages/stackwarden/src/stackwarden/builders/plan_executor.py
use stack_warden.Base.{
  ℤ, Text, Bool, true, false, Option, none, some, List, text_eq, ◌≡◌, refl, ◌∙◌, ◌⊎◌, inl, inr,
  is_empty, Result, ok, err, Bool-cases,
}
use stack_warden.Catalog.Records.{built, failed, artifact_status_eq, ArtifactRecord}
use stack_warden.Catalog.Store.{Table, update_artifact}
use stack_warden.Builds.Plans.{Plan}
use stack_warden.Builds.Executor.{
  ExecError, build_error, HookRun, BuildOutcome, produced, passes, raised, World, known_builder,
  Progress, write, capture_manifest, capture_optimization_manifest, capture_snapshots, capture_sbom,
  hook_failures, run_all_hooks, failed_with,
}
use stack_warden.Builds.Lifecycle.{
  Executed, capture_all, built_with, after_build, run_builder, build_inserted,
}
use stack_warden.Builds.Tracked.{fixed, Tracked, update_artifact-Tracked}

-- what the result says of the record as it is stored
abbrev pub EndStatus : Result ExecError ArtifactRecord → ArtifactRecord → Type 0
EndStatus (ok r) final = (r ≡ final) × ((final.status ≡ built) ⊎ (final.status ≡ failed))
EndStatus (err e) final = final.status ≡ failed

-- an end of the execution of the record `start`, inserted after `rows`
pub record Ended (id : Text) (rows : Table) (start : ArtifactRecord) (e : Executed) : Type 0 where
  pub final : ArtifactRecord
  pub tracked : Tracked id rows final e.1
  pub same : fixed final ≡ fixed start
  pub status : EndStatus e.0 final

-- whether the builder itself raises one of the exceptions that pass through
abbrev pub passes_through : BuildOutcome → Bool
passes_through (passes e) = true
passes_through _ = false

-- a capture keeps track of the record, and its status
record Captured (id : Text) (rows : Table) (p q : Progress) : Type 0 where
  tracked : Tracked id rows q.0 q.1
  same : fixed q.0 ≡ fixed p.0
  status : q.0.status ≡ p.0.status

module _ {id : Text} {rows : Table} where
  write-Captured :
      (r r' : ArtifactRecord) (t : Table)
      → fixed r' ≡ fixed r
      → r'.status ≡ r.status
      → Tracked id rows r t
      → Captured id rows (r, t) (write r' t)
  write-Captured r r' t same status k = record {
    tracked = update_artifact-Tracked t r r' same k;
    same = same;
    status = status;
  }

  nothing-Captured : (p : Progress) → Tracked id rows p.0 p.1 → Captured id rows p p
  nothing-Captured p k = record { tracked = k; same = refl; status = refl }

  Captured-trans :
      (p q s : Progress) → Captured id rows p q → Captured id rows q s → Captured id rows p s
  Captured-trans p q s c d = record {
    tracked = d.tracked;
    same = d.same ∙ c.same;
    status = d.status ∙ c.status;
  }

  capture_manifest-Captured :
      (path : Option Text) (r : ArtifactRecord) (t : Table)
      → Tracked id rows r t
      → Captured id rows (r, t) (capture_manifest path (r, t))
  unfolding capture_manifest
  capture_manifest-Captured none r t k = nothing-Captured (r, t) k
  capture_manifest-Captured (some path) r t k = write-Captured r _ t refl refl k

  capture_optimization-Captured :
      (saved : Bool) (r : ArtifactRecord) (t : Table)
      → Tracked id rows r t
      → Captured id rows (r, t) (capture_optimization_manifest saved (r, t))
  unfolding capture_optimization_manifest
  capture_optimization-Captured true r t k = write-Captured r r t refl refl k
  capture_optimization-Captured false r t k = nothing-Captured (r, t) k

  capture_snapshots-Captured :
      (paths : Option (Text × (Text × Text))) (r : ArtifactRecord) (t : Table)
      → Tracked id rows r t
      → Captured id rows (r, t) (capture_snapshots paths (r, t))
  unfolding capture_snapshots
  capture_snapshots-Captured none r t k = nothing-Captured (r, t) k
  capture_snapshots-Captured (some (profile, (stack, plan))) r t k =
      write-Captured r _ t refl refl k

  capture_sbom-Captured :
      (path : Option Text) (r : ArtifactRecord) (t : Table)
      → Tracked id rows r t
      → Captured id rows (r, t) (capture_sbom path (r, t))
  unfolding capture_sbom
  capture_sbom-Captured none r t k = nothing-Captured (r, t) k
  capture_sbom-Captured (some path) r t k = write-Captured r _ t refl refl k

  captures-Captured :
      (w : World) (r : ArtifactRecord) (t : Table)
      → Tracked id rows r t
      → Captured id rows
          (r, t)
          (capture_sbom w.sbom (
            capture_snapshots w.snapshots (
              capture_optimization_manifest w.optimization_saved
                (capture_manifest w.manifest (r, t)))))
  captures-Captured w r t k =
      let m = capture_manifest w.manifest (r, t) in
      let o = capture_optimization_manifest w.optimization_saved m in
      let s = capture_snapshots w.snapshots o in
      let c1 = capture_manifest-Captured w.manifest r t k in
      let c2 = capture_optimization-Captured w.optimization_saved m.0 m.1 c1.tracked in
      let c3 = capture_snapshots-Captured w.snapshots o.0 o.1 c2.tracked in
      let c4 = capture_sbom-Captured w.sbom s.0 s.1 c3.tracked in
      Captured-trans (r, t) m _ c1 (Captured-trans m o _ c2 (Captured-trans o s _ c3 c4))

  -- the record after the hooks, as it was or failed
  hooks-Ended :
      (hooks : Option (List HookRun)) (start r : ArtifactRecord) (t : Table)
      → Tracked id rows r t
      → fixed r ≡ fixed start
      → r.status ≡ built
      → Ended id rows start (ok (run_all_hooks hooks (r, t)).0, (run_all_hooks hooks (r, t)).1)
  unfolding run_all_hooks
  hooks-Ended none start r t k same status = record {
    final = r;
    tracked = k;
    same = same;
    status = (refl, inl status);
  }
  hooks-Ended (some runs) start r t k same status =
      elim (Bool-cases (is_empty (hook_failures runs))) [
        | inl passed ↦
            rw passed (record { final = r; tracked = k; same = same; status = (refl, inl status) })
        | inr failing ↦ rw failing (record {
          final = _;
          tracked = update_artifact-Tracked t r _ refl k;
          same = same;
          status = (refl, inr refl);
        })
      ]

  -- a record that is written as failed ends so
  failed-Ended :
      (detail : Text) (start r : ArtifactRecord) (t : Table) (x : ExecError)
      → Tracked id rows r t
      → fixed r ≡ fixed start
      → Ended id rows start (err x, update_artifact (failed_with detail r) t)
  failed-Ended detail start r t x k same = record {
    final = failed_with detail r;
    tracked = update_artifact-Tracked t r (failed_with detail r) refl k;
    same = same;
    status = refl;
  }

  capture_all-Ended :
      (run_hooks : Bool) (w : World) (start r : ArtifactRecord) (t : Table)
      → Tracked id rows r t
      → fixed r ≡ fixed start
      → r.status ≡ built
      → Ended id rows start
          (ok (capture_all run_hooks w (r, t)).0, (capture_all run_hooks w (r, t)).1)
  unfolding capture_all
  capture_all-Ended true w start r t k same status =
      let c = captures-Captured w r t k in
      hooks-Ended w.hooks start _ _ c.tracked (c.same ∙ same) (c.status ∙ status)
  capture_all-Ended false w start r t k same status =
      let c = captures-Captured w r t k in
      record {
        final = _;
        tracked = c.tracked;
        same = c.same ∙ same;
        status = (refl, inl (c.status ∙ status));
      }

  after_build-Ended :
      (run_hooks : Bool) (w : World) (image_id digest : Option Text) (r : ArtifactRecord)
      (t : Table)
      → Tracked id rows r t
      → Ended id rows r (after_build run_hooks w image_id digest r t)
  unfolding after_build capture_all
  after_build-Ended run_hooks w image_id digest r t k =
      let r' = built_with image_id digest r in
      let k' = update_artifact-Tracked t r r' refl k in
      elim (Bool-cases w.canceled_after_build) [
        | inl canceled ↦ rw canceled (failed-Ended _ r r' (update_artifact r' t) _ k' refl)
        | inr going_on ↦
            rw going_on (capture_all-Ended run_hooks w r r' (update_artifact r' t) k' refl refl)
      ]

  run_builder-Ended :
      (run_hooks : Bool) (w : World) (plan : Plan) (r : ArtifactRecord) (t : Table)
      → passes_through w.outcome ≡ false
      → Tracked id rows r t
      → Ended id rows r (run_builder run_hooks w plan r t)
  unfolding run_builder
  run_builder-Ended run_hooks w plan r t h k = elim (Bool-cases w.canceled_before_build) [
    | inl canceled ↦ rw canceled (failed-Ended _ r r t _ k refl)
    | inr going_on ↦ rw going_on (outcome-Ended w.outcome h)
  ]
    where
      outcome-Ended :
          (outcome : BuildOutcome)
          → passes_through outcome ≡ false
          → Ended id rows r (elim outcome [
            | produced image_id digest ↦ after_build run_hooks w image_id digest r t
            | passes e ↦ (err e, t)
            | raised detail ↦ (
              err (build_error plan.decision.builder detail),
              update_artifact (failed_with detail r) t,
            )
          ])
      outcome-Ended (produced image_id digest) n =
          after_build-Ended run_hooks w image_id digest r t k
      outcome-Ended (passes e) n = absurd (cc)
      outcome-Ended (raised detail) n = failed-Ended detail r r t _ k refl

  pub build_inserted-Ended :
      (to_int : Text → Option ℤ) (repr : Text → Text) (run_hooks : Bool) (w : World) (plan : Plan)
      (r : ArtifactRecord) (t : Table)
      → passes_through w.outcome ≡ false
      → Tracked id rows r t
      → Ended id rows r (build_inserted to_int repr run_hooks w plan r t)
  unfolding build_inserted
  build_inserted-Ended to_int repr run_hooks w plan r t h k =
      elim (Bool-cases (known_builder plan.decision.builder)) [
        | inl known ↦ rw known (run_builder-Ended run_hooks w plan r t h k)
        | inr unknown ↦ rw unknown (failed-Ended _ r r t _ k refl)
      ]
