-- ===== src/Catalog/Samples.antt =====
-- A database that orders by insertion, a session that is locked for a while, and three artifacts.
use mathlib.Core.List.Permᴰ
use mathlib.Core.List.{Permᴰ}
use stack_warden.Base.{
  true, pos, ℕ, zero, suc, ◌≤◌, Text, codes, Option, none, some, [], ◌∷◌, All, ltb, ◌≡◌, refl,
  arith, if◌then◌else◌, Bool-cases, inl, inr, starts_with,
}
use stack_warden.Catalog.Records.{ArtifactStatus, ArtifactRecord, ArtifactRow}
use stack_warden.Catalog.Store.{Table}
use stack_warden.Catalog.Queries.{IsNewestFirst, Sql}
use stack_warden.Catalog.Session.{Commit, committed, locked, broken, SessionLib}

insert_newest : ArtifactRow → Table → Table
insert_newest r [] = r ∷ []
insert_newest r (x ∷ xs) =
    if ltb r.created_at x.created_at then x ∷ insert_newest r xs else r ∷ x ∷ xs

pub by_insertion : Table → Table
by_insertion [] = []
by_insertion (r ∷ rows) = insert_newest r (by_insertion rows)

insert_newest-Permᴰ : (r : ArtifactRow) (rows : Table) → Permᴰ (insert_newest r rows) (r ∷ rows)
unfolding insert_newest
insert_newest-Permᴰ r [] = Permᴰ.refl (r ∷ [])
insert_newest-Permᴰ r (x ∷ xs) = elim (Bool-cases (ltb r.created_at x.created_at)) [
  | inl later ↦
      rw later (Permᴰ.trans (Permᴰ.cons refl (insert_newest-Permᴰ r xs)) (Permᴰ.swap refl refl))
  | inr first ↦ rw first (Permᴰ.refl (r ∷ x ∷ xs))
]

pub by_insertion-Permᴰ : (t : Table) → Permᴰ (by_insertion t) t
unfolding by_insertion
by_insertion-Permᴰ [] = Permᴰ.nil
by_insertion-Permᴰ (r ∷ rows) =
    Permᴰ.trans (insert_newest-Permᴰ r (by_insertion rows))
      (Permᴰ.cons refl (by_insertion-Permᴰ rows))

All-insert_newest :
    (n : ℕ) (r : ArtifactRow) (rows : Table)
    → r.created_at ≤ n
    → All (λ other. other.created_at ≤ n) rows
    → All (λ other. other.created_at ≤ n) (insert_newest r rows)
unfolding insert_newest
All-insert_newest n r [] h a = (h, tt)
All-insert_newest n r (x ∷ xs) h a = ground (arith, All-insert_newest n r xs h)

All-older :
    (m n : ℕ) (rows : Table)
    → m ≤ n
    → All (λ other. other.created_at ≤ m) rows
    → All (λ other. other.created_at ≤ n) rows
All-older m n [] h a = tt
All-older m n (x ∷ xs) h a = (omega arith, All-older m n xs h a.1)

insert_newest-IsNewestFirst :
    (r : ArtifactRow) (rows : Table) → IsNewestFirst rows → IsNewestFirst (insert_newest r rows)
unfolding insert_newest
insert_newest-IsNewestFirst r [] h = (tt, tt)
insert_newest-IsNewestFirst r (x ∷ xs) h = ground (
  arith,
  All-insert_newest x.created_at r xs,
  All-older x.created_at r.created_at xs,
  insert_newest-IsNewestFirst r xs,
)

pub by_insertion-IsNewestFirst : (t : Table) → IsNewestFirst (by_insertion t)
unfolding by_insertion
by_insertion-IsNewestFirst [] = tt
by_insertion-IsNewestFirst (r ∷ rows) =
    insert_newest-IsNewestFirst r (by_insertion rows) (by_insertion-IsNewestFirst rows)

-- a search that looks at the start of a column
abbrev pub simple_sql : Sql
simple_sql = record {
  newest_first = by_insertion;
  newest_first-Permᴰ = by_insertion-Permᴰ;
  newest_first-IsNewestFirst = by_insertion-IsNewestFirst;
  ilike = starts_with;
}

pub record Waiting : Type 0 where
  pub saved : ℕ
  pub pending : Option ℕ
  pub locks : ℕ

abbrev pub written : ℕ → Option ℕ → ℕ
written old none = old
written old (some new) = new

abbrev pub commit_after : (locks : ℕ) → Waiting → Commit Waiting
commit_after zero w = committed (record w { saved = written w.saved w.pending; pending = none })
commit_after (suc n) w = locked (record w { locks = n })

pub saved-locked :
    (n : ℕ) (w : Waiting) {w' : Waiting} → commit_after n w ≡ locked w' → w'.saved ≡ w.saved
saved-locked zero w h = absurd (cc)
saved-locked (suc n) w h = ground arith

pub saved-broken :
    (n : ℕ) (w : Waiting) {w' : Waiting} → commit_after n w ≡ broken w' → w'.saved ≡ w.saved
saved-broken zero w h = absurd (cc)
saved-broken (suc n) w h = absurd (cc)

pub saved-clean :
    (n : ℕ) (w : Waiting) {w' : Waiting}
    → w.pending ≡ none
    → commit_after n w ≡ committed w'
    → w'.saved ≡ w.saved
saved-clean zero w c h = ground arith
saved-clean (suc n) w c h = absurd (cc)

-- a session that is locked for as many commits as it says
abbrev pub waiting_session : SessionLib
waiting_session = record {
  Session = Waiting;
  Stored = ℕ;
  stored = λ w. w.saved;
  commit = λ w. commit_after w.locks w;
  rollback = λ w. record w { pending = none };
  IsClean = λ w. w.pending ≡ none;
  rollback-IsClean = λ w. refl;
  stored-rollback = λ w. refl;
  stored-locked = λ w h. saved-locked w.locks w h;
  stored-broken = λ w h. saved-broken w.locks w h;
  stored-clean = λ w c h. saved-clean w.locks w c h;
}

abbrev pub artifact : (id tag : Text) (status : ArtifactStatus) (created_at : ℕ) → ArtifactRecord
artifact id tag status created_at = record {
  id = some id;
  profile_id = codes "dgx";
  stack_id = codes "vllm";
  tag = tag;
  fingerprint = tag;
  image_id = none;
  digest = none;
  base_image = codes "nvcr.io/nvidia/pytorch";
  base_digest = none;
  build_strategy = codes "overlay";
  template_hash = none;
  stack_schema_version = pos 0;
  profile_schema_version = pos 1;
  layer_schema_version = pos 2;
  manifest_path = none;
  sbom_path = none;
  profile_snapshot_path = none;
  stack_snapshot_path = none;
  plan_path = none;
  variant_json = none;
  host_id = none;
  docker_context = none;
  daemon_arch = none;
  status = status;
  stale_reason = none;
  error_detail = none;
  created_at = record { clock = created_at; has_zone = true };
}
