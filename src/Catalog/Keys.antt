-- ===== src/Catalog/Keys.antt =====
-- The unique keys of the artifacts table, along every sequence of the operations of
-- packages/stackwarden/src/stackwarden/catalog/store.py
use stack_warden.Base.{
  Option-cases, inl, inr, Text, Bool, true, false, Option, none, some, [], ◌∷◌, ◌++◌, ◌==◌, text_eq,
  ◌≡◌, refl, arith, any, ok, ◌≤◌, eq_of_==, ==_refl,
}
use stack_warden.Catalog.Records.{ArtifactStatus, ArtifactRecord, ArtifactRow, row_of_record}
use stack_warden.Catalog.Store.{
  Table, same_keys, insert_artifact, updated, update_where, delete_where, count_where, has_id,
  update_artifact, update_artifact_status, is_superseded, staled, mark_stale, prune_by_status,
  prune_artifact,
}

-- no two rows share an id, a tag or a fingerprint
abbrev pub UniqueKeys : Table → Type 0
UniqueKeys [] = Unit
UniqueKeys (row ∷ rows) = (any (same_keys row) rows ≡ false) × UniqueKeys rows

-- what an update leaves alone
pub record KeepsKeys (f : ArtifactRow → ArtifactRow) : Type 0 where
  pub id : (row : ArtifactRow) → (f row).id ≡ row.id
  pub tag : (row : ArtifactRow) → (f row).tag ≡ row.tag
  pub fingerprint : (row : ArtifactRow) → (f row).fingerprint ≡ row.fingerprint

any-same_keys-update_where :
    (new new' : ArtifactRow) (p : ArtifactRow → Bool) {f : ArtifactRow → ArtifactRow}
    → KeepsKeys f
    → new'.id ≡ new.id
    → new'.tag ≡ new.tag
    → new'.fingerprint ≡ new.fingerprint
    → (rows : Table) → any (same_keys new') (update_where p f rows) ≡ any (same_keys new) rows
unfolding any update_where
any-same_keys-update_where new new' p k a b c [] = refl
any-same_keys-update_where new new' p k a b c (row ∷ rows) = ground (
  arith,
  k.id row,
  k.tag row,
  k.fingerprint row,
  any-same_keys-update_where new new' p k a b c rows,
)

pub update_where-UniqueKeys :
    (p : ArtifactRow → Bool) {f : ArtifactRow → ArtifactRow}
    → KeepsKeys f
    → (rows : Table) → UniqueKeys rows
    → UniqueKeys (update_where p f rows)
unfolding update_where
update_where-UniqueKeys p k [] u = tt
update_where-UniqueKeys p {f} k (row ∷ rows) u = ground (
  arith,
  any-same_keys-update_where row row p k refl refl refl rows,
  any-same_keys-update_where row (f row) p k (k.id row) (k.tag row) (k.fingerprint row) rows,
  update_where-UniqueKeys p k rows,
)

any-delete_where :
    (q p : ArtifactRow → Bool) (rows : Table)
    → any q rows ≡ false
    → any q (delete_where p rows) ≡ false
unfolding any delete_where
any-delete_where q p [] h = refl
any-delete_where q p (row ∷ rows) h = ground (arith, any-delete_where q p rows)

pub delete_where-UniqueKeys :
    (p : ArtifactRow → Bool) (rows : Table) → UniqueKeys rows → UniqueKeys (delete_where p rows)
unfolding delete_where
delete_where-UniqueKeys p [] u = tt
delete_where-UniqueKeys p (row ∷ rows) u =
    ground (arith, any-delete_where (same_keys row) p rows, delete_where-UniqueKeys p rows)

any-same_keys-snoc :
    (row new : ArtifactRow) (rows : Table)
    → any (same_keys row) rows ≡ false
    → same_keys new row ≡ false
    → any (same_keys row) (rows ++ new ∷ []) ≡ false
unfolding any
any-same_keys-snoc row new [] h k = ground (
  arith,
  eq_of_== new.id row.id,
  eq_of_== new.tag row.tag,
  eq_of_== new.fingerprint row.fingerprint,
  ==_refl row.id,
  ==_refl row.tag,
  ==_refl row.fingerprint,
)
any-same_keys-snoc row new (r ∷ rows) h k = ground (arith, any-same_keys-snoc row new rows)

snoc-UniqueKeys :
    (new : ArtifactRow) (rows : Table)
    → UniqueKeys rows
    → any (same_keys new) rows ≡ false
    → UniqueKeys (rows ++ new ∷ [])
unfolding any
snoc-UniqueKeys new [] u h = (refl, tt)
snoc-UniqueKeys new (row ∷ rows) u h =
    ground (arith, any-same_keys-snoc row new rows, snoc-UniqueKeys new rows)

-- what an insertion that goes through has done
pub insert_artifact-eq-ok :
    (r : ArtifactRecord) (rows : Table) {rows' : Table}
    → insert_artifact r rows ≡ ok rows'
    → (id : Text) × (r.id ≡ some id)
      × (any (same_keys (row_of_record id r)) rows ≡ false)
      × (rows' ≡ rows ++ row_of_record id r ∷ [])
unfolding insert_artifact
insert_artifact-eq-ok r rows h = elim (Option-cases r.id) [
  | inl missing ↦ absurd (ground arith)
  | inr (id, there) ↦ (id, there, ground arith, ground arith)
]

pub insert_artifact-UniqueKeys :
    (r : ArtifactRecord) (rows : Table) {rows' : Table}
    → insert_artifact r rows ≡ ok rows'
    → UniqueKeys rows
    → UniqueKeys rows'
insert_artifact-UniqueKeys r rows h u =
    let (id, there, fresh, result) = insert_artifact-eq-ok r rows h in
    rw result (snoc-UniqueKeys (row_of_record id r) rows u fresh)

pub updated-KeepsKeys : (r : ArtifactRecord) → KeepsKeys (updated r)
unfolding updated
updated-KeepsKeys r = record { id = λ row. refl; tag = λ row. refl; fingerprint = λ row. refl }

staled-KeepsKeys : (reason : Option Text) → KeepsKeys (staled reason)
unfolding staled
staled-KeepsKeys none = record { id = λ row. refl; tag = λ row. refl; fingerprint = λ row. refl }
staled-KeepsKeys (some reason) = record {
  id = λ row. ground arith;
  tag = λ row. ground arith;
  fingerprint = λ row. ground arith;
}

pub update_artifact-UniqueKeys :
    (r : ArtifactRecord) (rows : Table) → UniqueKeys rows → UniqueKeys (update_artifact r rows)
unfolding update_artifact updated
update_artifact-UniqueKeys r rows u = elim (Option-cases r.id) [
  | inl missing ↦ rw missing u
  | inr (id, there) ↦ rw there (update_where-UniqueKeys (has_id id) (updated-KeepsKeys r) rows u)
]

pub mark_stale-UniqueKeys :
    (profile_id stack_id : Text) (reason : Option Text) (rows : Table)
    → UniqueKeys rows
    → UniqueKeys (mark_stale profile_id stack_id reason rows).1
unfolding mark_stale
mark_stale-UniqueKeys profile_id stack_id reason rows u =
    update_where-UniqueKeys (is_superseded profile_id stack_id) (staled-KeepsKeys reason) rows u

pub prune_artifact-UniqueKeys :
    (id : Option Text) (rows : Table) → UniqueKeys rows → UniqueKeys (prune_artifact id rows)
unfolding prune_artifact
prune_artifact-UniqueKeys none rows u = u
prune_artifact-UniqueKeys (some id) rows u =
    ground (arith, delete_where-UniqueKeys (has_id id) rows u)

-- One call of an operation that changes the table.
pub data Step : Table → Table → Type 0 where
  inserts : {t t' : Table} (r : ArtifactRecord) → insert_artifact r t ≡ ok t' → Step t t'
  updates : {t : Table} (r : ArtifactRecord) → Step t (update_artifact r t)
  sets_status :
      {t : Table} (id : Text) (status : ArtifactStatus)
      → Step t (update_artifact_status id status t)
  marks :
      {t : Table} (profile_id stack_id : Text) (reason : Option Text)
      → Step t (mark_stale profile_id stack_id reason t).1
  prunes_status : {t : Table} (status : ArtifactStatus) → Step t (prune_by_status status t).1
  prunes : {t : Table} (id : Option Text) → Step t (prune_artifact id t)

-- What calls on an empty table lead to.
pub data Reachable : Table → Type 0 where
  created : Reachable []
  then_step : {t t' : Table} → Reachable t → Step t t' → Reachable t'

Step-UniqueKeys : {t t' : Table} → Step t t' → UniqueKeys t → UniqueKeys t'
unfolding update_artifact_status prune_by_status
Step-UniqueKeys (inserts {t = t} r h) u = insert_artifact-UniqueKeys r t h u
Step-UniqueKeys (updates {t = t} r) u = update_artifact-UniqueKeys r t u
Step-UniqueKeys (sets_status {t = t} id status) u =
    update_where-UniqueKeys (has_id id)
      (record { id = λ row. refl; tag = λ row. refl; fingerprint = λ row. refl }) t u
Step-UniqueKeys (marks {t = t} profile_id stack_id reason) u =
    mark_stale-UniqueKeys profile_id stack_id reason t u
Step-UniqueKeys (prunes_status {t = t} status) u = delete_where-UniqueKeys _ t u
Step-UniqueKeys (prunes {t = t} id) u = prune_artifact-UniqueKeys id t u

pub Reachable-UniqueKeys : {t : Table} → Reachable t → UniqueKeys t
Reachable-UniqueKeys created = tt
Reachable-UniqueKeys (then_step r s) = Step-UniqueKeys s (Reachable-UniqueKeys r)

-- a key selects one row at most
pub record IsKey (p : ArtifactRow → Bool) : Type 0 where
  pub shared : (a b : ArtifactRow) → p a ≡ true → p b ≡ true → same_keys a b ≡ true

has_id-IsKey : (id : Text) → IsKey (has_id id)
has_id-IsKey id = record {
  shared = λ a b h k. ground (arith, eq_of_== a.id id, eq_of_== b.id id, ==_refl id);
}

has_tag-IsKey : (tag : Text) → IsKey (λ row. row.tag == tag)
has_tag-IsKey tag = record {
  shared = λ a b h k. ground (arith, eq_of_== a.tag tag, eq_of_== b.tag tag, ==_refl tag);
}

has_fingerprint-IsKey : (fp : Text) → IsKey (λ row. row.fingerprint == fp)
has_fingerprint-IsKey fp = record {
  shared =
      λ a b h k. ground (arith, eq_of_== a.fingerprint fp, eq_of_== b.fingerprint fp, ==_refl fp);
}

count_where-zero :
    {p : ArtifactRow → Bool}
    → IsKey p
    → (row : ArtifactRow) (rows : Table) → p row ≡ true
    → any (same_keys row) rows ≡ false
    → count_where p rows ≡ 0
unfolding any count_where
count_where-zero k row [] h u = refl
count_where-zero {p} k row (r ∷ rows) h u =
    ground (arith, k.shared row r, count_where-zero k row rows)

count_where-le-one :
    {p : ArtifactRow → Bool} → IsKey p → (rows : Table) → UniqueKeys rows → count_where p rows ≤ 1
unfolding count_where
count_where-le-one k [] u = ground arith
count_where-le-one {p} k (row ∷ rows) u =
    ground (arith, count_where-le-one k rows, count_where-zero k row rows)

-- However the operations of the catalog are called from an empty table on, no id, no tag and no
-- fingerprint is ever that of two rows.
pub Reachable-unique :
    {t : Table}
    → Reachable t
    → ((id : Text) → count_where (has_id id) t ≤ 1)
      × ((tag : Text) → count_where (λ row. row.tag == tag) t ≤ 1)
      × ((fp : Text) → count_where (λ row. row.fingerprint == fp) t ≤ 1)
Reachable-unique {t} r =
    let u = Reachable-UniqueKeys r in
    (
      λ id. count_where-le-one (has_id-IsKey id) t u,
      λ tag. count_where-le-one (has_tag-IsKey tag) t u,
      λ fp. count_where-le-one (has_fingerprint-IsKey fp) t u,
    )
