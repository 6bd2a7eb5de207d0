-- ===== src/Catalog/Store.antt =====
-- The operations on the artifacts table, where each commit goes through at its first attempt:
-- packages/stackwarden/src/stackwarden/catalog/store.py
-- The table is the list of its rows. The schema (catalog/models.py) makes `id`, `tag` and
-- `fingerprint` unique.
use stack_warden.Base.{
  ℕ, suc, Text, Bool, Option, none, some, List, [], ◌∷◌, ◌++◌, ◌==◌, ◌&&◌, ◌||◌, text_eq, any,
  is_empty, if◌then◌else◌, Result, ok, err,
}
use stack_warden.Catalog.Records.{
  ArtifactStatus, planned, building, built, stale, artifact_status_eq, ArtifactRecord, ArtifactRow,
  row_of_record, row_to_record,
}

abbrev pub Table : Type 0
Table = List ArtifactRow

pub data CatalogError : Type 0 where
  already_exists : CatalogError

-- the keys that the schema makes unique
abbrev pub same_keys : ArtifactRow → ArtifactRow → Bool
same_keys new row = row.id == new.id || row.tag == new.tag || row.fingerprint == new.fingerprint

-- `insert_artifact`: a violated constraint is an IntegrityError, a missing id is one too
unfoldable pub insert_artifact : ArtifactRecord → Table → Result CatalogError Table
insert_artifact r table = elim r.id [
  | none ↦ err already_exists
  | some id ↦
      let new = row_of_record id r in
      if any (same_keys new) table then err already_exists else ok (table ++ new ∷ [])
]

-- the assignments of `update_artifact`
unfoldable pub updated : ArtifactRecord → ArtifactRow → ArtifactRow
updated r row = record row {
  status = r.status;
  image_id = r.image_id;
  digest = r.digest;
  manifest_path = r.manifest_path;
  sbom_path = r.sbom_path;
  profile_snapshot_path = r.profile_snapshot_path;
  stack_snapshot_path = r.stack_snapshot_path;
  plan_path = r.plan_path;
  variant_json = r.variant_json;
  stale_reason = r.stale_reason;
  error_detail = r.error_detail;
}

-- `UPDATE artifacts SET … WHERE`
unfoldable pub update_where : (ArtifactRow → Bool) → (ArtifactRow → ArtifactRow) → Table → Table
update_where p f [] = []
update_where p f (row ∷ rows) = (if p row then f row else row) ∷ update_where p f rows

-- `DELETE FROM artifacts WHERE`
unfoldable pub delete_where : (ArtifactRow → Bool) → Table → Table
delete_where p [] = []
delete_where p (row ∷ rows) = if p row then delete_where p rows else row ∷ delete_where p rows

-- how many rows satisfy a condition
unfoldable pub count_where : (ArtifactRow → Bool) → Table → ℕ
count_where p [] = 0
count_where p (row ∷ rows) = if p row then suc (count_where p rows) else count_where p rows

-- `s.get(ArtifactRow, artifact_id)`, and a `SELECT` for at most one row
unfoldable pub select_one : (ArtifactRow → Bool) → Table → Option ArtifactRow
select_one p [] = none
select_one p (row ∷ rows) = if p row then some row else select_one p rows

abbrev pub has_id : Text → ArtifactRow → Bool
has_id id row = row.id == id

-- `update_artifact`: nothing where no row has the id
unfoldable pub update_artifact : ArtifactRecord → Table → Table
update_artifact r table = elim r.id [
  | none ↦ table
  | some id ↦ update_where (has_id id) (updated r) table
]

-- `update_artifact_status`
unfoldable pub update_artifact_status : Text → ArtifactStatus → Table → Table
update_artifact_status id status table =
    update_where (has_id id) (λ row. record row { status = status }) table

-- the statuses that `mark_stale` selects
abbrev pub is_live : ArtifactStatus → Bool
is_live status = status == built || status == building || status == planned

-- the `WHERE` of `mark_stale`
abbrev pub is_superseded : (profile_id stack_id : Text) → ArtifactRow → Bool
is_superseded profile_id stack_id row =
    row.profile_id == profile_id && row.stack_id == stack_id && is_live row.status

-- the values that `mark_stale` sets: the reason only if there is a non-empty one
unfoldable pub staled : Option Text → ArtifactRow → ArtifactRow
staled none row = record row { status = stale }
staled (some reason) row =
    if is_empty reason
    then record row { status = stale }
    else record row { status = stale; stale_reason = some reason }

-- `mark_stale`, with the count that it returns
unfoldable pub mark_stale : (profile_id stack_id : Text) → Option Text → Table → ℕ × Table
mark_stale profile_id stack_id reason table = (
  count_where (is_superseded profile_id stack_id) table,
  update_where (is_superseded profile_id stack_id) (staled reason) table,
)

-- `_row_to_record(row) if row else None`
abbrev pub as_record : Option ArtifactRow → Option ArtifactRecord
as_record none = none
as_record (some row) = some (row_to_record row)

unfoldable pub get_artifact_by_tag : Text → Table → Option ArtifactRecord
get_artifact_by_tag tag table = as_record (select_one (λ row. row.tag == tag) table)

unfoldable pub get_artifact_by_fingerprint : Text → Table → Option ArtifactRecord
get_artifact_by_fingerprint fp table = as_record (select_one (λ row. row.fingerprint == fp) table)

unfoldable pub get_artifact_by_id : Text → Table → Option ArtifactRecord
get_artifact_by_id id table = as_record (select_one (has_id id) table)

-- `prune_by_status`, with the count that it returns
unfoldable pub prune_by_status : ArtifactStatus → Table → ℕ × Table
prune_by_status status table = (
  count_where (λ row. row.status == status) table,
  delete_where (λ row. row.status == status) table,
)

-- `prune_artifact`: no id and an empty one delete nothing
unfoldable pub prune_artifact : Option Text → Table → Table
prune_artifact none table = table
prune_artifact (some id) table = if is_empty id then table else delete_where (has_id id) table
