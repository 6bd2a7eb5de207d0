-- ===== src/Builds/Tracked.antt =====
-- The record that an execution works on, and its row in the table:
-- packages/stackwarden/src/stackwarden/builders/plan_executor.py
use stack_warden.Base.{
  Text, false, none, some, [], ◌∷◌, ◌++◌, text_eq, ◌≡◌, refl, ap, ◌∙◌, arith, any, ok, ==_refl,
}
use stack_warden.Catalog.Records.{
  planned, ArtifactRecord, ArtifactRow, row_to_record, row_of_record, as_stored,
  row_to_record-row_of_record,
}
use stack_warden.Catalog.Store.{
  Table, updated, update_where, update_artifact, has_id, insert_artifact, same_keys,
}
use stack_warden.Catalog.Keys.{insert_artifact-eq-ok}

-- what `update_artifact` does not write
abbrev pub fixed : ArtifactRecord → ArtifactRecord
fixed r = record r {
  status = planned;
  image_id = none;
  digest = none;
  manifest_path = none;
  sbom_path = none;
  profile_snapshot_path = none;
  stack_snapshot_path = none;
  plan_path = none;
  variant_json = none;
  stale_reason = none;
  error_detail = none;
}

-- The last row of the table is that of the record, and no other has its id.
pub record Tracked (id : Text) (rows : Table) (r : ArtifactRecord) (t : Table) : Type 0 where
  pub row : ArtifactRow
  pub table : t ≡ rows ++ row ∷ []
  pub others : any (has_id id) rows ≡ false
  pub named : r.id ≡ some id
  pub row_id : row.id ≡ id
  pub row_record : row_to_record row ≡ as_stored r

update_where-absent :
    (id : Text) (f : ArtifactRow → ArtifactRow) (rows : Table) (row : ArtifactRow)
    → any (has_id id) rows ≡ false
    → row.id ≡ id
    → update_where (has_id id) f (rows ++ row ∷ []) ≡ rows ++ f row ∷ []
unfolding update_where any
update_where-absent id f [] row h k = rw (k, ==_refl id)
update_where-absent id f (r ∷ rows) row h k = ground (arith, update_where-absent id f rows row)

row_to_record-updated :
    (r r' : ArtifactRecord) (row : ArtifactRow)
    → row_to_record row ≡ as_stored r
    → fixed r' ≡ fixed r
    → row_to_record (updated r' row) ≡ as_stored r'
unfolding row_to_record updated
row_to_record-updated r r' row h k = ground arith

update_artifact-named :
    (r : ArtifactRecord) (id : Text) (t : Table)
    → r.id ≡ some id
    → update_artifact r t ≡ update_where (has_id id) (updated r) t
unfolding update_artifact
update_artifact-named r id t h = ground arith

-- an update keeps track of the record
pub update_artifact-Tracked :
    {id : Text} {rows : Table} (t : Table) (r r' : ArtifactRecord)
    → fixed r' ≡ fixed r
    → Tracked id rows r t
    → Tracked id rows r' (update_artifact r' t)
unfolding updated
update_artifact-Tracked {id} {rows} t r r' same k = record {
  row = updated r' k.row;
  table =
      update_artifact-named r' id t (ap (λ x. x.id) same ∙ k.named)
      ∙ rw k.table (update_where-absent id (updated r') rows k.row k.others k.row_id);
  others = k.others;
  named = ap (λ x. x.id) same ∙ k.named;
  row_id = k.row_id;
  row_record = row_to_record-updated r r' k.row k.row_record same;
}

same_id_of_same_keys :
    (new : ArtifactRow) (rows : Table)
    → any (same_keys new) rows ≡ false
    → any (has_id new.id) rows ≡ false
unfolding any
same_id_of_same_keys new [] h = refl
same_id_of_same_keys new (r ∷ rows) h = ground (arith, same_id_of_same_keys new rows)

-- an insertion begins it
pub insert_artifact-Tracked :
    (r : ArtifactRecord) (id : Text) (rows : Table) {t : Table}
    → r.id ≡ some id
    → insert_artifact r rows ≡ ok t
    → Tracked id rows r t
unfolding row_of_record
insert_artifact-Tracked r id rows named h =
    let (id', there, fresh, result) = insert_artifact-eq-ok r rows h in
    let same : id' ≡ id = cc in
    record {
      row = row_of_record id r;
      table = rw⁻¹ same result;
      others = same_id_of_same_keys (row_of_record id r) rows (rw⁻¹ same fresh);
      named = named;
      row_id = refl;
      row_record = row_to_record-row_of_record id r named;
    }
