-- ===== src/Catalog/RoundTrip.antt =====
-- What the lookups find after a write:
-- packages/stackwarden/src/stackwarden/catalog/store.py
use stack_warden.Base.{
  ap, Text, Bool, true, false, some, [], ◌∷◌, ◌++◌, ◌==◌, text_eq, ◌≡◌, refl, arith, any, ok,
  ==_refl,
}
use stack_warden.Catalog.Records.{
  ArtifactRecord, ArtifactRow, row_of_record, as_stored, row_to_record-row_of_record,
}
use stack_warden.Catalog.Store.{
  Table, same_keys, insert_artifact, select_one, has_id, as_record, get_artifact_by_id,
  get_artifact_by_tag, get_artifact_by_fingerprint,
}
use stack_warden.Catalog.Keys.{insert_artifact-eq-ok}

pub select_one-snoc :
    (p : ArtifactRow → Bool) (new : ArtifactRow) (rows : Table)
    → any p rows ≡ false
    → p new ≡ true
    → select_one p (rows ++ new ∷ []) ≡ some new
unfolding select_one any
select_one-snoc p new [] h k = ground arith
select_one-snoc p new (row ∷ rows) h k = ground (arith, select_one-snoc p new rows)

any_of_any :
    (p q : ArtifactRow → Bool) (rows : Table)
    → any q rows ≡ false
    → ((row : ArtifactRow) → p row ≡ true → q row ≡ true)
    → any p rows ≡ false
unfolding any
any_of_any p q [] h imp = refl
any_of_any p q (row ∷ rows) h imp = ground (arith, any_of_any p q rows (ground arith) imp, imp row)

module _ (r : ArtifactRecord) (id : Text) (t : Table) (named : r.id ≡ some id)
    (fresh : any (same_keys (row_of_record id r)) t ≡ false) where
  found_by :
      (p : ArtifactRow → Bool)
      → p (row_of_record id r) ≡ true
      → ((row : ArtifactRow) → p row ≡ true → same_keys (row_of_record id r) row ≡ true)
      → as_record (select_one p (t ++ row_of_record id r ∷ [])) ≡ some (as_stored r)
  found_by p here imp =
      rw
        (select_one-snoc p (row_of_record id r) t
          (any_of_any p (same_keys (row_of_record id r)) t fresh imp) here)
        (ap some (row_to_record-row_of_record id r named))

-- An inserted artifact is found by its id, its tag and its fingerprint as it was inserted, but for
-- the time zone of its time, which is lost, a schema version 0 of the stack or the profile, which reads
-- as 1, and one of the layers below 1, which reads as 1 too.
pub get_artifact-insert_artifact :
    (r : ArtifactRecord) (id : Text) (t : Table) {t' : Table}
    → r.id ≡ some id
    → insert_artifact r t ≡ ok t'
    → (get_artifact_by_id id t' ≡ some (as_stored r))
      × (get_artifact_by_tag r.tag t' ≡ some (as_stored r))
      × (get_artifact_by_fingerprint r.fingerprint t' ≡ some (as_stored r))
unfolding get_artifact_by_id get_artifact_by_tag get_artifact_by_fingerprint row_of_record
get_artifact-insert_artifact r id t named h =
    let (id', there, fresh', result) = insert_artifact-eq-ok r t h in
    let same : id' ≡ id = cc in
    let fresh : any (same_keys (row_of_record id r)) t ≡ false = rw⁻¹ same fresh' in
    rw (result, same)
      (
        found_by r id t named fresh (has_id id) (==_refl id) (λ row k. ground arith),
        found_by r id t named fresh (λ row. row.tag == r.tag) (==_refl r.tag)
            (λ row k. ground arith),
        found_by r id t named fresh (λ row. row.fingerprint == r.fingerprint)
            (==_refl r.fingerprint) (λ row k. ground arith),
      )
