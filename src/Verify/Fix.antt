-- ===== src/Verify/Fix.antt =====
-- What follows a failed verification: `apply_fix` and `_classify_reason` of
-- packages/stackwarden/src/stackwarden/domain/verify.py
-- The lists of actions taken, which are messages, are left out.
use stack_warden.Base.{
  ◌∙◌, map, ◌||◌, Text, codes, Bool, true, false, Option, none, some, List, [], ◌∷◌, ◌++◌, ◌==◌,
  text_eq, if◌then◌else◌, any, ◌≡◌, ◌⊎◌, refl, arith, Bool-cases, Option-cases, inl, inr, ==_refl,
  ap, sym, eq_of_==,
}
use stack_warden.Catalog.Records.{ArtifactRecord, ArtifactRow, stale, row_to_record}
use stack_warden.Catalog.Store.{
  Table, same_keys, has_id, select_one, as_record, update_where, update_artifact, updated,
  get_artifact_by_id, get_artifact_by_tag, get_artifact_by_fingerprint,
}
use stack_warden.Catalog.Keys.{UniqueKeys}
use stack_warden.Verify.{
  VerifyErrorCode, fingerprint_mismatch, label_missing, image_missing, catalog_missing,
  recompute_diverged, unknown, VerifyReport, resolve_artifact, or_else_record,
}

abbrev pub code_beq : VerifyErrorCode → VerifyErrorCode → Bool
code_beq fingerprint_mismatch fingerprint_mismatch = true
code_beq label_missing label_missing = true
code_beq image_missing image_missing = true
code_beq catalog_missing catalog_missing = true
code_beq recompute_diverged recompute_diverged = true
code_beq unknown unknown = true
code_beq _ _ = false

-- `code in report.error_codes`
abbrev pub has_code : VerifyErrorCode → List VerifyErrorCode → Bool
has_code code listed = any (code_beq code) listed

-- `code_priority`
abbrev pub code_priority : List (VerifyErrorCode × Text)
code_priority =
    (recompute_diverged, codes "fingerprint_mismatch")
    ∷ (fingerprint_mismatch, codes "fingerprint_mismatch")
    ∷ (label_missing, codes "MISSING_LABELS")
    ∷ (image_missing, codes "IMAGE_MISSING")
    ∷ (catalog_missing, codes "CATALOG_MISSING")
    ∷ []

-- the reason of the first code that is listed
unfoldable pub first_reason : List (VerifyErrorCode × Text) → List VerifyErrorCode → Text
first_reason [] error_codes = codes "VERIFICATION_FAILED"
first_reason ((code, reason) ∷ rest) error_codes =
    let later = first_reason rest error_codes in if has_code code error_codes then reason else later

-- `_classify_reason`, of the error codes of a report
unfoldable pub classify_reason : List VerifyErrorCode → Text
classify_reason = first_reason code_priority

-- the record that `apply_fix` writes
abbrev pub distrusted : VerifyReport → ArtifactRecord → ArtifactRecord
distrusted report r = record r {
  status = stale;
  stale_reason = some (codes "verify:" ++ classify_reason report.error_codes);
}

-- `apply_fix`, of a record that was looked up
unfoldable pub fix_found : VerifyReport → Option ArtifactRecord → Table → Table
fix_found report none table = table
fix_found report (some r) table = update_artifact (distrusted report r) table

-- `apply_fix`
unfoldable pub apply_fix : Text → VerifyReport → Table → Table
apply_fix tag_or_id report table =
    if report.is_valid then table else fix_found report (resolve_artifact tag_or_id table) table

any-select_one :
    (p q : ArtifactRow → Bool) (rows : Table) (row : ArtifactRow)
    → select_one p rows ≡ some row
    → q row ≡ true
    → any q rows ≡ true
unfolding select_one any
any-select_one p q [] row h k = ground arith
any-select_one p q (r ∷ rows) row h k = ground (arith, any-select_one p q rows row)

-- the row that a condition selects is the one that its id selects
select_one-has_id :
    (p : ArtifactRow → Bool) (rows : Table) (row : ArtifactRow)
    → UniqueKeys rows
    → select_one p rows ≡ some row
    → select_one (has_id row.id) rows ≡ some row
unfolding select_one any
select_one-has_id p [] row u h = ground arith
select_one-has_id p (r ∷ rows) row u h = ground (
  arith,
  select_one-has_id p rows row,
  any-select_one p (same_keys r) rows row,
  ==_refl row.id,
  eq_of_== r.id row.id,
)

select_one-update_where :
    (id : Text) (f : ArtifactRow → ArtifactRow) (rows : Table) (row : ArtifactRow)
    → ((r : ArtifactRow) → (f r).id ≡ r.id)
    → select_one (has_id id) rows ≡ some row
    → select_one (has_id id) (update_where (has_id id) f rows) ≡ some (f row)
unfolding select_one update_where
select_one-update_where id f [] row keeps h = ground arith
select_one-update_where id f (r ∷ rows) row keeps h =
    ground (arith, select_one-update_where id f rows row keeps, keeps r)

-- a record that was looked up is that of the row with its id
abbrev IsStored : Table → ArtifactRecord → Type 0
IsStored rows r =
    (row : ArtifactRow) × (r ≡ row_to_record row) × (select_one (has_id row.id) rows ≡ some row)

as_record-IsStored :
    (p : ArtifactRow → Bool) (rows : Table) (r : ArtifactRecord)
    → UniqueKeys rows
    → as_record (select_one p rows) ≡ some r
    → IsStored rows r
as_record-IsStored p rows r u h = elim (Option-cases (select_one p rows)) [
  | inl missing ↦ cc
  | inr (row, there) ↦ (row, cc, select_one-has_id p rows row u there)
]

or_else_record-cases :
    (a b : Option ArtifactRecord) (r : ArtifactRecord)
    → or_else_record a b ≡ some r
    → (a ≡ some r) ⊎ (b ≡ some r)
or_else_record-cases none b r h = inr h
or_else_record-cases (some x) b r h = inl h

resolve_artifact-IsStored :
    (tag_or_id : Text) (rows : Table) (r : ArtifactRecord)
    → UniqueKeys rows
    → resolve_artifact tag_or_id rows ≡ some r
    → IsStored rows r
unfolding resolve_artifact get_artifact_by_tag get_artifact_by_fingerprint get_artifact_by_id
resolve_artifact-IsStored tag_or_id rows r u h = elim (or_else_record-cases _ _ r h) [
  | inl by_tag ↦ as_record-IsStored (λ row. row.tag == tag_or_id) rows r u by_tag
  | inr later ↦ elim (or_else_record-cases _ _ r later) [
    | inl by_fingerprint ↦
        as_record-IsStored (λ row. row.fingerprint == tag_or_id) rows r u by_fingerprint
    | inr by_id ↦ as_record-IsStored (has_id tag_or_id) rows r u by_id
  ]
]

get_artifact_by_id-update_artifact :
    (report : VerifyReport) (r : ArtifactRecord) (row : ArtifactRow) (table : Table)
    → r ≡ row_to_record row
    → select_one (has_id row.id) table ≡ some row
    → get_artifact_by_id row.id (update_artifact (distrusted report r) table)
      ≡ some (distrusted report r)
unfolding update_artifact get_artifact_by_id row_to_record updated
get_artifact_by_id-update_artifact report r row table same there = rw same (
    ap as_record (
      select_one-update_where row.id (updated (distrusted report (row_to_record row))) table row
        (λ r. refl) there))

-- where no row has an id, an update of that id changes nothing
update_where-none :
    (id : Text) (f g : ArtifactRow → ArtifactRow) (rows : Table)
    → any (has_id id) rows ≡ false
    → update_where (has_id id) f rows ≡ update_where (has_id id) g rows
unfolding any update_where
update_where-none id f g [] h = refl
update_where-none id f g (r ∷ rows) h = ground (arith, update_where-none id f g rows)

-- no other row has the id of a row, where keys are unique
any-has_id :
    (row : ArtifactRow) (rows : Table)
    → any (same_keys row) rows ≡ false
    → any (has_id row.id) rows ≡ false
unfolding any
any-has_id row [] h = refl
any-has_id row (r ∷ rows) h =
    ground (arith, any-has_id row rows, eq_of_== r.id row.id, ==_refl row.id)

-- two updates of an id are the same, if they are on the row that has it
update_where_ext :
    (f g : ArtifactRow → ArtifactRow) (rows : Table) (row : ArtifactRow)
    → UniqueKeys rows
    → select_one (has_id row.id) rows ≡ some row
    → f row ≡ g row
    → update_where (has_id row.id) f rows ≡ update_where (has_id row.id) g rows
unfolding update_where select_one
update_where_ext f g [] row u h same = refl
update_where_ext f g (r ∷ rows) row u h same = elim (Bool-cases (has_id row.id r)) [
  | inl here ↦
      let head : r ≡ row = ground arith in
      rw (head, ==_refl row.id, same)
        (ap (λ rest. g row ∷ rest)
          (update_where-none row.id f g rows (any-has_id row rows (rw head at u.0))))
  | inr there ↦ ground (arith, update_where_ext f g rows row u.1)
]

-- the reason that goes with the codes of a report
abbrev pub reason_of : List VerifyErrorCode → Text
reason_of error_codes =
    if has_code recompute_diverged error_codes || has_code fingerprint_mismatch error_codes
    then codes "fingerprint_mismatch"
    else if has_code label_missing error_codes
    then codes "MISSING_LABELS"
    else if has_code image_missing error_codes
    then codes "IMAGE_MISSING"
    else if has_code catalog_missing error_codes
    then codes "CATALOG_MISSING"
    else codes "VERIFICATION_FAILED"

classify_reason-eq-reason_of :
    (error_codes : List VerifyErrorCode) → classify_reason error_codes ≡ reason_of error_codes
unfolding classify_reason first_reason
classify_reason-eq-reason_of error_codes = ground arith

-- A row is made stale if it has the id.
abbrev pub stale_where : (id reason : Text) → ArtifactRow → ArtifactRow
stale_where id reason row =
    if row.id == id
    then record row { status = stale; stale_reason = some (codes "verify:" ++ reason) }
    else row

update_where-map :
    (id reason : Text) (rows : Table)
    → update_where
        (has_id id)
        (λ row. record row { status = stale; stale_reason = some (codes "verify:" ++ reason) })
        rows
      ≡ map (stale_where id reason) rows
unfolding update_where
update_where-map id reason [] = refl
update_where-map id reason (row ∷ rows) = rw (update_where-map id reason rows) refl

update_artifact-stale_where :
    (report : VerifyReport) (r : ArtifactRecord) (row : ArtifactRow) (table : Table)
    → r ≡ row_to_record row
    → UniqueKeys table
    → select_one (has_id row.id) table ≡ some row
    → update_artifact (distrusted report r) table
      ≡ map (stale_where row.id (classify_reason report.error_codes)) table
unfolding update_artifact row_to_record updated
update_artifact-stale_where report r row table same u there = rw same (
    update_where_ext (updated (distrusted report (row_to_record row)))
      (λ x. record x {
        status = stale;
        stale_reason = some (codes "verify:" ++ classify_reason report.error_codes);
      })
      table row u there refl
    ∙ update_where-map row.id (classify_reason report.error_codes) table)

-- In a catalog whose keys are unique, a report that is valid changes nothing. One that is not makes
-- the artifact that was looked up STALE, with `verify:` and the reason that goes with the report's
-- codes: a fingerprint that differs goes before missing labels, these before a missing image, and this
-- before a missing record. It leaves the other fields of the artifact and all other rows, and
-- the artifact is read back so by its id.
pub apply_fix-get_artifact_by_id :
    (tag_or_id : Text) (report : VerifyReport) (table : Table) (r : ArtifactRecord)
    → UniqueKeys table
    → resolve_artifact tag_or_id table ≡ some r
    → let reason = reason_of report.error_codes in
      (id : Text) × (r.id ≡ some id)
      × (apply_fix tag_or_id report table
          ≡ (if report.is_valid then table else map (stale_where id reason) table))
      × (get_artifact_by_id id (apply_fix tag_or_id report table)
          ≡ some (
              if report.is_valid
              then r
              else record r { status = stale; stale_reason = some (codes "verify:" ++ reason) }))
unfolding apply_fix fix_found get_artifact_by_id row_to_record
apply_fix-get_artifact_by_id tag_or_id report table r u found =
    let (row, same, there) = resolve_artifact-IsStored tag_or_id table r u found in
    (
      row.id,
      ap (λ x. x.id) same,
      elim (Bool-cases report.is_valid) [
        | inl passed ↦ rw passed refl
        | inr failed ↦
            rw (failed, found, ← classify_reason-eq-reason_of report.error_codes)
              (update_artifact-stale_where report r row table same u there)
      ],
      elim (Bool-cases report.is_valid) [
        | inl passed ↦ rw (passed, there) (ap some (sym same))
        | inr failed ↦
            rw (failed, found, ← classify_reason-eq-reason_of report.error_codes)
              (get_artifact_by_id-update_artifact report r row table same there)
      ],
    )
