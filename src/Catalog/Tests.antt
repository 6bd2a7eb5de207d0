-- ===== src/Catalog/Tests.antt =====
-- Runs of the catalog, and each theorem at a concrete input.
use stack_warden.Base.{
  ◌+◌, ◌≤◌, Text, codes, true, false, some, [], ◌∷◌, length, ◌==◌, text_eq, any, filter, text_beq,
  All, ok, ◌≡◌, refl,
}
use stack_warden.Catalog.Records.{
  built, artifact_status_eq, ArtifactRecord, as_stored, row_of_record,
}
use stack_warden.Catalog.Store.{
  Table, insert_artifact, has_id, count_where, get_artifact_by_id, get_artifact_by_tag,
  get_artifact_by_fingerprint,
}
use stack_warden.Catalog.Keys.{
  Reachable, created, then_step, inserts, Reachable-unique, Reachable-UniqueKeys,
}
use stack_warden.Catalog.RoundTrip.{get_artifact-insert_artifact}
use stack_warden.Catalog.Session.{commit_with_retry, commit_attempts, commit_with_retry-locked}
use stack_warden.Catalog.Queries.{is_built, count_protected, find_unused}
use stack_warden.Catalog.Pruning.{count_protected-find_unused, find_unused-Kept, Kept}
use stack_warden.Catalog.Samples.{simple_sql, waiting_session, Waiting, artifact}

abbrev old_build : ArtifactRecord
old_build = artifact (codes "a1") (codes "t1") built 10

abbrev new_build : ArtifactRecord
new_build = artifact (codes "b2") (codes "t2") built 20

abbrev one_row : Table
one_row = row_of_record (codes "a1") old_build ∷ []

abbrev two_rows : Table
two_rows = row_of_record (codes "a1") old_build ∷ row_of_record (codes "b2") new_build ∷ []

first_inserted : insert_artifact old_build [] ≡ ok one_row
unfolding insert_artifact any
first_inserted = refl

second_inserted : insert_artifact new_build one_row ≡ ok two_rows
unfolding insert_artifact any row_of_record text_beq
second_inserted = refl

two_rows-Reachable : Reachable two_rows
two_rows-Reachable =
    then_step (then_step created (inserts old_build first_inserted))
      (inserts new_build second_inserted)

Reachable-unique_example :
    ((id : Text) → count_where (has_id id) two_rows ≤ 1)
    × ((tag : Text) → count_where (λ row. row.tag == tag) two_rows ≤ 1)
    × ((fp : Text) → count_where (λ row. row.fingerprint == fp) two_rows ≤ 1)
Reachable-unique_example = Reachable-unique two_rows-Reachable

get_artifact-insert_artifact_example :
    (get_artifact_by_id (codes "b2") two_rows ≡ some (as_stored new_build))
    × (get_artifact_by_tag (codes "t2") two_rows ≡ some (as_stored new_build))
    × (get_artifact_by_fingerprint (codes "t2") two_rows ≡ some (as_stored new_build))
get_artifact-insert_artifact_example =
    get_artifact-insert_artifact new_build (codes "b2") one_row refl second_inserted

-- the write is lost, and the call returns normally
abbrev contended : Waiting
contended = record { saved = 1; pending = some 2; locks = 1 }

contended_returns : (commit_with_retry waiting_session contended).0 ≡ ok tt
unfolding commit_with_retry commit_attempts
contended_returns = refl

commit_with_retry-locked_example : (commit_with_retry waiting_session contended).1.saved ≡ 1
commit_with_retry-locked_example = commit_with_retry-locked waiting_session contended refl

count_protected-find_unused_example :
    (count_protected simple_sql two_rows + length (find_unused simple_sql false two_rows)
      ≡ count_where is_built two_rows)
    × (length (find_unused simple_sql true two_rows) ≡ count_where is_built two_rows)
count_protected-find_unused_example =
    count_protected-find_unused simple_sql two_rows (Reachable-UniqueKeys two_rows-Reachable)

find_unused-Kept_example : All (Kept simple_sql two_rows) (filter is_built two_rows)
find_unused-Kept_example = find_unused-Kept simple_sql two_rows
