-- ===== src/Catalog/Queries.antt =====
-- The queries that order rows by their time, and what pruning keeps:
-- packages/stackwarden/src/stackwarden/catalog/store.py and catalog/queries.py
-- `ORDER BY created_at DESC` and `ILIKE` are the database's.
use mathlib.Core.List.{Permᴰ}
use stack_warden.Base.{
  ℕ, zero, suc, Text, codes, nat_eq, Bool, true, Option, none, some, List, [], ◌∷◌, map, mem, ◌==◌,
  ◌&&◌, ◌||◌, not, text_eq, pair_eq, option_eq, is_empty, filter, All, ◌≤◌, if◌then◌else◌,
}
use stack_warden.Catalog.Records.{
  ArtifactStatus, planned, building, built, failed, stale, artifact_status_eq, ArtifactRecord,
  ArtifactRow, row_to_record,
}
use stack_warden.Catalog.Store.{Table, as_record, prune_by_status}

-- every row is at least as new as those after it
abbrev pub IsNewestFirst : Table → Type 0
IsNewestFirst [] = Unit
IsNewestFirst (row ∷ rows) =
    All (λ other. other.created_at ≤ row.created_at) rows × IsNewestFirst rows

abbrev pub first {ℓ} : {A : Type ℓ} → List A → Option A
first [] = none
first (x ∷ xs) = some x

pub record Sql : Type 0 where
  -- `ORDER BY created_at DESC`; rows of the same time come in any order
  pub newest_first : Table → Table
  pub newest_first-Permᴰ : (t : Table) → Permᴰ (newest_first t) t
  pub newest_first-IsNewestFirst : (t : Table) → IsNewestFirst (newest_first t)
  -- `column ILIKE '%q%'`, at the column's value and `q`
  pub ilike : Text → Text → Bool

-- a condition that a search adds only for a value that is given and not empty
abbrev pub when_given : (Text → Bool) → Option Text → Bool
when_given test none = true
when_given test (some value) = is_empty value || test value

-- a number that is given and not 0
abbrev pub when_positive : (ℕ → Table → Table) → Option ℕ → Table → Table
when_positive cut none rows = rows
when_positive cut (some zero) rows = rows
when_positive cut (some (suc n)) rows = cut (suc n) rows

unfoldable pub drop {ℓ} : {A : Type ℓ} → ℕ → List A → List A
drop zero xs = xs
drop (suc i) [] = []
drop (suc i) (x ∷ xs) = drop i xs

unfoldable pub take {ℓ} : {A : Type ℓ} → ℕ → List A → List A
take zero xs = []
take (suc i) [] = []
take (suc i) (x ∷ xs) = x ∷ take i xs

-- the value of a status in the database
abbrev pub status_value : ArtifactStatus → Text
status_value planned = codes "planned"
status_value building = codes "building"
status_value built = codes "built"
status_value failed = codes "failed"
status_value stale = codes "stale"

-- (profile, stack, variant)
abbrev pub group : ArtifactRow → Text × (Text × Option Text)
group row = (row.profile_id, (row.stack_id, row.variant_json))

abbrev pub Group : Type 0
Group = Text × (Text × Option Text)

abbrev pub is_built : ArtifactRow → Bool
is_built row = row.status == built

-- the loop of `find_unused` that collects the ids to protect
unfoldable pub protect : (seen : List Group) → Table → List Text
protect seen [] = []
protect seen (row ∷ rows) =
    if mem (group row) seen then protect seen rows else row.id ∷ protect (group row ∷ seen) rows

-- the loop of `count_protected`
unfoldable pub count_groups : (seen : List Group) → Table → ℕ
count_groups seen [] = 0
count_groups seen (row ∷ rows) =
    if mem (group row) seen
    then count_groups seen rows
    else suc (count_groups (group row ∷ seen) rows)

module _ (sql : Sql) where
  -- `search_artifacts`
  unfoldable pub search_artifacts :
      (profile_id stack_id status q : Option Text) (limit offset : Option ℕ)
      → Table
      → List ArtifactRecord
  search_artifacts profile_id stack_id status q limit offset table =
      let wanted : ArtifactRow → Bool = λ row.
        when_given (λ v. row.profile_id == v) profile_id
        && (when_given (λ v. row.stack_id == v) stack_id
            && (when_given (λ v. status_value row.status == v) status
                && when_given
                    (λ v.
                      sql.ilike row.tag v
                      || sql.ilike row.fingerprint v
                      || sql.ilike row.base_image v)
                    q)) in
      let rows = sql.newest_first (filter wanted table) in
      map row_to_record (when_positive take limit (when_positive drop offset rows))

  -- the rows that are `BUILT`, the newest first
  unfoldable pub built_rows : Table → Table
  built_rows table = sql.newest_first (filter is_built table)

  -- `get_newest_build`
  unfoldable pub get_newest_build : (stack_id profile_id : Text) → Table → Option ArtifactRecord
  get_newest_build stack_id profile_id table = as_record (
      first (
        sql.newest_first (
          filter (λ row. row.stack_id == stack_id && (row.profile_id == profile_id && is_built row))
            table)))

  -- the rows that `find_unused` returns
  unfoldable pub unused_rows : (force : Bool) → Table → Table
  unused_rows force table =
      let rows = built_rows table in
      let protected = if force then [] else protect [] rows in
      filter (λ row. not (mem row.id protected)) rows

  -- `find_unused`
  unfoldable pub find_unused : (force : Bool) → Table → List ArtifactRecord
  find_unused force table = map row_to_record (unused_rows force table)

  -- `count_protected`
  unfoldable pub count_protected : Table → ℕ
  count_protected table = count_groups [] (built_rows table)

-- `prune_failed` and `prune_stale` of catalog/queries.py
unfoldable pub prune_failed : Table → ℕ × Table
prune_failed table = prune_by_status failed table

unfoldable pub prune_stale : Table → ℕ × Table
prune_stale table = prune_by_status stale table
