-- ===== src/Catalog/Unused.antt =====
-- What pruning keeps: packages/stackwarden/src/stackwarden/catalog/store.py
use mathlib.Core.Path.{subst}
use mathlib.Core.List.{Memᴰ}
use stack_warden.Base.{
  eq_of_==, ==_refl, ◌+◌, ◌≤◌, Text, true, false, List, [], ◌∷◌, length, mem, ◌==◌, not, text_eq,
  pair_eq, option_eq, filter, All, any, ◌≡◌, refl, arith, Bool-cases, inl, inr, ◌⊎◌,
}
use stack_warden.Catalog.Records.{ArtifactRow, artifact_status_eq}
use stack_warden.Catalog.Store.{Table, has_id}
use stack_warden.Catalog.Queries.{IsNewestFirst, Group, group, protect, count_groups}

-- ids that occur once
abbrev pub DistinctIds : Table → Type 0
DistinctIds [] = Unit
DistinctIds (row ∷ rows) = (any (has_id row.id) rows ≡ false) × DistinctIds rows

protect-not-mem :
    (id : Text) (seen : List Group) (rows : Table)
    → any (has_id id) rows ≡ false
    → mem id (protect seen rows) ≡ false
unfolding protect any mem
protect-not-mem id seen [] h = refl
protect-not-mem id seen (row ∷ rows) h =
    ground (arith, protect-not-mem id seen rows, protect-not-mem id (group row ∷ seen) rows)

-- the rows that a list of ids does not protect
abbrev pub left_by : List Text → Table → Table
left_by protected rows = filter (λ row. not (mem row.id protected)) rows

left_by-skip :
    (id : Text) (ids : List Text) (rows : Table)
    → any (has_id id) rows ≡ false
    → left_by (id ∷ ids) rows ≡ left_by ids rows
unfolding filter any mem
left_by-skip id ids [] h = refl
left_by-skip id ids (row ∷ rows) h =
    ground (arith, left_by-skip id ids rows, eq_of_== id row.id, ==_refl row.id)

-- of rows with distinct ids, each is protected or left
pub count_groups-left_by :
    (seen : List Group) (rows : Table)
    → DistinctIds rows
    → count_groups seen rows + length (left_by (protect seen rows) rows) ≡ length rows
unfolding count_groups protect filter mem
count_groups-left_by seen [] d = refl
count_groups-left_by seen (row ∷ rows) d = ground (
  arith,
  count_groups-left_by seen rows d.1,
  count_groups-left_by (group row ∷ seen) rows d.1,
  protect-not-mem row.id seen rows d.0,
  ==_refl row.id,
  left_by-skip row.id (protect (group row ∷ seen) rows) rows d.0,
)

-- The row that stands for a group: it is protected, and as new as any of the group.
pub record Keeper (ids : List Text) (rows : Table) (row : ArtifactRow) : Type 0 where
  pub keeper : ArtifactRow
  pub there : Memᴰ keeper rows
  pub kept : mem keeper.id ids ≡ true
  pub same_group : group keeper ≡ group row
  pub as_new : row.created_at ≤ keeper.created_at

-- a longer list protects as well
widen :
    (ids ids' : List Text) (r : ArtifactRow) (within : Table) (row : ArtifactRow)
    → ((id : Text) → mem id ids ≡ true → mem id ids' ≡ true)
    → Keeper ids within row
    → Keeper ids' (r ∷ within) row
widen ids ids' r within row more k = record {
  keeper = k.keeper;
  there = Memᴰ.tail k.there;
  kept = more k.keeper.id k.kept;
  same_group = k.same_group;
  as_new = k.as_new;
}

abbrev pub Keepers : (seen : List Group) (ids : List Text) (within rows : Table) → Type 0
Keepers seen ids within rows =
    All (λ row. (mem (group row) seen ≡ true) ⊎ Keeper ids within row) rows

Keepers-cons :
    (seen : List Group) (ids : List Text) (r : ArtifactRow) (within rows : Table)
    → Keepers seen ids within rows
    → Keepers seen ids (r ∷ within) rows
Keepers-cons seen ids r within [] k = tt
Keepers-cons seen ids r within (row ∷ rows) (inl old, k) =
    (inl old, Keepers-cons seen ids r within rows k)
Keepers-cons seen ids r within (row ∷ rows) (inr new, k) =
    (inr (widen ids ids r within row (λ id m. m) new), Keepers-cons seen ids r within rows k)

-- one more group is protected, by its newest row
Keeper-cons :
    (seen : List Group) (ids : List Text) (r : ArtifactRow) (within : Table) (row : ArtifactRow)
    → row.created_at ≤ r.created_at
    → (mem (group row) (group r ∷ seen) ≡ true) ⊎ Keeper ids within row
    → (mem (group row) seen ≡ true) ⊎ Keeper (r.id ∷ ids) (r ∷ within) row
unfolding mem
Keeper-cons seen ids r within row newer (inr new) =
    inr (widen ids (r.id ∷ ids) r within row (λ id m. ground arith) new)
Keeper-cons seen ids r within row newer (inl old) = elim (Bool-cases (group r == group row)) [
  | inl same ↦ inr (record {
    keeper = r;
    there = Memᴰ.head refl;
    kept = ground (arith, ==_refl r.id);
    same_group = eq_of_== (group r) (group row) same;
    as_new = newer;
  })
  | inr other ↦ inl (rw other at old)
]

Keepers-protected :
    (seen : List Group) (ids : List Text) (r : ArtifactRow) (within rows : Table)
    → All (λ other. other.created_at ≤ r.created_at) rows
    → Keepers (group r ∷ seen) ids within rows
    → Keepers seen (r.id ∷ ids) (r ∷ within) rows
Keepers-protected seen ids r within [] newer k = tt
Keepers-protected seen ids r within (row ∷ rows) newer k = (
  Keeper-cons seen ids r within row newer.0 k.0,
  Keepers-protected seen ids r within rows newer.1 k.1,
)

protect-old :
    (seen : List Group) (row : ArtifactRow) (rows : Table)
    → mem (group row) seen ≡ true
    → protect seen rows ≡ protect seen (row ∷ rows)
unfolding protect
protect-old seen row rows old = ground arith

protect-new :
    (seen : List Group) (row : ArtifactRow) (rows : Table)
    → mem (group row) seen ≡ false
    → row.id ∷ protect (group row ∷ seen) rows ≡ protect seen (row ∷ rows)
unfolding protect
protect-new seen row rows new = ground arith

Keeper-head :
    (ids : List Text) (row : ArtifactRow) (rows : Table) → Keeper (row.id ∷ ids) (row ∷ rows) row
unfolding mem
Keeper-head ids row rows = record {
  keeper = row;
  there = Memᴰ.head refl;
  kept = ground (arith, ==_refl row.id);
  same_group = refl;
  as_new = ground arith;
}

-- the first row of each group is protected, which is its newest
pub protect-Keepers :
    (seen : List Group) (rows : Table)
    → IsNewestFirst rows
    → Keepers seen (protect seen rows) rows rows
protect-Keepers seen [] sorted = tt
protect-Keepers seen (row ∷ rows) sorted = elim (Bool-cases (mem (group row) seen)) [
  | inl old ↦
      subst (λ ids. Keepers seen ids (row ∷ rows) (row ∷ rows)) (protect-old seen row rows old)
        (
          inl old,
          Keepers-cons seen (protect seen rows) row rows rows (protect-Keepers seen rows sorted.1),
        )
  | inr new ↦
      subst (λ ids. Keepers seen ids (row ∷ rows) (row ∷ rows)) (protect-new seen row rows new)
        (
          inr (Keeper-head (protect (group row ∷ seen) rows) row rows),
          Keepers-protected seen (protect (group row ∷ seen) rows) row rows rows sorted.0
              (protect-Keepers (group row ∷ seen) rows sorted.1),
        )
]
