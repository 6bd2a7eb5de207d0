-- ===== src/Catalog/Pruning.antt =====
-- What `find_unused` and `count_protected` of
-- packages/stackwarden/src/stackwarden/catalog/store.py say of a table, in whatever order the
-- database returns rows of the same time.
use mathlib.Core.List.Permᴰ
use mathlib.Core.List.{Permᴰ, Memᴰ}
use mathlib.Core.Path.{subst}
use stack_warden.Base.{
  ◌⊎◌, suc, ◌+◌, ◌≤◌, Text, Bool, true, false, List, [], ◌∷◌, length, map, mem, text_eq, pair_eq,
  option_eq, filter, All, any, ◌≡◌, refl, sym, ap, ◌∙◌, arith, inl, inr, eq_of_==, ==_refl,
}
use stack_warden.Catalog.Records.{ArtifactRow, row_to_record}
use stack_warden.Catalog.Store.{Table, count_where, has_id, same_keys}
use stack_warden.Catalog.Keys.{UniqueKeys}
use stack_warden.Catalog.Queries.{
  Sql, group, is_built, protect, built_rows, unused_rows, find_unused, count_protected,
}
use stack_warden.Catalog.Unused.{
  DistinctIds, left_by, count_groups-left_by, Keeper, Keepers, protect-Keepers,
}

Permᴰ-any : {l m : Table} (p : ArtifactRow → Bool) → Permᴰ l m → any p l ≡ any p m
unfolding any
Permᴰ-any p Permᴰ.nil = refl
Permᴰ-any p (Permᴰ.cons e d) = rw (e, Permᴰ-any p d)
Permᴰ-any p (Permᴰ.swap {a} {b} e f) = rw⁻¹ (e, f) (ground arith)
Permᴰ-any p (Permᴰ.trans d e) = Permᴰ-any p d ∙ Permᴰ-any p e

Permᴰ-length : {l m : Table} → Permᴰ l m → length l ≡ length m
Permᴰ-length Permᴰ.nil = refl
Permᴰ-length (Permᴰ.cons e d) = ap suc (Permᴰ-length d)
Permᴰ-length (Permᴰ.swap e f) = refl
Permᴰ-length (Permᴰ.trans d e) = Permᴰ-length d ∙ Permᴰ-length e

Permᴰ-Memᴰ : {l m : Table} (x : ArtifactRow) → Permᴰ l m → Memᴰ x l → Memᴰ x m
Permᴰ-Memᴰ x Permᴰ.nil h = elim h [ ]
Permᴰ-Memᴰ x (Permᴰ.cons e d) (Memᴰ.head h) = Memᴰ.head (h ∙ e)
Permᴰ-Memᴰ x (Permᴰ.cons e d) (Memᴰ.tail h) = Memᴰ.tail (Permᴰ-Memᴰ x d h)
Permᴰ-Memᴰ x (Permᴰ.swap e f) (Memᴰ.head h) = Memᴰ.tail (Memᴰ.head (h ∙ e))
Permᴰ-Memᴰ x (Permᴰ.swap e f) (Memᴰ.tail (Memᴰ.head h)) = Memᴰ.head (h ∙ f)
Permᴰ-Memᴰ x (Permᴰ.swap e f) (Memᴰ.tail (Memᴰ.tail h)) = Memᴰ.tail (Memᴰ.tail h)
Permᴰ-Memᴰ x (Permᴰ.trans d e) h = Permᴰ-Memᴰ x e (Permᴰ-Memᴰ x d h)

module _ (P : ArtifactRow → Type 0) where
  Permᴰ-All : {l m : Table} → Permᴰ l m → All P l → All P m
  Permᴰ-All Permᴰ.nil a = a
  Permᴰ-All (Permᴰ.cons e d) a = (subst P e a.0, Permᴰ-All d a.1)
  Permᴰ-All (Permᴰ.swap e f) a = (subst P f a.1.0, (subst P e a.0, a.1.1))
  Permᴰ-All (Permᴰ.trans d e) a = Permᴰ-All e (Permᴰ-All d a)

swap-DistinctIds :
    (a b : ArtifactRow) (l : Table) → DistinctIds (a ∷ b ∷ l) → DistinctIds (b ∷ a ∷ l)
unfolding any
swap-DistinctIds a b l u =
    ground (arith, eq_of_== a.id b.id, eq_of_== b.id a.id, ==_refl a.id, ==_refl b.id)

Permᴰ-DistinctIds : {l m : Table} → Permᴰ l m → DistinctIds l → DistinctIds m
unfolding any
Permᴰ-DistinctIds Permᴰ.nil u = u
Permᴰ-DistinctIds (Permᴰ.cons {b} {l₂ = m} e d) u =
    (rw (sym e) (sym (Permᴰ-any (has_id _) d) ∙ u.0), Permᴰ-DistinctIds d u.1)
Permᴰ-DistinctIds (Permᴰ.swap {a} {b} {b' = b'} {l = l} e f) u =
    subst (λ x. DistinctIds (x ∷ b' ∷ l)) f
      (subst (λ y. DistinctIds (b ∷ y ∷ l)) e (swap-DistinctIds a b l u))
Permᴰ-DistinctIds (Permᴰ.trans d e) u = Permᴰ-DistinctIds e (Permᴰ-DistinctIds d u)

filter-not-any :
    (row : ArtifactRow) (p : ArtifactRow → Bool) (rows : Table)
    → any (same_keys row) rows ≡ false
    → any (has_id row.id) (filter p rows) ≡ false
unfolding any filter
filter-not-any row p [] h = refl
filter-not-any row p (r ∷ rows) h = ground (arith, filter-not-any row p rows)

filter-DistinctIds :
    (p : ArtifactRow → Bool) (rows : Table) → UniqueKeys rows → DistinctIds (filter p rows)
unfolding filter
filter-DistinctIds p [] u = tt
filter-DistinctIds p (row ∷ rows) u =
    ground (arith, filter-not-any row p rows u.0, filter-DistinctIds p rows u.1)

length-filter :
    (p : ArtifactRow → Bool) (rows : Table) → length (filter p rows) ≡ count_where p rows
unfolding filter count_where
length-filter p [] = refl
length-filter p (row ∷ rows) = ground (arith, length-filter p rows)

length-map : (rows : Table) → length (map row_to_record rows) ≡ length rows
length-map [] = refl
length-map (row ∷ rows) = ap suc (length-map rows)

module _ (sql : Sql) (t : Table) where
  in_order : Permᴰ (built_rows sql t) (filter is_built t)
  unfolding built_rows
  in_order = sql.newest_first-Permᴰ (filter is_built t)

  built_rows-length : length (built_rows sql t) ≡ count_where is_built t
  built_rows-length = Permᴰ-length in_order ∙ length-filter is_built t

  built_rows-DistinctIds : UniqueKeys t → DistinctIds (built_rows sql t)
  built_rows-DistinctIds u =
      Permᴰ-DistinctIds (Permᴰ.symm in_order) (filter-DistinctIds is_built t u)

  nothing_protected : (rows : Table) → left_by [] rows ≡ rows
  unfolding filter mem
  nothing_protected [] = refl
  nothing_protected (row ∷ rows) = ap (λ r. row ∷ r) (nothing_protected rows)

  -- Every artifact that is `BUILT` is counted as protected or returned as unused, where no two rows
  -- share a key; and with `force` all of them are returned.
  pub count_protected-find_unused :
      UniqueKeys t
      → (count_protected sql t + length (find_unused sql false t) ≡ count_where is_built t)
        × (length (find_unused sql true t) ≡ count_where is_built t)
  unfolding count_protected find_unused unused_rows
  count_protected-find_unused u = (
    rw (length-map (left_by (protect [] (built_rows sql t)) (built_rows sql t)))
        (count_groups-left_by [] (built_rows sql t) (built_rows-DistinctIds u) ∙ built_rows-length),
    rw (length-map (left_by [] (built_rows sql t)), nothing_protected (built_rows sql t))
        built_rows-length,
  )

  left_by-not-protected :
      (id : Text) (ids : List Text) (rows : Table)
      → mem id ids ≡ true
      → any (has_id id) (left_by ids rows) ≡ false
  unfolding any filter
  left_by-not-protected id ids [] h = refl
  left_by-not-protected id ids (row ∷ rows) h =
      ground (arith, left_by-not-protected id ids rows, eq_of_== row.id id)

  -- the artifact that is kept in place of one that is returned as unused
  pub record Kept (row : ArtifactRow) : Type 0 where
    pub keeper : ArtifactRow
    pub built : Memᴰ keeper (filter is_built t)
    pub kept : any (has_id keeper.id) (unused_rows sql false t) ≡ false
    pub same_group : group keeper ≡ group row
    pub as_new : row.created_at ≤ keeper.created_at

  Keeper-Kept :
      (row : ArtifactRow)
      → (mem (group row) [] ≡ true) ⊎ Keeper (protect [] (built_rows sql t)) (built_rows sql t) row
      → Kept row
  unfolding mem unused_rows
  Keeper-Kept row (inl h) = absurd (cc)
  Keeper-Kept row (inr k) = record {
    keeper = k.keeper;
    built = Permᴰ-Memᴰ k.keeper in_order k.there;
    kept =
        left_by-not-protected k.keeper.id (protect [] (built_rows sql t)) (built_rows sql t) k.kept;
    same_group = k.same_group;
    as_new = k.as_new;
  }

  All-Kept :
      (rows : Table)
      → Keepers [] (protect [] (built_rows sql t)) (built_rows sql t) rows
      → All Kept rows
  All-Kept [] k = tt
  All-Kept (row ∷ rows) k = (Keeper-Kept row k.0, All-Kept rows k.1)

  -- For every artifact that is `BUILT`, one of its profile, stack and variant that is at least as
  -- new is `BUILT` and is not returned as unused.
  pub find_unused-Kept : All Kept (filter is_built t)
  unfolding built_rows
  find_unused-Kept = Permᴰ-All Kept in_order (
      All-Kept (built_rows sql t) (
        protect-Keepers [] (built_rows sql t) (sql.newest_first-IsNewestFirst (filter is_built t))))
