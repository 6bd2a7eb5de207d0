-- ===== src/Composition/Compose/Packages.antt =====
-- The pip packages of a composed stack.
use stack_warden.Base.{
  Text, Option, none, some, List, [], ◌∷◌, ◌++◌, map, ◌≡◌, refl, sym, ◌∙◌, ap, arith, Dict, keys,
  get, put, get-put, get-eq-none_of_not-mem, mem, mem-sorted, Distinct, ◌==◌, text_eq, text_ord,
  eq_of_==, sorted, IsAscending, values_at, by_key, by_key-IsAscending, IsIndexed, Option-cases,
  Bool-cases, inl, inr, if◌then◌else◌, ok, >>=-eq-ok,
}
use stack_warden.Specs.{PipDep, Part, LayerSpec, StackRecipeSpec, StackSpec}
use stack_warden.Composition.Packaging.{Packaging}
use stack_warden.Composition.Pip.{PipOrigin, merge_pip, merge_pip_dep}
use stack_warden.Composition.Pip.Merge.{
  version_of, latest_version, merge_pip-last_wins, merge_pip-Distinct,
}
use stack_warden.Composition.Layers.{by_id, find_layers}
use stack_warden.Composition.Compose.{
  Accum, initial, consume_rest, consume, consume_layers, consume_all, merged_components,
  compose_stack,
}
use stack_warden.Composition.Compose.Inversion.{consume-Consumed, Composed, compose_stack-Composed}
use stack_warden.Composition.Compose.Tables.{declared}
use stack_warden.Composition.Compose.Policies.{validate_components-SameModes}

-- the version that a list of dependencies gives for a package
unfoldable pub version_in : Text → List PipDep → Option Text
version_in name [] = none
version_in name (dep ∷ deps) = if dep.name == name then some dep.version else version_in name deps

pub latest_version-append :
    (name : Text) (xs ys : List PipDep) (v : Option Text)
    → latest_version name (xs ++ ys) v ≡ latest_version name ys (latest_version name xs v)
unfolding latest_version
latest_version-append name [] ys v = refl
latest_version-append name (dep ∷ xs) ys v =
    latest_version-append name xs ys (if dep.name == name then some dep.version else v)

abbrev origin_name : PipOrigin → Text
origin_name o = o.dep.name

version_in-values_at :
    (name : Text) (ks : List Text) (d : Dict Text PipOrigin)
    → IsIndexed origin_name d
    → version_in name (map (λ o. o.dep) (values_at ks d))
      ≡ (if mem name ks then version_of name d else none)
unfolding version_in values_at mem
version_in-values_at name [] d h = refl
version_in-values_at name (k ∷ ks) d h = elim (Option-cases (get k d)) [
  | inl absent ↦ ground (arith, version_in-values_at name ks d h, eq_of_== k name)
  | inr (o, present) ↦
      ground (arith, version_in-values_at name ks d h, h k o present, eq_of_== k name)
]

-- the invariant of the table: unique keys, each the name of its package
record Table (d : Dict Text PipOrigin) : Type 0 where
  distinct : Distinct (keys d)
  indexed : IsIndexed origin_name d

put-IsIndexed :
    (d : Dict Text PipOrigin) (o : PipOrigin)
    → IsIndexed origin_name d
    → IsIndexed origin_name (put o.dep.name o d)
put-IsIndexed d o h k p q = ground (arith, h k p, get-put o.dep.name k o d, eq_of_== o.dep.name k)

module _ (lib : Packaging) where
  merge_pip_dep-IsIndexed :
      (d : Dict Text PipOrigin) (dep : PipDep) (source : Text) {d' : Dict Text PipOrigin}
      → merge_pip_dep lib d dep source ≡ ok d'
      → IsIndexed origin_name d
      → IsIndexed origin_name d'
  unfolding merge_pip_dep
  merge_pip_dep-IsIndexed d dep source p h k o q =
      ground (arith, put-IsIndexed d (record { dep = dep; source = source }) h k o, h k o)

  merge_pip-IsIndexed :
      (d : Dict Text PipOrigin) (deps : List PipDep) (source : Text) {d' : Dict Text PipOrigin}
      → merge_pip lib d deps source ≡ ok d'
      → IsIndexed origin_name d
      → IsIndexed origin_name d'
  unfolding merge_pip
  merge_pip-IsIndexed d [] source p h k o q = ground (arith, h k o)
  merge_pip-IsIndexed d (dep ∷ deps) source p h k o q =
      let (mid, first, rest) = >>=-eq-ok (merge_pip_dep lib d dep source) _ p in
      merge_pip-IsIndexed mid deps source rest (merge_pip_dep-IsIndexed d dep source first h) k o q

  -- one part, as the pip table sees it
  consume-pip :
      (part : Part) (source : Text) (s : Accum) {s' : Accum}
      → consume lib part source s ≡ ok s'
      → Table s.pip_accum
      → Table s'.pip_accum
        × ((name : Text)
            → version_of name s'.pip_accum
              ≡ latest_version name part.components.pip (version_of name s.pip_accum))
  unfolding consume_rest
  consume-pip part source s h t =
      let c = consume-Consumed lib part source s h in
      rw (← c.result) (
        record {
          distinct =
              merge_pip-Distinct lib s.pip_accum part.components.pip source c.pip_merged t.distinct;
          indexed =
              merge_pip-IsIndexed s.pip_accum part.components.pip source c.pip_merged t.indexed;
        },
        merge_pip-last_wins lib s.pip_accum part.components.pip source c.pip_merged,
      )

  consume_layers-pip :
      (recipe : StackRecipeSpec) (layers : List LayerSpec) (source : Text) (s : Accum)
      {m s' : Accum}
      → consume_layers lib layers s ≡ ok m
      → consume lib recipe.part source m ≡ ok s'
      → Table s.pip_accum
      → Table s'.pip_accum
        × ((name : Text)
            → version_of name s'.pip_accum
              ≡ latest_version name
                  (declared (λ p. p.components.pip) layers recipe)
                  (version_of name s.pip_accum))
  unfolding consume_layers
  consume_layers-pip recipe [] source s {m} h k t =
      let same : s ≡ m = ground arith in consume-pip recipe.part source s (rw (← same) at k) t
  consume_layers-pip recipe (layer ∷ layers) source s h k t =
      let (mid, first, rest) = >>=-eq-ok (consume lib layer.part _ s) _ h in
      let (t', versions) = consume-pip layer.part _ s first t in
      let (t'', versions') = consume_layers-pip recipe layers source mid rest k t' in
      (
        t'',
        λ name.
            versions' name
            ∙ ap (latest_version name (declared (λ p. p.components.pip) layers recipe))
                (versions name)
            ∙ sym (
                latest_version-append name layer.components.pip
                  (declared (λ p. p.components.pip) layers recipe) (version_of name s.pip_accum)),
      )

version_in-by_key :
    (name : Text) (d : Dict Text PipOrigin)
    → Table d
    → version_in name (map (λ o. o.dep) (by_key d)) ≡ version_of name d
version_in-by_key name d t = elim (Bool-cases (mem name (keys d))) [
  | inl there ↦
      ground
        (arith, version_in-values_at name (sorted (keys d)) d t.indexed, mem-sorted name (keys d))
  | inr gone ↦ ground (
    arith,
    version_in-values_at name (sorted (keys d)) d t.indexed,
    mem-sorted name (keys d),
    get-eq-none_of_not-mem name d,
  )
]

map-origin : (os : List PipOrigin) → map (λ d. d.name) (map (λ o. o.dep) os) ≡ map origin_name os
map-origin [] = refl
map-origin (o ∷ os) = ap (λ t. o.dep.name ∷ t) (map-origin os)

module _ (lib : Packaging) (recipe : StackRecipeSpec) (layers : List LayerSpec) {stack : StackSpec}
    (composed : compose_stack lib recipe layers ≡ ok stack) where
  run : Composed lib recipe layers stack
  run = compose_stack-Composed lib recipe layers composed

  pip_lem : stack.components.pip ≡ map (λ o. o.dep) (by_key run.state.pip_accum)
  unfolding merged_components
  pip_lem = (validate_components-SameModes (merged_components run.state) run.built.components).pip

  table_lem :
      Table run.state.pip_accum
      × ((name : Text)
          → version_of name run.state.pip_accum
            ≡ latest_version name (declared (λ p. p.components.pip) run.ordered recipe) none)
  unfolding consume_all get
  table_lem =
      let (m, first, last) =
        >>=-eq-ok (consume_layers lib run.ordered (initial recipe)) _ run.consumed in
      consume_layers-pip lib recipe run.ordered _ (initial recipe) first last
        (record { distinct = tt; indexed = λ k o p. absurd (cc) })

  -- If a stack composes, with the layers found in the recipe's order, then the version that it
  -- gives for a package is that of the last dependency on the package, the recipe after its layers,
  -- and no version where there is none; and the packages ascend strictly by name.
  pub compose_stack-pip :
      (ordered : List LayerSpec)
      → find_layers recipe.layers (by_id layers) ≡ ok ordered
      → ((name : Text)
          → version_in name stack.components.pip
            ≡ latest_version name (declared (λ p. p.components.pip) ordered recipe) none)
        × IsAscending (map (λ d. d.name) stack.components.pip)
  compose_stack-pip ordered found =
      let same : run.ordered ≡ ordered = cc (run.found) in
      rw pip_lem (
        λ name.
            version_in-by_key name run.state.pip_accum table_lem.0
            ∙ table_lem.1 name
            ∙ ap (λ l. latest_version name (declared (λ p. p.components.pip) l recipe) none) same,
        rw map-origin (
            by_key-IsAscending origin_name run.state.pip_accum table_lem.0.indexed
              table_lem.0.distinct),
      )
