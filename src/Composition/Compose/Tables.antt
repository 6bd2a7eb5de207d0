-- ===== src/Composition/Compose/Tables.antt =====
-- The environment, the ports and the packages of a composed stack.
use stack_warden.Base.{
  ℕ, Text, Bool, true, false, ◌||◌, none, some, List, [], ◌∷◌, ◌++◌, map, ◌≡◌, refl, sym, ◌∙◌, ap,
  arith, Dict, keys, get, mem, Eq, ◌==◌, option_eq, text_eq, nat_eq, nat_ord, text_ord, sorted,
  IsAscending, sorted-IsAscending, mem-sorted, index_by, index_by-append, index_by-Distinct,
  index_by-IsIndexed, get-index_by, latest_by, by_key, mem-by_key, by_key-IsAscending,
  mem-keys-index_self, ok, >>=-eq-ok,
}
use stack_warden.Specs.{Part, LayerSpec, StackRecipeSpec, StackSpec}
use stack_warden.Composition.Packaging.{Packaging}
use stack_warden.Composition.Pip.{PipOrigin}
use stack_warden.Composition.Npm.{NpmKey, NpmOrigin}
use stack_warden.Composition.Layers.{by_id, find_layers}
use stack_warden.Composition.Compose.{
  Accum, initial, env_key, consume_rest, consume, consume_layers, consume_all, compose_stack,
}
use stack_warden.Composition.Compose.Inversion.{consume-Consumed, Composed, compose_stack-Composed}

-- what the layers in order and then the recipe declare, one after the other
abbrev pub declared {ℓ} : {A : Type ℓ} → (Part → List A) → List LayerSpec → StackRecipeSpec → List A
declared items [] recipe = items recipe.part
declared items (layer ∷ layers) recipe = items layer.part ++ declared items layers recipe

or_false : (b : Bool) → (b || false) ≡ b
or_false true = refl
or_false false = refl

-- A table of the state that each part extends by its own items.
module _ {ℓ κ} {K : Type ℓ} {V : Type κ} ⦃e : Eq K⦄ (lib : Packaging) (key : V → K)
    (items : Part → List V) (table : Accum → Dict K V)
    (extends : (part : Part) (pip : Dict Text PipOrigin) (npm : Dict NpmKey NpmOrigin) (s : Accum)
      → table (consume_rest part pip npm s) ≡ index_by key (items part) (table s)) where
  consume-table :
      (part : Part) (source : Text) (s : Accum) {s' : Accum}
      → consume lib part source s ≡ ok s'
      → table s' ≡ index_by key (items part) (table s)
  consume-table part source s h =
      let c = consume-Consumed lib part source s h in
      ap table (sym c.result) ∙ extends part c.pip c.npm s

  consume_layers-table :
      (recipe : StackRecipeSpec) (layers : List LayerSpec) (source : Text) (s : Accum)
      {m s' : Accum}
      → consume_layers lib layers s ≡ ok m
      → consume lib recipe.part source m ≡ ok s'
      → table s' ≡ index_by key (declared items layers recipe) (table s)
  unfolding consume_layers
  consume_layers-table recipe [] source s {m} h k =
      consume-table recipe.part source m k
      ∙ ap (λ (t : Accum). index_by key (items recipe.part) (table t)) (ground arith)
  consume_layers-table recipe (layer ∷ layers) source s h k =
      let (mid, first, rest) = >>=-eq-ok (consume lib layer.part _ s) _ h in
      consume_layers-table recipe layers source mid rest k
      ∙ ap (index_by key (declared items layers recipe)) (consume-table layer.part _ s first)
      ∙ sym (index_by-append key (items layer.part) (declared items layers recipe) (table s))

  -- the table after all parts is filled from all that they declare
  pub consume_all-table :
      (recipe : StackRecipeSpec) (layers : List LayerSpec) {s : Accum}
      → consume_all lib recipe layers ≡ ok s
      → table (initial recipe) ≡ []
      → table s ≡ index_by key (declared items layers recipe) []
  unfolding consume_all
  consume_all-table recipe layers h empty =
      let (m, first, rest) = >>=-eq-ok (consume_layers lib layers (initial recipe)) _ h in
      consume_layers-table recipe layers _ (initial recipe) first rest
      ∙ ap (index_by key (declared items layers recipe)) empty

module _ (lib : Packaging) (recipe : StackRecipeSpec) (layers : List LayerSpec) {stack : StackSpec}
    (composed : compose_stack lib recipe layers ≡ ok stack) where
  run : Composed lib recipe layers stack
  run = compose_stack-Composed lib recipe layers composed

  ordered_unique :
      (ordered : List LayerSpec)
      → find_layers recipe.layers (by_id layers) ≡ ok ordered
      → run.ordered ≡ ordered
  ordered_unique ordered found = cc (run.found)

  env_accum_lem :
      run.state.env_accum ≡ index_by env_key (declared (λ p. p.env) run.ordered recipe) []
  unfolding consume_rest
  env_accum_lem =
      consume_all-table lib env_key (λ p. p.env) (λ s. s.env_accum) (λ part pip npm s. refl) recipe
        run.ordered run.consumed refl

  ports_accum_lem :
      run.state.ports_accum ≡ index_by (λ p. p) (declared (λ p. p.ports) run.ordered recipe) []
  unfolding consume_rest
  ports_accum_lem =
      consume_all-table lib (λ p. p) (λ p. p.ports) (λ s. s.ports_accum) (λ part pip npm s. refl)
        recipe run.ordered run.consumed refl

  stack-env :
      (ordered : List LayerSpec)
      → find_layers recipe.layers (by_id layers) ≡ ok ordered
      → stack.env ≡ by_key (index_by env_key (declared (λ p. p.env) ordered recipe) [])
  stack-env ordered found =
      run.built.env
      ∙ ap by_key env_accum_lem
      ∙ ap (λ l. by_key (index_by env_key (declared (λ p. p.env) l recipe) []))
          (ordered_unique ordered found)

  stack-ports :
      (ordered : List LayerSpec)
      → find_layers recipe.layers (by_id layers) ≡ ok ordered
      → stack.ports ≡ sorted (keys (index_by (λ p. p) (declared (λ p. p.ports) ordered recipe) []))
  stack-ports ordered found =
      run.built.ports
      ∙ ap (λ t. sorted (keys t)) ports_accum_lem
      ∙ ap (λ l. sorted (keys (index_by (λ p. p) (declared (λ p. p.ports) l recipe) [])))
          (ordered_unique ordered found)

  -- If a stack composes, then with the layers found in the recipe's order, and the recipe after
  -- them, an environment entry is in the stack exactly if it is the last one declared for its key;
  -- and the keys of the stack's entries ascend strictly, so that no key occurs twice.
  pub compose_stack-env :
      (ordered : List LayerSpec)
      → find_layers recipe.layers (by_id layers) ≡ ok ordered
      → ((entry : Text)
          → mem entry stack.env ≡ (
              latest_by env_key (env_key entry) (declared (λ p. p.env) ordered recipe) none
              == some entry))
        × IsAscending (map env_key stack.env)
  unfolding get
  compose_stack-env ordered found =
      let entries = declared (λ p. p.env) ordered recipe in
      let indexed = index_by-IsIndexed env_key entries [] (λ k v p. absurd (cc)) in
      rw (stack-env ordered found) (
        λ entry.
            mem-by_key env_key (index_by env_key entries []) indexed entry
            ∙ ap (λ o. o == some entry) (get-index_by env_key (env_key entry) entries []),
        by_key-IsAscending env_key (index_by env_key entries []) indexed
            (index_by-Distinct env_key entries [] tt),
      )

  -- If a stack composes, then a port is in the stack exactly if a layer of the recipe or the recipe
  -- declares it, and the ports ascend strictly, so that no port occurs twice.
  pub compose_stack-ports :
      (ordered : List LayerSpec)
      → find_layers recipe.layers (by_id layers) ≡ ok ordered
      → ((p : ℕ) → mem p stack.ports ≡ mem p (declared (λ q. q.ports) ordered recipe))
        × IsAscending stack.ports
  unfolding mem
  compose_stack-ports ordered found =
      let ports = declared (λ p. p.ports) ordered recipe in
      let table = index_by (λ p. p) ports [] in
      rw (stack-ports ordered found) (
        λ p. mem-sorted p (keys table) ∙ mem-keys-index_self p ports [] ∙ or_false (mem p ports),
        sorted-IsAscending (keys table) (index_by-Distinct (λ p. p) ports [] tt),
      )
