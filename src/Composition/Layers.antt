-- ===== src/Composition/Layers.antt =====
-- How composition.py finds the layers that a recipe names.
use stack_warden.Base.{
  Text, some, none, List, [], ◌∷◌, Dict, get, mem, index_by, text_eq, if◌then◌else◌, Result, ok,
  err, ◌>>=◌,
}
use stack_warden.Specs.{LayerSpec}
use stack_warden.Composition.Packaging.{ComposeError, duplicate_layer, unknown_layer}

-- `{layer.id: layer for layer in layers}`
unfoldable pub by_id : List LayerSpec → Dict Text LayerSpec
by_id layers = index_by (λ l. l.id) layers []

-- The layers that are known, in the recipe's order; the previews pass over the others.
unfoldable pub known_layers : List Text → Dict Text LayerSpec → List LayerSpec
known_layers [] table = []
known_layers (id ∷ ids) table = elim (get id table) [
  | none ↦ known_layers ids table
  | some layer ↦ layer ∷ known_layers ids table
]

-- the first loop of `compose_stack`
unfoldable pub check_duplicates : List Text → List Text → Result ComposeError (Unit {0})
check_duplicates seen [] = ok tt
check_duplicates seen (id ∷ ids) =
    let rest = check_duplicates (id ∷ seen) ids in
    if mem id seen then err (duplicate_layer id) else rest

-- the second loop of `compose_stack`
unfoldable pub find_layers : List Text → Dict Text LayerSpec → Result ComposeError (List LayerSpec)
find_layers [] table = ok []
find_layers (id ∷ ids) table = elim (get id table) [
  | none ↦ err (unknown_layer id)
  | some layer ↦ do rest ← find_layers ids table; ok (layer ∷ rest)
]
