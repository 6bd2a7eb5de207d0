-- ===== src/Composition/Agreement/Parts.antt =====
-- Whole parts, all layers, and the recipe, in the preview and in the composition.
use stack_warden.Base.{
  Text, codes, List, [], ◌∷◌, ◌++◌, ◌≡◌, refl, sym, ◌∙◌, arith, Dict, get, strip, ◌==◌, text_eq,
  Option-cases, Bool-cases, inl, inr, ◌&&◌, Result, ok, err, ◌>>=◌, is_ok, any, ◌⊎◌, Result-cases,
}
use stack_warden.Specs.{
  Part, ComponentsBase, LayerSpec, StackRecipeSpec, PipInstallMode, pip_mode_eq,
}
use stack_warden.Composition.Packaging.{Packaging, ComposeError}
use stack_warden.Composition.Pip.{PipOrigin, merge_pip}
use stack_warden.Composition.Npm.{NpmKey, NpmOrigin, merge_npm}
use stack_warden.Composition.Layers.{by_id, known_layers, find_layers}
use stack_warden.Composition.Preview.{
  Seen, nothing_seen, push_wheelhouse, push_all_pip, push_all_npm, push_components, push_layers,
  dependency_conflicts,
}
use stack_warden.Composition.Compose.{
  Accum, initial, consume_rest, consume, consume_layers, consume_all,
}
use stack_warden.Composition.Agreement.View.{
  is_hard, has_hard, is_clean, clean_seen, Sees, Agree, Agree-bind, Grows, Grows-bind,
  has_hard-report,
}
use stack_warden.Composition.Agreement.Pip.{push_all_pip-Agree, push_all_pip-Grows}
use stack_warden.Composition.Agreement.Npm.{push_all_npm-Agree, push_all_npm-hard}

-- a wheelhouse conflict is never hard, and leaves the packages alone
wheelhouse_hard :
    (mode : PipInstallMode) (path source : Text) (s : Seen)
    → has_hard (push_wheelhouse mode path source s).conflicts ≡ has_hard s.conflicts
unfolding push_wheelhouse is_hard
wheelhouse_hard mode path source s = elim (Option-cases s.wheelhouse_seen) [
  | inl new ↦ rw (new, push_wheelhouse) refl
  | inr ((pm, pp, from), old) ↦ elim (Bool-cases (pm == mode && pp == strip path)) [
    | inl same ↦ rw (old, push_wheelhouse, same) refl
    | inr differ ↦ rw (old, push_wheelhouse, differ, has_hard-report s.conflicts) (ground arith)
  ]
]

wheelhouse_pip :
    (mode : PipInstallMode) (path source : Text) (s : Seen)
    → (push_wheelhouse mode path source s).pip_seen ≡ s.pip_seen
unfolding push_wheelhouse
wheelhouse_pip mode path source s = ground arith

wheelhouse_npm :
    (mode : PipInstallMode) (path source : Text) (s : Seen)
    → (push_wheelhouse mode path source s).npm_seen ≡ s.npm_seen
unfolding push_wheelhouse
wheelhouse_npm mode path source s = ground arith

wheelhouse-Sees :
    (mode : PipInstallMode) (path source : Text) (s : Seen) {pips : Dict Text PipOrigin}
    {npms : Dict NpmKey NpmOrigin}
    → Sees s pips npms
    → Sees (push_wheelhouse mode path source s) pips npms
wheelhouse-Sees mode path source s h = record {
  pip_same = λ name. rw (wheelhouse_pip mode path source s) (h.pip_same name);
  npm_same = λ key. rw (wheelhouse_npm mode path source s) (h.npm_same key);
  none_hard = wheelhouse_hard mode path source s ∙ h.none_hard;
}

module _ (lib : Packaging) where
  push_components-Grows :
      (c : ComponentsBase) (source : Text) → Grows (push_components lib c source)
  unfolding push_components
  push_components-Grows c source s hard =
      Grows-bind
        (λ t.
          push_all_pip lib c.pip source
            (push_wheelhouse c.pip_install_mode c.pip_wheelhouse_path source t))
        (λ t. ok (push_all_npm c.npm source t))
        (λ t h.
          push_all_pip-Grows lib c.pip source
            (push_wheelhouse c.pip_install_mode c.pip_wheelhouse_path source t)
            (wheelhouse_hard c.pip_install_mode c.pip_wheelhouse_path source t ∙ h))
        (λ t h. ground (arith, push_all_npm-hard c.npm source t h)) s hard

  push_layers-Grows : (layers : List LayerSpec) → Grows (push_layers lib layers)
  unfolding push_layers
  push_layers-Grows [] s hard = ground (arith, hard)
  push_layers-Grows (layer ∷ layers) s hard =
      Grows-bind (push_components lib layer.components.base (codes "layer:" ++ layer.id))
        (push_layers lib layers)
        (push_components-Grows layer.components.base (codes "layer:" ++ layer.id))
        (push_layers-Grows layers) s hard

  abbrev SeesAccum : Seen → Accum → Type 0
  SeesAccum t a = Sees t a.pip_accum a.npm_accum

  consume-Agree :
      (part : Part) (source : Text) (s : Seen) (a : Accum)
      → SeesAccum s a
      → Agree SeesAccum
          (push_components lib part.components.base source s)
          (consume lib part source a)
  unfolding push_components consume
  consume-Agree part source s a h =
      let c = part.components in
      let pips =
        push_all_pip-Agree lib (push_wheelhouse c.pip_install_mode c.pip_wheelhouse_path source s)
          a.pip_accum a.npm_accum c.pip source
          (wheelhouse-Sees c.pip_install_mode c.pip_wheelhouse_path source s h) in
      Agree-bind (λ t p. Sees t p a.npm_accum) SeesAccum _ (merge_pip lib a.pip_accum c.pip source)
        (λ t. ok (push_all_npm c.npm source t)) _ pips
        (λ t p seen.
          Agree-bind (λ u n. Sees u p n) SeesAccum (ok (push_all_npm c.npm source t))
            (merge_npm a.npm_accum c.npm source) (λ u. ok u) (λ n. ok (consume_rest part p n a))
            (push_all_npm-Agree t p a.npm_accum c.npm source seen)
            (λ u n seen'. (u, refl, unfold consume_rest in seen')) (λ u hard. ground (arith, hard)))
        (λ t hard. ground (arith, push_all_npm-hard c.npm source t hard))

  consume_layers-Agree :
      (layers : List LayerSpec) (s : Seen) (a : Accum)
      → SeesAccum s a
      → Agree SeesAccum (push_layers lib layers s) (consume_layers lib layers a)
  unfolding push_layers consume_layers
  consume_layers-Agree [] s a h = (s, refl, h)
  consume_layers-Agree (layer ∷ layers) s a h =
      let source = codes "layer:" ++ layer.id in
      Agree-bind SeesAccum SeesAccum (push_components lib layer.components.base source s)
        (consume lib layer.part source a) (push_layers lib layers) (consume_layers lib layers)
        (consume-Agree layer.part source s a h) (λ t b h'. consume_layers-Agree layers t b h')
        (push_layers-Grows layers)

  nothing_merged : (recipe : StackRecipeSpec) → SeesAccum nothing_seen (initial recipe)
  unfolding get any
  nothing_merged recipe = record {
    pip_same = λ name. refl;
    npm_same = λ key. refl;
    none_hard = refl;
  }

  -- the preview's loop and what follows it, before it returns its conflicts
  abbrev preview : StackRecipeSpec → List LayerSpec → Result ComposeError Seen
  preview recipe ordered =
      push_layers lib ordered nothing_seen
      >>= push_components lib recipe.components.base (codes "recipe:" ++ recipe.id)

  consume_all-Agree :
      (recipe : StackRecipeSpec) (ordered : List LayerSpec)
      → Agree SeesAccum (preview recipe ordered) (consume_all lib recipe ordered)
  unfolding consume_all
  consume_all-Agree recipe ordered =
      let source = codes "recipe:" ++ recipe.id in
      Agree-bind SeesAccum SeesAccum (push_layers lib ordered nothing_seen)
        (consume_layers lib ordered (initial recipe))
        (push_components lib recipe.components.base source) (consume lib recipe.part source)
        (consume_layers-Agree ordered nothing_seen (initial recipe) (nothing_merged recipe))
        (λ t b h. consume-Agree recipe.part source t b h)
        (push_components-Grows recipe.components.base source)

  clean_of_Agree :
      (r : Result ComposeError Seen) (q : Result ComposeError Accum)
      → Agree SeesAccum r q
      → is_ok q ≡ clean_seen r
  clean_of_Agree r (ok a) (s, p, h) = rw (p, h.none_hard) refl
  clean_of_Agree r (err e) dirty = sym dirty

found_cases :
    (ids : List Text) (table : Dict Text LayerSpec)
    → ((rest : List LayerSpec) × (find_layers ids table ≡ ok rest))
      ⊎ ((e : ComposeError) × (find_layers ids table ≡ err e))
found_cases ids table = Result-cases (find_layers ids table)

known_of_found :
    (ids : List Text) (table : Dict Text LayerSpec) (ordered : List LayerSpec)
    → find_layers ids table ≡ ok ordered
    → known_layers ids table ≡ ordered
unfolding find_layers known_layers
known_of_found [] table ordered h = ground arith
known_of_found (id ∷ ids) table ordered h = elim (Option-cases (get id table)) [
  | inl unknown ↦ absurd (ground arith)
  | inr (layer, known) ↦ elim (found_cases ids table) [
    | inl (rest, found) ↦ ground (arith, known_of_found ids table rest found)
    | inr (e, missing) ↦ absurd (ground arith)
  ]
]

conflicts_of : (r : Result ComposeError Seen) → is_clean (r >>= λ s. ok s.conflicts) ≡ clean_seen r
unfolding is_clean
conflicts_of (ok s) = refl
conflicts_of (err e) = refl

module _ (lib : Packaging) (recipe : StackRecipeSpec) (layers : List LayerSpec) where
  clean_of_preview :
      (ordered : List LayerSpec)
      → find_layers recipe.layers (by_id layers) ≡ ok ordered
      → is_clean (dependency_conflicts lib recipe layers) ≡ clean_seen (preview lib recipe ordered)
  unfolding dependency_conflicts
  clean_of_preview ordered found =
      let source = codes "recipe:" ++ recipe.id in
      rw (known_of_found recipe.layers (by_id layers) ordered found)
        (elim (Result-cases (push_layers lib ordered nothing_seen)) [
          | inl (s, went) ↦
              rw went (conflicts_of (push_components lib recipe.components.base source s))
          | inr (e, raised) ↦ rw raised (unfold is_clean in refl)
        ])

  -- When every layer of the recipe is known, the dependencies of the layers and of the recipe merge
  -- exactly if the preview raises nothing and reports no error about a pip or an npm package.
  pub consume_all-eq-is_clean :
      (ordered : List LayerSpec)
      → find_layers recipe.layers (by_id layers) ≡ ok ordered
      → is_ok (consume_all lib recipe ordered) ≡ is_clean (dependency_conflicts lib recipe layers)
  consume_all-eq-is_clean ordered found =
      clean_of_Agree lib (preview lib recipe ordered) (consume_all lib recipe ordered)
        (consume_all-Agree lib recipe ordered)
      ∙ sym (clean_of_preview ordered found)
