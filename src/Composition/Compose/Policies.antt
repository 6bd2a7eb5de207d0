-- ===== src/Composition/Compose/Policies.antt =====
-- The install modes and the scalar fields of a composed stack.
use mathlib.Core.Path.{subst}
use stack_warden.Base.{
  List, [], ◌≡◌, sym, arith, strip, ◌==◌, text_eq, if◌then◌else◌, ok, >>=-eq-ok,
}
use stack_warden.Specs.{ComponentsBase, LayerSpec, StackRecipeSpec, StackSpec, index, pip_mode_eq}
use stack_warden.Specs.Validation.{validate_components}
use stack_warden.Composition.Packaging.{Packaging}
use stack_warden.Composition.Compose.{
  initial, consume_rest, consume_layers, consume_all, merged_components, compose_stack,
}
use stack_warden.Composition.Compose.Inversion.{consume-Consumed, Composed, compose_stack-Composed}

-- the modes that `validate_components` lets through
pub record SameModes (c c' : ComponentsBase) : Type 0 where
  pub pip : c'.pip ≡ c.pip
  pub npm : c'.npm ≡ c.npm
  pub apt : c'.apt ≡ c.apt
  pub apt_constraints : c'.apt_constraints ≡ c.apt_constraints
  pub apt_mode : c'.apt_install_mode ≡ c.apt_install_mode
  pub pip_mode : c'.pip_install_mode ≡ c.pip_install_mode
  pub npm_mode : c'.npm_install_mode ≡ c.npm_install_mode
  pub path :
      c'.pip_wheelhouse_path
      ≡ (if c.pip_install_mode == index then [] else strip c.pip_wheelhouse_path)

pub validate_components-SameModes :
    (c : ComponentsBase) {c' : ComponentsBase} → validate_components c ≡ ok c' → SameModes c c'
unfolding validate_components
validate_components-SameModes c h = ground arith

module _ (lib : Packaging) (recipe : StackRecipeSpec) (layers : List LayerSpec) {stack : StackSpec}
    (composed : compose_stack lib recipe layers ≡ ok stack) where
  run : Composed lib recipe layers stack
  run = compose_stack-Composed lib recipe layers composed

  modes : SameModes (merged_components run.state) stack.components.base
  modes = validate_components-SameModes (merged_components run.state) run.built.components

  -- The install modes of a composed stack are those of the recipe, whatever its layers declare, and
  -- the wheelhouse path is the recipe's, stripped, or empty in mode `index`.
  pub compose_stack-modes :
      (stack.components.pip_install_mode ≡ recipe.components.pip_install_mode)
      × (stack.components.npm_install_mode ≡ recipe.components.npm_install_mode)
      × (stack.components.apt_install_mode ≡ recipe.components.apt_install_mode)
      × (stack.components.pip_wheelhouse_path ≡ (
          if recipe.components.pip_install_mode == index
          then []
          else strip recipe.components.pip_wheelhouse_path))
  unfolding consume_all consume_rest merged_components
  compose_stack-modes =
      let (m, _, last) =
        >>=-eq-ok (consume_layers lib run.ordered (initial recipe)) _ run.consumed in
      let c = consume-Consumed lib recipe.part _ m last in
      let final =
        subst (λ s. SameModes (merged_components s) stack.components.base) (sym c.result) modes in
      (final.pip_mode, final.npm_mode, final.apt_mode, final.path)
