-- ===== src/Composition/Compose/Inversion.antt =====
-- What a successful call of `compose_stack` and of its parts went through.
use stack_warden.Base.{
  Text, List, [], ◌≡◌, arith, Dict, sorted, keys, by_key, nat_eq, text_eq, pair_eq, nat_ord,
  text_ord, pair_ord, Result, ok, >>=-eq-ok,
}
use stack_warden.Specs.{Part, LayerSpec, StackRecipeSpec, StackSpec}
use stack_warden.Specs.Validation.{validate_components, validate_env_entries, validate_port_values}
use stack_warden.Composition.Packaging.{Packaging}
use stack_warden.Composition.Pip.{PipOrigin, merge_pip}
use stack_warden.Composition.Npm.{NpmKey, NpmOrigin, merge_npm}
use stack_warden.Composition.Layers.{by_id, check_duplicates, find_layers}
use stack_warden.Composition.Compose.{
  Accum, consume_rest, consume, consume_all, merged_components, build_stack, compose_stack,
  role_or_python, strategy_or_overlay, entrypoint_or_sleep,
}

pub record Consumed (lib : Packaging) (part : Part) (source : Text) (s s' : Accum) : Type 0 where
  pub pip : Dict Text PipOrigin
  pub npm : Dict NpmKey NpmOrigin
  pub pip_merged : merge_pip lib s.pip_accum part.components.pip source ≡ ok pip
  pub npm_merged : merge_npm s.npm_accum part.components.npm source ≡ ok npm
  pub result : consume_rest part pip npm s ≡ s'

ok_inj {ℓ κ} : {E : Type ℓ} {A : Type κ} {a b : A} → ◌≡◌ {A = Result E A} (ok a) (ok b) → a ≡ b
ok_inj h = ground arith

module _ (lib : Packaging) where
  pub consume-Consumed :
      (part : Part) (source : Text) (s : Accum) {s' : Accum}
      → consume lib part source s ≡ ok s'
      → Consumed lib part source s s'
  unfolding consume
  consume-Consumed part source s h =
      let (pip, p, h') = >>=-eq-ok (merge_pip lib s.pip_accum part.components.pip source) _ h in
      let (npm, q, r) = >>=-eq-ok (merge_npm s.npm_accum part.components.npm source) _ h' in
      record { pip = pip; npm = npm; pip_merged = p; npm_merged = q; result = ok_inj r }

pub record Built (recipe : StackRecipeSpec) (s : Accum) (stack : StackSpec) : Type 0 where
  pub components : validate_components (merged_components s) ≡ ok stack.components.base
  pub base_role : stack.components.base_role ≡ role_or_python s.base_role
  pub build_strategy : stack.build_strategy ≡ strategy_or_overlay s.build_strategy
  pub entrypoint : stack.entrypoint ≡ entrypoint_or_sleep s.entrypoint
  pub env : stack.env ≡ by_key s.env_accum
  pub ports : stack.ports ≡ sorted (keys s.ports_accum)
  pub copy_items : stack.copy_items ≡ by_key s.copy_accum
  pub valid_env : validate_env_entries stack.env ≡ ok tt
  pub valid_ports : validate_port_values stack.ports ≡ ok tt

pub build_stack-Built :
    (recipe : StackRecipeSpec) (s : Accum) {stack : StackSpec}
    → build_stack recipe s ≡ ok stack
    → Built recipe s stack
unfolding build_stack
build_stack-Built recipe s h = ground arith

-- `compose_stack` succeeded with the layers `ordered` and the final variables `s`
pub record Composed (lib : Packaging) (recipe : StackRecipeSpec) (layers : List LayerSpec)
    (stack : StackSpec) : Type 0 where
  pub ordered : List LayerSpec
  pub state : Accum
  pub unique : check_duplicates [] recipe.layers ≡ ok tt
  pub found : find_layers recipe.layers (by_id layers) ≡ ok ordered
  pub consumed : consume_all lib recipe ordered ≡ ok state
  pub built : Built recipe state stack

pub compose_stack-Composed :
    (lib : Packaging) (recipe : StackRecipeSpec) (layers : List LayerSpec) {stack : StackSpec}
    → compose_stack lib recipe layers ≡ ok stack
    → Composed lib recipe layers stack
unfolding compose_stack
compose_stack-Composed lib recipe layers h =
    let (_, d, h₁) = >>=-eq-ok (check_duplicates [] recipe.layers) _ h in
    let (ordered, f, h₂) = >>=-eq-ok (find_layers recipe.layers (by_id layers)) _ h₁ in
    let (s, c, h₃) = >>=-eq-ok (consume_all lib recipe ordered) _ h₂ in
    record {
      ordered = ordered;
      state = s;
      unique = d;
      found = f;
      consumed = c;
      built = build_stack-Built recipe s h₃;
    }
