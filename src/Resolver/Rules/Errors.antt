-- ===== src/Resolver/Rules/Errors.antt =====
-- When the rules find an error: packages/stackwarden/src/stackwarden/resolvers/rules.py
use stack_warden.Base.{
  text_beq, codes, mem, get_or, ◌==◌, ◌||◌, if◌then◌else◌, Text, Bool, false, not, ◌&&◌, some, List,
  [], ◌∷◌, ◌++◌, map, filter, get, is_empty, starts_with, text_eq, ◌≡◌, refl, arith, Option-cases,
  inl, inr, ap, ◌∙◌,
}
use stack_warden.Specs.{PipDep}
use stack_warden.Specs.Profiles.{
  Profile, Stack, Arch, arm64, amd64, ServeType, python_api, triton, vllm, ContainerRuntime, nvidia,
  runc, serve_value, runtime_value,
}
use stack_warden.Resolver.Bases.{cuda_capable, has_cuda, is_nvidia}
use stack_warden.Resolver.Rules.{
  arm64_problematic_packages, problematic, arch_issues, check_arch_compatibility,
  serve_disallowed_issue, serve_disallowed, check_serve_disallowed, needs_cuda,
  missing_capability_issue, check_required_capabilities, is_error, remove_error_prefix, all_issues,
  evaluate_all,
}

-- no message about an architecture is an error
is_error-arm64_problematic_packages :
    (name msg : Text) → get name arm64_problematic_packages ≡ some msg → is_error msg ≡ false
unfolding get arm64_problematic_packages starts_with
is_error-arm64_problematic_packages name msg h = ground arith

filter-problematic : (deps : List PipDep) → filter is_error (problematic deps) ≡ []
unfolding problematic filter
filter-problematic [] = refl
filter-problematic (dep ∷ deps) = elim (Option-cases (get dep.name arm64_problematic_packages)) [
  | inl fine ↦ rw (problematic, fine) (filter-problematic deps)
  | inr (msg, known) ↦
      rw (problematic, known, is_error-arm64_problematic_packages dep.name msg known)
        (filter-problematic deps)
]

filter-arch_issues :
    (arch : Arch) (deps : List PipDep) → filter is_error (arch_issues arch deps) ≡ []
unfolding arch_issues filter
filter-arch_issues arm64 deps = filter-problematic deps
filter-arch_issues amd64 deps = refl

filter-append :
    (p : Text → Bool) (xs ys : List Text) → filter p (xs ++ ys) ≡ filter p xs ++ filter p ys
unfolding filter
filter-append p [] ys = refl
filter-append p (x ∷ xs) ys = ground (arith, filter-append p xs ys)

filter-check_serve_disallowed :
    (profile : Profile) (stack : Stack)
    → filter is_error (check_serve_disallowed profile stack) ≡ check_serve_disallowed profile stack
unfolding check_serve_disallowed serve_disallowed_issue filter starts_with
filter-check_serve_disallowed profile stack = ground arith

filter-check_required_capabilities :
    (profile : Profile) (stack : Stack)
    → filter is_error (check_required_capabilities profile stack)
      ≡ check_required_capabilities profile stack
unfolding check_required_capabilities missing_capability_issue filter starts_with
filter-check_required_capabilities profile stack = ground arith

is_empty-map : (f : Text → Text) (xs : List Text) → is_empty (map f xs) ≡ is_empty xs
is_empty-map f [] = refl
is_empty-map f (x ∷ xs) = refl

errors_are :
    (profile : Profile) (stack : Stack)
    → filter is_error (all_issues profile stack)
      ≡ check_serve_disallowed profile stack ++ check_required_capabilities profile stack
unfolding all_issues check_arch_compatibility
errors_are profile stack =
    rw
      (
        filter-append, filter-arch_issues, filter-append, filter-check_serve_disallowed,
        filter-check_required_capabilities,
      )
      refl

not_error-problematic :
    (deps : List PipDep) → filter (λ i. not (is_error i)) (problematic deps) ≡ problematic deps
unfolding problematic filter
not_error-problematic [] = refl
not_error-problematic (dep ∷ deps) = elim (Option-cases (get dep.name arm64_problematic_packages)) [
  | inl fine ↦ rw (problematic, fine) (not_error-problematic deps)
  | inr (msg, known) ↦
      rw (problematic, known, is_error-arm64_problematic_packages dep.name msg known)
        (ap (λ rest. msg ∷ rest) (not_error-problematic deps))
]

not_error-arch_issues :
    (arch : Arch) (deps : List PipDep)
    → filter (λ i. not (is_error i)) (arch_issues arch deps) ≡ arch_issues arch deps
unfolding arch_issues filter
not_error-arch_issues arm64 deps = not_error-problematic deps
not_error-arch_issues amd64 deps = refl

not_error-check_serve_disallowed :
    (profile : Profile) (stack : Stack)
    → filter (λ i. not (is_error i)) (check_serve_disallowed profile stack) ≡ []
unfolding check_serve_disallowed serve_disallowed_issue filter starts_with
not_error-check_serve_disallowed profile stack = ground arith

not_error-check_required_capabilities :
    (profile : Profile) (stack : Stack)
    → filter (λ i. not (is_error i)) (check_required_capabilities profile stack) ≡ []
unfolding check_required_capabilities missing_capability_issue filter starts_with
not_error-check_required_capabilities profile stack = ground arith

append_nil : (xs : List Text) → xs ++ [] ≡ xs
append_nil [] = refl
append_nil (x ∷ xs) = ap (λ rest. x ∷ rest) (append_nil xs)

warnings_are :
    (profile : Profile) (stack : Stack)
    → (evaluate_all profile stack).0 ≡ arch_issues profile.arch stack.components.pip
unfolding evaluate_all all_issues check_arch_compatibility
warnings_are profile stack =
    rw
      (
        filter-append, not_error-arch_issues, filter-append, not_error-check_serve_disallowed,
        not_error-check_required_capabilities,
      )
      (append_nil (arch_issues profile.arch stack.components.pip))

-- the message on a package, if its name is one of three
abbrev pub arm64_note : Text → List Text
arm64_note name =
    if codes "xformers" == name
    then codes "xformers has limited ARM64 support; torch SDPA will be used instead" ∷ []
    else if codes "tensorrt" == name
    then codes "TensorRT wheels are x86-only; use TRT inside the NGC base image" ∷ []
    else if codes "tensorrt_llm" == name
    then codes "TensorRT-LLM is x86-only in most releases" ∷ []
    else []

-- the messages on the packages of a stack, in their order
abbrev pub arm64_notes : Arch → List PipDep → List Text
arm64_notes amd64 deps = []
arm64_notes arm64 [] = []
arm64_notes arm64 (dep ∷ deps) = arm64_note dep.name ++ arm64_notes arm64 deps

arch_issues-eq-arm64_notes :
    (arch : Arch) (deps : List PipDep) → arch_issues arch deps ≡ arm64_notes arch deps
unfolding arch_issues problematic get arm64_problematic_packages
arch_issues-eq-arm64_notes amd64 deps = refl
arch_issues-eq-arm64_notes arm64 [] = refl
arch_issues-eq-arm64_notes arm64 (dep ∷ deps) =
    ground (arith, arch_issues-eq-arm64_notes arm64 deps)

-- the serve types that need CUDA, by their names
abbrev pub serves_on_cuda : ServeType → Bool
serves_on_cuda serve = serve_value serve == codes "triton" || serve_value serve == codes "vllm"

-- a profile that has CUDA: it says so, it has a version above 0, or its containers run on `nvidia`
abbrev pub offers_cuda : Profile → Bool
offers_cuda profile =
    mem (codes "cuda") profile.derived_capabilities
    || (has_cuda profile.cuda || runtime_value profile.container_runtime == codes "nvidia")

needs_cuda-eq : (serve : ServeType) → needs_cuda serve ≡ serves_on_cuda serve
unfolding text_beq
needs_cuda-eq python_api = refl
needs_cuda-eq triton = refl
needs_cuda-eq vllm = refl
needs_cuda-eq ServeType.custom = refl

is_nvidia-eq : (c : ContainerRuntime) → is_nvidia c ≡ (runtime_value c == codes "nvidia")
unfolding text_beq
is_nvidia-eq nvidia = refl
is_nvidia-eq runc = refl

cuda_capable-eq : (profile : Profile) → cuda_capable profile ≡ offers_cuda profile
unfolding cuda_capable
cuda_capable-eq profile = rw (is_nvidia-eq profile.container_runtime) refl

errors-is_empty :
    (profile : Profile) (stack : Stack)
    → is_empty (evaluate_all profile stack).1 ≡ (
        not (serve_disallowed profile stack)
        && not (needs_cuda stack.serve && not (cuda_capable profile)))
unfolding evaluate_all check_serve_disallowed check_required_capabilities
errors-is_empty profile stack =
    is_empty-map remove_error_prefix (filter is_error (all_issues profile stack))
    ∙ ap is_empty (errors_are profile stack)
    ∙ ground arith

-- The rules give no error exactly if the serve type of the stack is not in the list under `serve`
-- that the profile disallows, and the profile has CUDA where the stack serves with triton or vllm.
-- Their warnings are exactly the messages on the packages xformers, tensorrt and tensorrt_llm of the
-- stack, on an arm64 profile.
pub evaluate_all-errors :
    (profile : Profile) (stack : Stack)
    → (is_empty (evaluate_all profile stack).1 ≡ (
        not (mem (serve_value stack.serve) (get_or (codes "serve") [] profile.disallow))
        && not (serves_on_cuda stack.serve && not (offers_cuda profile))))
      × ((evaluate_all profile stack).0 ≡ arm64_notes profile.arch stack.components.pip)
unfolding serve_disallowed
evaluate_all-errors profile stack = (
  errors-is_empty profile stack ∙ rw (needs_cuda-eq stack.serve, cuda_capable-eq profile) refl,
  warnings_are profile stack ∙ arch_issues-eq-arm64_notes profile.arch stack.components.pip,
)
