-- ===== src/Resolver/Rules.antt =====
-- packages/stackwarden/src/stackwarden/resolvers/rules.py
pub mod Errors
use stack_warden.Base.{
  Text, codes, Bool, true, false, not, ◌||◌, ◌&&◌, Option, none, some, List, [], ◌∷◌, ◌++◌, map,
  mem, filter, get, get_or, Dict, ◌==◌, text_eq, is_empty, starts_with, starts_with-append, strip,
  if◌then◌else◌, ◌≡◌, refl, arith, Bool-cases, inl, inr, ap,
}
use stack_warden.Specs.{PipDep}
use stack_warden.Specs.Profiles.{
  Profile, Stack, Arch, arm64, amd64, ServeType, python_api, triton, vllm, serve_value,
}
use stack_warden.Resolver.Matching.{strip_prefix}
use stack_warden.Resolver.Bases.{cuda_capable}

-- `_ARM64_PROBLEMATIC_PACKAGES`
unfoldable pub arm64_problematic_packages : Dict Text Text
arm64_problematic_packages =
    (codes "xformers", codes "xformers has limited ARM64 support; torch SDPA will be used instead")
    ∷ (codes "tensorrt", codes "TensorRT wheels are x86-only; use TRT inside the NGC base image")
    ∷ (codes "tensorrt_llm", codes "TensorRT-LLM is x86-only in most releases")
    ∷ []

unfoldable pub problematic : List PipDep → List Text
problematic [] = []
problematic (dep ∷ deps) = elim (get dep.name arm64_problematic_packages) [
  | none ↦ problematic deps
  | some msg ↦ msg ∷ problematic deps
]

unfoldable pub arch_issues : Arch → List PipDep → List Text
arch_issues arm64 deps = problematic deps
arch_issues amd64 deps = []

-- `check_arch_compatibility`
unfoldable pub check_arch_compatibility : Profile → Stack → List Text
check_arch_compatibility profile stack = arch_issues profile.arch stack.components.pip

-- `ERROR:` and a space
abbrev pub error_prefix : Text
error_prefix = codes "ERROR: "

unfoldable pub serve_disallowed_issue : Profile → Stack → Text
serve_disallowed_issue profile stack =
    error_prefix
    ++ (codes "serve type '"
        ++ (serve_value stack.serve
            ++ (codes "' is disallowed by profile '" ++ (profile.id ++ codes "'"))))

-- the serve type is in the list that the profile disallows
unfoldable pub serve_disallowed : Profile → Stack → Bool
serve_disallowed profile stack =
    mem (serve_value stack.serve) (get_or (codes "serve") [] profile.disallow)

-- `check_serve_disallowed`
unfoldable pub check_serve_disallowed : Profile → Stack → List Text
check_serve_disallowed profile stack =
    if serve_disallowed profile stack then serve_disallowed_issue profile stack ∷ [] else []

-- the serve types that need CUDA
abbrev pub needs_cuda : ServeType → Bool
needs_cuda triton = true
needs_cuda vllm = true
needs_cuda _ = false

unfoldable pub missing_capability_issue : Profile → Stack → Text
missing_capability_issue profile stack =
    error_prefix
    ++ (codes "serve type '"
        ++ (serve_value stack.serve
            ++ (codes "' requires capability 'cuda' not available from profile facts/derived "
                ++ (codes "capabilities for profile '" ++ (profile.id ++ codes "'")))))

-- `check_required_capabilities`; `cuda` is the one capability that any serve type needs
unfoldable pub check_required_capabilities : Profile → Stack → List Text
check_required_capabilities profile stack =
    if needs_cuda stack.serve && not (cuda_capable profile)
    then missing_capability_issue profile stack ∷ []
    else []

abbrev pub is_error : Text → Bool
is_error issue = starts_with issue (codes "ERROR:")

-- `issue.removeprefix("ERROR: ")`
unfoldable pub remove_error_prefix : Text → Text
remove_error_prefix issue = elim (strip_prefix error_prefix issue) [ none ↦ issue | some t ↦ t ]

-- `all_issues`
unfoldable pub all_issues : Profile → Stack → List Text
all_issues profile stack =
    check_arch_compatibility profile stack
    ++ (check_serve_disallowed profile stack ++ check_required_capabilities profile stack)

-- `evaluate_all`, as the pair of the warnings and the errors
unfoldable pub evaluate_all : Profile → Stack → List Text × List Text
evaluate_all profile stack = (
  filter (λ i. not (is_error i)) (all_issues profile stack),
  map remove_error_prefix (filter is_error (all_issues profile stack)),
)
