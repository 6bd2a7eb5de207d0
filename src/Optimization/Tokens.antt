-- ===== src/Optimization/Tokens.antt =====
-- The tokens of the layers, and the families that they name.
use stack_warden.Base.{
  ℕ, Text, codes, Bool, ◌||◌, List, [], ◌∷◌, ◌++◌, map, any, filter, not, mem, ◌==◌, nat_eq,
  text_eq, is_empty, strip, lower, if◌then◌else◌,
}
use stack_warden.Specs.Profiles.{Layer, TaskType, embedding, task_value, ApiType, api_value}

-- put a code point before the first part
abbrev onto_first : ℕ → List Text → List Text
onto_first c [] = (c ∷ []) ∷ []
onto_first c (part ∷ parts) = (c ∷ part) ∷ parts

-- `s.split(sep)`
unfoldable pub split : ℕ → Text → List Text
split sep [] = [] ∷ []
split sep (c ∷ s) = let rest = split sep s in if c == sep then [] ∷ rest else onto_first c rest

-- `s.replace("-", "_")`
abbrev pub underscored : Text → Text
underscored = map (λ c. if c == 45 then 95 else c)

-- the tokens of one text: itself and its parts
unfoldable pub tokens_of : Text → List Text
tokens_of raw =
    let whole = underscored (lower (strip raw)) in
    filter (λ t. not (is_empty t)) (whole ∷ map strip (split 95 whole))

unfoldable pub tokens_of_all : List Text → List Text
tokens_of_all [] = []
tokens_of_all (raw ∷ raws) = tokens_of raw ++ tokens_of_all raws

-- `_layer_tokens`, with the set as a list
unfoldable pub layer_tokens : List Layer → List Text
layer_tokens [] = []
layer_tokens (layer ∷ layers) = tokens_of_all (layer.id ∷ layer.tags) ++ layer_tokens layers

-- `any(token in layer_tokens for token in words)`
abbrev pub names_any : List Text → List Text → Bool
names_any words tokens = any (λ w. mem w tokens) words

-- the family that the tokens name
unfoldable pub family_of_tokens : List Text → Text
family_of_tokens tokens =
    if names_any (codes "rag" ∷ codes "retrieval" ∷ codes "agentic" ∷ []) tokens
    then codes "rag"
    else if names_any (codes "embedding" ∷ codes "sentence" ∷ codes "vector" ∷ []) tokens
    then codes "embeddings"
    else if names_any (codes "whisper" ∷ codes "asr" ∷ codes "speech" ∷ []) tokens
    then codes "asr"
    else if names_any (codes "vision" ∷ codes "onnx" ∷ codes "detector" ∷ codes "segmentation" ∷ [])
        tokens
    then codes "vision"
    else if names_any
        (codes "diffusion" ∷ codes "flux" ∷ codes "syncdreamer" ∷ codes "hunyuan" ∷ []) tokens
    then codes "diffusion"
    else if names_any (codes "llm" ∷ codes "vllm" ∷ codes "sglang" ∷ []) tokens
    then codes "llm"
    else codes "general"

-- `_workload_family`
unfoldable pub workload_family : TaskType → List Text → Text
workload_family embedding tokens = codes "embeddings"
workload_family TaskType.custom tokens = family_of_tokens tokens
workload_family task tokens = task_value task

-- `_serving_stack`
unfoldable pub serving_stack : ApiType → List Text → Text
serving_stack api tokens =
    if api_value api == codes "grpc" || mem (codes "grpc") tokens
    then codes "grpc"
    else if api_value api == codes "fastapi" || mem (codes "fastapi") tokens
    then codes "fastapi"
    else if mem (codes "triton") tokens
    then codes "triton"
    else codes "generic"
