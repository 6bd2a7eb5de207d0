-- ===== src/Resolver/Scoring.antt =====
-- packages/stackwarden/src/stackwarden/resolvers/scoring.py
use stack_warden.Base.{
  ℕ, ℤ, pos, ◌+ℤ◌, neg_ℤ, Text, codes, Bool, not, ◌||◌, ◌&&◌, Option, none, some, List, [], ◌∷◌,
  ◌++◌, map, ◌==◌, nat_eq, int_eq, text_eq, int_ord, text_ord, pair_ord, is_empty, leb, join, head,
  sort_by, if◌then◌else◌, Result, ok, err,
}
use stack_warden.Specs.Profiles.{Profile, Stack, CudaSpec}
use stack_warden.Resolver.Matching.{boundary_search}
use stack_warden.Resolver.Bases.{RuntimeBaseCandidate, candidates_for}

-- `[/\-_.]`
abbrev pub is_separator : ℕ → Bool
is_separator c = c == 47 || (c == 45 || (c == 95 || c == 46))

-- `[^0-9.]`
abbrev pub is_not_version : ℕ → Bool
is_not_version c = not (leb 48 c && leb c 57) && not (c == 46)

-- `_word_boundary_match`
unfoldable pub word_boundary_match : Text → Text → Bool
word_boundary_match needle haystack = boundary_search is_separator needle haystack

-- `_cuda_variant_match`
unfoldable pub cuda_variant_match : Text → Text → Bool
cuda_variant_match variant tag = boundary_search is_not_version variant tag

-- `profile.cuda.variant if profile.cuda else ""`
abbrev pub cuda_variant : Option CudaSpec → Text
cuda_variant none = []
cuda_variant (some c) = c.variant

-- the first tag that matches the variant
unfoldable pub matching_tag : Text → List Text → Option Text
matching_tag variant [] = none
matching_tag variant (tag ∷ tags) =
    let later = matching_tag variant tags in
    if cuda_variant_match variant tag then some tag else later

-- the tag that is taken where none matches
abbrev pub first_tag : List Text → Text
first_tag [] = codes "latest"
first_tag (tag ∷ _) = tag

-- the tag, and the score of its match, from what the search found
abbrev pub tag_or_first : List Text → Option Text → Text × ℤ
tag_or_first tags none = (first_tag tags, pos 0)
tag_or_first tags (some tag) = (tag, pos 50)

-- `_pick_best_tag`
unfoldable pub pick_best_tag : RuntimeBaseCandidate → Profile → Text × ℤ
pick_best_tag candidate profile =
    let variant = cuda_variant profile.cuda in
    if is_empty variant
    then (first_tag candidate.tags, pos 0)
    else tag_or_first candidate.tags (matching_tag variant candidate.tags)

-- the score of a match with the role
abbrev pub role_score : RuntimeBaseCandidate → Stack → ℤ
role_score candidate stack =
    if word_boundary_match stack.components.base_role candidate.name then pos 200 else pos 0

-- `score_candidate`; adding 0 where the role does not match changes nothing
unfoldable pub score_candidate : RuntimeBaseCandidate → Stack → Profile → ℤ
score_candidate candidate stack profile =
    let score =
      if word_boundary_match stack.components.base_role candidate.name
      then candidate.score_bias +ℤ pos 200
      else candidate.score_bias in
    score +ℤ (pick_best_tag candidate profile).1

pub record ScoreBreakdown : Type 0 where
  pub candidate_name : Text
  pub candidate_tag : Text
  pub score_bias : ℤ
  pub role_match : ℤ
  pub cuda_match : ℤ
  pub total : ℤ

-- `score_candidate_detailed`
unfoldable pub score_candidate_detailed : RuntimeBaseCandidate → Stack → Profile → ScoreBreakdown
score_candidate_detailed candidate stack profile = record {
  candidate_name = candidate.name;
  candidate_tag = (pick_best_tag candidate profile).0;
  score_bias = candidate.score_bias;
  role_match = role_score candidate stack;
  cuda_match = (pick_best_tag candidate profile).1;
  total = candidate.score_bias +ℤ role_score candidate stack +ℤ (pick_best_tag candidate profile).1;
}

-- `(-score, name)`
abbrev pub rank : Stack → Profile → RuntimeBaseCandidate → ℤ × Text
rank stack profile c = (neg_ℤ (score_candidate c stack profile), c.name)

abbrev pub breakdown_rank : ScoreBreakdown → ℤ × Text
breakdown_rank b = (neg_ℤ b.total, b.candidate_name)

pub data SelectError : Type 0 where
  no_candidates not_found : SelectError

abbrev pub with_tag :
    Profile → Option RuntimeBaseCandidate → Result SelectError (RuntimeBaseCandidate × Text)
with_tag profile none = err no_candidates
with_tag profile (some best) = ok (best, (pick_best_tag best profile).0)

-- `select_base`
unfoldable pub select_base : Profile → Stack → Result SelectError (RuntimeBaseCandidate × Text)
select_base profile stack =
    with_tag profile (head (sort_by (rank stack profile) (candidates_for profile stack)))

-- the first candidate with the name
unfoldable pub find_named : Text → List RuntimeBaseCandidate → Option RuntimeBaseCandidate
find_named name [] = none
find_named name (c ∷ cs) =
    let later = find_named name cs in if c.name == name then some c else later

pub record Selection : Type 0 where
  pub candidate : RuntimeBaseCandidate
  pub tag : Text
  pub breakdowns : List ScoreBreakdown
  pub reason : Text

module _ (str : ℤ → Text) where
  -- a part of the reason, for a score that is not 0
  abbrev reason_part : (what : Text) → ℤ → List Text
  reason_part what score =
      if score == pos 0 then [] else (what ++ (codes " (+" ++ (str score ++ codes ")"))) ∷ []

  -- the reason for the selection
  unfoldable pub reason_for : Stack → ScoreBreakdown → Text
  reason_for stack b =
      let parts =
        reason_part (stack.components.base_role ++ codes " role match") b.role_match
        ++ (reason_part (codes "CUDA tag match") b.cuda_match
            ++ reason_part (codes "score_bias") b.score_bias) in
      if is_empty parts
      then codes "Default selection (score=" ++ (str b.total ++ codes ")")
      else codes "Highest score (" ++ (str b.total ++ (codes "): " ++ join (codes ", ") parts))

  abbrev pub selection :
      Profile → Stack → ScoreBreakdown → List ScoreBreakdown → RuntimeBaseCandidate → Selection
  selection profile stack b bs best = record {
    candidate = best;
    tag = (pick_best_tag best profile).0;
    breakdowns = b ∷ bs;
    reason = reason_for stack b;
  }

  -- the first of the sorted breakdowns, and the candidate of its name
  unfoldable pub select_named :
      Profile
      → Stack
      → List RuntimeBaseCandidate
      → List ScoreBreakdown
      → Result SelectError Selection
  select_named profile stack available [] = err no_candidates
  select_named profile stack available (b ∷ bs) = elim (find_named b.candidate_name available) [
    | none ↦ err not_found
    | some best ↦ ok (selection profile stack b bs best)
  ]

  -- `select_base_detailed`
  unfoldable pub select_base_detailed : Profile → Stack → Result SelectError Selection
  select_base_detailed profile stack =
      let available = candidates_for profile stack in
      select_named profile stack available
        (sort_by breakdown_rank (map (λ c. score_candidate_detailed c stack profile) available))
