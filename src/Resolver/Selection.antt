-- ===== src/Resolver/Selection.antt =====
-- Which base is selected: packages/stackwarden/src/stackwarden/resolvers/scoring.py
pub mod Explained
use stack_warden.Base.{
  find, any, All, ◌≺◌, int_lt, int_beq, int_beq_iff, int_lt-neg_ℤ, neg_ℤ_injective, ℕ, zero, suc,
  ◌-◌, ℤ, pos, negsuc, ◌+ℤ◌, neg_ℤ, Text, codes, Bool, true, false, not, ◌||◌, ◌&&◌, Option, none,
  some, List, [], ◌∷◌, ◌++◌, map, mem, Distinct, ◌==◌, eq_of_==, ==_refl, nat_eq, int_eq, text_eq,
  text_beq_iff, int_ord, text_ord, pair_ord, is_empty, get, List-cases, head, sort_by, head-sort_by,
  least_by, least_by-map, least_by_ext, least_by-All, least_by-Among, Among, NoneBelow,
  if◌then◌else◌, Result, ok, err, ◌≡◌, refl, sym, ap, ◌∙◌, ◌⊎◌, inl, inr, arith, Bool-cases,
  Option-cases,
}
use stack_warden.Specs.Profiles.{Profile, Stack, BaseCandidate}
use stack_warden.Resolver.Bases.{
  RuntimeBaseCandidate, cuda_capable, default_candidate, candidates_for, own_candidates,
  profile_candidates, image_override,
}
use stack_warden.Resolver.Scoring.{
  matching_tag, cuda_variant_match, cuda_variant, first_tag, tag_or_first, pick_best_tag,
  role_score, score_candidate, ScoreBreakdown, score_candidate_detailed, rank, breakdown_rank,
  SelectError, with_tag, select_base, find_named, Selection, select_named, select_base_detailed,
  word_boundary_match,
}

add_zero : (a : ℤ) → a +ℤ pos 0 ≡ a
unfolding ◌+ℤ◌
add_zero (pos a) = ground arith
add_zero (negsuc a) = ground arith

-- both functions compute the same score
total-score :
    (stack : Stack) (profile : Profile) (c : RuntimeBaseCandidate)
    → (score_candidate_detailed c stack profile).total ≡ score_candidate c stack profile
unfolding score_candidate score_candidate_detailed
total-score stack profile c = ground (arith, add_zero c.score_bias)

pub name-detailed :
    (stack : Stack) (profile : Profile) (c : RuntimeBaseCandidate)
    → (score_candidate_detailed c stack profile).candidate_name ≡ c.name
unfolding score_candidate_detailed
name-detailed stack profile c = refl

pub breakdown_rank-detailed :
    (stack : Stack) (profile : Profile) (c : RuntimeBaseCandidate)
    → breakdown_rank (score_candidate_detailed c stack profile) ≡ rank stack profile c
breakdown_rank-detailed stack profile c =
    ground (arith, total-score stack profile c, name-detailed stack profile c)

cons_of_default :
    (d : RuntimeBaseCandidate) (bs : List BaseCandidate)
    → (c : RuntimeBaseCandidate) × (cs : List RuntimeBaseCandidate) × ((if is_empty bs
          then d ∷ []
          else profile_candidates bs)
        ≡ c ∷ cs)
unfolding profile_candidates
cons_of_default d [] = (d, [], refl)
cons_of_default d (b ∷ bs) = (_, _, refl)

own_candidates-cons :
    (profile : Profile)
    → (c : RuntimeBaseCandidate) × (cs : List RuntimeBaseCandidate) × (own_candidates profile
        ≡ c ∷ cs)
unfolding own_candidates
own_candidates-cons profile =
    cons_of_default (default_candidate (cuda_capable profile)) profile.base_candidates

-- there is always a candidate
pub candidates_for-cons :
    (profile : Profile) (stack : Stack)
    → (c : RuntimeBaseCandidate) × (cs : List RuntimeBaseCandidate) × (candidates_for profile stack
        ≡ c ∷ cs)
unfolding candidates_for
candidates_for-cons profile stack =
    elim (Option-cases (image_override (get (codes "base_image") stack.policy_overrides))) [
      | inl own ↦ rw (candidates_for, own) (own_candidates-cons profile)
      | inr (name, given) ↦ rw (candidates_for, given) (_, _, refl)
    ]

pub select_base-least :
    (profile : Profile) (stack : Stack) (c : RuntimeBaseCandidate) (cs : List RuntimeBaseCandidate)
    → candidates_for profile stack ≡ c ∷ cs
    → select_base profile stack ≡ with_tag profile (some (least_by (rank stack profile) c cs))
unfolding select_base
select_base-least profile stack c cs e =
    rw (select_base, e, head-sort_by (rank stack profile) c cs) refl

matching_tag-eq-find :
    (variant : Text) (tags : List Text)
    → matching_tag variant tags ≡ find (cuda_variant_match variant) tags
unfolding matching_tag find
matching_tag-eq-find variant [] = refl
matching_tag-eq-find variant (tag ∷ tags) = rw (matching_tag-eq-find variant tags) refl

-- the variant of CUDA that a profile asks for, if any
abbrev pub asked_variant : Profile → Text
asked_variant profile = cuda_variant profile.cuda

-- the first of the tags with the profile's variant, else the first tag, else `latest`
abbrev pub best_tag : Profile → List Text → Text
best_tag profile tags =
    if is_empty (asked_variant profile)
    then first_tag tags
    else elim (find (cuda_variant_match (asked_variant profile)) tags) [
      | none ↦ first_tag tags
      | some tag ↦ tag
    ]

-- What a candidate is worth: its bias, 200 where its name has the role of the stack as a word, and
-- 50 where one of its tags has the variant of CUDA that the profile asks for.
abbrev pub worth : Profile → Stack → RuntimeBaseCandidate → ℤ
worth profile stack c =
    c.score_bias
    +ℤ (if word_boundary_match stack.components.base_role c.name then pos 200 else pos 0)
    +ℤ (if not (is_empty (asked_variant profile))
          && any (cuda_variant_match (asked_variant profile)) c.tags
        then pos 50
        else pos 0)

tag_or_first-find :
    (p : Text → Bool) (all tags : List Text)
    → tag_or_first all (find p tags) ≡ (
      (elim (find p tags) [ none ↦ first_tag all | some tag ↦ tag ]),
      if any p tags then pos 50 else pos 0,
    )
unfolding find any
tag_or_first-find p all [] = refl
tag_or_first-find p all (tag ∷ tags) = elim (Bool-cases (p tag)) [
  | inl here ↦ rw here refl
  | inr later ↦ rw later (tag_or_first-find p all tags)
]

pick_best_tag-eq :
    (profile : Profile) (c : RuntimeBaseCandidate)
    → pick_best_tag c profile ≡ (
      best_tag profile c.tags,
      if not (is_empty (asked_variant profile))
            && any (cuda_variant_match (asked_variant profile)) c.tags
          then pos 50
          else pos 0,
    )
unfolding pick_best_tag
pick_best_tag-eq profile c = elim (Bool-cases (is_empty (asked_variant profile))) [
  | inl unasked ↦ rw unasked refl
  | inr asked ↦
      rw (asked, matching_tag-eq-find (asked_variant profile) c.tags)
        (tag_or_first-find (cuda_variant_match (asked_variant profile)) c.tags c.tags)
]

score_candidate-worth :
    (profile : Profile) (stack : Stack) (c : RuntimeBaseCandidate)
    → score_candidate c stack profile ≡ worth profile stack c
unfolding score_candidate
score_candidate-worth profile stack c =
    elim (Bool-cases (word_boundary_match stack.components.base_role c.name)) [
      | inl role ↦ rw (role, pick_best_tag-eq profile c) refl
      | inr other ↦ rw (other, pick_best_tag-eq profile c, add_zero c.score_bias) refl
    ]

-- a candidate goes before another: it is worth more, or as much and its name is smaller
abbrev pub goes_before : Profile → Stack → (c d : RuntimeBaseCandidate) → Bool
goes_before profile stack c d =
    int_lt (worth profile stack d) (worth profile stack c)
    || (worth profile stack c == worth profile stack d && c.name ≺ d.name)

int_beq-neg_ℤ : (a b : ℤ) → int_beq (neg_ℤ a) (neg_ℤ b) ≡ int_beq a b
int_beq-neg_ℤ a b = elim (Bool-cases (int_beq a b)) [
  | inl same ↦ rw (eq_of_== a b same) (==_refl (neg_ℤ b) ∙ sym (==_refl b))
  | inr other ↦
      ground (arith, neg_ℤ_injective a b, int_beq_iff (neg_ℤ a) (neg_ℤ b), int_beq_iff a b)
]

if_or : (a b c : Bool) → (if a then true else if b then c else false) ≡ (a || (b && c))
if_or true b c = refl
if_or false true c = refl
if_or false false c = refl

rank-goes_before :
    (profile : Profile) (stack : Stack) (c d : RuntimeBaseCandidate)
    → (rank stack profile c ≺ rank stack profile d) ≡ goes_before profile stack c d
rank-goes_before profile stack c d =
    rw
      (
        score_candidate-worth profile stack c,
        score_candidate-worth profile stack d,
        int_lt-neg_ℤ (worth profile stack c) (worth profile stack d),
        int_beq-neg_ℤ (worth profile stack c) (worth profile stack d),
      )
      (if_or (int_lt (worth profile stack d) (worth profile stack c))
        (worth profile stack c == worth profile stack d) (c.name ≺ d.name))

-- a candidate that no other goes before
abbrev pub IsBest : Profile → Stack → RuntimeBaseCandidate → Type 0
IsBest profile stack best =
    Among best (candidates_for profile stack)
    × All (λ c. goes_before profile stack c best ≡ false) (candidates_for profile stack)

All-goes_before :
    (profile : Profile) (stack : Stack) (cs : List RuntimeBaseCandidate)
    (best : RuntimeBaseCandidate)
    → NoneBelow (rank stack profile) cs best
    → All (λ c. goes_before profile stack c best ≡ false) cs
All-goes_before profile stack [] best h = tt
All-goes_before profile stack (c ∷ cs) best h =
    (sym (rank-goes_before profile stack c best) ∙ h.0, All-goes_before profile stack cs best h.1)

-- A base is selected for every profile and stack: a candidate such that no candidate is worth more, and
-- none that is worth as much has a smaller name; with the first of its tags that has the variant of
-- CUDA that the profile asks for, or else its first tag, or `latest` where it has none.
pub select_base-IsBest :
    (profile : Profile) (stack : Stack)
    → (best : RuntimeBaseCandidate) × (select_base profile stack
        ≡ ok (best, best_tag profile best.tags))
      × IsBest profile stack best
select_base-IsBest profile stack =
    let (c, cs, e) = candidates_for-cons profile stack in
    let key = rank stack profile in
    let best = least_by key c cs in
    (
      best,
      select_base-least profile stack c cs e
          ∙ ap (λ (t : Text × ℤ). ok (best, t.0)) (pick_best_tag-eq profile best),
      rw e (
        least_by-Among key c cs,
        All-goes_before profile stack (c ∷ cs) best (least_by-All key c cs),
      ),
    )
