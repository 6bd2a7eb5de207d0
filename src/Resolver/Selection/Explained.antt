-- ===== src/Resolver/Selection/Explained.antt =====
-- The selection with its scores against the plain one:
-- packages/stackwarden/src/stackwarden/resolvers/scoring.py
use stack_warden.Base.{
  ℤ, Text, true, some, List, [], ◌∷◌, map, mem, Distinct, text_eq, text_beq_iff, int_eq, int_ord,
  text_ord, pair_ord, head, sort_by, head-sort_by, least_by, least_by-map, least_by_ext,
  least_by-Among, Among, ok, ◌≡◌, refl, ap, ◌∙◌, inl, inr, arith,
}
use stack_warden.Specs.Profiles.{Profile, Stack}
use stack_warden.Resolver.Bases.{RuntimeBaseCandidate, candidates_for}
use stack_warden.Resolver.Scoring.{
  pick_best_tag, ScoreBreakdown, score_candidate_detailed, rank, breakdown_rank, select_base,
  find_named, Selection, selection, select_named, select_base_detailed,
}
use stack_warden.Resolver.Selection.{
  breakdown_rank-detailed, name-detailed, candidates_for-cons, select_base-least,
}

abbrev pub names : List RuntimeBaseCandidate → List Text
names = map (λ c. c.name)

mem-names :
    (c : RuntimeBaseCandidate) (cs : List RuntimeBaseCandidate)
    → Among c cs
    → mem c.name (names cs) ≡ true
unfolding mem
mem-names c [] h = absurd h
mem-names c (d ∷ cs) (inl e) = ground (arith, e, text_beq_iff d.name c.name)
mem-names c (d ∷ cs) (inr h) = ground (arith, mem-names c cs h)

-- where no name occurs twice, a candidate is found by its name
find_named-Among :
    (c : RuntimeBaseCandidate) (cs : List RuntimeBaseCandidate)
    → Among c cs
    → Distinct (names cs)
    → find_named c.name cs ≡ some c
unfolding find_named
find_named-Among c [] h d = absurd h
find_named-Among c (e ∷ cs) (inl p) d = ground (arith, p, text_beq_iff e.name c.name)
find_named-Among c (e ∷ cs) (inr h) d =
    ground (arith, text_beq_iff e.name c.name, mem-names c cs h, find_named-Among c cs h d.1)

module _ (str : ℤ → Text) where
  select_named-head :
      (profile : Profile) (stack : Stack) (available : List RuntimeBaseCandidate)
      (b : ScoreBreakdown) (best : RuntimeBaseCandidate) (bs : List ScoreBreakdown)
      → head bs ≡ some b
      → find_named b.candidate_name available ≡ some best
      → (s : Selection) × (select_named str profile stack available bs ≡ ok s)
        × (s.candidate ≡ best)
        × (s.tag ≡ (pick_best_tag best profile).0)
  unfolding select_named
  select_named-head profile stack available b best [] h f = absurd (cc)
  select_named-head profile stack available b best (b' ∷ bs) h f =
      let f' : find_named b'.candidate_name available ≡ some best = cc in
      (selection str profile stack b' bs best, rw (select_named, f') refl, refl, refl)

  head-breakdowns :
      (profile : Profile) (stack : Stack) (c : RuntimeBaseCandidate)
      (cs : List RuntimeBaseCandidate)
      → head (sort_by breakdown_rank (map (λ c. score_candidate_detailed c stack profile) (c ∷ cs)))
        ≡ some (score_candidate_detailed (least_by (rank stack profile) c cs) stack profile)
  head-breakdowns profile stack c cs =
      let detailed = λ (c : RuntimeBaseCandidate). score_candidate_detailed c stack profile in
      head-sort_by breakdown_rank (detailed c) (map detailed cs)
      ∙ ap some (
          least_by-map breakdown_rank detailed c cs
          ∙ ap detailed (
              least_by_ext (λ c. breakdown_rank (detailed c)) (rank stack profile)
                (breakdown_rank-detailed stack profile) c cs))

  -- If no two candidates have the same name, the selection with its scores finds the candidate and
  -- the tag that the plain selection finds.
  pub select_base_detailed-select_base :
      (profile : Profile) (stack : Stack)
      → Distinct (names (candidates_for profile stack))
      → (s : Selection) × (select_base_detailed str profile stack ≡ ok s)
        × (select_base profile stack ≡ ok (s.candidate, s.tag))
  unfolding select_base_detailed
  select_base_detailed-select_base profile stack distinct =
      let (c, cs, e) = candidates_for-cons profile stack in
      let best = least_by (rank stack profile) c cs in
      let among = least_by-Among (rank stack profile) c cs in
      let found : find_named best.name (candidates_for profile stack) ≡ some best =
        rw e (find_named-Among best (c ∷ cs) among (rw e at distinct)) in
      let sorted_head = head-breakdowns profile stack c cs in
      let (s, run, same, tag) =
        select_named-head profile stack (candidates_for profile stack)
          (score_candidate_detailed best stack profile) best
          (sort_by breakdown_rank
            (map (λ c. score_candidate_detailed c stack profile) (candidates_for profile stack)))
          (rw e sorted_head) (rw (name-detailed stack profile best) found) in
      (s, run, select_base-least profile stack c cs e ∙ rw (same, tag) refl)
