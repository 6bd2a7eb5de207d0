-- ===== src/Resolver/Matching.antt =====
-- The two searches at word boundaries of
-- packages/stackwarden/src/stackwarden/resolvers/scoring.py
use stack_warden.Base.{
  ℕ, Text, Bool, true, false, ◌&&◌, ◌||◌, Option, none, some, [], ◌∷◌, ◌++◌, ◌==◌, nat_eq,
  nat_beq_iff, is_empty, if◌then◌else◌, Bool-cases, ◌≡◌, refl, ap, sym, ◌↔◌, inl, inr, arith,
}
use mathlib.Core.Path.{subst}

-- `s` without the prefix `p`, if it has it
unfoldable pub strip_prefix : Text → Text → Option Text
strip_prefix [] s = some s
strip_prefix (x ∷ p) [] = none
strip_prefix (x ∷ p) (y ∷ s) = if x == y then strip_prefix p s else none

module _ (boundary : ℕ → Bool) where
  -- `(?:$|[...])`: the end, a newline at the end, or a boundary
  unfoldable pub ends_here : Text → Bool
  ends_here [] = true
  ends_here (c ∷ []) = c == 10 || boundary c
  ends_here (c ∷ d ∷ s) = boundary c

  ends_after : Option Text → Bool
  unfolding ends_here
  ends_after none = false
  ends_after (some rest) = ends_here rest

  -- `(needle)(?:$|[...])` at the start of the text
  unfoldable pub matches_here : Text → Text → Bool
  unfolding ends_after strip_prefix
  matches_here needle s = ends_after (strip_prefix needle s)

  -- a boundary, and the needle after it
  unfoldable pub matches_later : Text → Text → Bool
  unfolding matches_here
  matches_later needle [] = false
  matches_later needle (c ∷ s) = boundary c && matches_here needle s || matches_later needle s

  -- `re.search` of the needle between boundaries
  unfoldable pub boundary_search : Text → Text → Bool
  unfolding matches_here matches_later
  boundary_search needle s = matches_here needle s || matches_later needle s

  -- the last code point is a boundary
  abbrev pub ends_boundary : Text → Bool
  ends_boundary [] = false
  ends_boundary (c ∷ []) = boundary c
  ends_boundary (c ∷ d ∷ s) = ends_boundary (d ∷ s)

  -- the needle stands in `s` as a word: after the start or a boundary, before the end or a boundary
  pub record Occurrence (needle s : Text) : Type 0 where
    pub pre : Text
    pub post : Text
    pub whole : s ≡ pre ++ (needle ++ post)
    pub starts : (is_empty pre || ends_boundary pre) ≡ true
    pub ends : ends_here post ≡ true

  matches_here-post :
      (needle s : Text)
      → matches_here needle s ≡ true
      → (post : Text) × (s ≡ needle ++ post) × (ends_here post ≡ true)
  unfolding matches_here ends_after strip_prefix
  matches_here-post [] s h = (s, refl, h)
  matches_here-post (x ∷ p) [] h = absurd (cc)
  matches_here-post (x ∷ p) (y ∷ s) h = elim (Bool-cases (x == y)) [
    | inl same ↦
        let (post, e, m) = matches_here-post p s (rw same at h) in
        (post, ground (arith, nat_beq_iff x y), m)
    | inr other ↦ absurd (ground arith)
  ]

  matches_here-append :
      (needle post : Text) → ends_here post ≡ true → matches_here needle (needle ++ post) ≡ true
  unfolding matches_here ends_after strip_prefix
  matches_here-append [] post h = h
  matches_here-append (x ∷ p) post h = ground (arith, matches_here-append p post h)

  -- an occurrence after a boundary
  abbrev Later : Text → Text → Type 0
  Later needle s =
      (pre post : Text) × (s ≡ pre ++ (needle ++ post))
      × (ends_boundary pre ≡ true)
      × (ends_here post ≡ true)

  ends_boundary-cons : (c : ℕ) (s : Text) → ends_boundary s ≡ true → ends_boundary (c ∷ s) ≡ true
  ends_boundary-cons c [] h = absurd (cc)
  ends_boundary-cons c (d ∷ s) h = h

  matches_later-Later : (needle s : Text) → matches_later needle s ≡ true → Later needle s
  unfolding matches_later
  matches_later-Later needle [] h = absurd (cc)
  matches_later-Later needle (c ∷ s) h = elim (Bool-cases (boundary c && matches_here needle s)) [
    | inl here ↦
        let (post, e, m) = matches_here-post needle s (ground arith) in
        (c ∷ [], post, ap (λ t. c ∷ t) e, ground arith, m)
    | inr there ↦
        let (pre, post, e, b, m) = matches_later-Later needle s (ground arith) in
        (c ∷ pre, post, ap (λ t. c ∷ t) e, ends_boundary-cons c pre b, m)
  ]

  matches_later-append :
      (needle pre post : Text)
      → ends_boundary pre ≡ true
      → ends_here post ≡ true
      → matches_later needle (pre ++ (needle ++ post)) ≡ true
  unfolding matches_later
  matches_later-append needle [] post b m = absurd (cc)
  matches_later-append needle (c ∷ []) post b m = ground (arith, matches_here-append needle post m)
  matches_later-append needle (c ∷ d ∷ pre) post b m =
      ground (arith, matches_later-append needle (d ∷ pre) post b m)

  boundary_search-append :
      (needle pre post : Text)
      → (is_empty pre || ends_boundary pre) ≡ true
      → ends_here post ≡ true
      → boundary_search needle (pre ++ (needle ++ post)) ≡ true
  unfolding boundary_search
  boundary_search-append needle [] post b m = ground (arith, matches_here-append needle post m)
  boundary_search-append needle (c ∷ pre) post b m =
      ground (arith, matches_later-append needle (c ∷ pre) post b m)

  -- The search succeeds exactly if the needle occurs as a word.
  pub boundary_search_iff :
      (needle s : Text) → (boundary_search needle s ≡ true) ↔ Occurrence needle s
  unfolding boundary_search
  boundary_search_iff needle s = (
    λ h. elim (Bool-cases (matches_here needle s)) [
      | inl here ↦
          let (post, e, m) = matches_here-post needle s here in
          record { pre = []; post = post; whole = e; starts = refl; ends = m }
      | inr there ↦
          let (pre, post, e, b, m) = matches_later-Later needle s (ground arith) in
          record { pre = pre; post = post; whole = e; starts = ground arith; ends = m }
    ],
    λ o.
        subst (λ t. boundary_search needle t ≡ true) (sym o.whole)
          (boundary_search-append needle o.pre o.post o.starts o.ends),
  )
