-- ===== src/Registry/Decision.antt =====
-- What a policy lets through: packages/stackwarden/src/stackwarden/domain/registry_policy.py
use stack_warden.Base.{
  eq_of_==, ==_refl, Bool-cases, nat_beq_iff, nat_eq, Text, true, List, [], ◌∷◌, ◌++◌, ◌||◌, ◌&&◌,
  not, ◌==◌, text_eq, ◌≡◌, refl, arith, any, starts_with, starts_with-append, is_empty, is_ok, ◌⊎◌,
  inl, inr, ◌↔◌,
}
use stack_warden.Registry.References.{Reference, IsReference, render, repository, cut-render}
use stack_warden.Registry.{
  slash, extract_registry, matches_pattern, some_matches, check_registry, assert_registry_allowed,
  RegistryPolicy,
}

some_matches-any :
    (registry image : Text) (patterns : List Text)
    → some_matches registry image patterns ≡ any (matches_pattern registry image) patterns
unfolding some_matches any
some_matches-any registry image [] = refl
some_matches-any registry image (p ∷ ps) = ground (arith, some_matches-any registry image ps)

-- An image passes exactly if no pattern of the deny list matches it, and the allow list is empty or
-- holds a pattern that matches it.
pub assert_registry_allowed-eq-ok :
    (image : Text) (policy : RegistryPolicy)
    → is_ok (assert_registry_allowed image policy) ≡ (
        not (any (matches_pattern (extract_registry image) image) policy.deny)
        && (is_empty policy.allow
            || any (matches_pattern (extract_registry image) image) policy.allow))
unfolding assert_registry_allowed check_registry any
assert_registry_allowed-eq-ok image policy = ground (
  arith,
  some_matches-any (extract_registry image) image policy.deny,
  some_matches-any (extract_registry image) image policy.allow,
)

starts_with-eq-append : (s p : Text) → starts_with s p ≡ true → (rest : Text) × (s ≡ p ++ rest)
unfolding starts_with
starts_with-eq-append s [] h = (s, refl)
starts_with-eq-append [] (y ∷ p) h = absurd (cc)
starts_with-eq-append (x ∷ s) (y ∷ p) h = elim (Bool-cases (x == y)) [
  | inl same ↦
      let (rest, e) = starts_with-eq-append s p (rw same at h) in
      (rest, ground (arith, nat_beq_iff x y))
  | inr other ↦ absurd (ground arith)
]

covers_iff :
    (registry name pattern : Text)
    → ((registry == pattern || name == pattern || starts_with name (pattern ++ slash ∷ [])) ≡ true)
      ↔ ((registry ≡ pattern)
          ⊎ ((name ≡ pattern) ⊎ ((rest : Text) × (name ≡ (pattern ++ slash ∷ []) ++ rest))))
covers_iff registry name pattern = (
  λ h. elim (Bool-cases (registry == pattern)) [
    | inl a ↦ inl (eq_of_== registry pattern a)
    | inr a ↦ elim (Bool-cases (name == pattern)) [
      | inl b ↦ inr (inl (eq_of_== name pattern b))
      | inr b ↦ inr (inr (starts_with-eq-append name _ (rw (a, b) at h)))
    ]
  ],
  λ h. elim h [
    | inl a ↦ rw (a, ==_refl pattern)
    | inr (inl b) ↦ ground (arith, b, ==_refl pattern)
    | inr (inr (rest, c)) ↦ rw c (ground (arith, starts_with-append (pattern ++ slash ∷ []) rest))
  ],
)

-- A pattern matches an image exactly if it is the image's registry, its repository, or a path above
-- its repository that ends before a `/`, where the parts of the image are plain.
pub matches_pattern_iff :
    (r : Reference)
    → IsReference r
    → (registry pattern : Text)
    → (matches_pattern registry (render r) pattern ≡ true) ↔ (
        (registry ≡ pattern)
        ⊎ ((repository r ≡ pattern)
            ⊎ ((rest : Text) × (repository r ≡ (pattern ++ slash ∷ []) ++ rest))))
unfolding matches_pattern
matches_pattern_iff r valid registry pattern =
    rw (matches_pattern, cut-render r valid) (covers_iff registry (repository r) pattern)
