-- ===== src/Registry/References.antt =====
-- Image references by their parts, and what the policy's code reads off one:
-- packages/stackwarden/src/stackwarden/domain/registry_policy.py
use stack_warden.Base.{
  List, codes, ◌==◌, ℕ, nat_eq, Text, false, true, Option, none, some, [], ◌∷◌, ◌++◌, ◌≡◌, refl,
  mem, mem-append, before, before-append, arith, length,
}
use mathlib.Core.List.{append-nil, append_assoc}
use stack_warden.Registry.{
  colon, slash, at_sign, cut_at, cut_tag, cut_digest, extract_registry, matches_pattern,
  some_matches, check_registry, RegistryPolicy,
}
use stack_warden.Registry.Search.{
  rfind, is_before, rfind-append, rfind-append_here, rfind-is_before-length, take-length,
  rfind-eq-none,
}

-- `path/base:tag@digest`, where all but the base may be missing
pub record Reference : Type 0 where
  pub path : Option Text
  pub base : Text
  pub tag : Option Text
  pub digest : Option Text

abbrev pub path_text : Option Text → Text
path_text none = []
path_text (some p) = p ++ slash ∷ []

-- an optional part and the separator before it
abbrev pub suffix : ℕ → Option Text → Text
suffix separator none = []
suffix separator (some t) = separator ∷ t

abbrev pub repository : Reference → Text
repository r = path_text r.path ++ r.base

abbrev pub render : Reference → Text
render r = (repository r ++ suffix colon r.tag) ++ suffix at_sign r.digest

-- a part without the separators
pub record IsPlain (t : Text) : Type 0 where
  pub no_colon : mem colon t ≡ false
  pub no_slash : mem slash t ≡ false
  pub no_at : mem at_sign t ≡ false

abbrev pub Holds {ℓ} : (Text → Type ℓ) → Option Text → Type ℓ
Holds P none = Unit
Holds P (some t) = P t

pub record IsReference (r : Reference) : Type 0 where
  pub base : IsPlain r.base
  pub path : mem at_sign (path_text r.path) ≡ false
  pub tag : Holds IsPlain r.tag
  pub digest : Holds (λ t. mem slash t ≡ false) r.digest

cut_tag-tagged : (name tag : Text) → IsPlain tag → cut_tag (name ++ colon ∷ tag) ≡ name
unfolding cut_tag cut_at mem
cut_tag-tagged name tag plain =
    rw
      (
        cut_tag,
        rfind-append_here colon name tag plain.no_colon,
        rfind-append slash name (colon ∷ tag) (ground (arith, plain.no_slash)),
        rfind-is_before-length slash name,
      )
      (take-length name (colon ∷ tag))

-- a colon before the last slash belongs to a port
cut_at_port :
    (name : Text) (o : Option ℕ) (n : ℕ) → is_before o n ≡ true → cut_at name o (some n) ≡ name
unfolding cut_at
cut_at_port name none n h = refl
cut_at_port name (some i) n h = ground arith

cut_tag-untagged :
    (path : Option Text) (base : Text)
    → IsPlain base
    → cut_tag (path_text path ++ base) ≡ path_text path ++ base
unfolding cut_tag cut_at mem
cut_tag-untagged none base plain = rw (cut_tag, rfind-eq-none colon base plain.no_colon)
cut_tag-untagged (some p) base plain =
    rw
      (
        cut_tag,
        rfind-append colon (p ++ slash ∷ []) base plain.no_colon,
        rfind-append slash (p ++ slash ∷ []) base plain.no_slash,
        rfind-append colon p (slash ∷ []) (ground arith),
        rfind-append_here slash p [] refl,
      )
      (cut_at_port _ (rfind colon p) (length p) (rfind-is_before-length colon p))

before-append_left : (c : ℕ) (s t : Text) → mem c s ≡ true → before c (s ++ t) ≡ before c s
unfolding before mem
before-append_left c [] t h = absurd (cc)
before-append_left c (x ∷ s) t h = ground (arith, before-append_left c s t)

cut_tag-suffix :
    (path : Option Text) (base : Text) (tag : Option Text)
    → IsPlain base
    → Holds IsPlain tag
    → cut_tag ((path_text path ++ base) ++ suffix colon tag) ≡ path_text path ++ base
cut_tag-suffix path base none plain h =
    rw (append-nil (path_text path ++ base)) (cut_tag-untagged path base plain)
cut_tag-suffix path base (some tag) plain h = cut_tag-tagged (path_text path ++ base) tag h

cut_digest-suffix :
    (name : Text) (digest : Option Text)
    → mem at_sign name ≡ false
    → cut_digest (name ++ suffix at_sign digest) ≡ name
unfolding cut_digest mem
cut_digest-suffix name none h = rw (append-nil name, h)
cut_digest-suffix name (some d) h =
    rw (mem-append at_sign name (at_sign ∷ d), h, before-append at_sign name d h)

extract_registry-bare : (s : Text) → mem slash s ≡ false → extract_registry s ≡ codes "docker.io"
unfolding extract_registry
extract_registry-bare s h = ground arith

extract_registry-append :
    (s t : Text) → mem slash s ≡ true → extract_registry (s ++ t) ≡ extract_registry s
unfolding extract_registry
extract_registry-append s t h = rw (mem-append slash s t, before-append_left slash s t h, h)

extract_registry-path :
    (path : Option Text) (s t : Text)
    → mem slash s ≡ false
    → mem slash t ≡ false
    → extract_registry ((path_text path ++ s) ++ t) ≡ extract_registry (path_text path ++ s)
unfolding mem
extract_registry-path none s t h k =
    rw (extract_registry-bare s h, extract_registry-bare (s ++ t) (rw (mem-append slash s t, h) k))
extract_registry-path (some p) s t h k =
    extract_registry-append ((p ++ slash ∷ []) ++ s) t
      (ground (arith, mem-append slash (p ++ slash ∷ []) s, mem-append slash p (slash ∷ [])))

suffix-not-slash :
    (separator : ℕ) (o : Option Text)
    → (separator == slash) ≡ false
    → Holds (λ t. mem slash t ≡ false) o
    → mem slash (suffix separator o) ≡ false
unfolding mem
suffix-not-slash separator none h k = refl
suffix-not-slash separator (some t) h k = rw h k

module _ (r : Reference) (valid : IsReference r) where
  repository_no_at : mem at_sign (repository r) ≡ false
  repository_no_at = rw (mem-append at_sign (path_text r.path) r.base, valid.path) valid.base.no_at

  named_no_at : (tag : Option Text) → Holds IsPlain tag → mem at_sign (suffix colon tag) ≡ false
  unfolding mem
  named_no_at none h = refl
  named_no_at (some t) h = h.no_at

  pub cut-render : cut_tag (cut_digest (render r)) ≡ repository r
  cut-render =
      rw
        (cut_digest-suffix (repository r ++ suffix colon r.tag) r.digest (
          rw (mem-append at_sign (repository r) (suffix colon r.tag), repository_no_at)
            (named_no_at r.tag valid.tag)))
        (cut_tag-suffix r.path r.base r.tag valid.base valid.tag)

  cut-repository : cut_tag (cut_digest (repository r)) ≡ repository r
  unfolding cut_digest
  cut-repository = rw repository_no_at (cut_tag-untagged r.path r.base valid.base)

  plain_not_slash : (tag : Option Text) → Holds IsPlain tag → Holds (λ t. mem slash t ≡ false) tag
  plain_not_slash none h = tt
  plain_not_slash (some t) h = h.no_slash

  extract_registry-render : extract_registry (render r) ≡ extract_registry (repository r)
  extract_registry-render =
      rw (append_assoc (repository r) (suffix colon r.tag) (suffix at_sign r.digest)) (
        extract_registry-path r.path r.base (suffix colon r.tag ++ suffix at_sign r.digest)
          valid.base.no_slash
          (rw
            (
              mem-append slash (suffix colon r.tag) (suffix at_sign r.digest),
              suffix-not-slash colon r.tag refl (plain_not_slash r.tag valid.tag),
            )
            (suffix-not-slash at_sign r.digest refl valid.digest)))

  matches_pattern-render :
      (registry pattern : Text)
      → matches_pattern registry (render r) pattern
        ≡ matches_pattern registry (repository r) pattern
  unfolding matches_pattern
  matches_pattern-render registry pattern = rw (cut-render, cut-repository)

  some_matches-render :
      (registry : Text) (patterns : List Text)
      → some_matches registry (render r) patterns ≡ some_matches registry (repository r) patterns
  unfolding some_matches
  some_matches-render registry [] = refl
  some_matches-render registry (p ∷ ps) =
      rw (matches_pattern-render registry p, some_matches-render registry ps)

  -- The verdict on an image, and the reason, are those on its repository: neither the tag nor the
  -- digest counts, where the base and the tag hold none of `:`, `/` and `@`, the path no `@`, and
  -- the digest no `/`.
  pub check_registry-render :
      (policy : RegistryPolicy)
      → check_registry (render r) policy ≡ check_registry (repository r) policy
  unfolding check_registry
  check_registry-render policy = rw (
    extract_registry-render,
    some_matches-render (extract_registry (repository r)) policy.deny,
    some_matches-render (extract_registry (repository r)) policy.allow,
  )
