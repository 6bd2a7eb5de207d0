-- ===== src/Composition/Agreement/View.antt =====
-- What the preview and the composition both know about the dependencies seen so far.
use stack_warden.Base.{
  Text, Bool, true, false, ◌||◌, ◌&&◌, not, Option, some, none, List, [], ◌∷◌, ◌++◌, ◌≡◌, refl,
  arith, Dict, get, any, any-append, text_eq, pair_eq, if◌then◌else◌, Result, ok, err, ◌>>=◌,
}
use stack_warden.Specs.{VersionMode, version_mode_eq}
use stack_warden.Composition.Packaging.{ComposeError}
use stack_warden.Composition.Pip.{PipOrigin}
use stack_warden.Composition.Npm.{NpmKey, NpmOrigin, is_custom}
use stack_warden.Composition.Preview.{
  Conflict, Seen, Severity, ConflictType, pip, npm, error, warning, report,
}

-- an error of the preview about a pip or an npm package
abbrev pub is_error : Severity → Bool
is_error error = true
is_error warning = false

abbrev pub is_package : ConflictType → Bool
is_package pip = true
is_package npm = true
is_package _ = false

unfoldable pub is_hard : Conflict → Bool
is_hard c = is_error c.severity && is_package c.type

abbrev pub has_hard : List Conflict → Bool
has_hard = any is_hard

-- The preview raises nothing and reports no hard conflict.
unfoldable pub is_clean : Result ComposeError (List Conflict) → Bool
is_clean (ok conflicts) = not (has_hard conflicts)
is_clean (err e) = false

abbrev pub clean_seen : Result ComposeError Seen → Bool
clean_seen (ok s) = not (has_hard s.conflicts)
clean_seen (err e) = false

-- the versions of pip packages
abbrev pub pip_seen_at : Text → Dict Text (Text × Text) → Option Text
pip_seen_at name d = elim (get name d) [ none ↦ none | some (v, source) ↦ some v ]

abbrev pub pip_merged_at : Text → Dict Text PipOrigin → Option Text
pip_merged_at name d = elim (get name d) [ none ↦ none | some o ↦ some o.dep.version ]

-- An npm package by its mode, and by its version if the user asked for one.
abbrev pub npm_view : VersionMode → Text → VersionMode × Text
npm_view mode version = (mode, if is_custom mode then version else [])

abbrev pub npm_seen_at :
    NpmKey → Dict NpmKey (Text × VersionMode × Text) → Option (VersionMode × Text)
npm_seen_at key d = elim (get key d) [
  | none ↦ none
  | some (version, mode, source) ↦ some (npm_view mode version)
]

abbrev pub npm_merged_at : NpmKey → Dict NpmKey NpmOrigin → Option (VersionMode × Text)
npm_merged_at key d = elim (get key d) [
  | none ↦ none
  | some o ↦ some (npm_view o.dep.version_mode o.dep.version)
]

-- The preview has seen what the composition has merged, and no hard conflict.
pub record Sees (s : Seen) (pips : Dict Text PipOrigin) (npms : Dict NpmKey NpmOrigin)
    : Type 0 where
  pub pip_same : (name : Text) → pip_seen_at name s.pip_seen ≡ pip_merged_at name pips
  pub npm_same : (key : NpmKey) → npm_seen_at key s.npm_seen ≡ npm_merged_at key npms
  pub none_hard : has_hard s.conflicts ≡ false

pub has_hard-report :
    (cs : List Conflict) (c : Conflict) → has_hard (cs ++ c ∷ []) ≡ (has_hard cs || is_hard c)
unfolding any
has_hard-report cs c = ground (arith, any-append is_hard cs (c ∷ []))

-- a warning changes nothing, an error ends the agreement
pub Sees-report :
    (s : Seen) {pips : Dict Text PipOrigin} {npms : Dict NpmKey NpmOrigin} (c : Conflict)
    → is_hard c ≡ false
    → Sees s pips npms
    → Sees (report c s) pips npms
Sees-report s c soft h = record {
  pip_same = h.pip_same;
  npm_same = h.npm_same;
  none_hard = rw (has_hard-report s.conflicts c) (ground (arith, h.none_hard));
}

pub clean-report :
    (s : Seen) (c : Conflict) → is_hard c ≡ true → clean_seen (ok (report c s)) ≡ false
clean-report s c hard = rw (has_hard-report s.conflicts c) (ground arith)

-- The preview's result against the composition's: both went on, related by `R`, or the preview is
-- not clean.
abbrev pub Agree {ℓ} :
    {A : Type ℓ} → (Seen → A → Type 0) → Result ComposeError Seen → Result ComposeError A → Type 0
Agree R r (ok a) = (s : Seen) × (r ≡ ok s) × R s a
Agree R r (err e) = clean_seen r ≡ false

-- A step of the preview that never hides a hard conflict.
abbrev pub Grows : (Seen → Result ComposeError Seen) → Type 0
Grows f = (s : Seen) → has_hard s.conflicts ≡ true → clean_seen (f s) ≡ false

pub Grows-bind :
    (f g : Seen → Result ComposeError Seen) → Grows f → Grows g → Grows (λ s. f s >>= g)
Grows-bind f g hf hg s hard = continue (f s) (hf s hard)
  where
    continue : (r : Result ComposeError Seen) → clean_seen r ≡ false → clean_seen (r >>= g) ≡ false
    continue (ok t) h = hg t (ground arith)
    continue (err e) h = refl

pub Agree-bind {ℓ κ} :
    {A : Type ℓ} {B : Type κ} (R : Seen → A → Type 0) (S : Seen → B → Type 0)
    (r : Result ComposeError Seen) (q : Result ComposeError A) (f : Seen → Result ComposeError Seen)
    (g : A → Result ComposeError B)
    → Agree R r q
    → ((s : Seen) (a : A) → R s a → Agree S (f s) (g a))
    → Grows f
    → Agree S (r >>= f) (q >>= g)
Agree-bind R S r (ok a) f g (s, p, h) next grows = rw p (next s a h)
Agree-bind R S r (err e) f g h next grows = continue r h
  where
    continue : (t : Result ComposeError Seen) → clean_seen t ≡ false → clean_seen (t >>= f) ≡ false
    continue (ok s) dirty = grows s (ground arith)
    continue (err e) dirty = refl
