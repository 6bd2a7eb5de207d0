-- ===== src/Base/Texts.antt =====
-- Operations of Python's `str` on code points.
use Prim.Native.Nat.{ℕ, ◌+◌}
use mathlib.Core.Path.{◌≡◌, refl}
use mathlib.Core.Bool.{Bool, true, false, ◌&&◌, ◌||◌}
use mathlib.Core.List.{List, [], ◌∷◌, ◌++◌, map, reverse}
use native.Mathlib.Omega.{arith}
use stack_warden.Base.Tests.{if◌then◌else◌, leb}
use stack_warden.Base.Equality.{◌==◌, nat_eq, Text}
use stack_warden.Base.Lists.{mem}

-- `s.split(c, 1)[0]`
unfoldable pub before : ℕ → Text → Text
before c [] = []
before c (x ∷ xs) = if x == c then [] else x ∷ before c xs

-- the part of `s.split(c, 1)` after the first `c`
unfoldable pub after : ℕ → Text → Text
after c [] = []
after c (x ∷ xs) = if x == c then xs else after c xs

-- `s.startswith(p)`
unfoldable pub starts_with : Text → Text → Bool
starts_with s [] = true
starts_with [] (y ∷ p) = false
starts_with (x ∷ s) (y ∷ p) = x == y && starts_with s p

-- `not s`
abbrev pub is_empty {ℓ} : {A : Type ℓ} → List A → Bool
is_empty [] = true
is_empty (x ∷ xs) = false

-- `sep.join(parts)`
unfoldable pub join : Text → List Text → Text
join sep [] = []
join sep (s ∷ []) = s
join sep (s ∷ t ∷ rest) = s ++ (sep ++ join sep (t ∷ rest))

-- `s.lower()`, of the ASCII letters
unfoldable pub lower : Text → Text
lower text = map (λ c. if leb 65 c && leb c 90 then c + 32 else c) text

-- The white space that `str.strip` removes, among the ASCII characters.
abbrev pub is_space : ℕ → Bool
is_space c = (leb 9 c && leb c 13) || (leb 28 c && leb c 32)

pub lstrip : Text → Text
lstrip [] = []
lstrip (x ∷ xs) = if is_space x then lstrip xs else x ∷ xs

-- `s.strip()`
unfoldable pub strip : Text → Text
unfolding lstrip
strip s = reverse (lstrip (reverse (lstrip s)))

pub before_all : (c : ℕ) (s : Text) → mem c s ≡ false → before c s ≡ s
unfolding before mem
before_all c [] h = refl
before_all c (x ∷ xs) h = ground (arith, before_all c xs)

-- a text is cut at the first `c`
pub before-append : (c : ℕ) (s t : Text) → mem c s ≡ false → before c (s ++ c ∷ t) ≡ s
unfolding before mem
before-append c [] t h = ground arith
before-append c (x ∷ xs) t h = ground (arith, before-append c xs t)

pub before-not-mem : (c : ℕ) (s : Text) → mem c (before c s) ≡ false
unfolding before mem
before-not-mem c [] = refl
before-not-mem c (x ∷ xs) = ground (arith, before-not-mem c xs)

pub starts_with-append : (s t : Text) → starts_with (s ++ t) s ≡ true
unfolding starts_with
starts_with-append [] [] = refl
starts_with-append [] (x ∷ t) = refl
starts_with-append (x ∷ s) t = ground (arith, starts_with-append s t)
