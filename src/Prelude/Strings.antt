-- ===== src/Prelude/Strings.antt =====
-- The functions of package strings that the program calls, on ASCII texts.
use Prim.Native.Nat.{ℕ, ◌+◌}
use mathlib.Core.Path.{◌≡◌, refl}
use mathlib.Core.Bool.{Bool, true, false, ◌&&◌, ◌||◌}
use mathlib.Core.List.{List, [], ◌∷◌, ◌++◌}
use native.Mathlib.Omega.{arith}
use multus_ext_cni.Prelude.Tests.{◌==◌, leb, if◌then◌else◌}
use multus_ext_cni.Prelude.Bytes.{Text}

abbrev pub is_empty : Text → Bool
is_empty [] = true
is_empty (_ ∷ _) = false

-- unicode.IsSpace below 128
unfoldable pub is_space : ℕ → Bool
is_space c = c == 32 || (leb 9 c && leb c 13)

-- The characters at either end that are in a set, as strings.Trim drops them.
unfoldable pub trim_left : (ℕ → Bool) → Text → Text
trim_left p [] = []
trim_left p (c ∷ s) = let rest = trim_left p s in if p c then rest else c ∷ s

unfoldable pub trim_right : (ℕ → Bool) → Text → Text
trim_right p [] = []
trim_right p (c ∷ s) = let rest = trim_right p s in if is_empty rest && p c then [] else c ∷ rest

unfoldable pub trim : (ℕ → Bool) → Text → Text
unfolding trim_left trim_right
trim p s = trim_right p (trim_left p s)

-- strings.TrimSpace
unfoldable pub trim_space : Text → Text
unfolding is_space trim
trim_space s = trim is_space s

abbrev reverse : Text → Text
reverse [] = []
reverse (c ∷ s) = reverse s ++ (c ∷ [])

-- strings.HasPrefix(s, prefix)
unfoldable pub has_prefix : Text → Text → Bool
has_prefix s [] = true
has_prefix [] (c ∷ p) = false
has_prefix (d ∷ s) (c ∷ p) = d == c && has_prefix s p

-- strings.Contains(s, part)
unfoldable pub contains_text : Text → Text → Bool
unfolding has_prefix
contains_text [] part = has_prefix [] part
contains_text (c ∷ s) part = let rest = contains_text s part in has_prefix (c ∷ s) part || rest

-- strings.HasSuffix(s, suffix)
unfoldable pub has_suffix : Text → Text → Bool
unfolding has_prefix
has_suffix s suffix = has_prefix (reverse s) (reverse suffix)

-- The character before the first part of a split, and the parts.
abbrev onto_first : ℕ → List Text → List Text
onto_first c [] = (c ∷ []) ∷ []
onto_first c (part ∷ parts) = (c ∷ part) ∷ parts

-- strings.Split(s, sep) for a separator of one character; there is always a part.
unfoldable pub split : ℕ → Text → List Text
split sep [] = [] ∷ []
split sep (c ∷ s) = let rest = split sep s in if c == sep then [] ∷ rest else onto_first c rest

-- strings.Contains for a single character
unfoldable pub has_char : ℕ → Text → Bool
has_char x [] = false
has_char x (c ∷ s) = c == x || has_char x s

-- strings.ToLower, on ASCII
unfoldable pub to_lower : Text → Text
to_lower [] = []
to_lower (c ∷ s) = (if leb 65 c && leb c 90 then c + 32 else c) ∷ to_lower s

pub has_prefix_refl : (s t : Text) → has_prefix (s ++ t) s ≡ true
unfolding has_prefix
has_prefix_refl [] [] = refl
has_prefix_refl [] (c ∷ t) = refl
has_prefix_refl (c ∷ s) t = ground (arith, has_prefix_refl s t)

pub has_prefix_self : (s : Text) → has_prefix s s ≡ true
unfolding has_prefix
has_prefix_self [] = refl
has_prefix_self (c ∷ s) = ground (arith, has_prefix_self s)

-- A longer prefix has every shorter one.
pub has_prefix-append : (s p q : Text) → has_prefix s (p ++ q) ≡ true → has_prefix s p ≡ true
unfolding has_prefix
has_prefix-append [] [] q h = refl
has_prefix-append (d ∷ s) [] q h = refl
has_prefix-append [] (c ∷ p) q h = cc
has_prefix-append (d ∷ s) (c ∷ p) q h = ground (arith, has_prefix-append s p q)

-- A text without the separator is its only part; before a separator it is the first.
pub split-part : (sep : ℕ) (s : Text) → has_char sep s ≡ false → split sep s ≡ s ∷ []
unfolding split has_char
split-part sep [] h = refl
split-part sep (c ∷ s) h = ground (arith, split-part sep s)

pub split-append :
    (sep : ℕ) (s t : Text) → has_char sep s ≡ false → split sep (s ++ sep ∷ t) ≡ s ∷ split sep t
unfolding split has_char
split-append sep [] t h = ground arith
split-append sep (c ∷ s) t h = ground (arith, split-append sep s t)
