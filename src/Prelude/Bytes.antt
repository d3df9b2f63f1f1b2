-- ===== src/Prelude/Bytes.antt =====
-- Go's strings and byte slices: lists of byte values, with their comparison.
use Prim.Native.Nat.{ℕ, zero, suc}
use Prim.Native.Char.{code}
use Prim.Native.String.{String}
use mathlib.Core.Path.{◌≡◌, refl, ap}
use mathlib.Core.Logic.{◌↔◌}
use mathlib.Core.Bool.{Bool, true, false, ◌&&◌}
use mathlib.Core.List.{List, [], ◌∷◌}
use native.Mathlib.Omega.{arith}
use multus_ext_cni.Prelude.Tests.{◌==◌}
use multus_ext_cni.Prelude.Lists.{length, take, drop}

abbrev pub Text : Type 0
Text = List ℕ

-- The bytes of an ASCII literal.
abbrev pub codes : String → Text
codes String.[] = []
codes (String.◌∷◌ c s) = code c ∷ codes s

-- `==` on strings, and `bytesEqual`.
unfoldable pub text_eq : Text → Text → Bool
text_eq [] [] = true
text_eq (a ∷ s) (b ∷ t) = a == b && text_eq s t
text_eq _ _ = false

pub text_eq_iff : (s t : Text) → (text_eq s t ≡ true) ↔ (s ≡ t)
unfolding text_eq
text_eq_iff [] [] = (λ _. refl, λ _. refl)
text_eq_iff [] (b ∷ t) = (λ h. cc, λ h. cc)
text_eq_iff (a ∷ s) [] = (λ h. cc, λ h. cc)
text_eq_iff (a ∷ s) (b ∷ t) = ground (arith, text_eq_iff s t)

pub text_eq_refl : (s : Text) → text_eq s s ≡ true
text_eq_refl s = (text_eq_iff s s).1 refl

-- Equal texts have equal lengths and parts, as equations between tests.
pub text_eq-length : (s t : Text) → text_eq s t ≡ true → length s ≡ length t
text_eq-length s t h = ap length ((text_eq_iff s t).0 h)

pub text_eq_split :
    (n : ℕ) (s t : Text)
    → text_eq s t ≡ (text_eq (take n s) (take n t) && text_eq (drop n s) (drop n t))
unfolding text_eq
text_eq_split zero s t = refl
text_eq_split (suc n) [] [] = refl
text_eq_split (suc n) [] (b ∷ t) = refl
text_eq_split (suc n) (a ∷ s) [] = refl
text_eq_split (suc n) (a ∷ s) (b ∷ t) = ground (arith, text_eq_split n s t)
