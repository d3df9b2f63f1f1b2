-- ===== src/Net/Number.antt =====
-- The number that an address stands for, most significant byte first.
use native.Mathlib.Nat.{zero-add}
use multus_ext_cni.Prelude.{
  ℕ, ◌+◌, ◌*◌, ◌/◌, ◌%◌, ◌<◌, ◌≡◌, refl, ap, sym, ◌∙◌, [], ◌∷◌, Text, length, All, arith, text_eq,
  text_eq_iff, ◌==◌,
}

-- The value of a byte string, after the value of what stands before it.
unfoldable pub value_from : ℕ → Text → ℕ
value_from acc [] = acc
value_from acc (b ∷ bs) = value_from (acc * 256 + b) bs

unfoldable pub value : Text → ℕ
unfolding value_from
value bs = value_from 0 bs

abbrev pub AreBytes : Text → Type 0
AreBytes bs = All (λ b. b < 256) bs

value_from-injective :
    (acc other : ℕ) (as' bs : Text)
    → AreBytes as'
    → AreBytes bs
    → length as' ≡ length bs
    → value_from acc as' ≡ value_from other bs
    → (acc ≡ other) × (as' ≡ bs)
unfolding value_from
value_from-injective acc other [] [] ha hb l e = (e, refl)
value_from-injective acc other [] (b ∷ bs) ha hb l e = absurd (omega arith)
value_from-injective acc other (a ∷ as') [] ha hb l e = absurd (omega arith)
value_from-injective acc other (a ∷ as') (b ∷ bs) ha hb l e =
    ground (
      arith,
      value_from-injective (acc * 256 + a) (other * 256 + b) as' bs ha.1 hb.1 (omega arith) e,
    )

-- Byte strings of one length are equal exactly if their numbers are.
pub value-injective :
    (as' bs : Text)
    → AreBytes as'
    → AreBytes bs
    → length as' ≡ length bs
    → value as' ≡ value bs
    → as' ≡ bs
unfolding value
value-injective as' bs ha hb l e = (value_from-injective 0 0 as' bs ha hb l e).1

pub text_eq-value :
    (as' bs : Text)
    → AreBytes as'
    → AreBytes bs
    → length as' ≡ length bs
    → text_eq as' bs ≡ (value as' == value bs)
text_eq-value as' bs ha hb l = ground (arith, text_eq_iff as' bs, value-injective as' bs ha hb l)

-- Adding one at the last byte; the carry out of the first byte comes first.
unfoldable pub increment : Text → ℕ × Text
increment [] = (1, [])
increment (b ∷ bs) =
    let (carry, rest) = increment bs in ((b + carry) / 256, (b + carry) % 256 ∷ rest)

value_from-increment :
    (acc : ℕ) (bs : Text)
    → value_from (acc + (increment bs).0) (increment bs).1 ≡ value_from acc bs + 1
unfolding value_from increment
value_from-increment acc [] = refl
value_from-increment acc (b ∷ bs) =
    let carry : ℕ = (increment bs).0 in
    let regroup : (acc + (b + carry) / 256) * 256 + (b + carry) % 256 ≡ acc * 256 + b + carry =
      omega arith in
    ap (λ t. value_from t (increment bs).1) regroup ∙ value_from-increment (acc * 256 + b) bs

increment-AreBytes : (bs : Text) → AreBytes (increment bs).1
unfolding increment
increment-AreBytes [] = tt
increment-AreBytes (b ∷ bs) = (omega arith, increment-AreBytes bs)

length-increment : (bs : Text) → length (increment bs).1 ≡ length bs
unfolding increment
length-increment [] = refl
length-increment (b ∷ bs) = omega (arith, length-increment bs)

-- Where a byte string of the same length has the next number, `increment` finds it.
pub increment-successor :
    (bs next : Text)
    → AreBytes next
    → length next ≡ length bs
    → value next ≡ value bs + 1
    → (increment bs).1 ≡ next
unfolding value
increment-successor bs next h l e =
    (value_from-injective (increment bs).0 0 (increment bs).1 next (increment-AreBytes bs) h
      (length-increment bs ∙ sym l)
      (ap (λ t. value_from t (increment bs).1) (sym (zero-add (increment bs).0))
        ∙ value_from-increment 0 bs
        ∙ sym e)).1
