-- ===== src/Ipam/Address/Laws.antt =====
-- What canonical forms are, and that (IP).Equal compares them.
use multus_ext_cni.Prelude.{
  ◌≡◌, ◌≢◌, refl, ◌∙◌, ◌⊎◌, true, false, [], ◌∷◌, arith, ok, length, length-drop, take, drop,
  text_eq, text_eq_iff, text_eq-length, text_eq_split, ◌==◌,
}
use multus_ext_cni.Net.{Ip, is_nil, to4, to16, equal, v4_in_v6_prefix}
use multus_ext_cni.Net.Number.{value, text_eq-value}
use multus_ext_cni.Ipam.Address.{canonicalize_ip, HasForm, IsCanonical}

is_nil-length : (a : Ip) → is_nil a ≡ (length a == 0)
is_nil-length [] = refl
is_nil-length (x ∷ a) = ground arith

-- The three ways in which an address has a canonical form.
abbrev pub Shape : Ip → Ip → Type 0
Shape a c =
    ((length a ≡ 4) × (c ≡ a))
    ⊎ ((length a ≡ 16) × (text_eq (take 12 a) v4_in_v6_prefix ≡ true) × (c ≡ drop 12 a))
    ⊎ ((length a ≡ 16) × (text_eq (take 12 a) v4_in_v6_prefix ≡ false) × (c ≡ a))

pub shape : (a c : Ip) → canonicalize_ip a ≡ ok c → Shape a c
unfolding canonicalize_ip to4 to16
shape a c h = ground (arith, is_nil-length a, is_nil-length (drop 12 a), length-drop {0} 12 a)

-- Two forms of IPv4 agree on the prefix, so the whole is equal exactly where the rest is.
eq_of_drop :
    (a b : Ip)
    → text_eq (take 12 a) v4_in_v6_prefix ≡ true
    → text_eq (take 12 b) v4_in_v6_prefix ≡ true
    → text_eq a b ≡ text_eq (drop 12 a) (drop 12 b)
eq_of_drop a b p q = ground (
  arith,
  text_eq_split 12 a b,
  text_eq_iff (take 12 a) v4_in_v6_prefix,
  text_eq_iff (take 12 b) v4_in_v6_prefix,
  text_eq_iff (take 12 a) (take 12 b),
)

ne_of_prefix :
    (a b : Ip)
    → text_eq (take 12 a) v4_in_v6_prefix ≡ true
    → text_eq (take 12 b) v4_in_v6_prefix ≡ false
    → text_eq a b ≡ false
ne_of_prefix a b p q = ground (arith, text_eq_iff a b, p, q)

ne_of_length : (a b : Ip) → length a ≢ length b → text_eq a b ≡ false
ne_of_length a b h = ground (arith, text_eq-length a b)

-- (IP).Equal compares the canonical forms.
pub equal_forms :
    (a b c d : Ip) → canonicalize_ip a ≡ ok c → canonicalize_ip b ≡ ok d → equal a b ≡ text_eq c d
unfolding equal
equal_forms a b c d ha hb = ground (
  arith,
  shape a c ha,
  shape b d hb,
  eq_of_drop a b,
  ne_of_prefix a b,
  text_eq_iff (take 12 a) v4_in_v6_prefix,
  text_eq_iff (take 12 b) v4_in_v6_prefix,
  text_eq_iff a b,
  text_eq_iff b a,
  ne_of_length c d,
  length-drop {0} 12 a,
  length-drop {0} 12 b,
)

-- The canonical form is canonical.
pub form-IsCanonical : {a c : Ip} → HasForm a c → IsCanonical c
unfolding canonicalize_ip to4 to16
form-IsCanonical {a} {c} h = record {
  form = ground (arith, shape a c h.form, is_nil-length a, is_nil-length c, length-drop {0} 12 a);
  bytes = h.bytes;
}

-- Addresses of one family are equal exactly if their numbers are.
pub equal-value :
    {a b c d : Ip}
    → HasForm a c
    → HasForm b d
    → length c ≡ length d
    → equal a b ≡ (value c == value d)
equal-value {a} {b} {c} {d} h k l =
    equal_forms a b c d h.form k.form ∙ text_eq-value c d h.bytes k.bytes l

pub form_nonempty : (a c : Ip) → canonicalize_ip a ≡ ok c → is_nil a ≡ false
unfolding canonicalize_ip to4 to16
form_nonempty [] c h = cc
form_nonempty (x ∷ a) c h = refl

pub HasForm-nonempty : {a c : Ip} → HasForm a c → is_nil a ≡ false
HasForm-nonempty {a} {c} h = form_nonempty a c h.form

pub canonicalize_idem : (a c : Ip) → canonicalize_ip a ≡ ok c → canonicalize_ip c ≡ ok c
unfolding canonicalize_ip to4 to16
canonicalize_idem a c h =
    ground (arith, shape a c h, is_nil-length a, is_nil-length c, length-drop {0} 12 a)
