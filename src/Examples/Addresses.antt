-- ===== src/Examples/Addresses.antt =====
-- A package ip and the text forms of addresses that keep their laws, and the addresses of a small network.
use multus_ext_cni.Prelude.{
  any, ℕ, ◌+◌, ◌-◌, ◌/◌, ◌%◌, ◌<◌, ◌≡◌, refl, sym, ◌∙◌, ap, Bool, true, false, [], ◌∷◌, all, Text,
  ok, err, compare, arith, if◌then◌else◌, leb, has_char,
}
use multus_ext_cni.Net.{Ip, to4}
use multus_ext_cni.Net.Number.{value, increment, increment-successor}
use multus_ext_cni.Net.IpPackage.{IpPackage, IpLaws}
use multus_ext_cni.Net.NetText.{is_blank, NetText, NetTextLaws}
use multus_ext_cni.Ipam.Address.{canonicalize_ip, HasForm, IsCanonical}
use multus_ext_cni.Ipam.Address.Laws.{form-IsCanonical}

-- The canonical form of an address, and nil for what is none.
abbrev pub form_of : Ip → Ip
form_of a = elim (canonicalize_ip a) [ ok c ↦ c | err _ ↦ [] ]

pub form_of-HasForm : (a c : Ip) → HasForm a c → form_of a ≡ c
form_of-HasForm a c h = ground (arith, h.form)

abbrev pub ip_package : IpPackage
ip_package = record {
  cmp = λ a b. compare (value (form_of a)) (value (form_of b));
  next_ip = λ a. (increment (form_of a)).1;
}

pub ip_laws : IpLaws ip_package
ip_laws = record {
  cmp_form = λ a b c d ha hb l. rw (form_of-HasForm a c ha, form_of-HasForm b d hb);
  next_form =
      λ a c e ha he l v. rw (form_of-HasForm a c ha) (rw (increment-successor c e he.bytes l v) he);
}

-- Bytes written as characters above all that the code looks for.
abbrev print : Text → Text
print [] = []
print (b ∷ bs) = (1000 + b) ∷ print bs

abbrev unprint : Text → Text
unprint [] = []
unprint (c ∷ cs) = (c - 1000) ∷ unprint cs

unprint-print : (bs : Text) → unprint (print bs) ≡ bs
unprint-print [] = refl
unprint-print (b ∷ bs) = ground (arith, unprint-print bs)

abbrev high : Text → Bool
high = all (λ c. leb 1000 c)

high-print : (bs : Text) → high (print bs) ≡ true
high-print [] = refl
high-print (b ∷ bs) = ground (arith, high-print bs)

has_char-print : (c : ℕ) (bs : Text) → c < 1000 → has_char c (print bs) ≡ false
unfolding has_char
has_char-print c [] h = refl
has_char-print c (b ∷ bs) h = ground (arith, has_char-print c bs)

blank-print : (bs : Text) → any is_blank (print bs) ≡ false
blank-print [] = refl
blank-print (b ∷ bs) = ground (arith, blank-print bs)

abbrev pub net_text : NetText
net_text = record {
  to_string = λ a. print (form_of a);
  parse = λ s. if high s then unprint s else [];
}

pub net_text_laws : NetTextLaws net_text
net_text_laws = record {
  parse_to_string = λ a c h.
      rw (form_of-HasForm a c h) (rw (high-print c) (rw (unprint-print c) (form-IsCanonical h)));
  to_string_form =
      λ a c h. ap print (form_of-HasForm a c h ∙ sym (form_of-HasForm c c (form-IsCanonical h)));
  no_blank = λ a c h. blank-print (form_of a);
  parse_last = λ id. refl;
  no_dash = λ a c h. has_char-print b'-' (form_of a) (omega arith);
  no_newline = λ a c h. has_char-print b'\n' (form_of a) (omega arith);
}

-- The IPv4 address with a number.
abbrev pub v4 : ℕ → Ip
v4 n = (n / 16777216) ∷ (n / 65536 % 256) ∷ (n / 256 % 256) ∷ (n % 256) ∷ []

pub v4-IsCanonical : (n : ℕ) → n < 4294967296 → IsCanonical (v4 n)
unfolding canonicalize_ip to4
v4-IsCanonical n h = record {
  form = refl;
  bytes = (omega arith, (omega arith, (omega arith, (omega arith, tt))));
}

pub value-v4 : (n : ℕ) → value (v4 n) ≡ n
unfolding value
value-v4 n = omega arith
