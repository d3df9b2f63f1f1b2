-- ===== src/Kube/Labels.antt =====
-- The characters of the names that parsePodNetworkObjectName (k8sclient/k8sclient.go) accepts.
use multus_ext_cni.Prelude.{
  ℕ, ◌≡◌, refl, ◌∙◌, ap, Bool, true, false, ◌&&◌, ◌||◌, [], ◌∷◌, ◌++◌, Text, is_empty, is_space,
  trim_left, trim_right, trim, trim_space, has_char, ◌==◌, ==_iff, all, arith, Bool-cases, inl, inr,
}
use multus_ext_cni.Kube.Names.{ObjectName, is_alphanumeric, is_inner, matches_tail, matches_label}

-- A part of a name: a label, or not given.
abbrev pub is_item : Text → Bool
is_item t = is_empty t || matches_label t

pub record IsName (o : ObjectName) : Type 0 where
  pub namespace_item : is_item o.namespace ≡ true
  pub name_label : matches_label o.name ≡ true
  pub interface_item : is_item o.interface ≡ true

pub all-append : (p : ℕ → Bool) (s t : Text) → all p (s ++ t) ≡ (all p s && all p t)
all-append p [] t = refl
all-append p (c ∷ s) t = ground (arith, all-append p s t)

pub matches_tail-all : (t : Text) → matches_tail t ≡ true → all is_inner t ≡ true
unfolding matches_tail is_inner
matches_tail-all [] h = refl
matches_tail-all (c ∷ []) h = ground arith
matches_tail-all (c ∷ d ∷ t) h = ground (arith, matches_tail-all (d ∷ t))

pub is_item-all : (t : Text) → is_item t ≡ true → all is_inner t ≡ true
unfolding matches_label is_inner
is_item-all [] h = refl
is_item-all (c ∷ t) h = ground (arith, matches_tail-all t)

-- A text of such characters has none of the others.
pub has_char-outside :
    (p : ℕ → Bool) (c : ℕ) (t : Text) → p c ≡ false → all p t ≡ true → has_char c t ≡ false
unfolding has_char
has_char-outside p c [] out h = refl
has_char-outside p c (d ∷ t) out h = elim (Bool-cases (d == c)) [
  | inl same ↦ ground (arith, ap p ((==_iff d c).0 same))
  | inr other ↦ ground (arith, has_char-outside p c t out)
]

pub has_char-append : (x : ℕ) (s t : Text) → has_char x (s ++ t) ≡ (has_char x s || has_char x t)
unfolding has_char
has_char-append x [] t = refl
has_char-append x (c ∷ s) t = ground (arith, has_char-append x s t)

-- The characters of a name: none of them is white space.
abbrev pub is_name_char : ℕ → Bool
unfolding is_inner
is_name_char c = is_inner c || c == b'/' || c == b'@'

is_name_char-solid : (c : ℕ) → is_name_char c ≡ true → is_space c ≡ false
unfolding is_inner is_alphanumeric is_space
is_name_char-solid c h = ground arith

trim_left-solid : (t : Text) → all is_name_char t ≡ true → trim_left is_space t ≡ t
unfolding trim_left
trim_left-solid [] h = refl
trim_left-solid (c ∷ t) h = ground (arith, is_name_char-solid c)

trim_right-solid : (t : Text) → all is_name_char t ≡ true → trim_right is_space t ≡ t
unfolding trim_right
trim_right-solid [] h = refl
trim_right-solid (c ∷ t) h = ground (arith, is_name_char-solid c, trim_right-solid t)

pub trim_space-solid : (t : Text) → all is_name_char t ≡ true → trim_space t ≡ t
unfolding trim_space trim
trim_space-solid t h = ap (trim_right is_space) (trim_left-solid t h) ∙ trim_right-solid t h

pub inner-name_char : (t : Text) → all is_inner t ≡ true → all is_name_char t ≡ true
unfolding is_inner
inner-name_char [] h = refl
inner-name_char (c ∷ t) h = ground (arith, inner-name_char t)

pub slash-name_char : is_name_char b'/' ≡ true
unfolding is_inner is_alphanumeric
slash-name_char = refl

pub at-name_char : is_name_char b'@' ≡ true
unfolding is_inner is_alphanumeric
at-name_char = refl
