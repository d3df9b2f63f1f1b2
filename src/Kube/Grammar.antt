-- ===== src/Kube/Grammar.antt =====
-- The name of a network, written out and read again: parsePodNetworkObjectName of
-- k8sclient/k8sclient.go.
use multus_ext_cni.Prelude.{
  ◌≡◌, refl, ◌∙◌, ap, subst, true, false, [], ◌∷◌, ◌++◌, if◌then◌else◌, Text, is_empty, trim_space,
  has_char, split, split-part, split-append, all, append-nil, ok, >>=-eq-ok, ok-injective, arith,
}
use multus_ext_cni.Kube.Names.{
  ObjectName, is_alphanumeric, is_inner, check_items, split_namespace, split_interface,
  parse_pod_network_object_name,
}
use multus_ext_cni.Kube.Labels.{
  is_item, IsName, all-append, is_item-all, has_char-outside, has_char-append, trim_space-solid,
  inner-name_char, slash-name_char, at-name_char, is_name_char,
}

-- `<namespace>/<name>@<interface>`, without what is not given.
abbrev pub print_interface : Text → Text
print_interface i = if is_empty i then [] else b'@' ∷ i

abbrev pub print_name : ObjectName → Text
print_name o =
    let rest = o.name ++ print_interface o.interface in
    if is_empty o.namespace then rest else o.namespace ++ b'/' ∷ rest

-- The interface of a name comes apart at the `@`.
split-interface :
    (n i : Text)
    → all is_inner n ≡ true
    → all is_inner i ≡ true
    → split b'@' (n ++ print_interface i) ≡ (if is_empty i then n ∷ [] else n ∷ i ∷ [])
unfolding is_inner is_alphanumeric
split-interface n [] hn hi =
    ap (split b'@') (append-nil n) ∙ split-part b'@' n (has_char-outside is_inner b'@' n refl hn)
split-interface n (c ∷ i) hn hi =
    split-append b'@' n (c ∷ i) (has_char-outside is_inner b'@' n refl hn)
    ∙ ap (◌∷◌ n) (split-part b'@' (c ∷ i) (has_char-outside is_inner b'@' (c ∷ i) refl hi))

-- What follows the namespace has no slash.
no_slash :
    (n i : Text)
    → all is_inner n ≡ true
    → all is_inner i ≡ true
    → has_char b'/' (n ++ print_interface i) ≡ false
unfolding is_inner is_alphanumeric has_char
no_slash n [] hn hi = ap (has_char b'/') (append-nil n) ∙ has_char-outside is_inner b'/' n refl hn
no_slash n (c ∷ i) hn hi = ground (
  arith,
  has_char-append b'/' n (b'@' ∷ c ∷ i),
  has_char-outside is_inner b'/' n refl hn,
  has_char-outside is_inner b'/' (c ∷ i) refl hi,
)

-- The namespace of a name comes apart at the slash.
split-namespace :
    (ns rest : Text)
    → all is_inner ns ≡ true
    → has_char b'/' rest ≡ false
    → split b'/' (if is_empty ns then rest else ns ++ b'/' ∷ rest)
      ≡ (if is_empty ns then rest ∷ [] else ns ∷ rest ∷ [])
unfolding is_inner is_alphanumeric
split-namespace [] rest hns h = split-part b'/' rest h
split-namespace (c ∷ ns) rest hns h =
    split-append b'/' (c ∷ ns) rest (has_char-outside is_inner b'/' (c ∷ ns) refl hns)
    ∙ ap (◌∷◌ (c ∷ ns)) (split-part b'/' rest h)

trim_space-item : (t : Text) → is_item t ≡ true → trim_space t ≡ t
trim_space-item t h = trim_space-solid t (inner-name_char t (is_item-all t h))

split_namespace-parts :
    (ns rest : Text)
    → is_item ns ≡ true
    → split_namespace (if is_empty ns then rest ∷ [] else ns ∷ rest ∷ []) ≡ ok (ns, rest)
split_namespace-parts [] rest h = refl
split_namespace-parts (c ∷ ns) rest h = ap (λ t. ok (t, rest)) (trim_space-item (c ∷ ns) h)

split_interface-parts :
    (n i : Text)
    → is_item n ≡ true
    → is_item i ≡ true
    → split_interface (if is_empty i then n ∷ [] else n ∷ i ∷ []) ≡ ok (n, i)
split_interface-parts n [] hn hi = ap (λ t. ok (t, [])) (trim_space-item n hn)
split_interface-parts n (c ∷ i) hn hi =
    ap (λ t. ok (t, trim_space (c ∷ i))) (trim_space-item n hn)
    ∙ ap (λ t. ok (n, t)) (trim_space-item (c ∷ i) hi)

print_interface-chars : (i : Text) → is_item i ≡ true → all is_name_char (print_interface i) ≡ true
print_interface-chars [] h = refl
print_interface-chars (c ∷ i) h =
    ground (arith, at-name_char, inner-name_char (c ∷ i) (is_item-all (c ∷ i) h))

-- The characters of a name that is written out, which is not empty.
print_name-chars :
    (ns rest : Text)
    → is_item ns ≡ true
    → all is_name_char rest ≡ true
    → all is_name_char (if is_empty ns then rest else ns ++ b'/' ∷ rest) ≡ true
print_name-chars [] rest h hr = hr
print_name-chars (c ∷ ns) rest h hr = ground (
  arith,
  slash-name_char,
  all-append is_name_char (c ∷ ns) (b'/' ∷ rest),
  inner-name_char (c ∷ ns) (is_item-all (c ∷ ns) h),
)

module _ (o : ObjectName) (named : IsName o) where
  open named use {namespace_item, name_label, interface_item}

  name_item : is_item o.name ≡ true
  name_item = ground (arith, name_label)

  abbrev behind_namespace : Text
  behind_namespace = o.name ++ print_interface o.interface

  split_slash : split b'/' (print_name o) ≡ (
      if is_empty o.namespace then behind_namespace ∷ [] else o.namespace ∷ behind_namespace ∷ [])
  split_slash =
      split-namespace o.namespace behind_namespace (is_item-all o.namespace namespace_item) (
        no_slash o.name o.interface (is_item-all o.name name_item)
          (is_item-all o.interface interface_item))

  namespace_found : split_namespace (split b'/' (print_name o)) ≡ ok (o.namespace, behind_namespace)
  namespace_found =
      ap split_namespace split_slash
      ∙ split_namespace-parts o.namespace behind_namespace namespace_item

  interface_found : split_interface (split b'@' behind_namespace) ≡ ok (o.name, o.interface)
  interface_found =
      ap split_interface (
        split-interface o.name o.interface (is_item-all o.name name_item)
          (is_item-all o.interface interface_item))
      ∙ split_interface-parts o.name o.interface name_item interface_item

  behind_chars : all is_name_char behind_namespace ≡ true
  behind_chars = ground (
    arith,
    all-append is_name_char o.name (print_interface o.interface),
    inner-name_char o.name (is_item-all o.name name_item),
    print_interface-chars o.interface interface_item,
  )

  pub named_chars : all is_name_char (print_name o) ≡ true
  named_chars = print_name-chars o.namespace behind_namespace namespace_item behind_chars

  -- A name that is written out is read again.
  pub parse-print_name : parse_pod_network_object_name (print_name o) ≡ ok o
  unfolding parse_pod_network_object_name check_items
  parse-print_name =
      ground (arith, namespace_found, interface_found, namespace_item, name_label, interface_item)

check_items-parts :
    (a b c : Text)
    → check_items (a ∷ b ∷ c ∷ []) ≡ ok tt
    → (is_item a ≡ true) × (is_item b ≡ true) × (is_item c ≡ true)
unfolding check_items
check_items-parts a b c h = ground arith

-- In a name that parsePodNetworkObjectName reads, the namespace, the name and the interface are
-- each empty or a label: lower case letters, digits and dashes, with no dash at either end.
pub parse_pod_network_object_name-items :
    (pod_network : Text) (o : ObjectName)
    → parse_pod_network_object_name pod_network ≡ ok o
    → (is_item o.namespace ≡ true) × (is_item o.name ≡ true) × (is_item o.interface ≡ true)
unfolding parse_pod_network_object_name
parse_pod_network_object_name-items pod_network o h =
    let (slash, apart, h1) = >>=-eq-ok (split_namespace (split b'/' pod_network)) _ h in
    let (parts, split', h2) = >>=-eq-ok (split_interface (split b'@' slash.1)) _ h1 in
    let (passed, checked, h3) = >>=-eq-ok (check_items (slash.0 ∷ parts.0 ∷ parts.1 ∷ [])) _ h2 in
    subst
      (λ x. (is_item x.namespace ≡ true) × (is_item x.name ≡ true) × (is_item x.interface ≡ true))
      (ok-injective h3) (check_items-parts slash.0 parts.0 parts.1 checked)
