-- ===== src/Kube/Listing.antt =====
-- The annotation of a pod, written out and read again: parsePodNetworkAnnotation of
-- k8sclient/k8sclient.go.
use multus_ext_cni.Prelude.{
  ℕ, ◌≡◌, refl, ◌∙◌, ap, Bool, true, false, List, [], ◌∷◌, ◌++◌, map, if◌then◌else◌, Text, is_empty,
  has_char, split, split-part, split-append, ◌==◌, All, ok, ◌>>=◌, arith,
}
use multus_ext_cni.Kube.Cluster.{Cluster}
use multus_ext_cni.Conf.Delegates.{NetworkSelectionElement}
use multus_ext_cni.Kube.Names.{ObjectName, is_inner, is_alphanumeric, matches_label}
use multus_ext_cni.Kube.Labels.{
  IsName, is_name_char, has_char-outside, has_char-append, trim_space-solid,
}
use multus_ext_cni.Kube.Grammar.{print_name, print_interface, named_chars, parse-print_name}
use multus_ext_cni.Kube.Annotation.{
  looks_like_json, element_of, parse_items, complete, complete_all, pointers, read_networks,
  parse_pod_network_annotation,
}

-- The names, with commas between them.
abbrev pub print_names : List ObjectName → Text
print_names [] = []
print_names (o ∷ []) = print_name o
print_names (o ∷ p ∷ os) = print_name o ++ b',' ∷ print_names (p ∷ os)

has_comma-none : (o : ObjectName) → IsName o → has_char b',' (print_name o) ≡ false
unfolding is_inner is_alphanumeric
has_comma-none o named =
    has_char-outside is_name_char b',' (print_name o) refl (named_chars o named)

split-print_names :
    (o : ObjectName) (os : List ObjectName)
    → All IsName (o ∷ os)
    → split b',' (print_names (o ∷ os)) ≡ map print_name (o ∷ os)
split-print_names o [] named = split-part b',' (print_name o) (has_comma-none o named.0)
split-print_names o (p ∷ os) named =
    split-append b',' (print_name o) (print_names (p ∷ os)) (has_comma-none o named.0)
    ∙ ap (◌∷◌ (print_name o)) (split-print_names p os named.1)

parse_items-names :
    (os : List ObjectName)
    → All IsName os
    → parse_items (map print_name os) ≡ ok (map element_of os)
unfolding parse_items
parse_items-names [] named = refl
parse_items-names (o ∷ os) named = ground (
  arith,
  trim_space-solid (print_name o) (named_chars o named.0),
  parse-print_name o named.0,
  parse_items-names os named.1,
)

-- A character that is no comma and stands in no name.
has_char-print_names :
    (c : ℕ) (os : List ObjectName)
    → is_name_char c ≡ false
    → (b',' == c) ≡ false
    → All IsName os
    → has_char c (print_names os) ≡ false
unfolding has_char
has_char-print_names c [] out no_comma named = refl
has_char-print_names c (o ∷ []) out no_comma named =
    has_char-outside is_name_char c (print_name o) out (named_chars o named.0)
has_char-print_names c (o ∷ p ∷ os) out no_comma named = ground (
  arith,
  has_char-append c (print_name o) (b',' ∷ print_names (p ∷ os)),
  has_char-outside is_name_char c (print_name o) out (named_chars o named.0),
  has_char-print_names c (p ∷ os) out no_comma named.1,
)

looks_like_json-names :
    (os : List ObjectName) → All IsName os → looks_like_json (print_names os) ≡ false
unfolding is_inner is_alphanumeric
looks_like_json-names os named = ground (
  arith,
  has_char-print_names b'[' os refl refl named,
  has_char-print_names b'{' os refl refl named,
  has_char-print_names b'"' os refl refl named,
)

append-filled : (s t : Text) → is_empty s ≡ false → is_empty (s ++ t) ≡ false
append-filled [] t h = cc
append-filled (c ∷ s) t h = refl

name-filled : (t : Text) → matches_label t ≡ true → is_empty t ≡ false
unfolding matches_label
name-filled [] h = cc
name-filled (c ∷ t) h = refl

if-filled :
    (b : Bool) (s t : Text)
    → is_empty s ≡ false
    → is_empty t ≡ false
    → is_empty (if b then s else t) ≡ false
if-filled true s t hs ht = hs
if-filled false s t hs ht = ht

slash-filled : (s t : Text) → is_empty (s ++ b'/' ∷ t) ≡ false
slash-filled [] t = refl
slash-filled (c ∷ s) t = refl

print_name-filled : (o : ObjectName) → IsName o → is_empty (print_name o) ≡ false
print_name-filled o named =
    let rest : Text = o.name ++ print_interface o.interface in
    if-filled (is_empty o.namespace) rest (o.namespace ++ b'/' ∷ rest)
      (append-filled o.name (print_interface o.interface) (name-filled o.name named.name_label))
      (slash-filled o.namespace rest)

print_names-filled :
    (o : ObjectName) (os : List ObjectName) → IsName o → is_empty (print_names (o ∷ os)) ≡ false
print_names-filled o [] named = print_name-filled o named
print_names-filled o (p ∷ os) named =
    append-filled (print_name o) (b',' ∷ print_names (p ∷ os)) (print_name-filled o named)

complete_all-pointers :
    (namespace : Text) (nets : List NetworkSelectionElement)
    → complete_all namespace (pointers nets) ≡ ok (map (complete namespace) nets)
unfolding complete_all
complete_all-pointers namespace [] = refl
complete_all-pointers namespace (n ∷ nets) = ground (arith, complete_all-pointers namespace nets)

map-complete :
    (namespace : Text) (os : List ObjectName)
    → map (complete namespace) (map element_of os) ≡ map (λ o. complete namespace (element_of o)) os
map-complete namespace [] = refl
map-complete namespace (o ∷ os) =
    ap (◌∷◌ (complete namespace (element_of o))) (map-complete namespace os)

module _ {P : Type 0} (cluster : Cluster P) where
  -- One or more names of networks, each a label with a namespace and an interface that are labels
  -- or empty, are written as `<namespace>/<name>@<interface>` without what is empty, with commas
  -- between them. Then parsePodNetworkAnnotation reads this annotation as these networks in order,
  -- with the default namespace where there is none.
  pub parse_pod_network_annotation-names :
      (o : ObjectName) (os : List ObjectName) (namespace : Text)
      → All IsName (o ∷ os)
      → parse_pod_network_annotation cluster (print_names (o ∷ os)) namespace
        ≡ ok (map (λ x. complete namespace (element_of x)) (o ∷ os))
  unfolding parse_pod_network_annotation read_networks
  parse_pod_network_annotation-names o os namespace named =
      let t = print_names (o ∷ os) in
      let read : read_networks cluster t ≡ ok (pointers (map element_of (o ∷ os))) = ground (
        arith,
        looks_like_json-names (o ∷ os) named,
        ap parse_items (split-print_names o os named),
        parse_items-names (o ∷ os) named,
      ) in
      let whole : parse_pod_network_annotation cluster t namespace
          ≡ (read_networks cluster t >>= complete_all namespace) =
        ground (arith, print_names-filled o os named.0) in
      whole
      ∙ ap (λ r. r >>= complete_all namespace) read
      ∙ complete_all-pointers namespace (map element_of (o ∷ os))
      ∙ ap ok (map-complete namespace (o ∷ os))
