-- ===== src/Kube/Names.antt =====
-- parsePodNetworkObjectName of k8sclient/k8sclient.go, on ASCII texts.
use multus_ext_cni.Prelude.{
  ℕ, Bool, true, false, not, ◌&&◌, ◌||◌, List, [], ◌∷◌, Text, is_empty, leb, ◌==◌, if◌then◌else◌,
  split, trim_space, Result, ok, err, ◌>>=◌,
}
use multus_ext_cni.Kube.Cluster.{KubeError, bad_slash, bad_at, bad_item}

-- A network as `<namespace>/<name>@<interface>` names it; what is not given is empty.
pub record ObjectName : Type 0 where
  pub namespace : Text
  pub name : Text
  pub interface : Text

-- [a-z0-9] and [-a-z0-9]
unfoldable pub is_alphanumeric : ℕ → Bool
is_alphanumeric c = (leb b'a' c && leb c b'z') || (leb b'0' c && leb c b'9')

unfoldable pub is_inner : ℕ → Bool
unfolding is_alphanumeric
is_inner c = c == b'-' || is_alphanumeric c

-- ([-a-z0-9]*[a-z0-9])?
unfoldable pub matches_tail : Text → Bool
unfolding is_inner is_alphanumeric
matches_tail [] = true
matches_tail (c ∷ []) = is_alphanumeric c
matches_tail (c ∷ d ∷ s) = is_inner c && matches_tail (d ∷ s)

-- ^[a-z0-9]([-a-z0-9]*[a-z0-9])?$
unfoldable pub matches_label : Text → Bool
unfolding matches_tail is_alphanumeric
matches_label [] = false
matches_label (c ∷ s) = is_alphanumeric c && matches_tail s

-- The loop over the items: each is empty or matches.
unfoldable pub check_items : List Text → Result KubeError (Unit {0})
unfolding matches_label
check_items [] = ok tt
check_items (i ∷ is) =
    let rest = check_items is in
    if not (matches_label i) && not (is_empty i) then err bad_item else rest

-- The namespace, and what follows the slash.
abbrev pub split_namespace : List Text → Result KubeError (Text × Text)
split_namespace (n ∷ []) = ok ([], n)
split_namespace (ns ∷ n ∷ []) = ok (trim_space ns, n)
split_namespace _ = err bad_slash

-- The name, and the interface behind the `@`.
abbrev pub split_interface : List Text → Result KubeError (Text × Text)
split_interface (n ∷ []) = ok (trim_space n, [])
split_interface (n ∷ i ∷ []) = ok (trim_space n, trim_space i)
split_interface _ = err bad_at

-- parsePodNetworkObjectName
unfoldable pub parse_pod_network_object_name : Text → Result KubeError ObjectName
unfolding check_items
parse_pod_network_object_name pod_network = split_namespace (split b'/' pod_network) >>= λ slash.
    split_interface (split b'@' slash.1) >>= λ at_items.
    check_items (slash.0 ∷ at_items.0 ∷ at_items.1 ∷ []) >>= λ checked.
    ok (record { namespace = slash.0; name = at_items.0; interface = at_items.1 })
