-- ===== src/Kube/Annotation.antt =====
-- parsePodNetworkAnnotation and GetPodNetwork of k8sclient/k8sclient.go.
use multus_ext_cni.Prelude.{
  Bool, not, ◌&&◌, ◌||◌, List, [], ◌∷◌, Option, none, some, Text, codes, text_eq, is_empty,
  has_char, if◌then◌else◌, split, trim_space, Result, ok, err, ◌>>=◌,
}
use multus_ext_cni.Conf.Delegates.{NetworkSelectionElement}
use multus_ext_cni.Kube.Cluster.{
  KubeError, no_network, no_annotation, bad_network_json, panics_here, Annotations, Pod, Cluster,
}
use multus_ext_cni.Kube.Names.{ObjectName, parse_pod_network_object_name}

abbrev pub network_attachment_annot : Text
network_attachment_annot = codes "k8s.v1.cni.cncf.io/networks"

abbrev pub default_net_annot : Text
default_net_annot = codes "k8s.v1.cni.cncf.io/networks-default"

abbrev pub resource_name_annot : Text
resource_name_annot = codes "k8s.v1.cni.cncf.io/resourceName"

abbrev pub ext_env_annot : Text
ext_env_annot = codes "k8s.v1.cni.cncf.io/extEnv"

-- `value, ok := annotations[key]`
unfoldable pub annotation : Text → Annotations → Option Text
annotation k [] = none
annotation k ((key, v) ∷ as') = if text_eq key k then some v else annotation k as'

-- `annotations[key]`, the empty string where there is none
abbrev pub or_empty : Option Text → Text
or_empty none = []
or_empty (some t) = t

-- strings.IndexAny(podNetworks, "[{\"") >= 0
abbrev pub looks_like_json : Text → Bool
looks_like_json t = has_char b'[' t || has_char b'{' t || has_char b'"' t

abbrev pub element_of : ObjectName → NetworkSelectionElement
element_of o = record {
  name = o.name;
  namespace = o.namespace;
  ip_request = [];
  mac_request = [];
  interface_request = o.interface;
  obsolated_interface_request = [];
}

-- The loop over the items of the comma-delimited list.
unfoldable pub parse_items : List Text → Result KubeError (List NetworkSelectionElement)
unfolding parse_pod_network_object_name
parse_items [] = ok []
parse_items (item ∷ items) = do
  o ← parse_pod_network_object_name (trim_space item)
  rest ← parse_items items
  ok (element_of o ∷ rest)

-- The default namespace, and the interface request of versions before 3.2.
unfoldable pub complete : Text → NetworkSelectionElement → NetworkSelectionElement
complete default_namespace net = record net {
  namespace = if is_empty net.namespace then default_namespace else net.namespace;
  interface_request =
      if not (is_empty net.obsolated_interface_request) && is_empty net.interface_request
      then net.obsolated_interface_request
      else net.interface_request;
}

unfoldable pub complete_all :
    Text → List (Option NetworkSelectionElement) → Result KubeError (List NetworkSelectionElement)
unfolding complete
complete_all default_namespace [] = ok []
complete_all default_namespace (none ∷ nets) = err panics_here
complete_all default_namespace (some net ∷ nets) = do
  rest ← complete_all default_namespace nets
  ok (complete default_namespace net ∷ rest)

abbrev pub pointers : List NetworkSelectionElement → List (Option NetworkSelectionElement)
pointers [] = []
pointers (n ∷ ns) = some n ∷ pointers ns

module _ {P : Type 0} (cluster : Cluster P) where
  -- The networks as the annotation names them, in either format.
  unfoldable pub read_networks : Text → Result KubeError (List (Option NetworkSelectionElement))
  unfolding parse_items
  read_networks pod_networks =
      if looks_like_json pod_networks
      then elim (cluster.decode_networks pod_networks) [
        | none ↦ err bad_network_json
        | some nets ↦ ok nets
      ]
      else parse_items (split b',' pod_networks) >>= λ nets. ok (pointers nets)

  -- parsePodNetworkAnnotation
  unfoldable pub parse_pod_network_annotation :
      Text → Text → Result KubeError (List NetworkSelectionElement)
  unfolding read_networks complete_all
  parse_pod_network_annotation pod_networks default_namespace =
      if is_empty pod_networks
      then err no_annotation
      else read_networks pod_networks >>= complete_all default_namespace

  -- GetPodNetwork
  unfoldable pub get_pod_network : Pod → Result KubeError (List NetworkSelectionElement)
  unfolding annotation parse_pod_network_annotation
  get_pod_network pod =
      let net_annot : Text = or_empty (annotation network_attachment_annot pod.annotations) in
      if is_empty net_annot
      then err no_network
      else parse_pod_network_annotation net_annot pod.namespace
