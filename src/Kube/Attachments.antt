-- ===== src/Kube/Attachments.antt =====
-- getKubernetesDelegate and GetNetworkDelegates of k8sclient/k8sclient.go. The map of the pod's devices
-- is made at the first network with a resource, and passed on from network to network.
use multus_ext_cni.Prelude.{
  ℕ, ◌+◌, Bool, not, ◌&&◌, ◌++◌, List, [], ◌∷◌, Option, none, some, Text, codes, text_eq, is_empty,
  if◌then◌else◌, get_elem?, Result, ok, err, ◌>>=◌,
}
use multus_ext_cni.Conf.Delegates.{NetworkSelectionElement, or_fail, load_delegate_net_conf}
use multus_ext_cni.Multus.Delegates.{Delegate}
use multus_ext_cni.Devices.{ResourceMap, kubelet_map, checkpoint_map}
use multus_ext_cni.Kube.Cluster.{
  KubeError, no_resource, bad_resource, no_resource_client, no_resource_map, isolation, lift_conf,
  Pod, NetworkAttachmentDefinition, ResourceClient, kubelet_client, checkpoint_client, Cluster,
}
use multus_ext_cni.Kube.Annotation.{annotation, resource_name_annot}
use multus_ext_cni.Kube.Sources.{cni_config_from_network_resource}

-- ResourceInfo
pub record ResourceInfo : Type 0 where
  pub index : ℕ
  pub device_ids : List Text

abbrev pub InfoMap : Type 0
InfoMap = List (Text × ResourceInfo)

abbrev pub infos : ResourceMap → InfoMap
infos [] = []
infos ((key, ids) ∷ m) = (key, record { index = 0; device_ids = ids }) ∷ infos m

-- GetPodResourceMap of either client
unfoldable pub get_pod_resource_map : ResourceClient → Pod → Option ResourceMap
unfolding kubelet_map checkpoint_map
get_pod_resource_map (kubelet_client pods) pod = kubelet_map pod.name pod.namespace pods
get_pod_resource_map (checkpoint_client entries) pod = checkpoint_map pod.uid entries

-- The path of a NetworkAttachmentDefinition at the API server
abbrev pub raw_path : Text → Text → Text
raw_path namespace name =
    codes "/apis/k8s.cni.cncf.io/v1/namespaces/"
    ++ (namespace ++ (codes "/network-attachment-definitions/" ++ name))

-- The next device of the resource, or the empty string, and the map with the index moved on.
unfoldable pub next_device : Text → InfoMap → Text × InfoMap
next_device k [] = ([], [])
next_device k ((key, info) ∷ m) =
    let (id, rest) = next_device k m in
    if text_eq key k
    then elim (get_elem? info.device_ids info.index) [
      | none ↦ ([], (key, info) ∷ m)
      | some device_id ↦ (device_id, (key, record info { index = info.index + 1 }) ∷ m)
    ]
    else (id, (key, info) ∷ rest)

-- The resource that a definition asks for, in a pod that has a name and a namespace
unfoldable pub wanted_resource : NetworkAttachmentDefinition → Pod → Option Text
unfolding annotation
wanted_resource resource pod =
    if not (is_empty pod.name) && not (is_empty pod.namespace)
    then annotation resource_name_annot resource.annotations
    else none

module _ {P : Type 0} (cluster : Cluster P) where
  -- The definition of a network at the API server
  unfoldable pub get_resource : Text → Text → Result KubeError NetworkAttachmentDefinition
  get_resource namespace name = do
    data' ← or_fail no_resource (cluster.get_raw (raw_path namespace name))
    or_fail bad_resource (cluster.decode_resource data')

  -- The map, made where it is nil
  unfoldable pub ensure_map : Pod → Option InfoMap → Result KubeError InfoMap
  unfolding get_pod_resource_map
  ensure_map pod (some m) = ok m
  ensure_map pod none = do
    client ← or_fail no_resource_client cluster.resource_client
    m ← or_fail no_resource_map (get_pod_resource_map client pod)
    ok (infos m)

  -- The device of a definition, and the map after it
  unfoldable pub take_device :
      NetworkAttachmentDefinition → Pod → Option InfoMap → Result KubeError (Text × Option InfoMap)
  unfolding wanted_resource ensure_map next_device
  take_device resource pod map = elim (wanted_resource resource pod) [
    | none ↦ ok ([], map)
    | some k ↦ elim (ensure_map pod map) [
      | err e ↦ err e
      | ok m ↦ let (id, m') = next_device k m in ok (id, some m')
    ]
  ]

  -- LoadDelegateNetConf, with its errors as those of k8sclient.go
  abbrev pub load_bytes : Option NetworkSelectionElement → Text → Text → Result KubeError Delegate
  load_bytes net device_id bytes =
      lift_conf (load_delegate_net_conf cluster.decoder bytes net device_id)

  -- The delegate of a definition, with a device
  unfoldable pub load_resource :
      NetworkAttachmentDefinition
      → Option NetworkSelectionElement
      → Text
      → Text
      → Result KubeError Delegate
  unfolding cni_config_from_network_resource load_delegate_net_conf
  load_resource resource net conf_dir device_id =
      cni_config_from_network_resource cluster resource conf_dir >>= load_bytes net device_id

  -- getKubernetesDelegate
  unfoldable pub get_kubernetes_delegate :
      NetworkSelectionElement
      → Text
      → Pod
      → Option InfoMap
      → Result KubeError (Delegate × Option InfoMap)
  unfolding get_resource take_device load_resource
  get_kubernetes_delegate net conf_dir pod map = do
    resource ← get_resource net.namespace net.name
    taken ← take_device resource pod map
    delegate ← load_resource resource (some net) conf_dir taken.0
    ok (delegate, taken.1)

  -- The loop of GetNetworkDelegates
  unfoldable pub delegates_from :
      Pod
      → Text
      → Bool
      → List NetworkSelectionElement
      → Option InfoMap
      → Result KubeError (List Delegate)
  unfolding get_kubernetes_delegate
  delegates_from pod conf_dir isolated [] map = ok []
  delegates_from pod conf_dir isolated (net ∷ nets) map =
      if isolated && not (text_eq pod.namespace net.namespace)
      then err isolation
      else (get_kubernetes_delegate net conf_dir pod map >>= λ first.
          delegates_from pod conf_dir isolated nets first.1 >>= λ rest. ok (first.0 ∷ rest))

  -- GetNetworkDelegates
  unfoldable pub get_network_delegates :
      Pod → List NetworkSelectionElement → Text → Bool → Result KubeError (List Delegate)
  unfolding delegates_from
  get_network_delegates pod nets conf_dir isolated = delegates_from pod conf_dir isolated nets none
