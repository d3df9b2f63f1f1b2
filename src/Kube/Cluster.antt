-- ===== src/Kube/Cluster.antt =====
-- The types of k8sclient.go, and what it calls: the API server, the files of the node, the CNI
-- library's loaders and the kubelet. All of them answer from one state during a command.
use multus_ext_cni.Prelude.{Bool, List, Option, Text, Result, ok, err}
use multus_ext_cni.Conf.Decoder.{ConfError, panics, Decoder}
use multus_ext_cni.Conf.Delegates.{NetworkSelectionElement}
use multus_ext_cni.Devices.{PodEntry, PodResources}

-- The errors of k8sclient.go: `no_network` is NoK8sNetworkError, `conf` is one of types/conf.go. The
-- last one is no error: the code panics.
pub data KubeError : Type 0 where
  no_network no_annotation bad_network_json : KubeError
  bad_slash bad_at bad_item : KubeError
  no_files bad_file no_file_type no_such_network : KubeError
  no_resource bad_resource bad_spec : KubeError
  no_resource_client no_resource_map : KubeError
  isolation many_defaults no_client_or_delegates bad_client : KubeError
  bad_directory : KubeError
  conf : ConfError → KubeError
  panics_here : KubeError

-- An error of types/conf.go as one of k8sclient.go.
abbrev pub of_conf : ConfError → KubeError
of_conf panics = panics_here
of_conf e = conf e

abbrev pub lift_conf {ℓ} : {A : Type ℓ} → Result ConfError A → Result KubeError A
lift_conf (ok a) = ok a
lift_conf (err e) = err (of_conf e)

abbrev pub Annotations : Type 0
Annotations = List (Text × Text)

-- v1.Pod, as far as it is read
pub record Pod : Type 0 where
  pub name : Text
  pub namespace : Text
  pub uid : Text
  pub annotations : Annotations

-- NetworkAttachmentDefinition: its name, annotations and Spec.Config
pub record NetworkAttachmentDefinition : Type 0 where
  pub name : Text
  pub annotations : Annotations
  pub config : Text

-- libcni's NetworkConfigList and NetworkConfig, as far as they are read
pub record ConfListFile : Type 0 where
  pub name : Text
  pub bytes : Text

pub record ConfFile : Type 0 where
  pub name : Text
  pub type_name : Text
  pub bytes : Text

-- GetResourceClient: the kubelet's API where there is an endpoint, or else its checkpoint.
pub data ResourceClient : Type 0 where
  kubelet_client : List PodResources → ResourceClient
  checkpoint_client : List PodEntry → ResourceClient

-- `none` is an error. An element of a decoded list may be a nil pointer, for a null in the JSON.
pub record Cluster (P : Type 0) : Type 0 where
  pub decoder : Decoder P
  pub get_raw : Text → Option Text
  pub get_pod : Text → Text → Option Pod
  pub decode_networks : Text → Option (List (Option NetworkSelectionElement))
  pub decode_resource : Text → Option NetworkAttachmentDefinition
  pub conf_files : Text → List Text → Option (List Text)
  pub conf_list_from_file : Text → Option ConfListFile
  pub conf_from_file : Text → Option ConfFile
  pub is_dir : Text → Bool
  pub resource_client : Option ResourceClient
