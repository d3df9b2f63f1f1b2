-- ===== src/Conf/Decoder.antt =====
-- The types of types/types.go, and what types/conf.go calls of encoding/json and of the CNI library.
use multus_ext_cni.Prelude.{ℕ, Bool, List, Option, Text}
use multus_ext_cni.Conf.Json.{Json, Members}
use multus_ext_cni.Multus.Delegates.{Delegate, ConfList}

-- The errors of types/conf.go. The last one is no error: the code panics.
pub data ConfError : Type 0 where
  decode_failed encode_failed no_plugins no_type no_plugin_list bad_plugin_list bad_plugin :
      ConfError
  bad_prev_result no_delegates : ConfError
  panics : ConfError

-- PortMapEntry and RuntimeConfig
pub record PortMapEntry : Type 0 where
  pub host_port : ℕ
  pub container_port : ℕ
  pub protocol : Text
  pub host_ip : Text

pub record RuntimeConfig : Type 0 where
  pub port_maps : List PortMapEntry

-- NetConf, with `P` for the results of plugins; the log file and level are left out. A null among
-- the raw delegates is a map that is nil.
pub record NetConf (P : Type 0) : Type 0 where
  pub cni_version : Text
  pub raw_prev_result : Option Members
  pub prev_result : Option P
  pub conf_dir : Text
  pub cni_dir : Text
  pub bin_dir : Text
  pub raw_delegates : List (Option Members)
  pub delegates : List Delegate
  pub kubeconfig : Text
  pub cluster_network : Text
  pub default_networks : List Text
  pub runtime_config : Option RuntimeConfig
  pub readiness_indicator_file : Text
  pub namespace_isolation : Bool
  pub system_namespaces : List Text
  pub multus_namespace : Text

-- The name and type of a plugin's configuration, as the CNI library has them.
pub record PluginHead : Type 0 where
  pub name : Text
  pub type_name : Text

-- json.Unmarshal into the types that conf.go decodes to, json.Marshal, and the CNI library's
-- versions of results. `none` is an error.
pub record Decoder (P : Type 0) : Type 0 where
  pub parse : Text → Option Json
  pub print : Json → Option Text
  pub decode_conf : Text → Option PluginHead
  pub decode_conf_list : Text → Option ConfList
  pub decode_net_conf : Text → Option (NetConf P)
  pub new_result : Text → Text → Option P
