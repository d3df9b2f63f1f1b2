-- ===== src/Conf/Loading.antt =====
-- LoadNetConf, AddDelegates, CreateCNIRuntimeConf and CheckSystemNamespaces of types/conf.go.
use multus_ext_cni.Prelude.{
  ◌&&◌, ◌||◌, Bool, true, false, List, [], ◌∷◌, ◌++◌, Option, none, some, if◌then◌else◌, Text,
  codes, text_eq, is_empty, Result, ok, err, ◌>>=◌, ◌>>◌, guard, not,
}
use multus_ext_cni.Conf.Json.{Json, null, object, Members}
use multus_ext_cni.Conf.Decoder.{
  ConfError, decode_failed, bad_prev_result, no_delegates, panics, RuntimeConfig, PortMapEntry,
  NetConf, Decoder,
}
use multus_ext_cni.Conf.Delegates.{or_fail, marshal, load_delegate_net_conf}
use multus_ext_cni.Multus.Delegates.{Delegate}

abbrev pub default_cni_dir : Text
default_cni_dir = codes "/var/lib/cni/multus"

abbrev pub default_conf_dir : Text
default_conf_dir = codes "/etc/cni/multus/net.d"

abbrev pub default_bin_dir : Text
default_bin_dir = codes "/opt/cni/bin"

abbrev pub default_readiness_indicator_file : Text
default_readiness_indicator_file = []

abbrev pub default_multus_namespace : Text
default_multus_namespace = codes "kube-system"

abbrev pub or_default : Text → Text → Text
or_default default value = if is_empty value then default else value

abbrev pub no_entries {ℓ} : {A : Type ℓ} → List A → Bool
no_entries [] = true
no_entries (_ ∷ _) = false

abbrev pub as_master : Delegate → Delegate
as_master d = record d { master_plugin = true }

-- `Delegates[0].MasterPlugin = true`
unfoldable pub set_master : List Delegate → Result ConfError (List Delegate)
set_master [] = err panics
set_master (d ∷ ds) = ok (as_master d ∷ ds)

abbrev pub raw_value : Option Members → Json
raw_value none = null
raw_value (some m) = object m

-- CheckSystemNamespaces
unfoldable pub check_system_namespaces : Text → List Text → Bool
check_system_namespaces namespace [] = false
check_system_namespaces namespace (n ∷ ns) =
    text_eq namespace n || check_system_namespaces namespace ns

-- libcni.RuntimeConf, as far as it is set
pub record RuntimeConf : Type 0 where
  pub container_id : Text
  pub net_ns : Text
  pub if_name : Text
  pub args : List (Text × Text)
  pub port_mappings : Option (List PortMapEntry)

-- CmdArgs of the CNI library and K8sArgs of types.go
pub record CmdArgs : Type 0 where
  pub container_id : Text
  pub netns : Text

pub record K8sArgs : Type 0 where
  pub pod_name : Text
  pub pod_namespace : Text
  pub infra_container_id : Text

abbrev port_mappings_of : Option RuntimeConfig → Option (List PortMapEntry)
port_mappings_of none = none
port_mappings_of (some rc) = some rc.port_maps

-- CreateCNIRuntimeConf
unfoldable pub create_cni_runtime_conf :
    CmdArgs → K8sArgs → Text → Option RuntimeConfig → RuntimeConf
create_cni_runtime_conf args k8s if_name rc = record {
  container_id = args.container_id;
  net_ns = args.netns;
  if_name = if_name;
  args =
      (codes "IgnoreUnknown", codes "1")
      ∷ (codes "K8S_POD_NAMESPACE", k8s.pod_namespace)
      ∷ (codes "K8S_POD_NAME", k8s.pod_name)
      ∷ (codes "K8S_POD_INFRA_CONTAINER_ID", k8s.infra_container_id)
      ∷ [];
  port_mappings = port_mappings_of rc;
}

module _ {P : Type 0} where
  -- AddDelegates
  unfoldable pub add_delegates : List Delegate → NetConf P → NetConf P
  add_delegates new conf = record conf { delegates = conf.delegates ++ new }

  -- The fields of NetConf that have a default.
  unfoldable pub with_defaults : NetConf P → NetConf P
  with_defaults conf = record conf {
    cni_dir = or_default default_cni_dir conf.cni_dir;
    conf_dir = or_default default_conf_dir conf.conf_dir;
    bin_dir = or_default default_bin_dir conf.bin_dir;
    readiness_indicator_file =
        or_default default_readiness_indicator_file conf.readiness_indicator_file;
    system_namespaces =
        if no_entries conf.system_namespaces
        then codes "kube-system" ∷ []
        else conf.system_namespaces;
    multus_namespace = or_default default_multus_namespace conf.multus_namespace;
  }

  module _ (decoder : Decoder P) where
    -- The previous result, which is converted to the current version.
    unfoldable pub load_prev_result : NetConf P → Result ConfError (NetConf P)
    unfolding marshal
    load_prev_result conf = elim conf.raw_prev_result [
      | none ↦ ok conf
      | some m ↦ marshal decoder (object m) >>= λ bytes.
          or_fail bad_prev_result (decoder.new_result conf.cni_version bytes) >>= λ p.
          ok (record conf { raw_prev_result = none; prev_result = some p })
    ]

    -- The loop over the raw delegates.
    unfoldable pub load_raw_delegates : List (Option Members) → Result ConfError (List Delegate)
    unfolding marshal load_delegate_net_conf
    load_raw_delegates [] = ok []
    load_raw_delegates (raw ∷ raws) = do
      bytes ← marshal decoder (raw_value raw)
      delegate ← load_delegate_net_conf decoder bytes none []
      rest ← load_raw_delegates raws
      ok (delegate ∷ rest)

    -- The delegates of the configuration, unless there is a cluster network.
    unfoldable pub load_delegates : NetConf P → Result ConfError (NetConf P)
    unfolding load_raw_delegates set_master
    load_delegates conf =
        if not (is_empty conf.cluster_network)
        then ok conf
        else if no_entries conf.raw_delegates
        then err no_delegates
        else do
          loaded ← load_raw_delegates conf.raw_delegates
          delegates ← set_master (conf.delegates ++ loaded)
          ok (record conf { raw_delegates = []; delegates = delegates })

    -- LoadNetConf
    unfoldable pub load_net_conf : Text → Result ConfError (NetConf P)
    unfolding load_prev_result load_delegates with_defaults
    load_net_conf bytes = do
      decoded ← or_fail decode_failed (decoder.decode_net_conf bytes)
      conf ← load_prev_result decoded
      guard (not (no_entries conf.raw_delegates && is_empty conf.cluster_network)) no_delegates
      load_delegates (with_defaults conf)
