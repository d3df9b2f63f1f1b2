-- ===== src/Examples/Configuration.antt =====
-- The theorems on types/conf.go, with a decoder for a few texts.
use multus_ext_cni.Prelude.{
  ℕ, ◌≡◌, ◌⊎◌, refl, subst, Bool, true, false, ◌||◌, [], ◌∷◌, map, Option, none, some,
  if◌then◌else◌, Text, codes, text_eq, ok, err,
}
use multus_ext_cni.Conf.Json.{object, array, string, no_items, item, Members, no_members, member}
use multus_ext_cni.Conf.Decoder.{panics, NetConf, Decoder}
use multus_ext_cni.Conf.Delegates.{load_delegate_net_conf}
use multus_ext_cni.Conf.Loading.{load_net_conf}
use multus_ext_cni.Conf.Injection.{PluginDevice, ListDevice, load_delegate_net_conf-device}
use multus_ext_cni.Conf.Ready.{IsFresh, IsComplete, HasDelegates, load_net_conf-IsComplete}
use multus_ext_cni.Conf.Status.{Dns, PluginResult, Converter, load_network_status}
use multus_ext_cni.Conf.Noted.{
  last_in_sandbox, name_of, mac_of, listed, load_network_status-reports,
}
use multus_ext_cni.Multus.Delegates.{Delegate}

abbrev pub plugin_members : Members
plugin_members = member (codes "type") (string (codes "bridge")) no_members

abbrev pub list_members : Members
list_members = member (codes "plugins") (array (item (object plugin_members) no_items)) no_members

abbrev pub base : NetConf ℕ
base = record {
  cni_version = codes "0.3.1";
  raw_prev_result = some no_members;
  prev_result = none;
  conf_dir = [];
  cni_dir = [];
  bin_dir = codes "/bin";
  raw_delegates = some plugin_members ∷ some plugin_members ∷ [];
  delegates = [];
  kubeconfig = [];
  cluster_network = [];
  default_networks = [];
  runtime_config = none;
  readiness_indicator_file = [];
  namespace_isolation = false;
  system_namespaces = [];
  multus_namespace = [];
}

-- A text "list" is a list of one plugin, "empty" a list of none, "nulls" of a null; every other text is a plugin.
abbrev pub is_list : Text → Bool
is_list t = text_eq t (codes "list")

abbrev pub is_none : Text → Bool
is_none t = text_eq t (codes "empty")

abbrev pub decoder : Decoder ℕ
decoder = record {
  parse = λ t. some (object (if is_list t then list_members else plugin_members));
  print = λ j. some (codes "printed");
  decode_conf = λ t.
      if is_list t
      then some (record { name = codes "net"; type_name = [] })
      else if is_none t || text_eq t (codes "nulls")
      then some (record { name = codes "net"; type_name = [] })
      else some (record { name = codes "net"; type_name = codes "bridge" });
  decode_conf_list = λ t. some (record {
    name = codes "net";
    cni_version = [];
    plugins = some (
        if is_none t
        then []
        else if text_eq t (codes "nulls")
        then none ∷ []
        else some (codes "bridge") ∷ []);
  });
  decode_net_conf = λ t. some base;
  new_result = λ version bytes. some 7;
}

abbrev pub bridge : Text → Bool → Delegate
bridge bytes master = record {
  name = codes "net";
  type_name = codes "bridge";
  bytes = bytes;
  ifname_request = [];
  mac_request = [];
  ip_request = [];
  conf_list = record { name = []; cni_version = []; plugins = none };
  conf_list_plugin = false;
  master_plugin = master;
}

abbrev device : Text
device = codes "0000:03:02.0"

injected :
    load_delegate_net_conf decoder (codes "plugin") none device
    ≡ ok (bridge (codes "printed") false)
unfolding load_delegate_net_conf text_eq
injected = refl

load_delegate_net_conf-device_example :
    ((false ≡ false) × PluginDevice decoder (codes "plugin") device (codes "printed"))
    ⊎ ((false ≡ true) × ListDevice decoder (codes "plugin") device (codes "printed"))
load_delegate_net_conf-device_example =
    load_delegate_net_conf-device decoder (codes "plugin") none device
      (bridge (codes "printed") false) refl injected

panicked : load_delegate_net_conf decoder (codes "empty") none [] ≡ err panics
unfolding load_delegate_net_conf text_eq
panicked = refl

-- A list whose first plugin is null
panicked_null : load_delegate_net_conf decoder (codes "nulls") none [] ≡ err panics
unfolding load_delegate_net_conf text_eq
panicked_null = refl

pub decoder-IsFresh : IsFresh decoder
decoder-IsFresh bytes conf h =
    subst (λ (o : Option (NetConf ℕ)). elim o [ none ↦ [] | some c ↦ c.delegates ] ≡ []) h refl

abbrev pub loaded : NetConf ℕ
loaded = record base {
  raw_prev_result = none;
  prev_result = some 7;
  conf_dir = codes "/etc/cni/multus/net.d";
  cni_dir = codes "/var/lib/cni/multus";
  raw_delegates = [];
  delegates = bridge (codes "printed") true ∷ bridge (codes "printed") false ∷ [];
  system_namespaces = codes "kube-system" ∷ [];
  multus_namespace = codes "kube-system";
}

pub is_loaded : load_net_conf decoder (codes "stdin") ≡ ok loaded
unfolding load_net_conf text_eq
is_loaded = refl

load_net_conf-IsComplete_example :
    (decoded : NetConf ℕ) × (decoder.decode_net_conf (codes "stdin") ≡ some decoded)
    × IsComplete loaded
    × HasDelegates decoded.raw_delegates loaded
load_net_conf-IsComplete_example =
    load_net_conf-IsComplete decoder decoder-IsFresh (codes "stdin") loaded is_loaded

-- A result of a plugin, with the interface of the host and that of the pod.
abbrev dns : Dns
dns = record { nameservers = []; domain = codes "local"; search = []; options = [] }

abbrev plugin_result : PluginResult
plugin_result = record {
  interfaces =
      record { name = codes "veth1"; mac = codes "aa"; sandbox = [] }
      ∷ record { name = codes "eth0"; mac = codes "bb"; sandbox = codes "/ns" }
      ∷ [];
  ips = record { version = codes "4"; ip = 10 ∷ 0 ∷ 0 ∷ 2 ∷ [] } ∷ [];
  dns = dns;
}

abbrev converter : Converter ℕ
converter = record {
  new_result_from_result = λ r. some plugin_result;
  ip_to_string = λ ip. codes "10.0.0.2";
}

load_network_status-reports_example :
    load_network_status converter 3 (codes "net") true
    ≡ some (record {
      name = codes "net";
      interface = name_of (last_in_sandbox plugin_result.interfaces);
      ips = map (λ c. converter.ip_to_string c.ip) (listed plugin_result.ips);
      mac = mac_of (last_in_sandbox plugin_result.interfaces);
      default = true;
      dns = dns;
    })
load_network_status-reports_example =
    load_network_status-reports converter 3 (codes "net") true plugin_result refl

reported : name_of (last_in_sandbox plugin_result.interfaces) ≡ codes "eth0"
reported = refl
