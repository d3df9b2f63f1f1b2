-- ===== src/Conf/Status.antt =====
-- LoadNetworkStatus of types/conf.go: the status of a network from the result of its plugin.
use multus_ext_cni.Prelude.{
  Bool, not, ◌&&◌, List, [], ◌∷◌, ◌++◌, Option, none, some, if◌then◌else◌, Text, codes, text_eq,
  is_empty,
}
use multus_ext_cni.Net.{Ip, is_nil, to4, to16}

-- current.Result of the CNI library
pub record Interface : Type 0 where
  pub name : Text
  pub mac : Text
  pub sandbox : Text

pub record IpConfig : Type 0 where
  pub version : Text
  pub ip : Ip

pub record Dns : Type 0 where
  pub nameservers : List Text
  pub domain : Text
  pub search : List Text
  pub options : List Text

pub record PluginResult : Type 0 where
  pub interfaces : List Interface
  pub ips : List IpConfig
  pub dns : Dns

-- NetworkStatus
pub record NetworkStatus : Type 0 where
  pub name : Text
  pub interface : Text
  pub ips : List Text
  pub mac : Text
  pub default : Bool
  pub dns : Dns

-- The loop over the interfaces: a pod's interface has a sandbox.
unfoldable pub note_interfaces : List Interface → NetworkStatus → NetworkStatus
note_interfaces [] status = status
note_interfaces (i ∷ is) status =
    note_interfaces is (
      if not (is_empty i.sandbox)
      then record status { interface = i.name; mac = i.mac }
      else status)

-- The two conditions on an address; both append it.
unfoldable pub is_v4 : IpConfig → Bool
unfolding text_eq to4
is_v4 c = text_eq c.version (codes "4") && not (is_nil (to4 c.ip))

unfoldable pub is_v6 : IpConfig → Bool
unfolding text_eq to16
is_v6 c = text_eq c.version (codes "6") && not (is_nil (to16 c.ip))

-- What converts a result to the current version (`none` is an error), and (IP).String
pub record Converter (R : Type 0) : Type 0 where
  pub new_result_from_result : R → Option PluginResult
  pub ip_to_string : Ip → Text

module _ {R : Type 0} (converter : Converter R) where
  -- The loop over the addresses.
  unfoldable pub note_ips : List IpConfig → NetworkStatus → NetworkStatus
  unfolding is_v4 is_v6
  note_ips [] status = status
  note_ips (c ∷ cs) status =
      let t = converter.ip_to_string c.ip in
      let s4 = if is_v4 c then record status { ips = status.ips ++ (t ∷ []) } else status in
      let s6 = if is_v6 c then record s4 { ips = s4.ips ++ (t ∷ []) } else s4 in note_ips cs s6

  -- LoadNetworkStatus; `none` is its error.
  unfoldable pub load_network_status : R → Text → Bool → Option NetworkStatus
  unfolding note_interfaces note_ips
  load_network_status r net_name default_net = elim (converter.new_result_from_result r) [
    | none ↦ none
    | some result ↦
        let start : NetworkStatus = record {
          name = net_name;
          interface = [];
          ips = [];
          mac = [];
          default = default_net;
          dns = record { nameservers = []; domain = []; search = []; options = [] };
        } in
        let filled = note_ips result.ips (note_interfaces result.interfaces start) in
        some (record filled { dns = result.dns })
  ]
