-- ===== src/Conf/Delegates.antt =====
-- The loading of a delegate: LoadDelegateNetConf, LoadDelegateNetConfList, delegateAddDeviceID and
-- addDeviceIDInConfList of types/conf.go.
use multus_ext_cni.Prelude.{
  ◌≡◌, false, not, List, [], ◌∷◌, Option, none, some, if◌then◌else◌, Text, codes, is_empty, Result,
  ok, err, ◌>>=◌, ◌>>◌, guard,
}
use multus_ext_cni.Conf.Json.{
  Json, null, object, array, string, no_items, item, Members, lookup, set,
}
use multus_ext_cni.Conf.Decoder.{
  ConfError, decode_failed, encode_failed, no_plugins, no_type, no_plugin_list, bad_plugin_list,
  bad_plugin, panics, PluginHead, Decoder,
}
use multus_ext_cni.Multus.Delegates.{Delegate, ConfList, no_list}

-- NetworkSelectionElement
pub record NetworkSelectionElement : Type 0 where
  pub name : Text
  pub namespace : Text
  pub ip_request : Text
  pub mac_request : Text
  pub interface_request : Text
  pub obsolated_interface_request : Text

-- A call that answers `none` on an error.
abbrev pub or_fail {ℓ κ} : {E : Type κ} {A : Type ℓ} → E → Option A → Result E A
or_fail e none = err e
or_fail e (some a) = ok a

pub or_fail-ok : {E A : Type 0} (e : E) (o : Option A) {a : A} → or_fail e o ≡ ok a → o ≡ some a
or_fail-ok e none h = cc
or_fail-ok e (some b) h = cc

-- The device under both of its keys.
abbrev pub with_device : Text → Members → Members
with_device id m = set (codes "pciBusID") (string id) (set (codes "deviceID") (string id) m)

-- The type assertions of addDeviceIDInConfList on the value of "plugins".
unfoldable pub with_first_device : Text → Json → Result ConfError Json
with_first_device id (array no_items) = err panics
with_first_device id (array (item (object m) rest)) =
    ok (array (item (object (with_device id m)) rest))
with_first_device id (array (item _ rest)) = err bad_plugin
with_first_device id _ = err bad_plugin_list

-- The requests of a network; no network is `nil`, and requests nothing.
abbrev pub request : (NetworkSelectionElement → Text) → Option NetworkSelectionElement → Text
request field none = []
request field (some net) = field net

-- The delegate that LoadDelegateNetConf builds.
abbrev pub delegate_of : PluginHead → ConfList × Text → Option NetworkSelectionElement → Delegate
delegate_of conf (list, bytes) net = record {
  name = conf.name;
  type_name = conf.type_name;
  bytes = bytes;
  ifname_request = request (λ n. n.interface_request) net;
  mac_request = request (λ n. n.mac_request) net;
  ip_request = request (λ n. n.ip_request) net;
  conf_list = list;
  conf_list_plugin = is_empty conf.type_name;
  master_plugin = false;
}

-- The type of `Plugins[0]`; `none` is the panic, on an index out of range or on a nil pointer.
unfoldable pub first_plugin : List (Option Text) → Option Text
first_plugin [] = none
first_plugin (plugin ∷ _) = plugin

module _ {P : Type 0} (decoder : Decoder P) where
  -- json.Unmarshal into a `map[string]interface{}`; null leaves the map nil.
  unfoldable pub unmarshal_map : Text → Result ConfError (Option Members)
  unmarshal_map bytes = elim (decoder.parse bytes) [
    | some (object m) ↦ ok (some m)
    | some null ↦ ok none
    | _ ↦ err decode_failed
  ]

  unfoldable pub marshal : Json → Result ConfError Text
  marshal j = or_fail encode_failed (decoder.print j)

  -- delegateAddDeviceID; an assignment to a map that is nil panics.
  unfoldable pub delegate_add_device_id : Text → Text → Result ConfError Text
  unfolding unmarshal_map marshal
  delegate_add_device_id bytes device_id = do
    raw_config ← unmarshal_map bytes
    m ← or_fail panics raw_config
    marshal (object (with_device device_id m))

  -- addDeviceIDInConfList
  unfoldable pub add_device_id_in_conf_list : Text → Text → Result ConfError Text
  unfolding unmarshal_map marshal with_first_device lookup set
  add_device_id_in_conf_list bytes device_id = do
    raw_config ← unmarshal_map bytes
    m ← or_fail no_plugin_list raw_config
    plugins ← or_fail no_plugin_list (lookup (codes "plugins") m)
    injected ← with_first_device device_id plugins
    marshal (object (set (codes "plugins") injected m))

  -- LoadDelegateNetConfList
  unfoldable pub load_delegate_net_conf_list : Text → Result ConfError ConfList
  unfolding first_plugin
  load_delegate_net_conf_list bytes = do
    list ← or_fail decode_failed (decoder.decode_conf_list bytes)
    plugins ← or_fail no_plugins list.plugins
    first_type ← or_fail panics (first_plugin plugins)
    guard (not (is_empty first_type)) no_type
    ok list

  -- The list of plugins, where the configuration has no type, and the bytes with the device.
  unfoldable pub load_contents : PluginHead → Text → Text → Result ConfError (ConfList × Text)
  unfolding load_delegate_net_conf_list add_device_id_in_conf_list delegate_add_device_id
  load_contents conf bytes device_id =
      if is_empty conf.type_name
      then (load_delegate_net_conf_list bytes >>= λ list.
          (if is_empty device_id then ok bytes else add_device_id_in_conf_list bytes device_id)
          >>= λ injected. ok (list, injected))
      else ((if is_empty device_id then ok bytes else delegate_add_device_id bytes device_id)
          >>= λ injected. ok (no_list, injected))

  -- LoadDelegateNetConf
  unfoldable pub load_delegate_net_conf :
      Text → Option NetworkSelectionElement → Text → Result ConfError Delegate
  unfolding load_contents
  load_delegate_net_conf bytes net device_id = do
    conf ← or_fail decode_failed (decoder.decode_conf bytes)
    contents ← load_contents conf bytes device_id
    ok (delegate_of conf contents net)
