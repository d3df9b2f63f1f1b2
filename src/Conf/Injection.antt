-- ===== src/Conf/Injection.antt =====
-- The device of a delegate in its configuration: LoadDelegateNetConf (types/conf.go).
use multus_ext_cni.Prelude.{
  ◌≡◌, ◌⊎◌, inl, inr, refl, sym, ◌∙◌, ap, Bool, true, false, ◌||◌, Option, some, if◌then◌else◌,
  Text, codes, text_eq, is_empty, ok, >>=-eq-ok, ok-injective, subst, arith, Bool-cases,
}
use multus_ext_cni.Conf.Json.{
  Json, null, boolean, number, object, array, string, Items, no_items, item, Members, lookup, set,
  lookup-set,
}
use multus_ext_cni.Conf.Decoder.{panics, PluginHead, Decoder}
use multus_ext_cni.Conf.Delegates.{
  NetworkSelectionElement, or_fail, or_fail-ok, with_device, unmarshal_map, marshal,
  delegate_add_device_id, with_first_device, add_device_id_in_conf_list, load_contents,
  load_delegate_net_conf,
}
use multus_ext_cni.Multus.Delegates.{Delegate, ConfList}

abbrev pub is_device_key : Text → Bool
is_device_key k = text_eq (codes "deviceID") k || text_eq (codes "pciBusID") k

-- The second map is the first one with the device under both keys.
abbrev pub HasDevice : Text → Members → Members → Type 0
HasDevice id m new =
    (k : Text) → lookup k new ≡ (if is_device_key k then some (string id) else lookup k m)

-- The second map is the first one with another value of "plugins".
abbrev pub HasPlugins : Json → Members → Members → Type 0
HasPlugins plugins m new =
    (k : Text) → lookup k new ≡ (if text_eq (codes "plugins") k then some plugins else lookup k m)

lookup-with_device : (id : Text) (m : Members) → HasDevice id m (with_device id m)
lookup-with_device id m k = ground (
  arith,
  lookup-set (codes "pciBusID") k (string id) (set (codes "deviceID") (string id) m),
  lookup-set (codes "deviceID") k (string id) m,
)

module _ {P : Type 0} (decoder : Decoder P) where
  unmarshal_map-some :
      (bytes : Text) (m : Members)
      → unmarshal_map decoder bytes ≡ ok (some m)
      → decoder.parse bytes ≡ some (object m)
  unfolding unmarshal_map
  unmarshal_map-some bytes m h = ground arith

  -- The configuration of one plugin with a device.
  abbrev pub PluginDevice : Text → Text → Text → Type 0
  PluginDevice bytes id out =
      (m new : Members) × (decoder.parse bytes ≡ some (object m))
      × HasDevice id m new
      × (decoder.print (object new) ≡ some out)

  -- The configuration of a list of plugins, with the device in the first one.
  abbrev pub ListDevice : Text → Text → Text → Type 0
  ListDevice bytes id out =
      (m new first with_id : Members) × (rest : Items) × (decoder.parse bytes ≡ some (object m))
      × (lookup (codes "plugins") m ≡ some (array (item (object first) rest)))
      × HasDevice id first with_id
      × HasPlugins (array (item (object with_id) rest)) m new
      × (decoder.print (object new) ≡ some out)

  delegate_add_device_id-device :
      (bytes id : Text) {out : Text}
      → delegate_add_device_id decoder bytes id ≡ ok out
      → PluginDevice bytes id out
  unfolding delegate_add_device_id marshal
  delegate_add_device_id-device bytes id h =
      let (raw, read, h1) = >>=-eq-ok (unmarshal_map decoder bytes) _ h in
      let (m, present, h2) = >>=-eq-ok (or_fail panics raw) _ h1 in
      (
        m,
        with_device id m,
        unmarshal_map-some bytes m (read ∙ ap ok (or_fail-ok panics raw present)),
        lookup-with_device id m,
        or_fail-ok _ _ h2,
      )

  -- What the type assertions have found.
  with_first_device-first :
      (id : Text) (plugins : Json) {injected : Json}
      → with_first_device id plugins ≡ ok injected
      → (first : Members) × (rest : Items) × (plugins ≡ array (item (object first) rest))
        × (injected ≡ array (item (object (with_device id first)) rest))
  unfolding with_first_device
  with_first_device-first id (array (item (object m) rest)) h = (m, rest, refl, cc)
  with_first_device-first id (array (item null rest)) h = cc
  with_first_device-first id (array (item (boolean b) rest)) h = cc
  with_first_device-first id (array (item (number n) rest)) h = cc
  with_first_device-first id (array (item (string s) rest)) h = cc
  with_first_device-first id (array (item (array a) rest)) h = cc
  with_first_device-first id (array no_items) h = cc
  with_first_device-first id null h = cc
  with_first_device-first id (boolean b) h = cc
  with_first_device-first id (number n) h = cc
  with_first_device-first id (string s) h = cc
  with_first_device-first id (object m) h = cc

  add_device_id_in_conf_list-device :
      (bytes id : Text) {out : Text}
      → add_device_id_in_conf_list decoder bytes id ≡ ok out
      → ListDevice bytes id out
  unfolding add_device_id_in_conf_list marshal
  add_device_id_in_conf_list-device bytes id {out} h =
      let (raw, read, h1) = >>=-eq-ok (unmarshal_map decoder bytes) _ h in
      let (m, present, h2) = >>=-eq-ok (or_fail _ raw) _ h1 in
      let (plugins, listed, h3) = >>=-eq-ok (or_fail _ (lookup (codes "plugins") m)) _ h2 in
      let (injected, asserted, h4) = >>=-eq-ok (with_first_device id plugins) _ h3 in
      let (first, rest, before, after) = with_first_device-first id plugins asserted in
      let with_id = with_device id first in
      let new : Json = array (item (object with_id) rest) in
      (
        m,
        set (codes "plugins") new m,
        first,
        with_id,
        rest,
        unmarshal_map-some bytes m (read ∙ ap ok (or_fail-ok _ raw present)),
        or_fail-ok _ _ listed ∙ ap some before,
        lookup-with_device id first,
        λ k. lookup-set (codes "plugins") k new m,
        ap (λ j. decoder.print (object (set (codes "plugins") j m))) (sym after)
            ∙ or_fail-ok _ _ h4,
      )

  load_contents-device :
      (conf : PluginHead) (bytes id : Text) {list : ConfList} {out : Text}
      → is_empty id ≡ false
      → load_contents decoder conf bytes id ≡ ok (list, out)
      → ((is_empty conf.type_name ≡ false) × PluginDevice bytes id out)
        ⊎ ((is_empty conf.type_name ≡ true) × ListDevice bytes id out)
  unfolding load_contents
  load_contents-device conf bytes id {list} {out} given h =
      elim (Bool-cases (is_empty conf.type_name)) [
        | inr single ↦ inl (single, delegate_add_device_id-device bytes id (ground arith))
        | inl listed ↦ inr (listed, add_device_id_in_conf_list-device bytes id (ground arith))
      ]

  -- LoadDelegateNetConf with a device succeeds. Then the bytes of the delegate encode the
  -- configuration that was read, with the device under both of its keys and every other key as it
  -- was: in the configuration itself where it is one plugin, and in the first of its plugins where
  -- it is a list of them.
  pub load_delegate_net_conf-device :
      (bytes : Text) (net : Option NetworkSelectionElement) (id : Text) (d : Delegate)
      → is_empty id ≡ false
      → load_delegate_net_conf decoder bytes net id ≡ ok d
      → ((d.conf_list_plugin ≡ false) × PluginDevice bytes id d.bytes)
        ⊎ ((d.conf_list_plugin ≡ true) × ListDevice bytes id d.bytes)
  unfolding load_delegate_net_conf
  load_delegate_net_conf-device bytes net id d given h =
      let (conf, decoded, h1) = >>=-eq-ok (or_fail _ (decoder.decode_conf bytes)) _ h in
      let ((list, out), loaded, h2) = >>=-eq-ok (load_contents decoder conf bytes id) _ h1 in
      subst
        (λ e.
          ((e.conf_list_plugin ≡ false) × PluginDevice bytes id e.bytes)
          ⊎ ((e.conf_list_plugin ≡ true) × ListDevice bytes id e.bytes))
        (ok-injective h2) (load_contents-device conf bytes id given loaded)
