-- ===== src/Examples/Pods.antt =====
-- The theorems on the delegates of a pod, at a pod with three networks: the second asks for an address.
use multus_ext_cni.Prelude.{
  ℕ, zero, suc, ◌+◌, ◌≡◌, refl, subst, ap, Bool, true, false, List, [], ◌∷◌, ◌++◌, none, some, Text,
  codes, text_eq, Result, ok, if◌then◌else◌, has_char, arith,
}
use multus_ext_cni.Multus.Delegates.{Delegate, no_list, not_found, Cni, State}
use multus_ext_cni.Multus.{
  MultusError, get_ifname, delegate_add, del_plugins, extra_args, is_bad_value,
}
use multus_ext_cni.Multus.Calls.{Call, del_calls, recorded, ArePlain, del_plugins-calls}
use multus_ext_cni.Multus.Rollback.{PodEnds, add_pod-Outcome}
use multus_ext_cni.Multus.Arguments.{has_request, plugin_call, delegate_add-inherits}
use multus_ext_cni.Ipam.Allocator.{itoa}

-- Plugins that count their calls; the type `broken` fails to add.
abbrev pub cni : Cni ℕ ℕ Text
cni = record {
  has_netns = λ w. true;
  link_by_name = λ name w. not_found;
  parse_mac = λ t. true;
  parse_cidr = λ t. true;
  parse_ip = λ t. true;
  add_list = λ name bytes w. (some w, w + 1);
  add_plugin = λ type bytes env w. (if text_eq type (codes "broken") then none else some w, w + 1);
  del_list = λ name bytes w. (true, w + 1);
  del_plugin = λ type bytes env w. (true, w + 1);
  load_status = λ r d. some d.type_name;
  set_status = λ l w. (true, w);
  save_delegates = λ l w. (true, w);
}

abbrev delegate : Text → Text → Bool → Delegate
delegate type ip master = record {
  name = codes "net";
  type_name = type;
  bytes = codes "{}";
  ifname_request = [];
  mac_request = [];
  ip_request = ip;
  conf_list = no_list;
  conf_list_plugin = false;
  master_plugin = master;
}

abbrev flannel : Delegate
flannel = delegate (codes "flannel") [] true

abbrev fixed : Delegate
fixed = delegate (codes "macvlan") (codes "10.0.0.2") false

abbrev plain : Delegate
plain = delegate (codes "bridge") [] false

abbrev pod : List Delegate
pod = flannel ∷ fixed ∷ delegate (codes "broken") [] false ∷ []

abbrev pub eth0 : Text
eth0 = codes "eth0"

abbrev start : State (ℕ × List Call)
start = record { env = record { ifname = eth0; command = codes "ADD"; args = [] }; world = (0, []) }

some-Delegate : {d e : Delegate} → some d ≡ some e → d ≡ e
some-Delegate {d} h = ap (λ o. elim o [ none ↦ d | some x ↦ x ]) h

pod-ArePlain : ArePlain cni eth0 pod
unfolding get_ifname itoa has_char
pod-ArePlain zero d at =
    subst (λ x. is_bad_value (get_ifname x eth0 0) ≡ false) (some-Delegate at) refl
pod-ArePlain (suc zero) d at =
    subst (λ x. is_bad_value (get_ifname x eth0 1) ≡ false) (some-Delegate at) refl
pod-ArePlain (suc (suc zero)) d at =
    subst (λ x. is_bad_value (get_ifname x eth0 2) ≡ false) (some-Delegate at) refl
pod-ArePlain (suc (suc (suc i))) d at = cc

add_pod-Outcome_example : PodEnds cni eth0 pod pod-ArePlain [] true start
add_pod-Outcome_example = add_pod-Outcome cni eth0 pod pod-ArePlain [] true start

del_plugins-calls_example :
    (r : Result MultusError (Unit {0}) × State (ℕ × List Call)) × (del_plugins
        (recorded cni)
        eth0
        pod
        3
        start
      ≡ some r)
    × (r.1.world.1
        ≡ [] ++ del_calls eth0 pod 3 (record { ifname = eth0; command = codes "DEL"; args = [] }))
del_plugins-calls_example = del_plugins-calls cni eth0 pod 3 start pod-ArePlain (omega arith)

-- The second delegate is added with its address, and the next one inherits it.
abbrev after_fixed : State (ℕ × List Call)
after_fixed = (delegate_add (recorded cni) (codes "eth1") fixed [] start).1

abbrev after_plain : State (ℕ × List Call)
after_plain = (delegate_add (recorded cni) (codes "eth2") plain [] after_fixed).1

add-fixed : delegate_add (recorded cni) (codes "eth1") fixed [] start ≡ (ok 0, after_fixed)
unfolding delegate_add has_char text_eq
add-fixed = refl

add-plain : delegate_add (recorded cni) (codes "eth2") plain [] after_fixed ≡ (ok 1, after_plain)
unfolding delegate_add has_char text_eq
add-plain = refl

asks : has_request fixed ≡ true
asks = refl

none-asked : has_request plain ≡ false
none-asked = refl

delegate_add-inherits_example :
    (args : Text) × (extra_args (recorded cni) fixed [] ≡ ok args)
    × (after_plain.world.1
        ≡ after_fixed.world.1
          ++ (plugin_call plain (record after_fixed.env { ifname = codes "eth2"; args = args })
              ∷ []))
delegate_add-inherits_example =
    delegate_add-inherits cni [] (codes "eth1") (codes "eth2") fixed plain start after_fixed
      after_plain 0 1 asks none-asked refl add-fixed add-plain
