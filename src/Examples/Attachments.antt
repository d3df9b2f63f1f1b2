-- ===== src/Examples/Attachments.antt =====
-- The theorems on k8sclient/k8sclient.go, at a pod with two networks that ask for a device.
use multus_ext_cni.Prelude.{
  ℕ, zero, suc, ◌+◌, ◌≡◌, ◌≢◌, refl, ap, ◌∙◌, subst, Bool, true, false, List, [], ◌∷◌, ◌++◌, map,
  Option, none, some, if◌then◌else◌, Text, codes, text_eq, is_empty, Result, ok, err,
}
use multus_ext_cni.Conf.Delegates.{NetworkSelectionElement}
use multus_ext_cni.Multus.Delegates.{Delegate}
use multus_ext_cni.Kube.Cluster.{Pod, checkpoint_client, Cluster}
use multus_ext_cni.Kube.Names.{ObjectName, matches_label, parse_pod_network_object_name}
use multus_ext_cni.Kube.Labels.{is_item, IsName}
use multus_ext_cni.Kube.Grammar.{parse_pod_network_object_name-items}
use multus_ext_cni.Kube.Annotation.{element_of, complete, parse_pod_network_annotation}
use multus_ext_cni.Kube.Listing.{parse_pod_network_annotation-names}
use multus_ext_cni.Kube.Sources.{get_cni_config_from_file}
use multus_ext_cni.Kube.Chosen.{IsChosen, get_cni_config_from_file-IsChosen}
use multus_ext_cni.Kube.Attachments.{get_network_delegates}
use multus_ext_cni.Kube.Refinement.{Loads, get_network_delegates-Loads}
use multus_ext_cni.Kube.Status.{
  not_updated, Attempt, done, refused, conflicted, Api, Retry, RetryLaws, Shared,
  set_pod_network_annotation,
}
use multus_ext_cni.Kube.Conflicts.{set_pod_network_annotation-once}
use multus_ext_cni.Examples.Configuration.{decoder, bridge}

abbrev pub pod : Pod
pod = record {
  name = codes "web";
  namespace = codes "team";
  uid = codes "u1";
  annotations = (codes "k8s.v1.cni.cncf.io/networks", codes "gpu, gpu") ∷ [];
}

-- Every definition asks for a device of the resource "gpu"; the pod has two of them.
abbrev pub cluster : Cluster ℕ
cluster = record {
  decoder = decoder;
  get_raw = λ path. some (codes "definition");
  get_pod = λ namespace name. some pod;
  decode_networks = λ t. some [];
  decode_resource = λ t. some (record {
    name = codes "gpu";
    annotations = (codes "k8s.v1.cni.cncf.io/resourceName", codes "gpu") ∷ [];
    config = codes "plugin";
  });
  conf_files = λ dir extensions. some (codes "a.conf" ∷ codes "b.conflist" ∷ []);
  conf_list_from_file = λ file. some (record { name = codes "net"; bytes = codes "list" });
  conf_from_file = λ file.
      some (record { name = codes "other"; type_name = codes "bridge"; bytes = codes "plugin" });
  is_dir = λ t. false;
  resource_client = some (
      checkpoint_client (
        record {
          pod_uid = codes "u1";
          device = record { resource = codes "gpu"; ids = codes "d0" ∷ codes "d1" ∷ [] };
        }
        ∷ []));
}

abbrev net : NetworkSelectionElement
net = record {
  name = codes "gpu";
  namespace = codes "team";
  ip_request = [];
  mac_request = [];
  interface_request = [];
  obsolated_interface_request = [];
}

abbrev dir : Text
dir = codes "/etc/cni"

abbrev delegates : List Delegate
delegates = bridge (codes "printed") false ∷ bridge (codes "printed") false ∷ []

attached : get_network_delegates cluster pod (net ∷ net ∷ []) dir true ≡ ok delegates
unfolding get_network_delegates
attached = refl

get_network_delegates-Loads_example : Loads cluster pod dir true [] (net ∷ net ∷ []) delegates
get_network_delegates-Loads_example =
    get_network_delegates-Loads cluster pod dir true (net ∷ net ∷ []) delegates attached

abbrev first : ObjectName
first = record { namespace = codes "team"; name = codes "net-1"; interface = codes "eth5" }

abbrev second : ObjectName
second = record { namespace = []; name = codes "net"; interface = [] }

first-IsName : IsName first
unfolding matches_label
first-IsName = record { namespace_item = refl; name_label = refl; interface_item = refl }

second-IsName : IsName second
unfolding matches_label
second-IsName = record { namespace_item = refl; name_label = refl; interface_item = refl }

parse_pod_network_annotation-names_example :
    parse_pod_network_annotation cluster (codes "team/net-1@eth5,net") (codes "team")
    ≡ ok (map (λ x. complete (codes "team") (element_of x)) (first ∷ second ∷ []))
parse_pod_network_annotation-names_example =
    parse_pod_network_annotation-names cluster first (second ∷ []) (codes "team")
      (first-IsName, (second-IsName, tt))

read : parse_pod_network_object_name (codes " team /net-1@ eth5") ≡ ok first
unfolding parse_pod_network_object_name multus_ext_cni.Prelude.split
    multus_ext_cni.Prelude.trim_space
read = refl

parse_pod_network_object_name-items_example :
    (is_item (codes "team") ≡ true)
    × (is_item (codes "net-1") ≡ true)
    × (is_item (codes "eth5") ≡ true)
parse_pod_network_object_name-items_example =
    parse_pod_network_object_name-items (codes " team /net-1@ eth5") first read

chosen : get_cni_config_from_file cluster (codes "net") dir ≡ ok (codes "list")
unfolding get_cni_config_from_file
chosen = refl

get_cni_config_from_file-IsChosen_example :
    (files : List Text) × (cluster.conf_files dir
        (codes ".conf" ∷ codes ".json" ∷ codes ".conflist" ∷ [])
      ≡ some files)
    × IsChosen cluster (codes "net") files (codes "list")
get_cni_config_from_file-IsChosen_example =
    get_cni_config_from_file-IsChosen cluster (codes "net") dir (codes "list") chosen

-- The first update meets a conflict; the state counts the updates.
abbrev api : Api ℕ
api = record {
  get_pod = λ namespace name w. (if is_empty name then none else some pod, w);
  update_pod_status = λ p w. ((elim w [ zero ↦ conflicted | suc _ ↦ done ], p), suc w);
}

abbrev once_more {ℓ} : {S : Type ℓ} → (S → Attempt × S) → Attempt × S → Attempt × S
once_more f (conflicted, s) = f s
once_more f (done, s) = (done, s)
once_more f (refused, s) = (refused, s)

abbrev retry : Retry (Shared ℕ)
retry = record { run = λ f s. once_more f (f s) }

retry-laws : RetryLaws retry
retry-laws = record { at_once = stop; again = go_on }
  where
    stop :
        (f : Shared ℕ → Attempt × Shared ℕ) (s : Shared ℕ) (end : Attempt) (s1 : Shared ℕ)
        → f s ≡ (end, s1)
        → end ≢ conflicted
        → once_more f (f s) ≡ (end, s1)
    stop f s done s1 h not = ap (once_more f) h
    stop f s refused s1 h not = ap (once_more f) h
    stop f s conflicted s1 h not = absurd (not refl)

    go_on :
        (f : Shared ℕ → Attempt × Shared ℕ) (s s1 s2 : Shared ℕ) (end : Attempt)
        → f s ≡ (conflicted, s1)
        → f s1 ≡ (end, s2)
        → end ≢ conflicted
        → once_more f (f s) ≡ (end, s2)
    go_on f s s1 s2 end h g not = ap (once_more f) h ∙ g

abbrev status : Text
status = codes "[{}]"

set_pod_network_annotation-once_example :
    set_pod_network_annotation api retry pod status 0 ≡ (err not_updated, 1)
set_pod_network_annotation-once_example =
    set_pod_network_annotation-once api retry pod status 0 retry-laws (λ v. refl)
