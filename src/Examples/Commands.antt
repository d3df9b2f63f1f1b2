-- ===== src/Examples/Commands.antt =====
-- The theorems on whole commands of multus.go: the pod of Attachments, with two delegates of the
-- configuration and two of its annotation.
use multus_ext_cni.Prelude.{
  ℕ, ◌≡◌, refl, false, List, [], ◌∷◌, ◌++◌, map, Option, none, some, Text, codes, Result, ok, err,
}
use multus_ext_cni.Conf.Decoder.{NetConf}
use multus_ext_cni.Conf.Loading.{K8sArgs}
use multus_ext_cni.Conf.Ready.{IsMastered}
use multus_ext_cni.Kube.Defaults.{Access, Answer}
use multus_ext_cni.Multus.Delegates.{Delegate, State}
use multus_ext_cni.Multus.{get_ifname, delegate_add}
use multus_ext_cni.Multus.Command.{
  opened, saved, panics_there, Scratches, load_pod, cmd_add, cmd_del,
}
use multus_ext_cni.Multus.Masters.{cmd_add-master}
use multus_ext_cni.Examples.Configuration.{decoder, decoder-IsFresh}
use multus_ext_cni.Examples.Attachments.{cluster}
use multus_ext_cni.Examples.Pods.{cni, eth0}

abbrev access : Access ℕ
access = record {
  given = some cluster;
  from_kubeconfig = λ t. none;
  service_env = false;
  in_cluster = none;
}

abbrev k8s : K8sArgs
k8s = record {
  pod_name = codes "web";
  pod_namespace = codes "team";
  infra_container_id = codes "c1";
}

abbrev state : Text → ℕ → State ℕ
state ifname calls = record {
  env = record { ifname = ifname; command = codes "ADD"; args = [] };
  world = calls;
}

abbrev stdin : Text
stdin = codes "stdin"

added :
    cmd_add cni decoder access stdin eth0 (some k8s) (state [] 0)
    ≡ some (ok (some 0), state (codes "eth3") 4)
unfolding cmd_add multus_ext_cni.Prelude.has_char multus_ext_cni.Prelude.split
    multus_ext_cni.Prelude.trim_space multus_ext_cni.Ipam.Allocator.itoa
added = refl

cmd_add-master_example :
    (answer : Answer) × (conf : NetConf ℕ) × (d : Delegate) × (ds : List Delegate) × (load_pod
        decoder access stdin
        (some k8s)
      ≡ ok (answer, conf))
    × (conf.delegates ≡ d ∷ ds)
    × IsMastered (d ∷ ds)
    × ((cni_args : Text) × (before : State ℕ) × (r : ℕ) × ((delegate_add cni
            (get_ifname d eth0 0)
            d
            cni_args
            before).0
          ≡ ok r)
        × (some 0 ≡ some r))
cmd_add-master_example =
    cmd_add-master cni decoder access stdin eth0 (some k8s) (state [] 0) (state (codes "eth3") 4)
      (some 0) decoder-IsFresh added

abbrev scratches : Scratches ℕ
scratches = record {
  netns_status = λ w. opened;
  consume = λ dir w. saved (codes "saved");
  remove = λ w. w;
  decode_delegates = λ t ds. some (map some ds ++ (none ∷ []));
  encode_list = λ l. none;
}

-- A null in the scratch file makes cmdDel panic.
panicked :
    cmd_del cni decoder access scratches stdin eth0 (some k8s) (state [] 0)
    ≡ some (err panics_there, state [] 0)
unfolding cmd_del
panicked = refl
