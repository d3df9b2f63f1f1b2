-- ===== src/Kube/Defaults.antt =====
-- The default networks and the delegates of a pod: getNetDelegate, GetDefaultNetworks,
-- tryLoadK8sPodDefaultNetwork, GetK8sClient and TryLoadPodDelegates of k8sclient/k8sclient.go.
use multus_ext_cni.Prelude.{
  ℕ, Bool, true, false, not, List, [], ◌∷◌, Option, none, some, Text, codes, is_empty,
  if◌then◌else◌, length, Result, ok, err, ◌>>=◌,
}
use multus_ext_cni.Conf.Decoder.{NetConf}
use multus_ext_cni.Conf.Delegates.{or_fail}
use multus_ext_cni.Conf.Loading.{
  K8sArgs, add_delegates, as_master, check_system_namespaces, no_entries,
}
use multus_ext_cni.Multus.Delegates.{Delegate}
use multus_ext_cni.Kube.Cluster.{
  KubeError, no_such_network, bad_directory, no_client_or_delegates, many_defaults, no_network,
  panics_here, bad_client, Pod, Cluster,
}
use multus_ext_cni.Kube.Annotation.{
  annotation, or_empty, default_net_annot, ext_env_annot, parse_pod_network_annotation,
  get_pod_network,
}
use multus_ext_cni.Kube.Sources.{get_cni_config_from_file}
use multus_ext_cni.Kube.Attachments.{
  get_resource, load_resource, load_bytes, get_kubernetes_delegate, get_network_delegates,
}

-- GetK8sClient: `none` inside of `ok` is no client. What can be called of it is a Cluster.
pub record Access (P : Type 0) : Type 0 where
  pub given : Option (Cluster P)
  pub from_kubeconfig : Text → Option (Cluster P)
  pub service_env : Bool
  pub in_cluster : Option (Cluster P)

-- What TryLoadPodDelegates answers: how many delegates it has added, whether it has the client's
-- information, and the extra environment.
pub record Answer : Type 0 where
  pub count : ℕ
  pub has_client : Bool
  pub ext_env : Text

abbrev pub answer : ℕ → Bool → Text → Answer
answer count has_client ext_env = record {
  count = count;
  has_client = has_client;
  ext_env = ext_env;
}

-- The first delegate is overwritten: `conf.Delegates[0] = delegate`
abbrev pub overwrite_first : Option Delegate → List Delegate → Result KubeError (List Delegate)
overwrite_first none ds = ok ds
overwrite_first (some d) [] = err panics_here
overwrite_first (some d) (_ ∷ ds) = ok (d ∷ ds)

module _ {P : Type 0} where
  unfoldable pub get_k8s_client : Access P → Text → Result KubeError (Option (Cluster P))
  get_k8s_client access kubeconfig = elim access.given [
    | some cluster ↦ ok (some cluster)
    | none ↦
        if not (is_empty kubeconfig)
        then or_fail bad_client (access.from_kubeconfig kubeconfig) >>= (λ c. ok (some c))
        else if access.service_env
        then or_fail bad_client access.in_cluster >>= (λ c. ok (some c))
        else ok none
  ]

  module _ (cluster : Cluster P) where
    -- getDefaultNetDelegateCRD
    unfoldable pub get_default_net_delegate_crd : Text → Text → Text → Result KubeError Delegate
    unfolding get_resource load_resource
    get_default_net_delegate_crd net conf_dir namespace =
        get_resource cluster namespace net >>= λ resource.
        load_resource cluster resource none conf_dir []

    -- The delegate of a configuration file
    unfoldable pub load_conf_file : Text → Result KubeError Delegate
    load_conf_file bytes = load_bytes cluster none [] bytes

    -- The third option of getNetDelegate: a directory
    unfoldable pub get_directory_delegate : Text → Result KubeError Delegate
    unfolding get_cni_config_from_file load_conf_file
    get_directory_delegate net_name =
        if not (cluster.is_dir net_name)
        then err no_such_network
        else elim (cluster.conf_files net_name (codes ".conf" ∷ codes ".conflist" ∷ [])) [
          | none ↦ err bad_directory
          | some [] ↦ err no_such_network
          | some (_ ∷ _) ↦ get_cni_config_from_file cluster [] net_name >>= load_conf_file
        ]

    -- getNetDelegate
    unfoldable pub get_net_delegate : Text → Text → Text → Result KubeError Delegate
    unfolding get_default_net_delegate_crd get_cni_config_from_file load_conf_file
        get_directory_delegate
    get_net_delegate net_name conf_dir namespace =
        elim (get_default_net_delegate_crd net_name conf_dir namespace) [
          | ok delegate ↦ ok delegate
          | err panics_here ↦ err panics_here
          | err _ ↦ elim (get_cni_config_from_file cluster net_name conf_dir) [
            | ok bytes ↦ load_conf_file bytes
            | err _ ↦ get_directory_delegate net_name
          ]
        ]

    -- The loop of GetDefaultNetworks
    unfoldable pub get_net_delegates : List Text → Text → Text → Result KubeError (List Delegate)
    unfolding get_net_delegate
    get_net_delegates [] conf_dir namespace = ok []
    get_net_delegates (n ∷ ns) conf_dir namespace = do
      delegate ← get_net_delegate n conf_dir namespace
      rest ← get_net_delegates ns conf_dir namespace
      ok (delegate ∷ rest)

    -- tryLoadK8sPodDefaultNetwork; an index beyond an empty list panics.
    unfoldable pub try_load_k8s_pod_default_network :
        Pod → NetConf P → Result KubeError (Option Delegate)
    unfolding annotation parse_pod_network_annotation get_kubernetes_delegate
    try_load_k8s_pod_default_network pod conf =
        elim (annotation default_net_annot pod.annotations) [
          | none ↦ ok none
          | some net_annot ↦
              elim (parse_pod_network_annotation cluster net_annot conf.multus_namespace) [
                | err e ↦ err e
                | ok [] ↦ err panics_here
                | ok (net ∷ []) ↦
                    get_kubernetes_delegate cluster net conf.conf_dir pod none >>= λ loaded.
                    ok (some (as_master loaded.0))
                | ok (_ ∷ _ ∷ _) ↦ err many_defaults
              ]
        ]

  -- GetDefaultNetworks
  unfoldable pub get_default_networks :
      Access P → K8sArgs → NetConf P → Result KubeError (NetConf P)
  unfolding get_k8s_client get_net_delegate get_net_delegates check_system_namespaces add_delegates
  get_default_networks access k8s conf = elim (get_k8s_client access conf.kubeconfig) [
    | err e ↦ err e
    | ok none ↦ if no_entries conf.delegates then err no_client_or_delegates else ok conf
    | ok (some cluster) ↦ do
      master ← get_net_delegate cluster conf.cluster_network conf.conf_dir conf.multus_namespace
      others ←
          if check_system_namespaces k8s.pod_namespace conf.system_namespaces
          then ok []
          else get_net_delegates cluster conf.default_networks conf.conf_dir conf.multus_namespace
      ok (add_delegates (as_master master ∷ others) conf)
  ]

  -- The networks of the pod's annotation; an error in it is dropped.
  unfoldable pub load_annotated : Cluster P → Pod → NetConf P → Result KubeError Answer × NetConf P
  unfolding get_pod_network get_network_delegates annotation add_delegates
  load_annotated cluster pod conf = elim (get_pod_network cluster pod) [
    | err panics_here ↦ (err panics_here, conf)
    | err _ ↦ (ok (answer 0 true []), conf)
    | ok nets ↦
        let ext_env : Text = or_empty (annotation ext_env_annot pod.annotations) in
        elim (get_network_delegates cluster pod nets conf.conf_dir conf.namespace_isolation) [
          | err no_network ↦ (ok (answer 0 true ext_env), conf)
          | err e ↦ (err e, conf)
          | ok ds ↦ (ok (answer (length ds) true ext_env), add_delegates ds conf)
        ]
  ]

  -- TryLoadPodDelegates with the pod at hand
  unfoldable pub load_for_pod : Cluster P → Pod → NetConf P → Result KubeError Answer × NetConf P
  unfolding try_load_k8s_pod_default_network load_annotated
  load_for_pod cluster pod conf =
      elim (try_load_k8s_pod_default_network cluster pod conf >>= λ d.
      overwrite_first d conf.delegates) [
        | err e ↦ (err e, conf)
        | ok ds ↦ load_annotated cluster pod (record conf { delegates = ds })
      ]

  -- TryLoadPodDelegates, next to the configuration that it changes
  unfoldable pub try_load_pod_delegates :
      Access P → K8sArgs → NetConf P → Result KubeError Answer × NetConf P
  unfolding get_k8s_client load_for_pod
  try_load_pod_delegates access k8s conf = elim (get_k8s_client access conf.kubeconfig) [
    | err e ↦ (err e, conf)
    | ok none ↦ (
      if no_entries conf.delegates then err no_client_or_delegates else ok (answer 0 false []),
      conf,
    )
    | ok (some cluster) ↦ elim (cluster.get_pod k8s.pod_namespace k8s.pod_name) [
      | none ↦ (ok (answer 0 false []), conf)
      | some pod ↦ load_for_pod cluster pod conf
    ]
  ]
