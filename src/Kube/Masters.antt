-- ===== src/Kube/Masters.antt =====
-- Which delegates k8sclient/k8sclient.go makes the master plugin.
use multus_ext_cni.Prelude.{
  ◌≡◌, refl, sym, ap, ◌∙◌, subst, true, List, [], ◌∷◌, ◌++◌, Option, none, some, if◌then◌else◌,
  Text, ok, ◌>>=◌, >>=-eq-ok, ok-injective, arith, inl, inr, ◌⊎◌, All, All-append, Result-cases,
  Option-cases,
}
use multus_ext_cni.Conf.Decoder.{NetConf}
use multus_ext_cni.Conf.Delegates.{NetworkSelectionElement}
use multus_ext_cni.Conf.Loading.{K8sArgs, as_master, add_delegates, check_system_namespaces}
use multus_ext_cni.Conf.Ready.{IsPlain, IsMastered}
use multus_ext_cni.Multus.Delegates.{Delegate}
use multus_ext_cni.Kube.Cluster.{Pod, Cluster}
use multus_ext_cni.Kube.Annotation.{get_pod_network}
use multus_ext_cni.Kube.Attachments.{get_network_delegates}
use multus_ext_cni.Kube.Plain.{delegates_from-IsPlain, get_net_delegates-IsPlain}
use multus_ext_cni.Kube.Defaults.{
  Access, get_k8s_client, overwrite_first, get_net_delegate, get_net_delegates,
  try_load_k8s_pod_default_network, get_default_networks, load_annotated, load_for_pod,
  try_load_pod_delegates,
}

pub append-IsMastered :
    (ds es : List Delegate) → IsMastered ds → All IsPlain es → IsMastered (ds ++ es)
append-IsMastered [] es m plain = absurd m
append-IsMastered (d ∷ ds) es m plain = (m.0, All-append IsPlain ds es m.1 plain)

module _ {P : Type 0} (cluster : Cluster P) where
  -- The default network of the pod's annotation is a master.
  try_load_k8s_pod_default_network-master :
      (pod : Pod) (conf : NetConf P) {d : Delegate}
      → try_load_k8s_pod_default_network cluster pod conf ≡ ok (some d)
      → d.master_plugin ≡ true
  unfolding try_load_k8s_pod_default_network
  try_load_k8s_pod_default_network-master pod conf h = ground arith

  -- The delegates stay as they are, or those of the pod's networks are appended.
  load_annotated-adds :
      (pod : Pod) (conf : NetConf P)
      → let after = (load_annotated cluster pod conf).1 in
        (after.delegates ≡ conf.delegates)
        ⊎ ((nets : List NetworkSelectionElement) × (ds : List Delegate) × (get_network_delegates
                cluster pod nets conf.conf_dir conf.namespace_isolation
              ≡ ok ds)
            × (after.delegates ≡ conf.delegates ++ ds))
  unfolding load_annotated add_delegates
  load_annotated-adds pod conf = elim (Result-cases (get_pod_network cluster pod)) [
    | inr (e, failed) ↦ inl (ground arith)
    | inl (nets, found) ↦
        elim (Result-cases
          (get_network_delegates cluster pod nets conf.conf_dir conf.namespace_isolation)) [
            | inr (e, failed) ↦ inl (ground arith)
            | inl (ds, loaded) ↦ inr (nets, ds, loaded, ground arith)
          ]
  ]

  load_annotated-IsMastered :
      (pod : Pod) (conf : NetConf P)
      → IsMastered conf.delegates
      → IsMastered (load_annotated cluster pod conf).1.delegates
  unfolding get_network_delegates
  load_annotated-IsMastered pod conf m = elim (load_annotated-adds pod conf) [
    | inl same ↦ subst IsMastered (sym same) m
    | inr (nets, ds, loaded, added) ↦ subst IsMastered (sym added) (
        append-IsMastered conf.delegates ds m (
          delegates_from-IsPlain cluster pod conf.conf_dir conf.namespace_isolation nets none
            loaded))
  ]

  overwrite_first-IsMastered :
      (o : Option Delegate) (ds : List Delegate) {new : List Delegate}
      → ((d : Delegate) → o ≡ some d → d.master_plugin ≡ true)
      → IsMastered ds
      → overwrite_first o ds ≡ ok new
      → IsMastered new
  overwrite_first-IsMastered none ds master m h = subst IsMastered (ok-injective h) m
  overwrite_first-IsMastered (some d) [] master m h = cc
  overwrite_first-IsMastered (some d) (e ∷ ds) master m h =
      subst IsMastered (ok-injective h) (master d refl, m.1)

  -- The delegates stay as they are, or the first one may be replaced before the pod's are appended.
  load_for_pod-replaces :
      (pod : Pod) (conf : NetConf P)
      → let after = (load_for_pod cluster pod conf).1 in
        (after.delegates ≡ conf.delegates)
        ⊎ ((ds : List Delegate) × ((try_load_k8s_pod_default_network cluster pod conf >>= λ d.
                overwrite_first d conf.delegates)
              ≡ ok ds)
            × (after.delegates
                ≡ (load_annotated cluster pod (record conf { delegates = ds })).1.delegates))
  unfolding load_for_pod
  load_for_pod-replaces pod conf =
      elim (Result-cases (
        try_load_k8s_pod_default_network cluster pod conf >>= λ d.
        overwrite_first d conf.delegates)) [
          | inr (e, failed) ↦ inl (ground arith)
          | inl (ds, loaded) ↦ inr (ds, loaded, ground arith)
        ]

  load_for_pod-IsMastered :
      (pod : Pod) (conf : NetConf P)
      → IsMastered conf.delegates
      → IsMastered (load_for_pod cluster pod conf).1.delegates
  load_for_pod-IsMastered pod conf m = elim (load_for_pod-replaces pod conf) [
    | inl same ↦ subst IsMastered (sym same) m
    | inr (ds, loaded, after) ↦
        let (o, read, h1) =
          >>=-eq-ok (try_load_k8s_pod_default_network cluster pod conf)
            (λ d. overwrite_first d conf.delegates) loaded in
        let mastered =
          overwrite_first-IsMastered o conf.delegates
            (λ d is. try_load_k8s_pod_default_network-master pod conf (read ∙ ap ok is)) m h1 in
        subst IsMastered (sym after)
          (load_annotated-IsMastered pod (record conf { delegates = ds }) mastered)
  ]

module _ {P : Type 0} (access : Access P) (k8s : K8sArgs) (conf : NetConf P) where
  try_load_pod_delegates-loads :
      let after = (try_load_pod_delegates access k8s conf).1 in
      (after.delegates ≡ conf.delegates)
      ⊎ ((cluster : Cluster P) × (pod : Pod) × (after.delegates
            ≡ (load_for_pod cluster pod conf).1.delegates))
  unfolding try_load_pod_delegates
  try_load_pod_delegates-loads = elim (Result-cases (get_k8s_client access conf.kubeconfig)) [
    | inr (e, failed) ↦ inl (ground arith)
    | inl (none, found) ↦ inl (ground arith)
    | inl (some cluster, found) ↦
        elim (Option-cases (cluster.get_pod k8s.pod_namespace k8s.pod_name)) [
          | inl missing ↦ inl (ground arith)
          | inr (pod, read) ↦ inr (cluster, pod, ground arith)
        ]
  ]

  -- TryLoadPodDelegates keeps the first delegate the only master.
  pub try_load_pod_delegates-IsMastered :
      IsMastered conf.delegates → IsMastered (try_load_pod_delegates access k8s conf).1.delegates
  try_load_pod_delegates-IsMastered m = elim try_load_pod_delegates-loads [
    | inl same ↦ subst IsMastered (sym same) m
    | inr (cluster, pod, after) ↦
        subst IsMastered (sym after) (load_for_pod-IsMastered cluster pod conf m)
  ]

  -- The names of the other default networks: none in a system namespace.
  abbrev other_networks : List Text
  other_networks =
      if check_system_namespaces k8s.pod_namespace conf.system_namespaces
      then []
      else conf.default_networks

  get_default_networks-loads :
      {new : NetConf P}
      → conf.delegates ≡ []
      → get_default_networks access k8s conf ≡ ok new
      → (cluster : Cluster P) × (master : Delegate) × (others : List Delegate) × (get_net_delegates
            cluster other_networks conf.conf_dir conf.multus_namespace
          ≡ ok others)
        × (new.delegates ≡ as_master master ∷ others)
  unfolding get_default_networks add_delegates get_net_delegates
  get_default_networks-loads empty h = elim (Result-cases (get_k8s_client access conf.kubeconfig)) [
    | inr (e, failed) ↦ ground arith
    | inl (none, found) ↦ ground arith
    | inl (some cluster, found) ↦
        elim (Result-cases
          (get_net_delegate cluster conf.cluster_network conf.conf_dir conf.multus_namespace)) [
            | inr (e, failed) ↦ ground arith
            | inl (master, first) ↦
                elim (Result-cases
                  (get_net_delegates cluster other_networks conf.conf_dir conf.multus_namespace)) [
                    | inr (e, failed) ↦ ground arith
                    | inl (others, loaded) ↦ (cluster, master, others, loaded, ground arith)
                  ]
          ]
  ]

  -- GetDefaultNetworks, on no delegates, makes the first delegate the only master.
  pub get_default_networks-IsMastered :
      {new : NetConf P}
      → conf.delegates ≡ []
      → get_default_networks access k8s conf ≡ ok new
      → IsMastered new.delegates
  get_default_networks-IsMastered empty h =
      let (cluster, master, others, loaded, after) = get_default_networks-loads empty h in
      subst IsMastered (sym after) (
        refl,
        get_net_delegates-IsPlain cluster other_networks conf.conf_dir conf.multus_namespace loaded,
      )
