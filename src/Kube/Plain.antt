-- ===== src/Kube/Plain.antt =====
-- The delegates that k8sclient/k8sclient.go loads are not marked as the master plugin.
use multus_ext_cni.Prelude.{
  ◌≡◌, ap, subst, Bool, false, not, ◌&&◌, List, [], ◌∷◌, Option, none, some, Text, text_eq, Result,
  ok, err, ◌>>=◌, >>=-eq-ok, ok-injective, arith, inl, inr, ◌⊎◌, All,
}
use multus_ext_cni.Conf.Decoder.{ConfError}
use multus_ext_cni.Conf.Delegates.{NetworkSelectionElement, load_delegate_net_conf}
use multus_ext_cni.Conf.Ready.{IsPlain, load_delegate_net_conf-IsPlain}
use multus_ext_cni.Multus.Delegates.{Delegate}
use multus_ext_cni.Kube.Cluster.{KubeError, lift_conf, Pod, NetworkAttachmentDefinition, Cluster}
use multus_ext_cni.Kube.Sources.{cni_config_from_network_resource, get_cni_config_from_file}
use multus_ext_cni.Kube.Attachments.{
  InfoMap, load_bytes, load_resource, get_resource, take_device, get_kubernetes_delegate,
  delegates_from,
}
use multus_ext_cni.Kube.Defaults.{
  get_default_net_delegate_crd, load_conf_file, get_directory_delegate, get_net_delegate,
  get_net_delegates,
}

lift_conf-ok : {A : Type 0} (r : Result ConfError A) {a : A} → lift_conf r ≡ ok a → r ≡ ok a
lift_conf-ok (ok b) h = ap ok (ok-injective h)
lift_conf-ok (err e) h = cc

module _ {P : Type 0} (cluster : Cluster P) where
  pub load_bytes-IsPlain :
      (net : Option NetworkSelectionElement) (id bytes : Text) {d : Delegate}
      → load_bytes cluster net id bytes ≡ ok d
      → IsPlain d
  load_bytes-IsPlain net id bytes h =
      load_delegate_net_conf-IsPlain cluster.decoder bytes net id
        (lift_conf-ok (load_delegate_net_conf cluster.decoder bytes net id) h)

  pub load_resource-IsPlain :
      (resource : NetworkAttachmentDefinition) (net : Option NetworkSelectionElement)
      (conf_dir id : Text) {d : Delegate}
      → load_resource cluster resource net conf_dir id ≡ ok d
      → IsPlain d
  unfolding load_resource
  load_resource-IsPlain resource net conf_dir id h =
      let (bytes, found, h1) =
        >>=-eq-ok (cni_config_from_network_resource cluster resource conf_dir)
          (load_bytes cluster net id) h in
      load_bytes-IsPlain net id bytes h1

  pub get_kubernetes_delegate-IsPlain :
      (net : NetworkSelectionElement) (conf_dir : Text) (pod : Pod) (m : Option InfoMap)
      {d : Delegate × Option InfoMap}
      → get_kubernetes_delegate cluster net conf_dir pod m ≡ ok d
      → IsPlain d.0
  unfolding get_kubernetes_delegate
  get_kubernetes_delegate-IsPlain net conf_dir pod m h =
      let (resource, found, h1) = >>=-eq-ok (get_resource cluster net.namespace net.name) _ h in
      let (taken, device, h2) = >>=-eq-ok (take_device cluster resource pod m) _ h1 in
      let (d, loaded, h3) =
        >>=-eq-ok (load_resource cluster resource (some net) conf_dir taken.0) _ h2 in
      subst (λ r. IsPlain r.0) (ok-injective h3)
        (load_resource-IsPlain resource (some net) conf_dir taken.0 loaded)

  -- A network of an allowed namespace is loaded, and then the others are.
  pub delegates_from-cons :
      (pod : Pod) (conf_dir : Text) (isolated : Bool) (net : NetworkSelectionElement)
      (nets : List NetworkSelectionElement) (m : Option InfoMap) {ds : List Delegate}
      → delegates_from cluster pod conf_dir isolated (net ∷ nets) m ≡ ok ds
      → ((isolated && not (text_eq pod.namespace net.namespace)) ≡ false)
        × ((get_kubernetes_delegate cluster net conf_dir pod m >>= λ first.
              delegates_from cluster pod conf_dir isolated nets first.1 >>= λ rest.
              ok (first.0 ∷ rest))
            ≡ ok ds)
  unfolding delegates_from
  delegates_from-cons pod conf_dir isolated net nets m h = ground arith

  pub delegates_from-IsPlain :
      (pod : Pod) (conf_dir : Text) (isolated : Bool) (nets : List NetworkSelectionElement)
      (m : Option InfoMap) {ds : List Delegate}
      → delegates_from cluster pod conf_dir isolated nets m ≡ ok ds
      → All IsPlain ds
  unfolding delegates_from
  delegates_from-IsPlain pod conf_dir isolated [] m h = subst (All IsPlain) (ok-injective h) tt
  delegates_from-IsPlain pod conf_dir isolated (net ∷ nets) m h =
      let (allowed, h0) = delegates_from-cons pod conf_dir isolated net nets m h in
      let (first, loaded, h1) =
        >>=-eq-ok (get_kubernetes_delegate cluster net conf_dir pod m) _ h0 in
      let (rest, others, h2) =
        >>=-eq-ok (delegates_from cluster pod conf_dir isolated nets first.1) _ h1 in
      subst (All IsPlain) (ok-injective h2) (
        get_kubernetes_delegate-IsPlain net conf_dir pod m loaded,
        delegates_from-IsPlain pod conf_dir isolated nets first.1 others,
      )

  pub load_conf_file-IsPlain :
      (found : Result KubeError Text) {d : Delegate}
      → (found >>= load_conf_file cluster) ≡ ok d
      → IsPlain d
  unfolding load_conf_file
  load_conf_file-IsPlain (err e) h = cc
  load_conf_file-IsPlain (ok bytes) h = load_bytes-IsPlain none [] bytes h

  pub get_directory_delegate-IsPlain :
      (name : Text) {d : Delegate} → get_directory_delegate cluster name ≡ ok d → IsPlain d
  unfolding get_directory_delegate
  get_directory_delegate-IsPlain name {d} h =
      load_conf_file-IsPlain (get_cni_config_from_file cluster [] name) {d = d} (ground arith)

  -- The delegate of the definition of that name, or of a file.
  get_net_delegate-found :
      (name conf_dir namespace : Text) {d : Delegate}
      → get_net_delegate cluster name conf_dir namespace ≡ ok d
      → (get_default_net_delegate_crd cluster name conf_dir namespace ≡ ok d)
        ⊎ ((get_cni_config_from_file cluster name conf_dir >>= load_conf_file cluster) ≡ ok d)
        ⊎ (get_directory_delegate cluster name ≡ ok d)
  unfolding get_net_delegate
  get_net_delegate-found name conf_dir namespace h = ground arith

  pub get_net_delegate-IsPlain :
      (name conf_dir namespace : Text) {d : Delegate}
      → get_net_delegate cluster name conf_dir namespace ≡ ok d
      → IsPlain d
  unfolding get_default_net_delegate_crd
  get_net_delegate-IsPlain name conf_dir namespace h =
      elim (get_net_delegate-found name conf_dir namespace h) [
        | inl crd ↦
            let (resource, found, loaded) = >>=-eq-ok (get_resource cluster namespace name) _ crd in
            load_resource-IsPlain resource none conf_dir [] loaded
        | inr (inl file) ↦
            load_conf_file-IsPlain (get_cni_config_from_file cluster name conf_dir) file
        | inr (inr directory) ↦ get_directory_delegate-IsPlain name directory
      ]

  pub get_net_delegates-IsPlain :
      (names : List Text) (conf_dir namespace : Text) {ds : List Delegate}
      → get_net_delegates cluster names conf_dir namespace ≡ ok ds
      → All IsPlain ds
  unfolding get_net_delegates
  get_net_delegates-IsPlain [] conf_dir namespace h = subst (All IsPlain) (ok-injective h) tt
  get_net_delegates-IsPlain (n ∷ ns) conf_dir namespace h =
      let (d, first, h1) = >>=-eq-ok (get_net_delegate cluster n conf_dir namespace) _ h in
      let (rest, others, h2) = >>=-eq-ok (get_net_delegates cluster ns conf_dir namespace) _ h1 in
      subst (All IsPlain) (ok-injective h2) (
        get_net_delegate-IsPlain n conf_dir namespace first,
        get_net_delegates-IsPlain ns conf_dir namespace others,
      )
