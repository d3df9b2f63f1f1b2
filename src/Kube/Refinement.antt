-- ===== src/Kube/Refinement.antt =====
-- The devices of a pod, handed out to its networks in order: getKubernetesDelegate and
-- GetNetworkDelegates of k8sclient/k8sclient.go against the list of the earlier requests.
use multus_ext_cni.Prelude.{
  ◌≡◌, refl, sym, ◌∙◌, ap, subst, Bool, false, not, ◌&&◌, List, [], ◌∷◌, Option, none, some, Text,
  text_eq, ok, >>=-eq-ok, ok-injective, arith, Option-cases, Result-cases, inl, inr,
}
use multus_ext_cni.Conf.Delegates.{NetworkSelectionElement, or_fail, or_fail-ok}
use multus_ext_cni.Multus.Delegates.{Delegate}
use multus_ext_cni.Devices.{ResourceMap, find}
use multus_ext_cni.Kube.Cluster.{Pod, NetworkAttachmentDefinition, ResourceClient, Cluster}
use multus_ext_cni.Kube.Attachments.{
  InfoMap, infos, get_pod_resource_map, next_device, wanted_resource, get_resource, ensure_map,
  take_device, load_resource, get_kubernetes_delegate, delegates_from, get_network_delegates,
}
use multus_ext_cni.Kube.Plain.{delegates_from-cons}
use multus_ext_cni.Kube.Handout.{
  device_at, requests, and_wanted, IsAfter, infos-IsAfter, next_device-IsAfter, next_device-IsNext,
}

module _ {P : Type 0} (cluster : Cluster P) (pod : Pod) where
  -- The devices of the pod, as its resource client has them; none where there is no answer.
  abbrev map_or_none : Option ResourceMap → ResourceMap
  map_or_none none = []
  map_or_none (some m) = m

  unfoldable pub pod_devices : ResourceMap
  pod_devices = elim cluster.resource_client [
    | none ↦ []
    | some client ↦ map_or_none (get_pod_resource_map client pod)
  ]

  abbrev IsCurrent : List Text → Option InfoMap → Type 0
  IsCurrent earlier none = earlier ≡ []
  IsCurrent earlier (some m) = IsAfter pod_devices earlier m

  -- The device of a definition, after the earlier requests
  abbrev pub expected : List Text → Option Text → Text
  expected earlier none = []
  expected earlier (some k) = device_at (requests k earlier) (find k pod_devices)

  pod_devices-known :
      {client : ResourceClient} {devices : ResourceMap}
      → cluster.resource_client ≡ some client
      → get_pod_resource_map client pod ≡ some devices
      → pod_devices ≡ devices
  unfolding pod_devices
  pod_devices-known {client} {devices} there answered =
      ap (λ c. elim c [ none ↦ [] | some client ↦ map_or_none (get_pod_resource_map client pod) ])
        there
      ∙ ap map_or_none answered

  ensure_map-IsAfter :
      (earlier : List Text) (o : Option InfoMap) {m : InfoMap}
      → IsCurrent earlier o
      → ensure_map cluster pod o ≡ ok m
      → IsAfter pod_devices earlier m
  unfolding ensure_map
  ensure_map-IsAfter earlier (some m) current h =
      subst (IsAfter pod_devices earlier) (ok-injective h) current
  ensure_map-IsAfter earlier none {m} current h =
      let (client, there, h1) = >>=-eq-ok (or_fail _ cluster.resource_client) _ h in
      let (devices, answered, h2) = >>=-eq-ok (or_fail _ (get_pod_resource_map client pod)) _ h1 in
      let known = pod_devices-known (or_fail-ok _ _ there) (or_fail-ok _ _ answered) in
      subst (IsAfter pod_devices earlier) (ok-injective h2) (
        subst (λ e. IsAfter pod_devices e (infos devices)) (sym current)
          (subst (λ all. IsAfter all [] (infos devices)) (sym known) (infos-IsAfter devices)))

  -- A device is taken where the definition asks for a resource.
  take_device-wanted :
      (resource : NetworkAttachmentDefinition) (k : Text) (o : Option InfoMap)
      {taken : Text × Option InfoMap}
      → wanted_resource resource pod ≡ some k
      → take_device cluster resource pod o ≡ ok taken
      → (m : InfoMap) × (ensure_map cluster pod o ≡ ok m)
        × (((next_device k m).0, some (next_device k m).1) ≡ taken)
  unfolding take_device
  take_device-wanted resource k o asks h = elim (Result-cases (ensure_map cluster pod o)) [
    | inr (e, failed) ↦ ground arith
    | inl (m, made) ↦ (m, made, ground arith)
  ]

  take_device-unwanted :
      (resource : NetworkAttachmentDefinition) (o : Option InfoMap) {taken : Text × Option InfoMap}
      → wanted_resource resource pod ≡ none
      → take_device cluster resource pod o ≡ ok taken
      → ([], o) ≡ taken
  unfolding take_device
  take_device-unwanted resource o asks h = ground arith

  abbrev IsTaken : List Text → Text × Option InfoMap → Option Text → Type 0
  IsTaken earlier taken w =
      (taken.0 ≡ expected earlier w) × IsCurrent (and_wanted w earlier) taken.1

  take_device-expected :
      (resource : NetworkAttachmentDefinition) (earlier : List Text) (o : Option InfoMap)
      {taken : Text × Option InfoMap}
      → IsCurrent earlier o
      → take_device cluster resource pod o ≡ ok taken
      → IsTaken earlier taken (wanted_resource resource pod)
  take_device-expected resource earlier o {taken} current h =
      elim (Option-cases (wanted_resource resource pod)) [
        | inl unwanted ↦ subst (IsTaken earlier taken) (sym unwanted) (
            subst (λ t. IsTaken earlier t none) (take_device-unwanted resource o unwanted h)
              (refl, current))
        | inr (k, asks) ↦
            let (m, made, is) = take_device-wanted resource k o asks h in
            let after = ensure_map-IsAfter earlier o current made in
            subst (IsTaken earlier taken) (sym asks) (
              subst (λ t. IsTaken earlier t (some k)) is
                (
                  next_device-IsNext pod_devices earlier m k after,
                  next_device-IsAfter pod_devices earlier m k after,
                ))
      ]

module _ {P : Type 0} (cluster : Cluster P) (pod : Pod) (conf_dir : Text) where
  -- A network is loaded from its definition, with the device that comes next for the resource of the
  -- definition after the earlier requests.
  abbrev pub IsLoaded :
      List Text → NetworkSelectionElement → NetworkAttachmentDefinition → Delegate → Type 0
  IsLoaded earlier net resource d =
      (get_resource cluster net.namespace net.name ≡ ok resource)
      × (load_resource cluster resource (some net) conf_dir
            (expected cluster pod earlier (wanted_resource resource pod))
          ≡ ok d)

  -- The specification of the loop: each network is of an allowed namespace, and is loaded.
  abbrev pub Loads : Bool → List Text → List NetworkSelectionElement → List Delegate → Type 0
  Loads isolated earlier [] [] = Unit
  Loads isolated earlier (net ∷ nets) (d ∷ ds) =
      ((isolated && not (text_eq pod.namespace net.namespace)) ≡ false)
      × ((resource : NetworkAttachmentDefinition) × IsLoaded earlier net resource d
          × Loads isolated (and_wanted (wanted_resource resource pod) earlier) nets ds)
  Loads isolated earlier _ _ = ⊥

  get_kubernetes_delegate-IsLoaded :
      (earlier : List Text) (net : NetworkSelectionElement) (o : Option InfoMap)
      {first : Delegate × Option InfoMap}
      → IsCurrent cluster pod earlier o
      → get_kubernetes_delegate cluster net conf_dir pod o ≡ ok first
      → (resource : NetworkAttachmentDefinition) × IsLoaded earlier net resource first.0
        × IsCurrent cluster pod (and_wanted (wanted_resource resource pod) earlier) first.1
  unfolding get_kubernetes_delegate
  get_kubernetes_delegate-IsLoaded earlier net o {first} current h =
      let (resource, read, g1) = >>=-eq-ok (get_resource cluster net.namespace net.name) _ h in
      let (taken, device, g2) = >>=-eq-ok (take_device cluster resource pod o) _ g1 in
      let (d, built, g3) =
        >>=-eq-ok (load_resource cluster resource (some net) conf_dir taken.0) _ g2 in
      let (next', current') = take_device-expected cluster pod resource earlier o current device in
      subst
        (λ f.
          (resource : NetworkAttachmentDefinition) × IsLoaded earlier net resource f.0
          × IsCurrent cluster pod (and_wanted (wanted_resource resource pod) earlier) f.1)
        (ok-injective g3)
        (
          resource,
          (
            read,
            subst (λ id. load_resource cluster resource (some net) conf_dir id ≡ ok d) next' built,
          ),
          current',
        )

  delegates_from-Loads :
      (isolated : Bool) (earlier : List Text) (nets : List NetworkSelectionElement)
      (o : Option InfoMap) {ds : List Delegate}
      → IsCurrent cluster pod earlier o
      → delegates_from cluster pod conf_dir isolated nets o ≡ ok ds
      → Loads isolated earlier nets ds
  unfolding delegates_from
  delegates_from-Loads isolated earlier [] o current h =
      subst (Loads isolated earlier []) (ok-injective h) tt
  delegates_from-Loads isolated earlier (net ∷ nets) o current h =
      let (allowed, h0) = delegates_from-cons cluster pod conf_dir isolated net nets o h in
      let (first, loaded, h1) =
        >>=-eq-ok (get_kubernetes_delegate cluster net conf_dir pod o) _ h0 in
      let (rest, others, h2) =
        >>=-eq-ok (delegates_from cluster pod conf_dir isolated nets first.1) _ h1 in
      let (resource, is, current') =
        get_kubernetes_delegate-IsLoaded earlier net o current loaded in
      let behind =
        delegates_from-Loads isolated (and_wanted (wanted_resource resource pod) earlier) nets
          first.1 current' others in
      subst (Loads isolated earlier (net ∷ nets)) (ok-injective h2)
        (allowed, (resource, is, behind))

  -- Where GetNetworkDelegates succeeds, it has a delegate for each network in order, each network
  -- is in the namespace of the pod if namespaces are isolated, and each delegate is loaded from
  -- the definition of its network with the device that follows from the earlier requests: the
  -- first request for a resource gets the first device of the pod for it, each further request the
  -- next one, and none where there is no further device.
  pub get_network_delegates-Loads :
      (isolated : Bool) (nets : List NetworkSelectionElement) (ds : List Delegate)
      → get_network_delegates cluster pod nets conf_dir isolated ≡ ok ds
      → Loads isolated [] nets ds
  unfolding get_network_delegates
  get_network_delegates-Loads isolated nets ds h = delegates_from-Loads isolated [] nets none refl h
