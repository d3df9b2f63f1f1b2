-- ===== src/Devices/Gathered.antt =====
-- The maps of GetPodResourceMap (checkpoint/checkpoint.go, kubeletclient/kubeletclient.go) against the
-- list of the devices of the pod.
use multus_ext_cni.Prelude.{
  ◌&&◌, ◌||◌, ◌≡◌, refl, sym, ◌∙◌, ap, List, [], ◌∷◌, ◌++◌, append_assoc, Option, none, some,
  if◌then◌else◌, Text, text_eq, text_eq_iff, is_empty, arith, Bool-cases, inl, inr,
}
use multus_ext_cni.Devices.{
  Device, PodEntry, PodResources, ResourceMap, find, add, add_entries, checkpoint_map, add_devices,
  add_containers, add_pods, kubelet_map,
}

-- Two parts of a result, each of which may be missing.
abbrev pub join : Option (List Text) → Option (List Text) → Option (List Text)
join none b = b
join (some a) none = some a
join (some a) (some b) = some (a ++ b)

-- The identifiers of the devices of a resource, in order; `none` where there is no such device.
unfoldable pub gathered : Text → List Device → Option (List Text)
gathered k [] = none
gathered k (d ∷ ds) =
    let rest = gathered k ds in if text_eq d.resource k then join (some d.ids) rest else rest

-- The devices of a pod.
abbrev pub entry_devices : Text → List PodEntry → List Device
entry_devices uid [] = []
entry_devices uid (e ∷ es) =
    let rest = entry_devices uid es in if text_eq e.pod_uid uid then e.device ∷ rest else rest

abbrev pub container_devices : List (List Device) → List Device
container_devices [] = []
container_devices (c ∷ cs) = c ++ container_devices cs

abbrev pub pod_devices : Text → Text → List PodResources → List Device
pod_devices name ns [] = []
pod_devices name ns (p ∷ ps) =
    let rest = pod_devices name ns ps in
    if text_eq p.name name && text_eq p.namespace ns
    then container_devices p.containers ++ rest
    else rest

join_assoc : (a b c : Option (List Text)) → join (join a b) c ≡ join a (join b c)
join_assoc none b c = refl
join_assoc (some a) none c = refl
join_assoc (some a) (some b) none = refl
join_assoc (some a) (some b) (some c) = ap some (append_assoc a b c)

join-none : (a : Option (List Text)) → join a none ≡ a
join-none none = refl
join-none (some a) = refl

gathered-append :
    (k : Text) (ds es : List Device) → gathered k (ds ++ es) ≡ join (gathered k ds) (gathered k es)
unfolding gathered
gathered-append k [] es = refl
gathered-append k (d ∷ ds) es = elim (Bool-cases (text_eq d.resource k)) [
  | inl same ↦ ground (
    arith,
    same,
    gathered-append k ds es,
    join_assoc (some d.ids) (gathered k ds) (gathered k es),
  )
  | inr other ↦ ground (arith, other, gathered-append k ds es)
]

-- A device in the map.
find-add :
    (k : Text) (d : Device) (m : ResourceMap)
    → find k (add d m) ≡ join (find k m) (gathered k (d ∷ []))
unfolding find add gathered
find-add k d [] = ground arith
find-add k d ((key, ids) ∷ m) =
    ground (
      arith,
      find-add k d m,
      text_eq_iff key k,
      text_eq_iff key d.resource,
      text_eq_iff d.resource k,
    )

find-add_devices :
    (k : Text) (ds : List Device) (m : ResourceMap)
    → find k (add_devices ds m) ≡ join (find k m) (gathered k ds)
unfolding add_devices gathered
find-add_devices k [] m = sym (join-none (find k m))
find-add_devices k (d ∷ ds) m =
    find-add_devices k ds (add d m)
    ∙ ap (λ x. join x (gathered k ds)) (find-add k d m)
    ∙ join_assoc (find k m) (gathered k (d ∷ [])) (gathered k ds)
    ∙ sym (ap (join (find k m)) (gathered-append k (d ∷ []) ds))

find-nil : (k : Text) (b : Option (List Text)) → join (find k []) b ≡ b
unfolding find
find-nil k b = refl

find-add_containers :
    (k : Text) (cs : List (List Device)) (m : ResourceMap)
    → find k (add_containers cs m) ≡ join (find k m) (gathered k (container_devices cs))
unfolding add_containers gathered
find-add_containers k [] m = sym (join-none (find k m))
find-add_containers k (c ∷ cs) m =
    find-add_containers k cs (add_devices c m)
    ∙ ap (λ x. join x (gathered k (container_devices cs))) (find-add_devices k c m)
    ∙ join_assoc (find k m) (gathered k c) (gathered k (container_devices cs))
    ∙ sym (ap (join (find k m)) (gathered-append k c (container_devices cs)))

find-add_pods :
    (k name ns : Text) (ps : List PodResources) (m : ResourceMap)
    → find k (add_pods name ns ps m) ≡ join (find k m) (gathered k (pod_devices name ns ps))
unfolding add_pods gathered
find-add_pods k name ns [] m = sym (join-none (find k m))
find-add_pods k name ns (p ∷ ps) m =
    elim (Bool-cases (text_eq p.name name && text_eq p.namespace ns)) [
      | inl own ↦ rw own (
          find-add_pods k name ns ps (add_containers p.containers m)
          ∙ ap (λ x. join x (gathered k (pod_devices name ns ps)))
              (find-add_containers k p.containers m)
          ∙ join_assoc (find k m) (gathered k (container_devices p.containers))
              (gathered k (pod_devices name ns ps))
          ∙ sym (
              ap (join (find k m))
                (gathered-append k (container_devices p.containers) (pod_devices name ns ps))))
      | inr other ↦ rw other (find-add_pods k name ns ps m)
    ]

find-add_entries :
    (k uid : Text) (es : List PodEntry) (m : ResourceMap)
    → find k (add_entries uid es m) ≡ join (find k m) (gathered k (entry_devices uid es))
unfolding add_entries gathered
find-add_entries k uid [] m = sym (join-none (find k m))
find-add_entries k uid (e ∷ es) m = elim (Bool-cases (text_eq e.pod_uid uid)) [
  | inl own ↦ rw own (
      find-add_entries k uid es (add e.device m)
      ∙ ap (λ x. join x (gathered k (entry_devices uid es))) (find-add k e.device m)
      ∙ join_assoc (find k m) (gathered k (e.device ∷ [])) (gathered k (entry_devices uid es))
      ∙ sym (ap (join (find k m)) (gathered-append k (e.device ∷ []) (entry_devices uid es))))
  | inr other ↦ rw other (find-add_entries k uid es m)
]

-- Where GetPodResourceMap of the checkpoint does not fail, its map has for each resource the
-- identifiers of all devices of that resource in the entries of the pod, in their order, and no
-- entry for a resource of which the pod has no device.
pub checkpoint_map-gathered :
    (k uid : Text) (es : List PodEntry) (m : ResourceMap)
    → checkpoint_map uid es ≡ some m
    → find k m ≡ gathered k (entry_devices uid es)
unfolding checkpoint_map
checkpoint_map-gathered k uid es m done = elim (Bool-cases (is_empty uid)) [
  | inl empty ↦ absurd (ground arith)
  | inr given ↦
      let e : m ≡ add_entries uid es [] = ground arith in
      ap (find k) e ∙ find-add_entries k uid es [] ∙ find-nil k (gathered k (entry_devices uid es))
]

-- Where GetPodResourceMap of the kubelet client does not fail, its map has for each resource the
-- identifiers of all devices of that resource in the containers of the pods of that name and
-- namespace, in their order, and no entry for a resource of which they have no device.
kubelet_map-gathered :
    (k name ns : Text) (ps : List PodResources) (m : ResourceMap)
    → kubelet_map name ns ps ≡ some m
    → find k m ≡ gathered k (pod_devices name ns ps)
unfolding kubelet_map
kubelet_map-gathered k name ns ps m done = elim (Bool-cases (is_empty name || is_empty ns)) [
  | inl empty ↦ absurd (ground arith)
  | inr given ↦
      let e : m ≡ add_pods name ns ps [] = ground arith in
      ap (find k) e
      ∙ find-add_pods k name ns ps []
      ∙ find-nil k (gathered k (pod_devices name ns ps))
]
