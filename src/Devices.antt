-- ===== src/Devices.antt =====
-- The devices of a pod by resource: GetPodResourceMap of checkpoint/checkpoint.go, from the kubelet's
-- checkpoint, and of kubeletclient/kubeletclient.go, from the kubelet's API.
pub mod Gathered
use multus_ext_cni.Prelude.{
  Bool, true, false, ◌&&◌, ◌||◌, List, [], ◌∷◌, ◌++◌, Option, none, some, if◌then◌else◌, Text,
  text_eq, is_empty,
}

-- A resource's name and the identifiers of devices.
pub record Device : Type 0 where
  pub resource : Text
  pub ids : List Text

-- PodDevicesEntry
pub record PodEntry : Type 0 where
  pub pod_uid : Text
  pub device : Device

-- PodResources of the kubelet's API: the devices of each container
pub record PodResources : Type 0 where
  pub name : Text
  pub namespace : Text
  pub containers : List (List Device)

abbrev pub ResourceMap : Type 0
ResourceMap = List (Text × List Text)

unfoldable pub find : Text → ResourceMap → Option (List Text)
find k [] = none
find k ((key, ids) ∷ m) = if text_eq key k then some ids else find k m

-- Appends to the entry of the resource, or makes one.
unfoldable pub add : Device → ResourceMap → ResourceMap
add d [] = (d.resource, d.ids) ∷ []
add d ((key, ids) ∷ m) =
    let rest = add d m in
    if text_eq key d.resource then (key, ids ++ d.ids) ∷ m else (key, ids) ∷ rest

-- The loop over the entries of the checkpoint.
unfoldable pub add_entries : Text → List PodEntry → ResourceMap → ResourceMap
unfolding add
add_entries uid [] m = m
add_entries uid (e ∷ es) m =
    add_entries uid es (if text_eq e.pod_uid uid then add e.device m else m)

-- (*checkpoint).GetPodResourceMap; `none` is its error.
unfoldable pub checkpoint_map : Text → List PodEntry → Option ResourceMap
unfolding add_entries
checkpoint_map uid entries = if is_empty uid then none else some (add_entries uid entries [])

-- The loops over the devices of a container, over the containers of a pod, and over the pods.
unfoldable pub add_devices : List Device → ResourceMap → ResourceMap
unfolding add
add_devices [] m = m
add_devices (d ∷ ds) m = add_devices ds (add d m)

unfoldable pub add_containers : List (List Device) → ResourceMap → ResourceMap
unfolding add_devices
add_containers [] m = m
add_containers (c ∷ cs) m = add_containers cs (add_devices c m)

unfoldable pub add_pods : Text → Text → List PodResources → ResourceMap → ResourceMap
unfolding add_containers
add_pods name ns [] m = m
add_pods name ns (p ∷ ps) m =
    add_pods name ns ps
      (if text_eq p.name name && text_eq p.namespace ns then add_containers p.containers m else m)

-- (*kubeletClient).GetPodResourceMap
unfoldable pub kubelet_map : Text → Text → List PodResources → Option ResourceMap
unfolding add_pods
kubelet_map name ns pods =
    if is_empty name || is_empty ns then none else some (add_pods name ns pods [])
