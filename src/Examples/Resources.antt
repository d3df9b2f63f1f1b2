-- ===== src/Examples/Resources.antt =====
-- The theorems on the devices of a pod, at a pod with devices of two resources.
use multus_ext_cni.Prelude.{◌≡◌, refl, List, [], ◌∷◌, some, Text, codes, text_eq}
use multus_ext_cni.Devices.{
  Device, PodEntry, PodResources, ResourceMap, find, checkpoint_map, kubelet_map,
}
use multus_ext_cni.Devices.Gathered.{gathered, entry_devices, checkpoint_map-gathered}

abbrev device : Text → Text → Device
device resource id = record { resource = resource; ids = id ∷ [] }

abbrev sriov : Text
sriov = codes "sriov"

abbrev entries : List PodEntry
entries =
    record { pod_uid = codes "u1"; device = device sriov (codes "a") }
    ∷ record { pod_uid = codes "u2"; device = device sriov (codes "b") }
    ∷ record { pod_uid = codes "u1"; device = device sriov (codes "c") }
    ∷ []

abbrev pods : List PodResources
pods =
    record {
      name = codes "web";
      namespace = codes "default";
      containers =
          (device sriov (codes "a") ∷ device (codes "gpu") (codes "g") ∷ [])
          ∷ (device sriov (codes "c") ∷ [])
          ∷ [];
    }
    ∷ []

abbrev entry_map : ResourceMap
entry_map = (sriov, codes "a" ∷ codes "c" ∷ []) ∷ []

abbrev pod_map : ResourceMap
pod_map = (sriov, codes "a" ∷ codes "c" ∷ []) ∷ (codes "gpu", codes "g" ∷ []) ∷ []

map-entries : checkpoint_map (codes "u1") entries ≡ some entry_map
unfolding checkpoint_map text_eq
map-entries = refl

map-pods : kubelet_map (codes "web") (codes "default") pods ≡ some pod_map
unfolding kubelet_map text_eq
map-pods = refl

checkpoint_map-gathered_example :
    find sriov entry_map ≡ gathered sriov (entry_devices (codes "u1") entries)
checkpoint_map-gathered_example =
    checkpoint_map-gathered sriov (codes "u1") entries entry_map map-entries
