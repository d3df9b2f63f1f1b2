-- ===== src/Vxlan/Always.antt =====
-- Records of interfaces, across any sequence of RecVxlan and CacheToEtcd
-- (multus-vxlan/backend/etcdv3cli/cli.go).
use multus_ext_cni.Prelude.{◌≡◌, ◌≢◌, true, Text, trim}
use multus_ext_cni.Net.NetText.{is_blank}
use multus_ext_cni.Etcd.{EtcdClient}
use multus_ext_cni.Etcd.Laws.{EtcdLaws}
use multus_ext_cni.Vxlan.{Node, rec_vxlan, cache_to_etcd}
use multus_ext_cni.Vxlan.Recorded.{IsRecorded, IsTold, rec_vxlan-keeps, rec_vxlan-IsRecorded}
use multus_ext_cni.Vxlan.Flushed.{cache_to_etcd-keeps}

module _ {W : Type 0} (client : EtcdClient W) where
  -- What the node does between two states: RecVxlan for other interfaces, whether it succeeds or not, and
  -- for this one with this address where it succeeds; and CacheToEtcd, whether it succeeds or not.
  pub data Steps (vxlan src : Text) : Node W → Node W → Type 0 where
    done : (s : Node W) → Steps vxlan src s s
    other :
        (v x : Text) (s t : Node W)
        → v ≢ vxlan
        → Steps vxlan src (rec_vxlan client v x s).1 t
        → Steps vxlan src s t
    again :
        (s t : Node W)
        → (rec_vxlan client vxlan src s).0 ≡ true
        → Steps vxlan src (rec_vxlan client vxlan src s).1 t
        → Steps vxlan src s t
    flushed : (s t : Node W) → Steps vxlan src (cache_to_etcd client s).1 t → Steps vxlan src s t

  module _ (laws : EtcdLaws client) (vxlan src : Text) (plain : trim is_blank src ≡ src)
      (told : IsTold client laws vxlan src) where
    steps-keep :
        (s t : Node W)
        → Steps vxlan src s t
        → IsRecorded client laws vxlan src s
        → IsRecorded client laws vxlan src t
    steps-keep s t (done _) known = known
    steps-keep s t (other v x _ _ apart rest) known =
        steps-keep _ t rest (rec_vxlan-keeps client laws v x vxlan src s apart known)
    steps-keep s t (again _ _ success rest) known =
        steps-keep _ t rest (rec_vxlan-IsRecorded client laws vxlan src s plain told success)
    steps-keep s t (flushed _ _ rest) known =
        steps-keep _ t rest (cache_to_etcd-keeps client laws vxlan src s known)

    -- No other client of etcd deletes keys, and the root and the name that New reads stay the
    -- same; the address has no blank at either end, and no error on the key of the record has the
    -- word `exists` in its text but that of a key that exists. Then, from a RecVxlan that succeeds
    -- on, the record of the interface and its address is a key of etcd or a file of the cache,
    -- through any sequence of CacheToEtcd and of RecVxlan for other interfaces, whichever of their
    -- calls fail, and of RecVxlan for this one with this address that succeed.
    pub rec_vxlan-stays :
        (s t : Node W)
        → (rec_vxlan client vxlan src s).0 ≡ true
        → Steps vxlan src (rec_vxlan client vxlan src s).1 t
        → IsRecorded client laws vxlan src t
    rec_vxlan-stays s t succeeded later =
        steps-keep _ t later (rec_vxlan-IsRecorded client laws vxlan src s plain told succeeded)
