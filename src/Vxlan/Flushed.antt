-- ===== src/Vxlan/Flushed.antt =====
-- CacheToEtcd (multus-vxlan/backend/etcdv3cli/cli.go) keeps the records.
use multus_ext_cni.Prelude.{
  ◌≡◌, ◌⊎◌, inl, inr, refl, sym, ◌∙◌, ap, subst, Bool, true, false, List, [], ◌∷◌, Option, none,
  some, some-injective, Text, codes, text_eq, text_eq_iff, trim, Result, ok, err, arith, Bool-cases,
  Option-cases, if◌then◌else◌,
}
use multus_ext_cni.Net.NetText.{is_blank}
use multus_ext_cni.Ipam.Disk.{fails, later}
use multus_ext_cni.Ipam.Disk.Files.{File, lookup, remove_file, lookup-remove}
use multus_ext_cni.Etcd.{EtcdClient, EtcdError, trans_put_key}
use multus_ext_cni.Etcd.Laws.{EtcdLaws, trans_put_key-keeps, trans_put_key-there}
use multus_ext_cni.Vxlan.{
  Cache, Node, vxlan_key, try_call, settle, flush_file, flush_files, unless_failed, flush_all,
  flush_cache, cache_to_etcd,
}
use multus_ext_cni.Vxlan.Recorded.{IsCached, IsRecorded, moved}

same_files : (c : Cache) → (try_call (λ x. x) c).1.files ≡ c.files
same_files c = elim (Bool-cases (fails c.faults)) [
  | inl bad ↦ rw bad refl
  | inr fine ↦ rw fine refl
]

is_read :
    (fine : Bool) (o : Option Text) {content : Text}
    → (if fine then o else none) ≡ some content
    → o ≡ some content
is_read true o h = h
is_read false o h = absurd (cc h)

removed_files :
    (name : Text) (c : Cache)
    → ((try_call (λ x. record x { files = remove_file name x.files }) c).1.files
        ≡ remove_file name c.files)
      ⊎ ((try_call (λ x. record x { files = remove_file name x.files }) c).1.files ≡ c.files)
removed_files name c = elim (Bool-cases (fails c.faults)) [
  | inl bad ↦ inr (rw bad refl)
  | inr fine ↦ inl (rw fine refl)
]

module _ {W : Type 0} (client : EtcdClient W) (laws : EtcdLaws client) where
  open laws use {Holds, root, connect_root, connect_keeps}

  -- A file is removed after its key has been put.
  settle-keeps :
      (name content vxlan src : Text) (r : Result EtcdError (Unit {0}) × W) (c : Cache)
      → lookup name c.files ≡ some content
      → (r.0 ≡ ok tt → Holds (vxlan_key root name (trim is_blank content)) r.1)
      → IsRecorded client laws vxlan src (record { etcd = r.1; cache = c })
      → IsRecorded client laws vxlan src (settle client name r c)
  unfolding settle
  settle-keeps name content vxlan src (err _, w) c read put known = known
  settle-keeps name content vxlan src (ok _, w) c read put (inl here) = inl here
  settle-keeps name content vxlan src (ok _, w) c read put (inr (content', there, same)) =
      elim (Bool-cases (text_eq name vxlan)) [
        | inl one ↦
            let names = (text_eq_iff name vxlan).0 one in
            let contents : content ≡ content' =
              some-injective (sym read ∙ ap (λ n. lookup n c.files) names ∙ there) in
            inl (
              subst (λ n. Holds (vxlan_key root n src) w) names
                (subst (λ x. Holds (vxlan_key root name x) w) (ap (trim is_blank) contents ∙ same)
                  (put refl)))
        | inr apart ↦ inr (elim (removed_files name c) [
          | inr as_before ↦ (content', ap (lookup vxlan) as_before ∙ there, same)
          | inl removed ↦ (
            content',
            ap (lookup vxlan) removed ∙ ground (arith, lookup-remove name vxlan c.files),
            same,
          )
        ])
      ]

  flush_file-keeps :
      (id name vxlan src : Text) (s : Node W)
      → IsRecorded client laws vxlan src s
      → IsRecorded client laws vxlan src (flush_file client root id name s)
  unfolding flush_file
  flush_file-keeps id name vxlan src s known =
      let c1 = (try_call (λ x. x) s.cache).1 in
      let files = same_files s.cache in
      let read = if (try_call (λ x. x) s.cache).0 then lookup name s.cache.files else none in
      let known1 : IsRecorded client laws vxlan src (record { etcd = s.etcd; cache = c1 }) =
        elim known [
          | inl here ↦ inl here
          | inr cached ↦ inr (subst (IsCached vxlan src) (sym files) cached)
        ] in
      elim (Option-cases read) [
        | inl none' ↦ rw (none', flush_file) known1
        | inr (content, found) ↦
            let key = vxlan_key root name (trim is_blank content) in
            let result = trans_put_key client true key id true s.etcd in
            rw (found, flush_file)
              (settle-keeps name content vxlan src result c1
                (ap (lookup name) files ∙ is_read _ _ found)
                (λ done. trans_put_key-there client laws key id s.etcd (inl done))
                (moved client laws vxlan src s.etcd result.1 c1
                  (trans_put_key-keeps client laws key id (vxlan_key root vxlan src) s.etcd)
                  known1))
      ]

  flush_files-keeps :
      (id vxlan src : Text) (fs : List File) (s : Node W)
      → IsRecorded client laws vxlan src s
      → IsRecorded client laws vxlan src (flush_files client root id fs s)
  unfolding flush_files
  flush_files-keeps id vxlan src [] s known = known
  flush_files-keeps id vxlan src (f ∷ fs) s known =
      elim (Bool-cases (text_eq f.name (codes "lock"))) [
        | inl lock ↦ rw (lock, flush_files) (flush_files-keeps id vxlan src fs s known)
        | inr file ↦
            rw (file, flush_files)
              (flush_files-keeps id vxlan src fs (flush_file client root id f.name s)
                (flush_file-keeps id f.name vxlan src s known))
      ]

  unless_failed-keeps :
      (vxlan src : Text) (next : Node W → Bool × Node W)
      → ((s : Node W)
          → IsRecorded client laws vxlan src s
          → IsRecorded client laws vxlan src (next s).1)
      → (s : Node W) → IsRecorded client laws vxlan src s
      → IsRecorded client laws vxlan src (unless_failed client next s).1
  unless_failed-keeps vxlan src next keeps s known =
      let s1 : Node W = record s { cache = record s.cache { faults = later s.cache.faults } } in
      let known1 : IsRecorded client laws vxlan src s1 = elim known [
        | inl here ↦ inl here
        | inr cached ↦ inr cached
      ] in
      elim (Bool-cases (fails s.cache.faults)) [
        | inl bad ↦ rw bad known1
        | inr fine ↦ rw fine (keeps s1 known1)
      ]

  flush_all-keeps :
      (vxlan src : Text) (s : Node W)
      → IsRecorded client laws vxlan src s
      → IsRecorded client laws vxlan src (flush_all client s).1
  unfolding flush_all
  flush_all-keeps vxlan src s known =
      let known1 =
        moved client laws vxlan src s.etcd (client.connect s.etcd).1 s.cache
          (connect_keeps (vxlan_key root vxlan src) s.etcd) known in
      elim (Option-cases (client.connect s.etcd).0) [
        | inl failed ↦ rw (failed, flush_all) known1
        | inr ((r, id), made) ↦
            rw (made, flush_all)
              (subst
                (λ x. IsRecorded client laws vxlan src (
                  flush_files client x id s.cache.files
                    (record s { etcd = (client.connect s.etcd).1 })))
                (sym (connect_root s.etcd r id made))
                (flush_files-keeps id vxlan src s.cache.files
                  (record s { etcd = (client.connect s.etcd).1 }) known1))
      ]

  either :
      (vxlan src : Text) (test : Bool) (x y : Bool × Node W)
      → IsRecorded client laws vxlan src x.1
      → IsRecorded client laws vxlan src y.1
      → IsRecorded client laws vxlan src (if test then x else y).1
  either vxlan src true x y in_x in_y = in_x
  either vxlan src false x y in_x in_y = in_y

  flush_cache-keeps :
      (vxlan src : Text) (s : Node W)
      → IsRecorded client laws vxlan src s
      → IsRecorded client laws vxlan src (flush_cache client s).1
  unfolding flush_cache
  flush_cache-keeps vxlan src s known =
      either vxlan src s.cache.is_there _ (true, s)
        (unless_failed-keeps vxlan src (unless_failed client (flush_all client))
          (unless_failed-keeps vxlan src (flush_all client) (flush_all-keeps vxlan src)) s known)
        known

  -- CacheToEtcd loses no record.
  pub cache_to_etcd-keeps :
      (vxlan src : Text) (s : Node W)
      → IsRecorded client laws vxlan src s
      → IsRecorded client laws vxlan src (cache_to_etcd client s).1
  unfolding cache_to_etcd
  cache_to_etcd-keeps vxlan src =
      unless_failed-keeps vxlan src (flush_cache client) (flush_cache-keeps vxlan src)
