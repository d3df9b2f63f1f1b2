-- ===== src/Vxlan.antt =====
-- The records of VXLAN interfaces (multus-vxlan/backend/etcdv3cli/cli.go): a key of etcd for the interface
-- and the address of each node, or a file of a cache directory until etcd has it.
pub mod Recorded
pub mod Flushed
pub mod Always
use multus_ext_cni.Prelude.{
  ℕ, Bool, true, false, not, ◌&&◌, List, [], ◌∷◌, Option, none, some, if◌then◌else◌, Text, codes,
  text_eq, trim, contains_text, Result, ok, err,
}
use multus_ext_cni.Net.NetText.{is_blank}
use multus_ext_cni.Ipam.Disk.{fails, later}
use multus_ext_cni.Ipam.Disk.Files.{File, lookup, write_file, remove_file}
use multus_ext_cni.Etcd.{EtcdClient, EtcdError, error_text, trans_put_key}
use multus_ext_cni.Etcd.Paths.{join, path_base, path_dir}

-- The cache directory without its lock file. The faults say which of the next calls fail; a call
-- that fails changes nothing, but for ioutil.WriteFile, which may leave the file truncated, with the text
-- `cut`.
pub record Cache : Type 0 where
  pub is_there : Bool
  pub files : List File
  pub faults : List Bool
  pub cut : Option Text

pub record Node (W : Type 0) : Type 0 where
  pub etcd : W
  pub cache : Cache

-- ParseVxlan: the interface and the address
unfoldable pub parse_vxlan : Text → Text × Text
unfolding path_base path_dir
parse_vxlan key = (path_base (path_dir key), path_base key)

abbrev pub vxlan_key : Text → Text → Text → Text
vxlan_key root vxlan src = join (root ∷ codes "vxlan" ∷ vxlan ∷ src ∷ [])

-- Calls on the cache that fail or not, and what they do otherwise
abbrev pub try_call : (Cache → Cache) → Cache → Bool × Cache
try_call change c =
    if fails c.faults
    then (false, record c { faults = later c.faults })
    else (true, change (record c { faults = later c.faults }))

-- ioutil.WriteFile
unfoldable pub write_cache : Text → Text → Cache → Bool × Cache
unfolding write_file
write_cache name content c =
    let c1 = record c { faults = later c.faults } in
    if not (fails c.faults)
    then (true, record c1 { files = write_file name content c.files })
    else (
      false,
      elim c.cut [ none ↦ c1 | some t ↦ record c1 { files = write_file name t c.files } ],
    )

-- cacheRec: the directory is made, locked, and the file of the interface written.
unfoldable pub cache_rec : Text → Text → Cache → Bool × Cache
unfolding write_cache
cache_rec vxlan src c =
    let (made, c1) = try_call (λ x. record x { is_there = true }) c in
    let (locked, c2) = try_call (λ x. x) c1 in
    let (written, c3) = write_cache vxlan src c2 in
    if not made then (false, c1) else if not locked then (false, c2) else (written, c3)

-- `strings.Contains(err.Error(), "exists")` in RecVxlan, on an error of TransPutKey
unfoldable pub says_exists : {W : Type 0} → EtcdClient W → Text → Text → EtcdError → Bool
unfolding contains_text error_text
says_exists client key value e = contains_text (error_text client key value e) (codes "exists")

module _ {W : Type 0} (client : EtcdClient W) where
  -- What RecVxlan makes of the answer of TransPutKey; whether it succeeds.
  unfoldable pub keep_record :
      Text → Text → Text → Text → Result EtcdError (Unit {0}) × W → Cache → Bool × Node W
  unfolding cache_rec says_exists
  keep_record key id vxlan src (ok _, w) c = (true, record { etcd = w; cache = c })
  keep_record key id vxlan src (err e, w) c =
      let (kept, c1) = cache_rec vxlan src c in
      if says_exists client key id e
      then (true, record { etcd = w; cache = c })
      else (kept, record { etcd = w; cache = c1 })

  -- RecVxlan
  unfoldable pub rec_vxlan : Text → Text → Node W → Bool × Node W
  unfolding trans_put_key keep_record
  rec_vxlan vxlan src s =
      let (made, w1) = client.connect s.etcd in
      elim made [
        | none ↦ (false, record s { etcd = w1 })
        | some (root, id) ↦
            let key = vxlan_key root vxlan src in
            keep_record key id vxlan src (trans_put_key client true key id true w1) s.cache
      ]

  -- A file whose key has been put is removed.
  unfoldable pub settle : Text → Result EtcdError (Unit {0}) × W → Cache → Node W
  unfolding remove_file
  settle name (err _, w) c = record { etcd = w; cache = c }
  settle name (ok _, w) c = record {
    etcd = w;
    cache = (try_call (λ x. record x { files = remove_file name x.files }) c).1;
  }

  -- A file of the cache is read, and its key is put.
  unfoldable pub flush_file : Text → Text → Text → Node W → Node W
  unfolding trans_put_key lookup settle trim
  flush_file root id name s =
      let (read, c1) = try_call (λ x. x) s.cache in
      elim (if read then lookup name s.cache.files else none) [
        | none ↦ record s { cache = c1 }
        | some content ↦
            settle name
              (trans_put_key client true (vxlan_key root name (trim is_blank content)) id true
                s.etcd)
              c1
      ]

  unfoldable pub flush_files : Text → Text → List File → Node W → Node W
  unfolding flush_file
  flush_files root id [] s = s
  flush_files root id (f ∷ fs) s =
      let skipped = flush_files root id fs s in
      let flushed = flush_files root id fs (flush_file root id f.name s) in
      if text_eq f.name (codes "lock") then skipped else flushed

  -- A call on the cache that ends CacheToEtcd where it fails
  abbrev pub unless_failed : (Node W → Bool × Node W) → Node W → Bool × Node W
  unless_failed next s =
      let s1 = record s { cache = record s.cache { faults = later s.cache.faults } } in
      if fails s.cache.faults then (false, s1) else next s1

  -- CacheToEtcd from the client of etcd on
  unfoldable pub flush_all : Node W → Bool × Node W
  unfolding flush_files
  flush_all s =
      let (made, w1) = client.connect s.etcd in
      elim made [
        | none ↦ (false, record s { etcd = w1 })
        | some (root, id) ↦ (true, flush_files root id s.cache.files (record s { etcd = w1 }))
      ]

  -- CacheToEtcd from the answer on whether the directory is there
  unfoldable pub flush_cache : Node W → Bool × Node W
  unfolding flush_all
  flush_cache s = if s.cache.is_there then unless_failed (unless_failed flush_all) s else (true, s)

  -- CacheToEtcd: the directory is looked for, locked and listed. Whether it succeeds.
  unfoldable pub cache_to_etcd : Node W → Bool × Node W
  unfolding flush_cache
  cache_to_etcd = unless_failed flush_cache
