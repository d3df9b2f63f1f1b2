-- ===== src/Examples/Records.antt =====
-- The theorem on the records of VXLAN interfaces, with an etcd whose first calls fail.
use multus_ext_cni.Prelude.{
  ℕ, zero, suc, ◌≡◌, refl, Bool, true, false, ◌||◌, List, [], ◌∷◌, any, Option, none, some, Text,
  codes, text_eq, text_eq_refl, trim, contains_text, has_prefix, ok, err, arith,
}
use multus_ext_cni.Net.NetText.{is_blank}
use multus_ext_cni.Etcd.{
  EtcdClient, key_exists, no_client, not_locked, not_checked, not_written, not_deleted, nil_mutex,
  trans_del_key,
}
use multus_ext_cni.Etcd.Paths.{clean}
use multus_ext_cni.Etcd.Laws.{EtcdLaws}
use multus_ext_cni.Vxlan.{says_exists, Node, parse_vxlan, rec_vxlan, cache_to_etcd}
use multus_ext_cni.Vxlan.Recorded.{IsRecorded, IsTold}
use multus_ext_cni.Vxlan.Always.{done, flushed, rec_vxlan-stays}

-- The keys, and how many calls of Get fail first
abbrev Keys : Type 0
Keys = ℕ × List Text

abbrev has : Text → Keys → Bool
has key s = any (λ k. text_eq k key) s.1

abbrev get_key : Text → ℕ → List Text → Option Bool × Keys
get_key key zero keys = (some (any (λ k. text_eq k key) keys), (zero, keys))
get_key key (suc n) keys = (none, (n, keys))

abbrev etcd : EtcdClient Keys
etcd = record {
  connect = λ w. (some (codes "multus", codes "node"), w);
  lock = λ mutex w. (true, w);
  unlock = λ mutex w. w;
  has_key = λ key w. get_key key w.0 w.1;
  put = λ key value w. (true, (w.0, key ∷ w.1));
  delete = λ key w. (true, w);
  reason = codes "timeout";
}

get_key-same : (key : Text) (n : ℕ) (keys : List Text) → (get_key key n keys).1.1 ≡ keys
get_key-same key zero keys = refl
get_key-same key (suc n) keys = refl

get_key-there :
    (key : Text) (n : ℕ) (keys : List Text)
    → (get_key key n keys).0 ≡ some true
    → has key (get_key key n keys).1 ≡ true
get_key-there key zero keys h = ground (arith, h)
get_key-there key (suc n) keys h = absurd (cc h)

etcd_laws : EtcdLaws etcd
etcd_laws = record {
  Holds = λ key w. has key w ≡ true;
  root = codes "multus";
  connect_root = λ w r id e. ground (arith, e);
  node = codes "node";
  connect_node = λ w r id e. ground (arith, e);
  connect_keeps = λ key w h. h;
  lock_keeps = λ mutex key w h. h;
  unlock_keeps = λ mutex key w h. h;
  get_keeps = λ k key w h. rw (get_key-same k w.0 w.1) h;
  put_keeps = λ k v key w h. ground (arith, h);
  get_finds = λ key w h. get_key-there key w.0 w.1 h;
  put_writes = λ key v w h. ground (arith, text_eq_refl key);
}

abbrev vx : Text
vx = codes "vx1"

abbrev src : Text
src = codes "10.0.0.1"

abbrev start : Node Keys
start = record {
  etcd = (1, []);
  cache = record { is_there = false; files = []; faults = []; cut = some [] };
}

abbrev cached : Node Keys
cached = record {
  etcd = (0, []);
  cache = record {
    is_there = true;
    files = record { name = vx; content = src } ∷ [];
    faults = [];
    cut = some [];
  };
}

is_cached : rec_vxlan etcd vx src start ≡ (true, cached)
unfolding rec_vxlan multus_ext_cni.Prelude.split text_eq
is_cached = refl

abbrev sent : Node Keys
sent = record {
  etcd = (0, codes "multus/vxlan/vx1/10.0.0.1" ∷ []);
  cache = record { is_there = true; files = []; faults = []; cut = some [] };
}

is_sent : cache_to_etcd etcd cached ≡ (true, sent)
unfolding cache_to_etcd text_eq multus_ext_cni.Prelude.split
is_sent = refl

is_parsed : parse_vxlan (codes "multus/vxlan/vx1/10.0.0.1") ≡ (vx, src)
unfolding parse_vxlan multus_ext_cni.Prelude.split text_eq
is_parsed = refl

-- A path with `.`, `..` and slashes to spare
is_clean : clean (codes "/a//./b/../../../c/") ≡ codes "/c"
unfolding clean multus_ext_cni.Prelude.split text_eq
is_clean = refl

-- Where etcd has the key, its file stays in the cache.
stays : (cache_to_etcd etcd (record cached { etcd = sent.etcd })).1.cache.files ≡ cached.cache.files
unfolding cache_to_etcd text_eq multus_ext_cni.Prelude.split
stays = refl

-- TransDelKey without the lock
abbrev locked_out : EtcdClient Keys
locked_out = record etcd { lock = λ mutex w. (false, w) }

no_lock :
    (trans_del_key locked_out true (codes "multus/vxlan/vx1/10.0.0.1") (0, [])).0 ≡ err nil_mutex
unfolding trans_del_key
no_lock = refl

is_plain : trim is_blank src ≡ src
unfolding trim
is_plain = refl

succeeds : (rec_vxlan etcd vx src start).0 ≡ true
unfolding rec_vxlan multus_ext_cni.Prelude.split text_eq
succeeds = refl

clash : (b : Bool) → b ≡ false → b ≡ true → ⊥
clash b is_false is_true = ground (arith, is_false, is_true)

is_told : IsTold etcd etcd_laws vx src
unfolding says_exists contains_text has_prefix multus_ext_cni.Etcd.Paths.join etcd_laws
    multus_ext_cni.Prelude.split text_eq
is_told key_exists h = refl
is_told no_client h = absurd (clash _ refl h)
is_told not_locked h = absurd (clash _ refl h)
is_told not_checked h = absurd (clash _ refl h)
is_told not_written h = absurd (clash _ refl h)
is_told not_deleted h = absurd (clash _ refl h)
is_told nil_mutex h = absurd (clash _ refl h)

rec_vxlan-stays_example :
    IsRecorded etcd etcd_laws vx src (cache_to_etcd etcd (rec_vxlan etcd vx src start).1).1
rec_vxlan-stays_example =
    rec_vxlan-stays etcd etcd_laws vx src is_plain is_told start
      (cache_to_etcd etcd (rec_vxlan etcd vx src start).1).1 succeeds (flushed _ _ (done _))

-- A record that is written again while the disk fails is lost.
abbrev filled : Node Keys
filled = record {
  etcd = (1, []);
  cache = record cached.cache { faults = false ∷ false ∷ true ∷ [] };
}

lost : (rec_vxlan etcd vx src filled).1.cache.files ≡ record { name = vx; content = [] } ∷ []
unfolding rec_vxlan multus_ext_cni.Prelude.split text_eq
lost = refl
