-- ===== src/Examples/Storage.antt =====
-- The theorems on the disk store and on requests, at concrete inputs.
use multus_ext_cni.Prelude.{
  ℕ, ◌+◌, ◌<◌, ◌≡◌, refl, ap, subst, List, [], ◌∷◌, ◌++◌, All, arith, true, false, Result, ok, err,
  codes, Text, any, some, get_elem?, has_prefix, trim_space, text_eq,
}
use multus_ext_cni.Net.{Ip, equal, is_nil, to4, net_contains}
use multus_ext_cni.Net.Number.{value, increment}
use multus_ext_cni.Ipam.Address.{AllocError, HasForm, canonicalize_ip, is_reserved}
use multus_ext_cni.Ipam.Range
use multus_ext_cni.Ipam.Range.{Range}
use multus_ext_cni.Ipam.RangeSet
use multus_ext_cni.Ipam.Iter.{Run, returned, Offer, offer}
use multus_ext_cni.Ipam.Allocator.{get, IpConfig, ip_config}
use multus_ext_cni.Ipam.Allocator.Requested.{IsChecked, get_requested_sound, get-reserved}
use multus_ext_cni.Ipam.Disk.{Dir, disk_store, reserve, get_by_id, release_by_id, key_of}
use multus_ext_cni.Ipam.Disk.Files.{File, lookup}
use multus_ext_cni.Ipam.Disk.Keys.{Among, reserve-get_by_id, release_by_id-get_by_id}
use multus_ext_cni.Ipam.Disk.Contract.{disk_contract, HasFile}
use multus_ext_cni.Examples.Addresses.{
  v4, v4-IsCanonical, ip_package, ip_laws, net_text, net_text_laws,
}
use multus_ext_cni.Examples.Ranges.{
  first, second, set, ten, first-IsRange, second-IsRange, total-set, low, high,
}
use multus_ext_cni.Examples.Allocation.{
  empty, empty', id, eth0, conf, get_on, empty-New, last-empty,
}

-- Requests

abbrev ask : ℕ → Dir → Run (Result AllocError IpConfig × Dir)
ask n d = get ip_package (disk_store net_text) 20 set (codes "0") id eth0 (v4 n) d

abbrev asked : Dir
asked = (reserve net_text id eth0 (v4 (ten + 3)) (codes "0") empty).1

ask-free : ask (ten + 3) empty ≡ returned (ok (conf (ten + 3)), asked)
unfolding get canonicalize_ip to4 RangeSet.range_for Range.contains net_contains value equal text_eq
    reserve lookup
ask-free = refl

get_requested_sound_example :
    (o : Offer) × (conf (ten + 3) ≡ ip_config o)
    × IsChecked ip_package set (v4 (ten + 3)) o
    × ((j : ℕ) × (r : Range) × (get_elem? set j ≡ some r)
        × (Range.contains ip_package r o.address.ip ≡ true))
    × (¬ HasFile net_text empty o.address.ip)
    × HasFile net_text asked o.address.ip
get_requested_sound_example =
    get_requested_sound ip_package (disk_store net_text) (disk_contract net_text) set (codes "0") id
      eth0 (v4 (ten + 3)) 20 empty (conf (ten + 3)) asked refl ask-free

-- Reserved addresses

start-gateway : equal first.range_start first.gateway ≡ true
unfolding equal text_eq
start-gateway = refl

next-HasForm : HasForm (ip_package.next_ip first.range_start) (v4 (ten + 2))
unfolding increment canonicalize_ip to4
next-HasForm = subst (λ a. HasForm a (v4 (ten + 2))) (go) (v4-IsCanonical (ten + 2) (omega arith))
  where
    go : v4 (ten + 2) ≡ ip_package.next_ip first.range_start
    go = refl

contains-reserved : Range.contains ip_package first (v4 (ten + 2)) ≡ true
unfolding Range.contains canonicalize_ip to4 net_contains value
contains-reserved = refl

reserved-other : equal (v4 (ten + 2)) first.gateway ≡ false
unfolding equal text_eq
reserved-other = refl

next-other : equal (ip_package.next_ip first.range_start) first.gateway ≡ false
unfolding equal increment canonicalize_ip to4 text_eq
next-other = refl

reserved-listed : any (λ ip. equal (v4 (ten + 2)) ip) first.reserves ≡ true
unfolding equal text_eq
reserved-listed = refl

reserve-next :
    reserve net_text id eth0 (ip_package.next_ip first.range_start) (codes "0") empty
    ≡ (ok true, empty')
unfolding reserve lookup increment canonicalize_ip to4
reserve-next = refl

get-reserved_example :
    (ask (ten + 2) empty ≡ returned (err is_reserved, empty))
    × (get_on empty
        ≡ returned (ok (ip_config (offer first (ip_package.next_ip first.range_start))), empty'))
get-reserved_example =
    get-reserved ip_package ip_laws (disk_store net_text) 4 (codes "0") id eth0 empty empty' 20
      first (second ∷ []) (v4 (ten + 2)) first-IsRange (second-IsRange, tt) empty-New
      (ap is_nil last-empty) total-set start-gateway next-HasForm contains-reserved reserved-other
      next-other reserved-listed room reserve-next
  where
    room : value first.range_start < value first.range_end
    room = omega (arith, low, high)

-- Keys

-- The file of an address that `name` holds on `ifname`.
abbrev file : ℕ → Text → Text → File
file n name ifname = record { name = net_text.to_string (v4 n); content = key_of name ifname }

abbrev shared : List File
shared =
    file (ten + 2) id eth0
    ∷ file (ten + 3) id (eth0 ++ codes "1")
    ∷ file (ten + 258) (codes "web") eth0
    ∷ []

key-plain : trim_space (key_of id eth0) ≡ key_of id eth0
unfolding trim_space text_eq has_prefix
key-plain = refl

reserve-asked : reserve net_text id eth0 (v4 (ten + 3)) (codes "0") empty ≡ (ok true, asked)
unfolding reserve lookup
reserve-asked = refl

reserve-get_by_id_example :
    (a : Ip) × HasForm a (v4 (ten + 3)) × Among (get_by_id net_text id eth0 asked) a
reserve-get_by_id_example =
    reserve-get_by_id net_text net_text_laws id eth0 (v4 (ten + 3)) (codes "0") empty asked
      (v4-IsCanonical (ten + 3) (omega arith)) key-plain reserve-asked

-- No file of `shared` holds a bare id.
shared-keys : All (λ f. text_eq (trim_space f.content) (trim_space id) ≡ false) shared
unfolding trim_space text_eq has_prefix
shared-keys = (refl, (refl, (refl, tt)))

release_by_id-get_by_id_example :
    get_by_id net_text id
      (eth0 ++ codes "1")
      (release_by_id net_text id eth0 (record { files = shared; faults = [] })).1
    ≡ []
release_by_id-get_by_id_example =
    release_by_id-get_by_id net_text net_text_laws id eth0 (codes "1") shared shared-keys

web-there : lookup (net_text.to_string (v4 (ten + 258))) shared ≡ some (key_of (codes "web") eth0)
unfolding lookup text_eq canonicalize_ip to4
web-there = refl

web-other : has_prefix (trim_space (key_of (codes "web") eth0)) (trim_space id) ≡ false
unfolding trim_space text_eq has_prefix
web-other = refl
