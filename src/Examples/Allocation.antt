-- ===== src/Examples/Allocation.antt =====
-- Runs of the allocator on the disk store.
use multus_ext_cni.Prelude.{
  ℕ, ◌+◌, ◌≡◌, refl, List, [], ◌∷◌, true, Result, ok, err, ◌++◌, Text, codes, has_prefix,
  trim_space, text_eq,
}
use multus_ext_cni.Net.{equal, to4, net_contains}
use multus_ext_cni.Net.Number.{value, increment}
use multus_ext_cni.Ipam.Iter.Span.{offers_after}
use multus_ext_cni.Ipam.Iter.Chain.{offers_round}
use multus_ext_cni.Ipam.Address.{AllocError, no_addresses, canonicalize_ip}
use multus_ext_cni.Ipam.Range
use multus_ext_cni.Ipam.Range.{Range}
use multus_ext_cni.Ipam.RangeSet
use multus_ext_cni.Ipam.Iter.{Run, returned, next, offer}
use multus_ext_cni.Ipam.Allocator.{get, IpConfig, ip_config}
use multus_ext_cni.Ipam.Disk.{Dir, disk_store, reserve, get_by_id, last_reserved_ip, last_ip_file}
use multus_ext_cni.Ipam.Disk.Files.{File, lookup}
use multus_ext_cni.Ipam.Iter.Round.{first_round}
use multus_ext_cni.Ipam.Iter.Resume.{resumed_round}
use multus_ext_cni.Ipam.Allocator.Order.{IsNew}
use multus_ext_cni.Examples.Addresses.{v4, ip_package, net_text}
use multus_ext_cni.Examples.Ranges.{first, second, set, ten}

abbrev pub empty : Dir
empty = record { files = []; faults = [] }

abbrev pub id : Text
id = codes "pod"

abbrev pub eth0 : Text
eth0 = codes "eth0"

abbrev pub key : Text → Text
key name = name ++ (b'\r' ∷ b'\n' ∷ []) ++ eth0

-- The store with these addresses taken, and with the address reserved last.
abbrev pub taken : List ℕ → List File
taken [] = []
taken (n ∷ ns) =
    record { name = net_text.to_string (v4 n); content = key (codes "other") } ∷ taken ns

abbrev pub holding : ℕ → List ℕ → Dir
holding last ns = record {
  files =
      record { name = last_ip_file (codes "0"); content = net_text.to_string (v4 last) } ∷ taken ns;
  faults = [];
}

-- 10.0.0.2 is taken, and was reserved last.
abbrev pub one : Dir
one = holding (ten + 2) ((ten + 2) ∷ [])

-- All is taken.
abbrev pub all_taken : List ℕ
all_taken = (ten + 2) ∷ (ten + 3) ∷ (ten + 258) ∷ []

abbrev pub full : Dir
full = record { files = taken all_taken; faults = [] }

abbrev pub full_resumed : Dir
full_resumed = holding (ten + 2) all_taken

module _ (d : Dir) where
  abbrev pub get_on : Run (Result AllocError IpConfig × Dir)
  get_on = get ip_package (disk_store net_text) 20 set (codes "0") id eth0 [] d

  abbrev pub New : Type 0
  New = IsNew ip_package (disk_store net_text) set id eth0 d

pub empty-New : New empty
unfolding get_by_id
empty-New = refl

pub one-New : New one
unfolding get_by_id has_prefix trim_space canonicalize_ip to4 text_eq
one-New = refl

pub full-New : New full
unfolding get_by_id has_prefix trim_space text_eq
full-New = refl

pub full_resumed-New : New full_resumed
unfolding get_by_id has_prefix trim_space canonicalize_ip to4 text_eq
full_resumed-New = refl

pub last-one : last_reserved_ip net_text (codes "0") one ≡ v4 (ten + 2)
unfolding last_reserved_ip lookup text_eq canonicalize_ip to4
last-one = refl

pub last-full_resumed : last_reserved_ip net_text (codes "0") full_resumed ≡ v4 (ten + 2)
unfolding last_reserved_ip lookup text_eq canonicalize_ip to4
last-full_resumed = refl

pub last-empty : last_reserved_ip net_text (codes "0") empty ≡ []
unfolding last_reserved_ip lookup
last-empty = refl

pub last-full : last_reserved_ip net_text (codes "0") full ≡ []
unfolding last_reserved_ip lookup text_eq canonicalize_ip to4
last-full = refl

pub first-contains : Range.contains ip_package first (v4 (ten + 2)) ≡ true
unfolding Range.contains canonicalize_ip to4 net_contains value
first-contains = refl

pub first_round-set :
    first_round ip_package set
    ≡ offer first (v4 (ten + 2)) ∷ offer first (v4 (ten + 3)) ∷ offer second (v4 (ten + 258)) ∷ []
unfolding first_round equal text_eq offers_after value increment canonicalize_ip to4 offers_round
first_round-set = refl

pub resumed_round-set :
    resumed_round ip_package [] first (second ∷ []) (v4 (ten + 2)) (ten + 2)
    ≡ offer first (v4 (ten + 3)) ∷ offer second (v4 (ten + 258)) ∷ offer first (v4 (ten + 2)) ∷ []
unfolding resumed_round offers_after value equal increment canonicalize_ip to4 text_eq offers_round
resumed_round-set = refl

-- What Get returns, and the store after it.
abbrev pub conf : ℕ → IpConfig
conf n = ip_config (offer first (v4 n))

abbrev pub empty' : Dir
empty' = (reserve net_text id eth0 (v4 (ten + 2)) (codes "0") empty).1

abbrev pub one' : Dir
one' = (reserve net_text id eth0 (v4 (ten + 3)) (codes "0") one).1

pub get-empty : get_on empty ≡ returned (ok (conf (ten + 2)), empty')
unfolding get get_by_id last_reserved_ip lookup next equal text_eq increment canonicalize_ip to4
    reserve
get-empty = refl

pub get-one : get_on one ≡ returned (ok (conf (ten + 3)), one')
unfolding get get_by_id has_prefix trim_space canonicalize_ip to4 text_eq last_reserved_ip lookup
    RangeSet.contains Range.contains net_contains value next equal increment reserve
get-one = refl

pub get-full : get_on full ≡ returned (err no_addresses, full)
unfolding get get_by_id has_prefix trim_space canonicalize_ip to4 text_eq last_reserved_ip lookup
    RangeSet.contains Range.contains net_contains value next equal increment reserve
get-full = refl

pub get-full_resumed : get_on full_resumed ≡ returned (err no_addresses, full_resumed)
unfolding get get_by_id has_prefix trim_space canonicalize_ip to4 text_eq last_reserved_ip lookup
    RangeSet.contains Range.contains net_contains value next equal increment reserve
get-full_resumed = refl
