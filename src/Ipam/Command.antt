-- ===== src/Ipam/Command.antt =====
-- formRangeSets and allocateIP of multus-ipam/main.go; Whole: its commands. `S` is the state of the directory of the network and of etcd.
pub mod Whole
pub mod Granted
pub mod Reserved
pub mod Outcome
use multus_ext_cni.Prelude.{
  ℕ, zero, suc, ◌+◌, Bool, true, false, not, ◌&&◌, ◌||◌, List, [], ◌∷◌, ◌++◌, Option, none, some,
  map, if◌then◌else◌, Text, codes, is_empty, Result, ok, err, trim,
}
use multus_ext_cni.Net.{Ip, IpNet, is_nil, net_contains, mask_ip}
use multus_ext_cni.Net.NetText.{is_blank}
use multus_ext_cni.Net.IpPackage.{IpPackage}
use multus_ext_cni.Ipam.Address.{AllocError, no_addresses}
use multus_ext_cni.Ipam.Range
use multus_ext_cni.Ipam.Range.{Range, SimpleRange, is_less, is_greater}
use multus_ext_cni.Ipam.RangeSet.{RangeSet}
use multus_ext_cni.Ipam.Store.{Store}
use multus_ext_cni.Ipam.Iter.{Run, returned, panicked, out_of_fuel}
use multus_ext_cni.Ipam.Allocator.{IpConfig, itoa, get_any, release}
use multus_ext_cni.Ipam.Config.{IpamConfig}
use multus_ext_cni.Ipam.Config.EnvArgs.{ℤ, pos, negsuc}

-- What the commands call besides the allocator: the cache of leased ranges and the single addresses
-- of the disk store, and the leases of etcd. `none` is an error.
pub record Host (S : Type 0) : Type 0 where
  pub load_cache : S → Option (List SimpleRange)
  pub append_cache : SimpleRange → S → S
  pub delete_cache : SimpleRange → S → S
  pub release_ip : Ip → S → S
  pub get_by_id : Text → Text → S → List Ip
  pub find_by_id : Text → Text → S → Bool
  pub apply_ip_range : Text → Range → ℕ → S → Option SimpleRange × S
  pub apply_fix_ip : Text → Option Range → Text → S → Option IpNet × S

pub data IpamError : Type 0 where
  bad_cache lease_failed no_fix_info fix_failed release_failed not_found : IpamError
  alloc_failed : AllocError → IpamError

-- A number of rounds: none where the number is negative.
abbrev pub rounds : ℤ → ℕ
rounds (pos n) = n
rounds (negsuc n) = 0

abbrev pub and_then {ℓ κ} : {A : Type ℓ} {B : Type κ} → Run A → (A → Run B) → Run B
and_then (returned a) next = next a
and_then panicked next = panicked
and_then out_of_fuel next = out_of_fuel

-- The name under which the addresses of an interface are reserved
abbrev pub sub_ifname : Text → ℕ → Text
sub_ifname ifname n = ifname ++ (codes "." ++ itoa n)

-- `&ipamConf.Ranges[0][0]`
abbrev first_range : List RangeSet → Option Range
first_range ((r ∷ _) ∷ _) = some r
first_range _ = none

-- Whether an error is that of an exhausted range set
abbrev pub is_no_addresses : AllocError → Bool
is_no_addresses no_addresses = true
is_no_addresses _ = false

module _ (p : IpPackage) {S : Type 0} (store : Store S) (host : Host S) where
  -- A range, cut to a leased one
  abbrev cut : Range → SimpleRange → Range
  cut ro cr = record ro {
    range_start =
        if is_less (p.cmp ro.range_start cr.range_start) then cr.range_start else ro.range_start;
    range_end = if is_greater (p.cmp ro.range_end cr.range_end) then cr.range_end else ro.range_end;
  }

  -- The loops of formRangeSets over the cached ranges, over the ranges of a set and over the sets. A
  -- cached range that is not of the subnet is deleted from the cache.
  unfoldable pub cut_range : Range → List SimpleRange → S → RangeSet × S
  cut_range ro [] s = ([], s)
  cut_range ro (cr ∷ crs) s =
      let of_subnet =
        net_contains ro.subnet cr.range_start && net_contains ro.subnet cr.range_end in
      let inside = Range.contains p ro cr.range_start || Range.contains p ro cr.range_end in
      let s1 = if inside || of_subnet then s else host.delete_cache cr s in
      let (rest, s2) = cut_range ro crs s1 in (if inside then cut ro cr ∷ rest else rest, s2)

  unfoldable pub cut_set : RangeSet → List SimpleRange → S → RangeSet × S
  unfolding cut_range
  cut_set [] crs s = ([], s)
  cut_set (ro ∷ ros) crs s =
      let (first, s1) = cut_range ro crs s in
      let (rest, s2) = cut_set ros crs s1 in (first ++ rest, s2)

  unfoldable pub cut_sets : List RangeSet → List SimpleRange → S → List RangeSet × S
  unfolding cut_set
  cut_sets [] crs s = ([], s)
  cut_sets (rso ∷ rsos) crs s =
      let (first, s1) = cut_set rso crs s in
      let (rest, s2) = cut_sets rsos crs s1 in (first ∷ rest, s2)

  -- formRangeSets
  unfoldable pub form_range_sets : List RangeSet → S → Option (List RangeSet × S)
  unfolding cut_sets
  form_range_sets origin s = elim (host.load_cache s) [
    | none ↦ none
    | some crs ↦ some (cut_sets origin crs s)
  ]

  module _ (fuel : ℕ) (conf : IpamConfig) where
    -- Get on a range set that has ranges
    unfoldable pub try_get : RangeSet → Text → Text → S → Run (Result AllocError IpConfig × S)
    unfolding get_any
    try_get [] id ifname s = returned (err no_addresses, s)
    try_get (r ∷ rs) id ifname s = get_any p store fuel (r ∷ rs) (itoa 0) id ifname s

    -- The loop of three tries: while the error is that no address is available, another range is
    -- leased, and Get is called on it alone.
    unfoldable pub try_lease :
        ℕ → Text → Text → Result AllocError IpConfig × S → Run (Result IpamError IpConfig × S)
    unfolding get_any
    try_lease n id ifname (ok c, s) = returned (ok c, s)
    try_lease zero id ifname (err e, s) = returned (err (alloc_failed e), s)
    try_lease (suc n) id ifname (err e, s) = elim (is_no_addresses e) [
      | false ↦ returned (err (alloc_failed e), s)
      | true ↦ elim (first_range conf.ranges) [
        | none ↦ panicked
        | some r ↦
            let (leased, s1) = host.apply_ip_range conf.name r conf.apply_unit s in
            elim leased [
              | none ↦ returned (err lease_failed, s1)
              | some sr ↦
                  and_then
                    (get_any p store fuel
                      (record r { range_start = sr.range_start; range_end = sr.range_end } ∷ [])
                      (itoa 0) id ifname (host.append_cache sr s1))
                    (try_lease n id ifname)
            ]
      ]
    ]

    -- One address: of the local ranges of the first set, or of a range that is leased for it.
    unfoldable pub allocate_one : RangeSet → Text → Text → S → Run (Result IpamError IpConfig × S)
    unfolding try_get try_lease
    allocate_one rs id ifname s = and_then (try_get rs id ifname s) (try_lease 3 id ifname)

    -- The releases of allocateIP after a failure
    unfoldable pub release_times : ℕ → Text → Text → S → S
    unfolding release
    release_times zero id ifname s = s
    release_times (suc n) id ifname s = release_times n id ifname (release p store id ifname s).1

    -- The loop of allocateIP: `n` more addresses, after `got`. Only the first set is used.
    unfoldable pub allocate_rest :
        ℕ
        → RangeSet
        → Text
        → Text
        → List IpConfig
        → ℕ
        → S
        → Run (Result IpamError (List IpConfig) × S)
    unfolding allocate_one release_times
    allocate_rest zero rs id ifname got k s = returned (ok got, s)
    allocate_rest (suc n) rs id ifname got k s =
        and_then (allocate_one rs id (sub_ifname ifname k) s)
          λ ((result, s1) : Result IpamError IpConfig × S). elim result [
            | err e ↦ returned (err e, release_times k id ifname s1)
            | ok c ↦ allocate_rest n rs id ifname (got ++ (c ∷ [])) (suc k) s1
          ]

    -- allocateIP
    unfoldable pub allocate_ip : Text → Text → S → Run (Result IpamError (List IpConfig) × S)
    unfolding form_range_sets allocate_rest
    allocate_ip id ifname s = elim (form_range_sets conf.ranges s) [
      | none ↦ returned (err bad_cache, s)
      | some ([], s1) ↦ returned (ok [], s1)
      | some (rs ∷ _, s1) ↦ allocate_rest (rounds conf.num) rs id ifname [] 0 s1
    ]
