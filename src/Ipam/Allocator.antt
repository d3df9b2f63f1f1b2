-- ===== src/Ipam/Allocator.antt =====
-- IPAllocator of multus-ipam/backend/allocator/allocator.go, over any store.
pub mod FirstFree
pub mod Order
pub mod Outcome
pub mod Endless
pub mod Requested
use multus_ext_cni.Prelude.{
  ℕ, zero, suc, ◌+◌, ◌%◌, ◌/◌, Bool, true, false, not, ◌&&◌, List, [], ◌∷◌, ◌++◌, Option, none,
  some, ◌==◌, ltb, if◌then◌else◌, length, get_elem?, any, Text, Result, ok, err, ◌>>=◌, ◌>>◌, guard,
}
use multus_ext_cni.Net.{Ip, IpNet, is_nil, equal, to4}
use multus_ext_cni.Net.IpPackage.{IpPackage}
use multus_ext_cni.Ipam.Address.{
  AllocError, canonicalize_ip, is_gateway, is_reserved, not_available, duplicate_allocation,
  no_addresses, store_failed,
}
use multus_ext_cni.Ipam.Range
use multus_ext_cni.Ipam.Range.{Range}
use multus_ext_cni.Ipam.RangeSet
use multus_ext_cni.Ipam.RangeSet.{RangeSet}
use multus_ext_cni.Ipam.Store.{Store}
use multus_ext_cni.Ipam.Iter.{Run, returned, panicked, out_of_fuel, RangeIter, Offer, offer, next}

-- current.IPConfig, without the index of the interface
pub record IpConfig : Type 0 where
  pub version : ℕ
  pub address : IpNet
  pub gateway : Ip

-- strconv.Itoa of a number; a number has no more digits than its value plus one.
unfoldable pub itoa_fuel : ℕ → ℕ → Text
itoa_fuel zero n = []
itoa_fuel (suc f) n =
    let rest = itoa_fuel f (n / 10) in
    if ltb n 10 then (b'0' + n) ∷ [] else rest ++ (b'0' + n % 10) ∷ []

unfoldable pub itoa : ℕ → Text
unfolding itoa_fuel
itoa n = itoa_fuel (suc n) n

-- The result that Get forms from the address it has reserved.
unfoldable pub ip_config : Offer → IpConfig
ip_config o = record {
  version = if is_nil (to4 o.address.ip) then 6 else 4;
  address = o.address;
  gateway = o.gateway;
}

module _ (p : IpPackage) {S : Type 0} (store : Store S) where
  open store use {reserve, last_reserved_ip, release_by_id, get_by_id}

  -- The index of the first range that contains an address.
  unfoldable pub index_of : RangeSet → Ip → Option ℕ
  index_of [] addr = none
  index_of (r ∷ rs) addr =
      if Range.contains p r addr
      then some 0
      else elim (index_of rs addr) [ none ↦ none | some k ↦ some (suc k) ]

  -- (*IPAllocator).GetIter
  unfoldable pub get_iter : RangeSet → Text → S → Run RangeIter
  unfolding index_of
  get_iter rs range_id s =
      let last = last_reserved_ip range_id s in
      if not (is_nil last) && RangeSet.contains p rs last
      then elim (index_of rs last) [
        | none ↦ returned (record { range_idx = 0; cur = []; start_ip = []; start_range = 0 })
        | some k ↦ returned (record { range_idx = k; cur = last; start_ip = []; start_range = k })
      ]
      else elim (get_elem? rs 0) [
        | none ↦ panicked
        | some r ↦
            returned (record { range_idx = 0; cur = []; start_ip = r.range_start; start_range = 0 })
      ]

  -- The loop of Get. `none` is the end of the iterator; the fuel bounds the rounds, and the calls
  -- of Next within each.
  unfoldable pub allocate :
      ℕ → RangeSet → Text → Text → Text → RangeIter → S → Run (Result AllocError (Option Offer) × S)
  allocate zero rs id ifname range_id i s = out_of_fuel
  allocate (suc fuel) rs id ifname range_id i s = elim (next p (suc fuel) rs i) [
    | out_of_fuel ↦ out_of_fuel
    | panicked ↦ panicked
    | returned (none, i') ↦ returned (ok none, s)
    | returned (some o, i') ↦
        let (reserved, s') = reserve id ifname o.address.ip range_id s in
        elim reserved [
          | err e ↦ returned (err store_failed, s')
          | ok true ↦ returned (ok (some o), s')
          | ok false ↦ allocate fuel rs id ifname range_id i' s'
        ]
  ]

  -- The checks of Get on a requested address.
  unfoldable pub check_requested : RangeSet → Ip → Result AllocError Offer
  check_requested rs requested = do
    a ← canonicalize_ip requested
    r ← RangeSet.range_for p rs a
    guard (not (equal a r.gateway)) is_gateway
    guard (not (any (λ ip. equal a ip) r.reserves)) is_reserved
    ok (offer r a)

  -- Get with a requested address.
  unfoldable pub get_requested :
      RangeSet → Text → Text → Text → Ip → S → Result AllocError IpConfig × S
  unfolding check_requested
  get_requested rs range_id id ifname requested s = elim (check_requested rs requested) [
    | err e ↦ (err e, s)
    | ok o ↦
        let (reserved, s') = reserve id ifname o.address.ip range_id s in
        elim reserved [
          | err e ↦ (err store_failed, s')
          | ok true ↦ (ok (ip_config o), s')
          | ok false ↦ (err not_available, s')
        ]
  ]

  -- What Get makes of the end of its loop.
  unfoldable pub conclude : Result AllocError (Option Offer) × S → Result AllocError IpConfig × S
  conclude (err e, s) = (err e, s)
  conclude (ok none, s) = (err no_addresses, s)
  conclude (ok (some o), s) = (ok (ip_config o), s)

  -- Get without a requested address.
  unfoldable pub get_any :
      ℕ → RangeSet → Text → Text → Text → S → Run (Result AllocError IpConfig × S)
  unfolding get_iter allocate conclude
  get_any fuel rs range_id id ifname s =
      if any (λ ip. RangeSet.contains p rs ip) (get_by_id id ifname s)
      then returned (err duplicate_allocation, s)
      else elim (get_iter rs range_id s) [
        | out_of_fuel ↦ out_of_fuel
        | panicked ↦ panicked
        | returned i ↦ elim (allocate fuel rs id ifname range_id i s) [
          | out_of_fuel ↦ out_of_fuel
          | panicked ↦ panicked
          | returned r ↦ returned (conclude r)
        ]
      ]

  -- (*IPAllocator).Get
  unfoldable pub get :
      ℕ → RangeSet → Text → Text → Text → Ip → S → Run (Result AllocError IpConfig × S)
  unfolding get_requested get_any
  get fuel rs range_id id ifname requested s =
      if not (is_nil requested)
      then returned (get_requested rs range_id id ifname requested s)
      else get_any fuel rs range_id id ifname s

  -- (*IPAllocator).Release
  unfoldable pub release : Text → Text → S → Result AllocError (Unit {0}) × S
  release id ifname s =
      let (released, s') = release_by_id id ifname s in
      elim released [ err e ↦ (err store_failed, s') | ok u ↦ (ok tt, s') ]
