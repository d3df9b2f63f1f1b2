-- ===== src/Ipam/Iter.antt =====
-- RangeIter of multus-ipam/backend/allocator/allocator.go.
pub mod Walk
pub mod Span
pub mod Chain
pub mod Follow
pub mod Round
pub mod Resume
pub mod Offers
pub mod Rounds
pub mod Endless
use multus_ext_cni.Prelude.{
  ℕ, zero, suc, ◌+◌, ◌%◌, Bool, true, false, not, ◌&&◌, List, [], ◌∷◌, Option, none, some, ◌==◌,
  if◌then◌else◌, length, get_elem?, any,
}
use multus_ext_cni.Net.{Ip, IpNet, is_nil, equal}
use multus_ext_cni.Net.IpPackage.{IpPackage}
use multus_ext_cni.Ipam.Range.{Range}
use multus_ext_cni.Ipam.RangeSet.{RangeSet}

-- A call returns, panics on an index that is out of range, or has not returned within its fuel.
pub data Run {ℓ} (A : Type ℓ) : Type ℓ where
  returned : A → Run A
  panicked : Run A
  out_of_fuel : Run A

pub record RangeIter : Type 0 where
  pub range_idx : ℕ
  pub cur : Ip
  pub start_ip : Ip
  pub start_range : ℕ

-- An address that Next hands out: the address with its mask, and the gateway.
pub record Offer : Type 0 where
  pub address : IpNet
  pub gateway : Ip

-- What one activation of Next does: it returns nil, calls itself, returns an address, or panics.
pub data Visit : Type 0 where
  stop : RangeIter → Visit
  skip : RangeIter → Visit
  visit : RangeIter → Offer → Visit
  bad_index : Visit

abbrev pub offer : Range → Ip → Offer
offer r a = record { address = record { ip = a; mask = r.subnet.mask }; gateway = r.gateway }

-- `i.cur == nil`: the first address of the range.
unfoldable pub first_visit : Range → RangeIter → Visit
first_visit r i =
    let i' : RangeIter = record i { cur = r.range_start; start_ip = r.range_start } in
    if equal r.range_start r.gateway
    then skip i'
    else if any (λ ip. equal r.range_start ip) r.reserves
    then skip i'
    else visit i' (offer r r.range_start)

-- What follows once the cursor stands on the address `a` of range `idx`, which is `r`.
unfoldable pub arrive : ℕ → Range → Ip → RangeIter → Visit
arrive idx r a i =
    let i' : RangeIter = record i { range_idx = idx; cur = a } in
    if not (is_nil i.start_ip) && (idx == i.start_range && equal a i.start_ip)
    then stop i'
    else let i'' : RangeIter = record i' {
      start_ip = if is_nil i.start_ip then a else i.start_ip;
    } in
      if equal a r.gateway then skip i'' else visit i'' (offer r a)

module _ (p : IpPackage) where
  open p use {next_ip}

  -- The cursor moves to the next address, or to the first of the next range.
  unfoldable pub move : RangeSet → Range → RangeIter → Visit
  unfolding arrive
  move rs r i =
      if equal i.cur r.range_end
      then (let idx = (i.range_idx + 1) % length rs in
          elim (get_elem? rs idx) [ none ↦ bad_index | some r' ↦ arrive idx r' r'.range_start i ])
      else arrive i.range_idx r (next_ip i.cur) i

  unfoldable pub advance : RangeSet → RangeIter → Visit
  unfolding first_visit move
  advance rs i = elim (get_elem? rs i.range_idx) [
    | none ↦ bad_index
    | some r ↦ if is_nil i.cur then first_visit r i else move rs r i
  ]

  -- (*RangeIter).Next; the fuel bounds its calls of itself.
  unfoldable pub next : ℕ → RangeSet → RangeIter → Run (Option Offer × RangeIter)
  unfolding advance
  next zero rs i = out_of_fuel
  next (suc fuel) rs i = elim (advance rs i) [
    | stop i' ↦ returned (none, i')
    | skip i' ↦ next fuel rs i'
    | visit i' o ↦ returned (some o, i')
    | bad_index ↦ panicked
  ]
