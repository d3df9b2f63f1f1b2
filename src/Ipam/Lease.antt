-- ===== src/Ipam/Lease.antt =====
-- multus-ipam/backend/etcdv3cli/cli.go: the search for a range of addresses between the leases that etcd
-- holds, on 32-bit numbers.
pub mod Search
pub mod Reading
pub mod Fixed
use multus_ext_cni.Prelude.{
  ℕ, zero, suc, ◌+◌, ◌-◌, ◌*◌, ◌%◌, ◌^◌, Bool, true, false, not, ◌&&◌, ◌||◌, List, [], ◌∷◌, ◌++◌,
  Option, none, some, ltb, leb, ◌==◌, if◌then◌else◌, Text, split, is_empty,
}
use multus_ext_cni.Net.{Ip}
use multus_ext_cni.Ipam.Range.{Range, SimpleRange}

-- Package ipaddr of archichris/netools: numbers of IPv4 addresses, and of digits; `add_seg n h` is
-- Uint32AddSeg, the number of the address behind the 2^h addresses from `n` on.
pub record IpAddr : Type 0 where
  pub ip4_to_uint32 : Ip → ℕ
  pub uint32_to_ip4 : ℕ → Ip
  pub str_to_uint32 : Text → ℕ
  pub add_seg : ℕ → ℕ → ℕ

-- uint32 arithmetic
abbrev pub add32 : ℕ → ℕ → ℕ
add32 a b = (a + b) % 4294967296

abbrev pub sub32 : ℕ → ℕ → ℕ
sub32 a b = (a + (4294967296 - b)) % 4294967296

-- The part behind the last slash: filepath.Base of a key, which does not end with one.
abbrev last_part : Text → List Text → Text
last_part t [] = t
last_part t (u ∷ us) = last_part u us

unfoldable pub base : Text → Text
unfolding split
base key = elim (split b'/' key) [ [] ↦ [] | ◌∷◌ t ts ↦ last_part t ts ]

module _ (ipaddr : IpAddr) where
  open ipaddr use {ip4_to_uint32, uint32_to_ip4, str_to_uint32, add_seg}

  -- ipamLeaseToUint32Range; `none` is the panic on a key without a dash.
  unfoldable pub lease_range : Text → Option (ℕ × ℕ)
  unfolding base
  lease_range key = elim (split b'-' (base key)) [
    | [] ↦ none
    | ◌∷◌ a [] ↦ none
    | ◌∷◌ a (b ∷ more) ↦
        let start = str_to_uint32 a in some (start, sub32 (add_seg start (str_to_uint32 b)) 1)
  ]

  -- `uint32(math.Pow(2, float64(n)))`, for `n` below 32
  abbrev pub range_size : ℕ → ℕ
  range_size n = 2 ^ n % 4294967296

  -- `rips`: the start of the range, but not the first two addresses of the subnet.
  unfoldable pub first_free_ip : Range → ℕ
  first_free_ip r =
      let rips = ip4_to_uint32 r.range_start in
      let tmp = add32 (ip4_to_uint32 r.subnet.ip) 2 in if ltb rips tmp then tmp else rips

-- The loop of ipamGetFreeIPRange over the leases: `last` is the address behind the leases so far.
unfoldable pub gap : ℕ → ℕ → List (ℕ × ℕ) → ℕ → ℕ
gap ripe num [] last = last
gap ripe num ((ips, ipe) ∷ leases) last =
    let end = if ltb ripe ipe then ripe else ipe in
    let skipped = gap ripe num leases last in
    let behind = gap ripe num leases (add32 end 1) in
    if ips == 0 || ltb ripe ips then skipped else if ltb (sub32 ips last) num then behind else last

-- The test after the loop, and the range that is found, as two numbers.
unfoldable pub free_range : ℕ → ℕ → ℕ → List (ℕ × ℕ) → Option (ℕ × ℕ)
unfolding gap
free_range rips ripe num leases =
    let last = gap ripe num leases rips in
    if leb (sub32 num 1) (sub32 ripe last) then some (last, sub32 (add32 last num) 1) else none

abbrev after_lease : ℕ × ℕ → Option (List (ℕ × ℕ)) → Option (List (ℕ × ℕ))
after_lease l none = none
after_lease l (some ls) = some (l ∷ ls)

module _ (ipaddr : IpAddr) where
  -- The leases that the loop of ipamGetFreeIPRange reads from the keys: it stops at its break.
  unfoldable pub lease_ranges : ℕ → ℕ → List Text → ℕ → Option (List (ℕ × ℕ))
  unfolding lease_range
  lease_ranges ripe num [] last = some []
  lease_ranges ripe num (k ∷ ks) last = elim (lease_range ipaddr k) [
    | none ↦ none
    | some (ips, ipe) ↦
        let skipped = lease_ranges ripe num ks last in
        let behind = lease_ranges ripe num ks (add32 (if ltb ripe ipe then ripe else ipe) 1) in
        if ips == 0 || ltb ripe ips
        then after_lease (ips, ipe) skipped
        else if ltb (sub32 ips last) num
        then after_lease (ips, ipe) behind
        else some ((ips, ipe) ∷ [])
  ]

  -- ipamGetFreeIPRange on the keys that etcd returns, in ascending order; `none` is a panic.
  unfoldable pub get_free_ip_range : List Text → Range → ℕ → Option (Option SimpleRange)
  unfolding lease_ranges first_free_ip free_range
  get_free_ip_range keys r n =
      let rips = first_free_ip ipaddr r in
      let ripe = ipaddr.ip4_to_uint32 r.range_end in
      elim (lease_ranges ripe (range_size ipaddr n) keys rips) [
        | none ↦ none
        | some leases ↦ elim (free_range rips ripe (range_size ipaddr n) leases) [
          | none ↦ some none
          | some (sips, sipe) ↦ some (
              some (record {
                range_start = ipaddr.uint32_to_ip4 sips;
                range_end = ipaddr.uint32_to_ip4 sipe;
              }))
        ]
      ]
