-- ===== src/Ipam/SimpleRange.antt =====
-- SimpleRange of multus-ipam/backend/allocator/config.go with its comparisons and its canonical form
-- (range.go).
pub mod Rounded
use multus_ext_cni.Prelude.{
  ℕ, zero, suc, ◌/◌, ◌==◌, ltb, if◌then◌else◌, Bool, not, ◌&&◌, ◌||◌, ok, err,
}
use multus_ext_cni.Ipam.Address.{canonicalize_ip}
use multus_ext_cni.Ipam.Lease.{IpAddr, add32, sub32}
use multus_ext_cni.Net.{Ip}
use multus_ext_cni.Net.IpPackage.{IpPackage}
use multus_ext_cni.Ipam.Range.{SimpleRange, is_less, is_greater, is_same}

module _ (p : IpPackage) where
  open p use {cmp}

  -- SimpleRange.Overlaps, Match and Contains
  unfoldable pub overlaps : SimpleRange → SimpleRange → Bool
  overlaps r r1 =
      (not (is_less (cmp r.range_start r1.range_start))
        && not (is_greater (cmp r.range_start r1.range_end)))
      || (not (is_less (cmp r.range_end r1.range_start))
          && not (is_greater (cmp r.range_end r1.range_end)))

  unfoldable pub matches : SimpleRange → SimpleRange → Bool
  matches r r1 =
      is_same (cmp r.range_start r1.range_start) && is_same (cmp r.range_end r1.range_end)

  unfoldable pub contains : SimpleRange → SimpleRange → Bool
  contains r r1 =
      not (is_greater (cmp r.range_start r1.range_start))
      && not (is_less (cmp r.range_end r1.range_end))

-- `uint32(math.Log2(float64(n)))` of a 32-bit number: the number of halvings, which 32 bounds. It is 0
-- for 0, where the conversion of minus infinity depends on the machine.
unfoldable pub log2 : ℕ → ℕ → ℕ
log2 zero n = 0
log2 (suc fuel) n = let rest = log2 fuel (n / 2) in if ltb n 2 then 0 else suc rest

-- What canonicalizeIP leaves in its argument: the address as it was after an error.
abbrev pub form_of : Ip → Ip
form_of a = elim (canonicalize_ip a) [ ok c ↦ c | err e ↦ a ]

module _ (ipaddr : IpAddr) where
  open ipaddr use {ip4_to_uint32, uint32_to_ip4, add_seg}

  -- SimpleRange.HostSize
  unfoldable pub host_size : SimpleRange → ℕ
  unfolding log2
  host_size r = log2 32 (add32 (sub32 (ip4_to_uint32 r.range_end) (ip4_to_uint32 r.range_start)) 1)

  -- The end of a range whose size is the greatest power of two that the range has room for
  unfoldable pub round_end : SimpleRange → Ip
  unfolding host_size
  round_end r =
      let end = sub32 (add_seg (ip4_to_uint32 r.range_start) (host_size r)) 1 in
      if ip4_to_uint32 r.range_end == end then r.range_end else uint32_to_ip4 end

  -- SimpleRange.Canonicalize, with what it leaves behind after an error
  unfoldable pub canonicalize : SimpleRange → SimpleRange
  unfolding round_end
  canonicalize r = elim (canonicalize_ip r.range_start) [
    | err e ↦ r
    | ok start ↦ record {
      range_start = start;
      range_end = form_of (round_end (record r { range_start = start }));
    }
  ]
