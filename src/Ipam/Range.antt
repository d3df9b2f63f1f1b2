-- ===== src/Ipam/Range.antt =====
-- multus-ipam/backend/allocator/range.go, and the types Range and SimpleRange of config.go.
pub mod Canonical
use multus_ext_cni.Prelude.{
  ◌+◌, ◌-◌, ◌%◌, Bool, true, false, not, ◌&&◌, ◌||◌, List, [], ◌∷◌, Ordering, ltb, ◌==◌,
  if◌then◌else◌, length, Text, Result, ok, err, ◌>>=◌, ◌>>◌, guard,
}
use Prim.Native.Nat.{bit_or}
use multus_ext_cni.Net.{Ip, IpNet, is_nil, to4, equal, mask_ip, mask_size, net_contains}
use multus_ext_cni.Net.IpPackage.{IpPackage}
use multus_ext_cni.Ipam.Address.{
  AllocError, canonicalize_ip, too_small, version_mismatch, host_bits_set, start_outside,
  end_outside,
}

pub record Range : Type 0 where
  pub range_start : Ip
  pub range_end : Ip
  pub subnet : IpNet
  pub gateway : Ip
  pub reserves : List Ip

pub record SimpleRange : Type 0 where
  pub range_start : Ip
  pub range_end : Ip

-- The sign of Cmp: `< 0`, `> 0`, `== 0`.
abbrev pub is_less : Ordering → Bool
is_less Ordering.lt = true
is_less _ = false

abbrev pub is_greater : Ordering → Bool
is_greater Ordering.gt = true
is_greater _ = false

abbrev pub is_same : Ordering → Bool
is_same Ordering.eq = true
is_same _ = false

-- x | ^m on bytes
abbrev host_bytes : Text → Text → Text
host_bytes [] _ = []
host_bytes (a ∷ as') [] = []
host_bytes (a ∷ as') (m ∷ ms) = bit_or a (255 - m) ∷ host_bytes as' ms

-- end[3]--, on a byte
abbrev drop_broadcast : Text → Text
drop_broadcast (a ∷ b ∷ c ∷ d ∷ rest) = a ∷ b ∷ c ∷ (d + 255) % 256 ∷ rest
drop_broadcast bs = bs

-- lastIP: `Canonicalize` has checked that the address and the mask have one length.
unfoldable pub last_ip : IpNet → Ip
last_ip subnet =
    let end = host_bytes subnet.ip subnet.mask in
    if not (is_nil (to4 subnet.ip)) then drop_broadcast end else end

module _ (p : IpPackage) where
  open p use {cmp, next_ip}

  -- (*Range).Contains, for an address in its canonical form
  unfoldable pub contains_form : Range → Ip → Bool
  contains_form r addr =
      length addr == length r.subnet.ip
      && net_contains r.subnet addr
      && (is_nil r.range_start || not (is_less (cmp addr r.range_start)))
      && (is_nil r.range_end || not (is_greater (cmp addr r.range_end)))

  -- (*Range).Contains
  unfoldable pub contains : Range → Ip → Bool
  unfolding contains_form
  contains r addr = elim (canonicalize_ip addr) [ ok a ↦ contains_form r a | err e ↦ false ]

  -- (*Range).Overlaps
  unfoldable pub overlaps : Range → Range → Bool
  overlaps r r1 =
      length r.range_start == length r1.range_start
      && (contains r r1.range_start
          || contains r r1.range_end
          || contains r1 r.range_start
          || contains r1 r.range_end)

  -- The first half of (*Range).Canonicalize: the subnet.
  unfoldable pub canonicalize_subnet : Range → Result AllocError Range
  canonicalize_subnet r = do
    ip ← canonicalize_ip r.subnet.ip
    let mask = r.subnet.mask
    let (ones, bits) = mask_size mask
    guard (not (ltb bits (ones + 2))) too_small
    guard (length ip == length mask) version_mismatch
    guard (equal ip (mask_ip ip mask)) host_bits_set
    ok (record r { subnet = record { ip = ip; mask = mask } })

  unfoldable pub canonicalize_gateway : Range → Result AllocError Range
  canonicalize_gateway r =
      if is_nil r.gateway
      then ok (record r { gateway = next_ip r.subnet.ip })
      else do g ← canonicalize_ip r.gateway; ok (record r { gateway = g })

  unfoldable pub canonicalize_start : Range → Result AllocError Range
  canonicalize_start r =
      if is_nil r.range_start then ok (record r { range_start = next_ip r.subnet.ip }) else do
        s ← canonicalize_ip r.range_start
        let r' : Range = record r { range_start = s }
        guard (contains r' s) start_outside
        ok r'

  unfoldable pub canonicalize_end : Range → Result AllocError Range
  canonicalize_end r =
      if is_nil r.range_end then ok (record r { range_end = last_ip r.subnet }) else do
        e ← canonicalize_ip r.range_end
        let r' : Range = record r { range_end = e }
        guard (contains r' e) end_outside
        ok r'

  -- (*Range).Canonicalize
  unfoldable pub canonicalize : Range → Result AllocError Range
  canonicalize r = do
    a ← canonicalize_subnet r
    b ← canonicalize_gateway a
    c ← canonicalize_start b
    canonicalize_end c
