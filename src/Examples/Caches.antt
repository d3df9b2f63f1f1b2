-- ===== src/Examples/Caches.antt =====
-- The theorems on simple ranges and on the cache of leased ranges, at two ranges.
use multus_ext_cni.Prelude.{
  ℕ, suc, ◌≤◌, ◌+◌, ◌%◌, ◌^◌, ◌<◌, map, refl, ◌≡◌, List, [], ◌∷◌, some, All, arith,
}
use multus_ext_cni.Ipam.Range.{SimpleRange}
use multus_ext_cni.Net.Number.{value}
use multus_ext_cni.Ipam.Lease.{IpAddr, add32}
use multus_ext_cni.Ipam.SimpleRange
use multus_ext_cni.Ipam.SimpleRange.Rounded.{IpAddrLaws, canonicalize-greatest}
use multus_ext_cni.Ipam.Disk.Cache.{load_cache, flash_cache}
use multus_ext_cni.Ipam.Disk.Cache.RoundTrip.{HasEnds, AreForms, load-flash}
use multus_ext_cni.Examples.Addresses.{v4, value-v4, v4-IsCanonical, net_text, net_text_laws}
use multus_ext_cni.Examples.Ranges.{ten}

abbrev leased : ℕ → SimpleRange
leased n = record { range_start = v4 (ten + n); range_end = v4 (ten + n + 15) }

-- From 10.0.0.32 to 10.0.0.50
abbrev wide : SimpleRange
wide = record { range_start = v4 (ten + 32); range_end = v4 (ten + 50) }

-- The second range has room for 16 addresses.
abbrev cached : List SimpleRange
cached = leased 16 ∷ wide ∷ []

ends :
    (a b : ℕ)
    → a < 4294967296
    → b < 4294967296
    → HasEnds (record { range_start = v4 a; range_end = v4 b })
ends a b below_a below_b = ((_, v4-IsCanonical a below_a), (_, v4-IsCanonical b below_b))

cached-HasEnds : All HasEnds cached
cached-HasEnds = (
  ends (ten + 16) (ten + 16 + 15) (omega arith) (omega arith),
  (ends (ten + 32) (ten + 50) (omega arith) (omega arith), tt),
)

abbrev ipaddr : IpAddr
ipaddr = record {
  ip4_to_uint32 = value;
  uint32_to_ip4 = λ n. v4 (n % 4294967296);
  str_to_uint32 = λ t. 0;
  add_seg = λ n h. add32 n (2 ^ h);
}

is_rounded : map (SimpleRange.canonicalize ipaddr) cached ≡ leased 16 ∷ leased 32 ∷ []
unfolding SimpleRange.canonicalize multus_ext_cni.Ipam.Address.canonicalize_ip
    multus_ext_cni.Net.to4 value
is_rounded = refl

load-flash_example :
    (loaded : List SimpleRange) × (load_cache net_text (some (flash_cache net_text ipaddr cached))
      ≡ some loaded)
    × AreForms loaded (map (SimpleRange.canonicalize ipaddr) cached)
load-flash_example =
    load-flash net_text net_text_laws ipaddr
      (λ n. (_, v4-IsCanonical (n % 4294967296) (omega arith))) cached cached-HasEnds

ipaddr-laws : IpAddrLaws ipaddr
ipaddr-laws = record {
  number_of = λ n small. omega (arith, value-v4 (n % 4294967296));
  address_form = λ n. (v4-IsCanonical (n % 4294967296) (omega arith)).form;
  add_seg_power = λ n h. refl;
}

canonicalize-greatest_example :
    ((SimpleRange.canonicalize ipaddr wide).range_start ≡ v4 (ten + 32))
    × ((h : ℕ) × (value (SimpleRange.canonicalize ipaddr wide).range_end + 1
          ≡ value (v4 (ten + 32)) + 2 ^ h)
        × (value (SimpleRange.canonicalize ipaddr wide).range_end ≤ value (v4 (ten + 50)))
        × (value (v4 (ten + 50)) + 1 < value (v4 (ten + 32)) + 2 ^ suc h))
canonicalize-greatest_example =
    canonicalize-greatest ipaddr ipaddr-laws wide (v4-IsCanonical (ten + 32) (omega arith)).form
      (v4-IsCanonical (ten + 50) (omega arith)).form
      (omega (arith, value-v4 (ten + 32), value-v4 (ten + 50)))
      (omega (arith, value-v4 (ten + 32), value-v4 (ten + 50))) (omega (arith, value-v4 (ten + 50)))
