-- ===== src/Examples/Canonical.antt =====
-- The theorems on Canonicalize, at the ranges of Ranges.
use multus_ext_cni.Prelude.{◌+◌, ◌≤◌, ◌≡◌, refl, false, true, length, ok, arith}
use multus_ext_cni.Net.{to4, mask_size, equal, mask_ip, net_contains}
use multus_ext_cni.Ipam.Address.{canonicalize_ip}
use multus_ext_cni.Net.Number.{value}
use multus_ext_cni.Ipam.Range
use multus_ext_cni.Ipam.Range.Canonical.{canonicalize-ordered}
use multus_ext_cni.Ipam.RangeSet
use multus_ext_cni.Ipam.RangeSet.Disjoint.{canonicalize-overlaps}
use multus_ext_cni.Examples.Addresses.{v4, v4-IsCanonical, ip_package, ip_laws}
use multus_ext_cni.Examples.Ranges.{ten, first, second, set}

canonicalize-first : Range.canonicalize ip_package first ≡ ok first
unfolding Range.canonicalize Range.canonicalize_subnet canonicalize_ip to4 mask_size equal mask_ip
    Range.canonicalize_gateway Range.canonicalize_start Range.contains net_contains value
    Range.canonicalize_end
canonicalize-first = refl

canonicalize-set : RangeSet.canonicalize ip_package set ≡ ok set
unfolding RangeSet.canonicalize Range.canonicalize Range.canonicalize_subnet canonicalize_ip to4
    mask_size equal mask_ip Range.canonicalize_gateway Range.canonicalize_start Range.contains
    net_contains value Range.canonicalize_end Range.overlaps
canonicalize-set = refl

canonicalize-ordered_example :
    (first.range_start ≡ v4 (ten + 1))
    × (first.range_end ≡ v4 (ten + 3))
    × (length (v4 (ten + 1)) ≡ length (v4 (ten + 3)))
    × (value (v4 (ten + 1)) ≤ value (v4 (ten + 3)))
    × (Range.contains ip_package first (v4 (ten + 3)) ≡ true)
canonicalize-ordered_example =
    canonicalize-ordered ip_package ip_laws first first (v4 (ten + 1)) (v4 (ten + 3))
      (v4-IsCanonical (ten + 1) (omega arith)) (v4-IsCanonical (ten + 3) (omega arith))
      canonicalize-first

canonicalize-overlaps_example :
    (Range.overlaps ip_package first second ≡ false)
    × (length first.range_start ≡ length second.range_start)
canonicalize-overlaps_example =
    canonicalize-overlaps ip_package set set 0 1 first second canonicalize-set refl refl
      (omega arith)
