-- ===== src/Ipam/RangeSet.antt =====
-- multus-ipam/backend/allocator/range_set.go. A range set is a list of ranges.
pub mod Disjoint
use multus_ext_cni.Prelude.{
  ℕ, Bool, true, false, not, ◌||◌, List, [], ◌∷◌, Option, none, some, ◌==◌, if◌then◌else◌, length,
  any, Result, ok, err, ◌>>=◌, ◌>>◌, guard,
}
use multus_ext_cni.Net.{Ip}
use multus_ext_cni.Net.IpPackage.{IpPackage}
use multus_ext_cni.Ipam.Address.{
  AllocError, canonicalize_ip, empty_set, mixed_families, ranges_overlap, not_in_set,
}
use multus_ext_cni.Ipam.Range
use multus_ext_cni.Ipam.Range.{Range}

abbrev pub RangeSet : Type 0
RangeSet = List Range

module _ (p : IpPackage) where
  -- The loop of RangeFor.
  unfoldable pub find_range : RangeSet → Ip → Option Range
  find_range [] addr = none
  find_range (r ∷ rs) addr = if Range.contains p r addr then some r else find_range rs addr

  -- (*RangeSet).RangeFor
  unfoldable pub range_for : RangeSet → Ip → Result AllocError Range
  unfolding find_range
  range_for s addr = do
    a ← canonicalize_ip addr
    elim (find_range s a) [ none ↦ err not_in_set | some r ↦ ok r ]

  -- (*RangeSet).Contains
  unfoldable pub contains : RangeSet → Ip → Bool
  unfolding range_for
  contains s addr = elim (range_for s addr) [ ok r ↦ true | err e ↦ false ]

  -- (*RangeSet).Overlaps
  unfoldable pub overlaps : RangeSet → RangeSet → Bool
  overlaps s p1 = any (λ r. any (λ r1. Range.overlaps p r r1) p1) s

  -- The first loop of (*RangeSet).Canonicalize, from its second round on: `fam` is set.
  unfoldable pub canonicalize_rest : ℕ → RangeSet → Result AllocError RangeSet
  canonicalize_rest fam [] = ok []
  canonicalize_rest fam (r ∷ rs) = do
    c ← Range.canonicalize p r
    guard (fam == length c.range_start) mixed_families
    cs ← canonicalize_rest fam rs
    ok (c ∷ cs)

  -- The second loop: does a range overlap a later one?
  unfoldable pub any_overlap : RangeSet → Bool
  any_overlap [] = false
  any_overlap (r ∷ rs) = any (λ r2. Range.overlaps p r r2) rs || any_overlap rs

  -- (*RangeSet).Canonicalize
  unfoldable pub canonicalize : RangeSet → Result AllocError RangeSet
  unfolding canonicalize_rest any_overlap
  canonicalize [] = err empty_set
  canonicalize (r ∷ rs) = do
    c ← Range.canonicalize p r
    cs ← canonicalize_rest (length c.range_start) rs
    guard (not (any_overlap (c ∷ cs))) ranges_overlap
    ok (c ∷ cs)
