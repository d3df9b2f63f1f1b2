-- ===== src/Ipam/Lease/Reading.antt =====
-- ipamGetFreeIPRange (multus-ipam/backend/etcdv3cli/cli.go) on the keys of the leases.
use multus_ext_cni.Prelude.{
  ℕ, ◌+◌, ◌≤◌, ◌<◌, ◌≡◌, ◌==◌, ◌||◌, inl, inr, List, [], ◌∷◌, none, some, ltb, leb, arith, All,
  Bool-cases, Option-cases, sym, ap, ◌∙◌, Text, refl, if◌then◌else◌, some-injective,
}
use multus_ext_cni.Ipam.Range.{Range, SimpleRange}
use multus_ext_cni.Ipam.Lease.{
  IpAddr, add32, sub32, gap, free_range, lease_range, lease_ranges, first_free_ip, range_size,
  get_free_ip_range,
}
use multus_ext_cni.Ipam.Lease.Search.{AreBelow, IsApart, free_range-IsApart}

module _ (ipaddr : IpAddr) where
  open ipaddr use {ip4_to_uint32, uint32_to_ip4}

  -- The keys are those of the leases.
  abbrev pub AreOf : List Text → List (ℕ × ℕ) → Type 0
  AreOf [] [] = Unit
  AreOf [] (l ∷ ls) = ⊥
  AreOf (k ∷ ks) [] = ⊥
  AreOf (k ∷ ks) (l ∷ ls) = (lease_range ipaddr k ≡ some l) × AreOf ks ls

  -- The keys behind the break do not matter.
  abbrev Reads : ℕ → ℕ → ℕ → List Text → List (ℕ × ℕ) → Type 0
  Reads ripe num last ks ls =
      (read : List (ℕ × ℕ)) × (lease_ranges ipaddr ripe num ks last ≡ some read)
      × (gap ripe num read last ≡ gap ripe num ls last)

  lease_ranges-Reads :
      (ripe num last : ℕ) (ks : List Text) (ls : List (ℕ × ℕ))
      → AreOf ks ls
      → Reads ripe num last ks ls
  unfolding lease_ranges gap
  lease_ranges-Reads ripe num last [] [] are = ([], refl, refl)
  lease_ranges-Reads ripe num last [] (l ∷ ls) are = absurd are
  lease_ranges-Reads ripe num last (k ∷ ks) [] are = absurd are
  lease_ranges-Reads ripe num last (k ∷ ks) ((ips, ipe) ∷ ls) (own, are) =
      elim (Bool-cases (ips == 0 || ltb ripe ips)) [
        | inl skips ↦
            let (read, e, same) = lease_ranges-Reads ripe num last ks ls are in
            ((ips, ipe) ∷ read, ground (arith, own, e, skips), ground (arith, skips, same))
        | inr goes ↦ elim (Bool-cases (ltb (sub32 ips last) num)) [
          | inl narrow ↦
              let next = add32 (if ltb ripe ipe then ripe else ipe) 1 in
              let (read, e, same) = lease_ranges-Reads ripe num next ks ls are in
              (
                (ips, ipe) ∷ read,
                ground (arith, own, e, goes, narrow),
                ground (arith, goes, narrow, same),
              )
          | inr wide ↦
              ((ips, ipe) ∷ [], ground (arith, own, goes, wide), ground (arith, goes, wide))
        ]
      ]

  free_range-same :
      (rips ripe num : ℕ) (ls ms : List (ℕ × ℕ))
      → gap ripe num ls rips ≡ gap ripe num ms rips
      → free_range rips ripe num ls ≡ free_range rips ripe num ms
  unfolding free_range
  free_range-same rips ripe num ls ms same =
      ap
        (λ last.
          if leb (sub32 num 1) (sub32 ripe last)
          then some (last, sub32 (add32 last num) 1)
          else none)
        same

  -- The first free address and the size that is asked for are not 0, and the keys in etcd are
  -- those of leases that lie one behind the other, from the first free address of the range on,
  -- and end before the end of the range, which is below the last 32-bit number. Then a range that
  -- ipamGetFreeIPRange finds is that of two numbers inside the range, is as long as it is asked
  -- for, and none of its addresses belongs to a lease, not even to one whose key the loop has not
  -- read.
  pub get_free_ip_range-IsApart :
      (keys : List Text) (leases : List (ℕ × ℕ)) (r : Range) (n : ℕ) (sr : SimpleRange)
      → AreOf keys leases
      → 1 ≤ first_free_ip ipaddr r
      → first_free_ip ipaddr r ≤ ip4_to_uint32 r.range_end
      → ip4_to_uint32 r.range_end < 4294967295
      → 1 ≤ range_size ipaddr n
      → AreBelow (ip4_to_uint32 r.range_end) (first_free_ip ipaddr r) leases
      → get_free_ip_range ipaddr keys r n ≡ some (some sr)
      → (a : ℕ) × (b : ℕ) × (sr
          ≡ record { range_start = uint32_to_ip4 a; range_end = uint32_to_ip4 b })
        × (first_free_ip ipaddr r ≤ a)
        × (b ≤ ip4_to_uint32 r.range_end)
        × (b + 1 ≡ a + range_size ipaddr n)
        × All (IsApart (range_size ipaddr n) a) leases
  unfolding get_free_ip_range
  get_free_ip_range-IsApart keys leases r n sr are pos inside small size below found =
      let rips = first_free_ip ipaddr r in
      let ripe = ip4_to_uint32 r.range_end in
      let num = range_size ipaddr n in
      let (read, e, same) = lease_ranges-Reads ripe num rips keys leases are in
      elim (Option-cases (free_range rips ripe num read)) [
        | inl failed ↦ absurd (ground arith)
        | inr ((a, b), at) ↦
            let all = sym (free_range-same rips ripe num read leases same) ∙ at in
            let part : SimpleRange = record {
              range_start = uint32_to_ip4 a;
              range_end = uint32_to_ip4 b;
            } in
            let shown : some (some part) ≡ some (some sr) = ground arith in
            let (lo, hi, long, apart) =
              free_range-IsApart rips ripe num a b leases pos inside small size (omega arith) below
                all in
            (a, b, sym (some-injective (some-injective shown)), lo, hi, long, apart)
      ]
