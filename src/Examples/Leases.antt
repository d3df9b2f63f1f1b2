-- ===== src/Examples/Leases.antt =====
-- The theorems on the search between leases, at the ranges of 10.0.0.0/24.
use multus_ext_cni.Prelude.{
  ℕ, ◌+◌, ◌++◌, ◌^◌, Text, codes, none, ◌≤◌, ◌≡◌, refl, List, [], ◌∷◌, some, All, arith, Bool, true,
  false, inl, inr,
}
use multus_ext_cni.Net.Number.{value}
use multus_ext_cni.Ipam.Range.{Range, SimpleRange}
use multus_ext_cni.Ipam.Config.EnvArgs.{digits}
use multus_ext_cni.Ipam.Lease.{
  IpAddr, add32, lease_range, first_free_ip, get_free_ip_range, free_range, gap,
}
use multus_ext_cni.Ipam.Lease.Reading.{AreOf, get_free_ip_range-IsApart}
use multus_ext_cni.Examples.Addresses.{v4, value-v4}
use multus_ext_cni.Ipam.Lease.Search.{AreBelow, IsApart, free_range-IsApart, free_range-Fills}
use multus_ext_cni.Ipam.Lease.Fixed.{Slot, choose, scan}
use multus_ext_cni.Ipam.Lease.Fixed.Free.{Ascend, IsFree, choose-IsFree}
use multus_ext_cni.Examples.Ranges.{ten, first}

-- Two leases of sixteen addresses from 10.0.0.16 on.
abbrev leases : List (ℕ × ℕ)
leases = (ten + 16, ten + 31) ∷ (ten + 32, ten + 47) ∷ []

free-leases : free_range (ten + 16) (ten + 254) 16 leases ≡ some (ten + 48, ten + 63)
unfolding free_range gap
free-leases = refl

free_range-IsApart_example :
    (ten + 16 ≤ ten + 48)
    × (ten + 63 ≤ ten + 254)
    × (ten + 63 + 1 ≡ ten + 48 + 16)
    × All (IsApart 16 (ten + 48)) leases
free_range-IsApart_example =
    free_range-IsApart (ten + 16) (ten + 254) 16 (ten + 48) (ten + 63) leases (omega arith)
      (omega arith) (omega arith) (omega arith) (omega arith)
      (omega arith, omega arith, omega arith, (omega arith, omega arith, omega arith, tt))
      free-leases

-- The range ends with the second lease.
free_range-Fills_example :
    free_range (ten + 16) (ten + 47) 16 leases ≡ some (ten + 47 + 1, ten + 47 + 16)
free_range-Fills_example =
    free_range-Fills (ten + 16) (ten + 47) 16 leases (omega arith) (omega arith) (omega arith) (
      omega arith,
      omega arith,
      omega arith,
      omega arith,
      (omega arith, omega arith, omega arith, omega arith),
    )

-- Two pods have 10.0.0.5 and 10.0.0.7; an entry of another network is outside the range.
abbrev other : ℕ → Bool → Slot
other n outside = record { key = []; number = n; outside = outside; mine = false }

abbrev slots : List Slot
slots = other (ten + 5) false ∷ other (ten + 300) true ∷ other (ten + 7) false ∷ []

choose-slots : choose (λ n. 1) (ten + 9) slots (ten + 4) ≡ some (ten + 6)
unfolding choose scan
choose-slots = refl

choose-IsFree_example : (ten + 4 ≤ ten + 6) × (ten + 6 ≤ ten + 9) × IsFree slots (ten + 6)
choose-IsFree_example =
    choose-IsFree (λ n. 1) (ten + 4) (ten + 9) (ten + 6) slots (omega arith) up choose-slots
  where
    up : Ascend (ten + 9) (ten + 4) slots
    up = inr (
      refl,
      refl,
      omega arith,
      omega arith,
      inl (refl, inr (refl, refl, omega arith, omega arith, tt)),
    )

-- The keys of leases at 10.0.0.16, 10.0.0.32 and 10.0.0.96, of sixteen addresses each
abbrev keys : List Text
keys =
    codes "multus/lease/net/0167772176-4"
    ∷ codes "multus/lease/net/0167772192-4"
    ∷ codes "multus/lease/net/0167772256-4"
    ∷ []

abbrev leased : List (ℕ × ℕ)
leased = (ten + 16, ten + 31) ∷ (ten + 32, ten + 47) ∷ (ten + 96, ten + 111) ∷ []

abbrev ipaddr : IpAddr
ipaddr = record {
  ip4_to_uint32 = value;
  uint32_to_ip4 = v4;
  str_to_uint32 = λ t. elim (digits 0 t) [ none ↦ 0 | some n ↦ n ];
  add_seg = λ n h. add32 n (2 ^ h);
}

-- From 10.0.0.1 to 10.0.0.254
abbrev lan : Range
lan = record first { range_end = v4 (ten + 254) }

are_leased : AreOf ipaddr keys leased
unfolding lease_range digits multus_ext_cni.Prelude.split
are_leased = (refl, (refl, (refl, tt)))

starts : first_free_ip ipaddr lan ≡ ten + 2
unfolding first_free_ip value
starts = refl

abbrev part : ℕ → ℕ → SimpleRange
part a b = record { range_start = v4 a; range_end = v4 b }

gets : get_free_ip_range ipaddr keys lan 4 ≡ some (some (part (ten + 48) (ten + 63)))
unfolding get_free_ip_range value digits
gets = refl

-- The loop stops before a key that has no dash.
stops :
    get_free_ip_range ipaddr (keys ++ codes "multus/lease/net/1" ∷ []) lan 4
    ≡ get_free_ip_range ipaddr keys lan 4
unfolding get_free_ip_range value digits
stops = refl

get_free_ip_range-IsApart_example :
    (a : ℕ) × (b : ℕ) × (part (ten + 48) (ten + 63) ≡ part a b)
    × (first_free_ip ipaddr lan ≤ a)
    × (b ≤ value (v4 (ten + 254)))
    × (b + 1 ≡ a + 16)
    × All (IsApart 16 a) leased
get_free_ip_range-IsApart_example =
    get_free_ip_range-IsApart ipaddr keys leased lan 4 (part (ten + 48) (ten + 63)) are_leased
      (omega (arith, starts)) (omega (arith, starts, value-v4 (ten + 254)))
      (omega (arith, value-v4 (ten + 254))) (omega arith) below gets
  where
    below : AreBelow (value (v4 (ten + 254))) (first_free_ip ipaddr lan) leased
    below = (
      omega (arith, starts),
      omega arith,
      omega (arith, value-v4 (ten + 254)),
      (
        omega arith,
        omega arith,
        omega (arith, value-v4 (ten + 254)),
        (omega arith, omega arith, omega (arith, value-v4 (ten + 254)), tt),
      ),
    )
