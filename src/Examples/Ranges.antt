-- ===== src/Examples/Ranges.antt =====
-- The range 10.0.0.1 to 10.0.0.3 of the network 10.0.0.0/29, whose gateway is its first address, and
-- the range 10.0.1.1 to 10.0.1.2 of a second one.
use multus_ext_cni.Prelude.{ℕ, ◌+◌, ◌<◌, ◌≤◌, refl, [], ◌∷◌, arith}
use multus_ext_cni.Net.Number.{value}
use multus_ext_cni.Ipam.Range.{Range}
use multus_ext_cni.Ipam.RangeSet.{RangeSet}
use multus_ext_cni.Ipam.Iter.Span.{IsRange, Stands}
use multus_ext_cni.Ipam.Iter.Chain.{total}
use multus_ext_cni.Examples.Addresses.{v4, v4-IsCanonical, value-v4}

-- A range of a network of eight addresses, that begins with the gateway.
abbrev pub range : ℕ → ℕ → Range
range net last = record {
  range_start = v4 (net + 1);
  range_end = v4 (net + last);
  subnet = record { ip = v4 net; mask = 255 ∷ 255 ∷ 255 ∷ 248 ∷ [] };
  gateway = v4 (net + 1);
  reserves = v4 (net + 2) ∷ [];
}

-- 10.0.0.0
abbrev pub ten : ℕ
ten = 167772160

abbrev pub first : Range
first = range ten 3

abbrev pub second : Range
second = range (ten + 256) 2

abbrev pub set : RangeSet
set = first ∷ second ∷ []

pub v4-Stands : (n : ℕ) → n < 4294967296 → Stands 4 (v4 n) n
v4-Stands n h = record {
  form = v4 n;
  has_form = v4-IsCanonical n h;
  form_family = refl;
  number = value-v4 n;
}

pub range-IsRange : (net last : ℕ) → 1 ≤ last → net + last < 4294967296 → IsRange 4 (range net last)
range-IsRange net last some_left small = record {
  start = v4-IsCanonical (net + 1) (omega arith);
  end = v4-IsCanonical (net + last) small;
  start_family = refl;
  end_family = refl;
  ordered = omega (arith, value-v4 (net + 1), value-v4 (net + last));
  spans = λ v lo hi.
      let bound : v ≤ net + last = omega (arith, hi, value-v4 (net + last)) in
      (v4 v, v4-IsCanonical v (omega arith), refl, value-v4 v);
}

pub first-IsRange : IsRange 4 first
first-IsRange = range-IsRange ten 3 (omega arith) (omega arith)

pub second-IsRange : IsRange 4 second
second-IsRange = range-IsRange (ten + 256) 2 (omega arith) (omega arith)

-- The number 10.0.0.2 is inside the first range, and the set has few addresses.
pub low : value first.range_start ≤ ten + 2
low = omega (arith, value-v4 (ten + 1))

pub high : ten + 2 < value first.range_end
high = omega (arith, value-v4 (ten + 3))

pub total-set : total set + 1 ≤ 20
total-set = omega (
  arith,
  value-v4 (ten + 1),
  value-v4 (ten + 3),
  value-v4 (ten + 256 + 1),
  value-v4 (ten + 256 + 2),
)
