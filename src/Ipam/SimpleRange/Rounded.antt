-- ===== src/Ipam/SimpleRange/Rounded.antt =====
-- The end that SimpleRange.Canonicalize (multus-ipam/backend/allocator/range.go) gives a range.
use multus_ext_cni.Prelude.{
  ℕ, ==_iff, Bool, zero, suc, ◌+◌, ◌-◌, ◌/◌, ◌^◌, ◌≤◌, ◌<◌, ◌≡◌, ◌==◌, ltb, ap, subst, sym,
  Bool-cases, true, false, inl, inr, arith, ok, err, if◌then◌else◌, ◌∙◌, refl,
}
use native.Mathlib.Nat.{two-pow-succ, one-le-pow}
use multus_ext_cni.Net.{Ip}
use multus_ext_cni.Ipam.Address.{canonicalize_ip}
use multus_ext_cni.Ipam.Lease.{IpAddr, add32, sub32}
use multus_ext_cni.Ipam.Range.{SimpleRange}
use multus_ext_cni.Ipam.SimpleRange.{log2, host_size, round_end, form_of, canonicalize}

-- The documented results of package ipaddr on 32-bit numbers
pub record IpAddrLaws (ipaddr : IpAddr) : Type 0 where
  pub number_of : (n : ℕ) → n < 4294967296 → ipaddr.ip4_to_uint32 (ipaddr.uint32_to_ip4 n) ≡ n
  pub address_form :
      (n : ℕ) → canonicalize_ip (ipaddr.uint32_to_ip4 n) ≡ ok (ipaddr.uint32_to_ip4 n)
  pub add_seg_power : (n h : ℕ) → ipaddr.add_seg n h ≡ add32 n (2 ^ h)

log2-bounds :
    (fuel n : ℕ) → 0 < n → n < 2 ^ fuel → (2 ^ log2 fuel n ≤ n) × (n < 2 ^ suc (log2 fuel n))
unfolding log2
log2-bounds zero n above below = (omega arith, omega arith)
log2-bounds (suc fuel) n above below = elim (Bool-cases (ltb n 2)) [
  | inl small ↦ ground (arith, above)
  | inr large ↦
      let (lo, hi) = log2-bounds fuel (n / 2) (ground arith) (omega (arith, two-pow-succ fuel)) in
      ground
        (arith, lo, hi, two-pow-succ (log2 fuel (n / 2)), two-pow-succ (suc (log2 fuel (n / 2))))
]

-- The size of a range, and the end of a part of it, are not cut off at 32 bits.
size-number :
    (a b : ℕ) → a ≤ b → b < 4294967296 → b - a < 4294967295 → add32 (sub32 b a) 1 ≡ b - a + 1
size-number a b ordered small most = omega arith

end-number :
    (a b m : ℕ)
    → 0 < m
    → a + m ≤ b + 1
    → b < 4294967296
    → (sub32 (add32 a m) 1 + 1 ≡ a + m) × (sub32 (add32 a m) 1 < 4294967296)
end-number a b m above inside small = (omega arith, omega arith)

module _ (ipaddr : IpAddr) (laws : IpAddrLaws ipaddr) where
  open ipaddr use {ip4_to_uint32, uint32_to_ip4}

  form_of-id : (a : Ip) → canonicalize_ip a ≡ ok a → form_of a ≡ a
  form_of-id a is = ap (λ x. elim x [ ok c ↦ c | err e ↦ a ]) is

  -- The number of the end, whether it is the old one or not
  either-number :
      (x y : Ip) (e : ℕ) (old : Bool)
      → (old ≡ true → ip4_to_uint32 x ≡ e)
      → ip4_to_uint32 y ≡ e
      → canonicalize_ip x ≡ ok x
      → canonicalize_ip y ≡ ok y
      → ip4_to_uint32 (form_of (if old then x else y)) ≡ e
  either-number x y e true is_old is_new x_form y_form =
      ap ip4_to_uint32 (form_of-id x x_form) ∙ is_old refl
  either-number x y e false is_old is_new x_form y_form =
      ap ip4_to_uint32 (form_of-id y y_form) ∙ is_new

  canonicalize-form :
      (r : SimpleRange)
      → canonicalize_ip r.range_start ≡ ok r.range_start
      → canonicalize ipaddr r
        ≡ record { range_start = r.range_start; range_end = form_of (round_end ipaddr r) }
  unfolding canonicalize
  canonicalize-form r start =
      ap
        (λ x. elim x [
          | err e ↦ r
          | ok a ↦ record {
            range_start = a;
            range_end = form_of (round_end ipaddr (record r { range_start = a }));
          }
        ])
        start

  round_end-number :
      (r : SimpleRange) (n e : ℕ)
      → add32 (sub32 (ip4_to_uint32 r.range_end) (ip4_to_uint32 r.range_start)) 1 ≡ n
      → sub32 (add32 (ip4_to_uint32 r.range_start) (2 ^ log2 32 n)) 1 ≡ e
      → e < 4294967296
      → canonicalize_ip r.range_end ≡ ok r.range_end
      → ip4_to_uint32 (form_of (round_end ipaddr r)) ≡ e
  unfolding round_end host_size
  round_end-number r n e size end small canonical =
      let a = ip4_to_uint32 r.range_start in
      let whole =
        ap (λ k. sub32 (ipaddr.add_seg a (log2 32 k)) 1) size
        ∙ ap (λ k. sub32 k 1) (laws.add_seg_power a (log2 32 n))
        ∙ end in
      subst
        (λ k.
          ip4_to_uint32
            (form_of (if ip4_to_uint32 r.range_end == k then r.range_end else uint32_to_ip4 k))
          ≡ e)
        (sym whole)
        (either-number r.range_end (uint32_to_ip4 e) e (ip4_to_uint32 r.range_end == e)
          ((==_iff (ip4_to_uint32 r.range_end) e).0) (laws.number_of e small) canonical
          (laws.address_form e))

  -- A range of addresses in canonical form, in order, that is not all of the 32-bit numbers; the
  -- functions of package ipaddr keep numbers of addresses. Then SimpleRange.Canonicalize keeps the
  -- start, and gives the range an end, not behind the old one, so that its size is a power of two,
  -- the greatest one that the range has room for.
  pub canonicalize-greatest :
      (r : SimpleRange)
      → canonicalize_ip r.range_start ≡ ok r.range_start
      → canonicalize_ip r.range_end ≡ ok r.range_end
      → ip4_to_uint32 r.range_start ≤ ip4_to_uint32 r.range_end
      → ip4_to_uint32 r.range_end - ip4_to_uint32 r.range_start < 4294967295
      → ip4_to_uint32 r.range_end < 4294967296
      → ((canonicalize ipaddr r).range_start ≡ r.range_start)
        × ((h : ℕ) × (ip4_to_uint32 (canonicalize ipaddr r).range_end + 1
              ≡ ip4_to_uint32 r.range_start + 2 ^ h)
            × (ip4_to_uint32 (canonicalize ipaddr r).range_end ≤ ip4_to_uint32 r.range_end)
            × (ip4_to_uint32 r.range_end + 1 < ip4_to_uint32 r.range_start + 2 ^ suc h))
  canonicalize-greatest r start end ordered most small =
      let a = ip4_to_uint32 r.range_start in
      let b = ip4_to_uint32 r.range_end in
      let h = log2 32 (b - a + 1) in
      let (lo, hi) = log2-bounds 32 (b - a + 1) (omega arith) (omega arith) in
      let (ends, below) =
        end-number a b (2 ^ h) (one-le-pow h 2 (omega arith)) (omega (arith, lo)) small in
      let number =
        ap (λ x. ip4_to_uint32 x.range_end) (canonicalize-form r start)
        ∙ round_end-number r (b - a + 1) _ (size-number a b ordered small most) refl below end in
      (
        ap (λ x. x.range_start) (canonicalize-form r start),
        (h, omega (arith, number, ends), omega (arith, number, ends, lo), omega (arith, hi)),
      )
