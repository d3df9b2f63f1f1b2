-- ===== src/Ipam/Lease/Search.antt =====
-- What ipamGetFreeIPRange (multus-ipam/backend/etcdv3cli/cli.go) finds between the leases.
use multus_ext_cni.Prelude.{
  ℕ, ◌+◌, ◌-◌, ◌≤◌, ◌<◌, ◌≡◌, ◌⊎◌, inl, inr, List, [], ◌∷◌, some, ltb, leb, arith, All, Bool-cases,
  subst, sym, ap, ◌∙◌, true, false,
}
use multus_ext_cni.Ipam.Lease.{add32, sub32, gap, free_range}

-- The leases lie one behind the other, from `lo` on, and end before `ripe`.
abbrev pub AreBelow : ℕ → ℕ → List (ℕ × ℕ) → Type 0
AreBelow ripe lo [] = Unit
AreBelow ripe lo ((ips, ipe) ∷ leases) =
    (lo ≤ ips) × (ips ≤ ipe) × (ipe < ripe) × AreBelow ripe (ipe + 1) leases

-- No address of the lease is among the `num` addresses from `a` on.
abbrev pub IsApart : ℕ → ℕ → ℕ × ℕ → Type 0
IsApart num a lease = (lease.1 < a) ⊎ (a + num ≤ lease.0)

IsApart-later :
    (ripe num a lo : ℕ) (leases : List (ℕ × ℕ))
    → AreBelow ripe lo leases
    → a + num ≤ lo
    → All (IsApart num a) leases
IsApart-later ripe num a lo [] below far = tt
IsApart-later ripe num a lo ((ips, ipe) ∷ leases) (from, order, end, below) far =
    (inr (omega arith), IsApart-later ripe num a (ipe + 1) leases below (omega arith))

sub32_le : (a b : ℕ) → b ≤ a → a < 4294967296 → sub32 a b ≡ a - b
sub32_le a b h small = omega arith

module _ (ripe num last ips ipe : ℕ) (leases : List (ℕ × ℕ)) (pos : 1 ≤ last)
    (small : ripe < 4294967295) (from : last ≤ ips) (order : ips ≤ ipe) (end : ipe < ripe) where
  -- Before a lease there is too little room, or the search stops.
  gap-behind :
      ltb (ips - last) num ≡ true
      → gap ripe num ((ips, ipe) ∷ leases) last ≡ gap ripe num leases (ipe + 1)
  unfolding gap
  gap-behind narrow =
      let next : add32 ipe 1 ≡ ipe + 1 = omega arith in
      ground (arith, sub32_le ips last from (omega arith), next)

  gap-stop : ltb (ips - last) num ≡ false → gap ripe num ((ips, ipe) ∷ leases) last ≡ last
  unfolding gap
  gap-stop wide = ground (arith, sub32_le ips last from (omega arith))

gap-IsApart :
    (ripe num last : ℕ) (leases : List (ℕ × ℕ))
    → 1 ≤ last
    → last ≤ ripe
    → ripe < 4294967295
    → AreBelow ripe last leases
    → (last ≤ gap ripe num leases last)
      × (gap ripe num leases last ≤ ripe)
      × All (IsApart num (gap ripe num leases last)) leases
unfolding gap
gap-IsApart ripe num last [] pos inside small below = ground arith
gap-IsApart ripe num last ((ips, ipe) ∷ leases) pos inside small (from, order, end, below) =
    elim (Bool-cases (ltb (ips - last) num)) [
      | inl narrow ↦
          let (lo, hi, apart) =
            gap-IsApart ripe num (ipe + 1) leases (omega arith) (omega arith) small below in
          subst Found
            (sym (gap-behind ripe num last ips ipe leases pos small from order end narrow))
            (omega arith, hi, (inl (omega arith), apart))
      | inr wide ↦
          subst Found (sym (gap-stop ripe num last ips ipe leases pos small from order end wide)) (
            omega arith,
            inside,
            (inr (ground arith), IsApart-later ripe num last (ipe + 1) leases below (ground arith)),
          )
    ]
  where
    Found : ℕ → Type 0
    Found a = (last ≤ a) × (a ≤ ripe) × (IsApart num a (ips, ipe) × All (IsApart num a) leases)

-- The first free address and `num` are not 0, and the end of the range plus `num` is a 32-bit
-- number; the leases of a network lie one behind the other, from the first free address of the
-- range on, and end before the end of the range, which is below the last 32-bit number. Then the
-- addresses that the search for a range of `num` addresses finds are `num` many, inside the range,
-- and none of them belongs to a lease.
pub free_range-IsApart :
    (rips ripe num a b : ℕ) (leases : List (ℕ × ℕ))
    → 1 ≤ rips
    → rips ≤ ripe
    → ripe < 4294967295
    → 1 ≤ num
    → num < 4294967296
    → AreBelow ripe rips leases
    → free_range rips ripe num leases ≡ some (a, b)
    → (rips ≤ a) × (b ≤ ripe) × (b + 1 ≡ a + num) × All (IsApart num a) leases
unfolding free_range
free_range-IsApart rips ripe num a b leases pos inside small some' fits below found =
    let (lo, hi, apart) = gap-IsApart ripe num rips leases pos inside small below in
    let last = gap ripe num leases rips in
    elim (Bool-cases (leb (sub32 num 1) (sub32 ripe last))) [
      | inr none' ↦ absurd (ground arith)
      | inl room ↦
          let out : ℕ × ℕ = (last, sub32 (add32 last num) 1) in
          let pair : out ≡ (a, b) = ground arith in
          let same : last ≡ a = ap (λ q. q.0) pair in
          let end : sub32 (add32 last num) 1 ≡ b = ap (λ q. q.1) pair in
          let wide : num - 1 ≤ ripe - last =
            ground (arith, room, sub32_le num 1 some' fits, sub32_le ripe last hi (omega arith)) in
          (
            omega arith,
            omega arith,
            omega arith,
            subst (λ x. All (IsApart num x) leases) same apart,
          )
    ]

-- The leases lie one behind the other from `lo` on, with fewer than `num` addresses before each, and
-- the last one reaches the end of the range.
abbrev pub Fills : ℕ → ℕ → ℕ → List (ℕ × ℕ) → Type 0
Fills ripe num lo [] = ⊥
Fills ripe num lo ((ips, ipe) ∷ []) = (lo ≤ ips) × (ips ≤ ripe) × (ripe ≤ ipe) × (ips < lo + num)
Fills ripe num lo ((ips, ipe) ∷ l ∷ leases) =
    (lo ≤ ips)
    × (ips ≤ ipe)
    × (ipe < ripe)
    × (ips < lo + num)
    × Fills ripe num (ipe + 1) (l ∷ leases)

gap-end :
    (ripe num last ips ipe : ℕ)
    → 1 ≤ last
    → ripe < 4294967295
    → last ≤ ips
    → ips ≤ ripe
    → ripe ≤ ipe
    → ips < last + num
    → gap ripe num ((ips, ipe) ∷ []) last ≡ ripe + 1
unfolding gap
gap-end ripe num last ips ipe pos small from inside end narrow =
    let next : add32 ripe 1 ≡ ripe + 1 = omega arith in
    ground (arith, sub32_le ips last from (omega arith), next)

gap-Fills :
    (ripe num last : ℕ) (leases : List (ℕ × ℕ))
    → 1 ≤ last
    → ripe < 4294967295
    → Fills ripe num last leases
    → gap ripe num leases last ≡ ripe + 1
gap-Fills ripe num last [] pos small full = absurd full
gap-Fills ripe num last ((ips, ipe) ∷ []) pos small (from, inside, end, narrow) =
    gap-end ripe num last ips ipe pos small from inside end narrow
gap-Fills ripe num last ((ips, ipe) ∷ l ∷ leases) pos small (from, order, end, narrow, full) =
    gap-behind ripe num last ips ipe (l ∷ leases) pos small from order end (ground arith)
    ∙ gap-Fills ripe num (ipe + 1) (l ∷ leases) (omega arith) small full

-- The first free address and `num` are not 0, and the end of the range plus `num` is a 32-bit
-- number; the leases of a network lie one behind the other, from the first free address of the
-- range on, with fewer than `num` addresses before each, and the last one reaches the end of the
-- range. Then the search for `num` addresses does not fail: by the wrap-around of 32-bit numbers
-- it finds the `num` addresses behind the end of the range.
pub free_range-Fills :
    (rips ripe num : ℕ) (leases : List (ℕ × ℕ))
    → 1 ≤ rips
    → 1 ≤ num
    → ripe + num < 4294967296
    → Fills ripe num rips leases
    → free_range rips ripe num leases ≡ some (ripe + 1, ripe + num)
unfolding free_range
free_range-Fills rips ripe num leases pos some' small full =
    let last = gap-Fills ripe num rips leases pos (omega arith) full in
    let wraps : sub32 ripe (ripe + 1) ≡ 4294967295 = omega arith in
    let end : sub32 (add32 (ripe + 1) num) 1 ≡ ripe + num = omega arith in
    let size : sub32 num 1 ≡ num - 1 = omega arith in
    let room : leb (sub32 num 1) (sub32 ripe (ripe + 1)) ≡ true = ground (arith, wraps, size) in
    rw last (rw room (ap (λ x. some (ripe + 1, x)) end))
