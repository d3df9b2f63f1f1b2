-- ===== src/Ipam/Lease/Fixed/Free.antt =====
-- The addresses that IPAMApplyFixIP (multus-ipam/backend/etcdv3cli/cli.go) chooses from.
use multus_ext_cni.Prelude.{
  ℕ, zero, suc, ◌+◌, ◌-◌, ◌≤◌, ◌<◌, ◌≡◌, ◌≢◌, sym, subst, true, false, List, [], ◌∷◌, Option, none,
  some, arith, All, All-append, All-map, length, get_elem?, get_elem?-All, get_elem?-lt, inl, inr,
  ◌⊎◌,
}
use multus_ext_cni.Ipam.Lease.{add32}
use multus_ext_cni.Ipam.Lease.Fixed.{Slot, Scan, has, free, count_up, put_before, scan, choose}

-- The addresses inside the range ascend from `lo` on and do not pass the end of the range; none is
-- the pod's own.
abbrev pub Ascend : ℕ → ℕ → List Slot → Type 0
Ascend ripe lo [] = Unit
Ascend ripe lo (s ∷ slots) =
    ((s.outside ≡ true) × Ascend ripe lo slots)
    ⊎ ((s.outside ≡ false)
        × (s.mine ≡ false)
        × (lo ≤ s.number)
        × (s.number ≤ ripe)
        × Ascend ripe (s.number + 1) slots)

-- No entry inside the range has the address.
abbrev pub IsFree : List Slot → ℕ → Type 0
IsFree slots n = All (λ s. s.outside ≡ false → s.number ≢ n) slots

-- An address that is below all entries is free.
Ascend-IsFree : (ripe lo n : ℕ) (slots : List Slot) → Ascend ripe lo slots → n < lo → IsFree slots n
Ascend-IsFree ripe lo n [] up below = tt
Ascend-IsFree ripe lo n (s ∷ slots) (inl (out, up)) below =
    (λ inside e. cc, Ascend-IsFree ripe lo n slots up below)
Ascend-IsFree ripe lo n (s ∷ slots) (inr (inside, other, from, to, up)) below =
    (λ h e. absurd (omega arith), Ascend-IsFree ripe (s.number + 1) n slots up (omega arith))

count_up-All :
    (first count : ℕ) → All (λ n. (first ≤ n) × (n < first + count)) (count_up first count)
count_up-All first zero = tt
count_up-All first (suc count) = (
  (omega arith, omega arith),
  All-map _ _ (count_up (first + 1) count) (λ n h. (omega (arith, h.0), omega (arith, h.1)))
      (count_up-All (first + 1) count),
)

-- What the scan finds.
abbrev Finds : ℕ → ℕ → List Slot → Scan → Type 0
Finds ripe lo slots (has n) = ⊥
Finds ripe lo slots (free ns) = All (λ n. (lo ≤ n) × (n ≤ ripe) × IsFree slots n) ns

put_before-Finds :
    (ripe lo : ℕ) (s : Slot) (slots : List Slot) (x : Scan)
    → lo ≤ s.number
    → s.number ≤ ripe
    → Ascend ripe (s.number + 1) slots
    → Finds ripe (s.number + 1) slots x
    → Finds ripe lo (s ∷ slots) (put_before (count_up lo (s.number - lo)) x)
put_before-Finds ripe lo s slots (has n) from to up found = found
put_before-Finds ripe lo s slots (free ns) from to up found =
    All-append _ (count_up lo (s.number - lo)) ns
      (All-map _ _ (count_up lo (s.number - lo))
        (λ n h. (
          h.0,
          omega (arith, h.1),
          (
            λ inside e. absurd (omega (arith, h.1, e)),
            Ascend-IsFree ripe (s.number + 1) n slots up (omega (arith, h.1)),
          ),
        ))
        (count_up-All lo (s.number - lo)))
      (All-map _ _ ns
        (λ n h. (omega (arith, h.0), h.1, (λ inside e. absurd (omega (arith, h.0, e)), h.2))) found)

skip-Finds :
    (ripe lo : ℕ) (s : Slot) (slots : List Slot) (x : Scan)
    → s.outside ≡ true
    → Finds ripe lo slots x
    → Finds ripe lo (s ∷ slots) x
skip-Finds ripe lo s slots (has n) out found = found
skip-Finds ripe lo s slots (free ns) out found =
    All-map _ _ ns (λ n h. (h.0, h.1, (λ inside e. cc, h.2))) found

scan-outside :
    (ripe lo : ℕ) (s : Slot) (slots : List Slot)
    → s.outside ≡ true
    → scan ripe (s ∷ slots) lo ≡ scan ripe slots lo
unfolding scan
scan-outside ripe lo s slots out = ground (arith, out)

scan-inside :
    (ripe lo : ℕ) (s : Slot) (slots : List Slot)
    → s.outside ≡ false
    → s.mine ≡ false
    → s.number < 4294967295
    → scan ripe (s ∷ slots) lo
      ≡ put_before (count_up lo (s.number - lo)) (scan ripe slots (s.number + 1))
unfolding scan
scan-inside ripe lo s slots inside other small =
    let next : add32 s.number 1 ≡ s.number + 1 = omega arith in ground (arith, inside, other, next)

scan-Finds :
    (ripe lo : ℕ) (slots : List Slot)
    → ripe < 4294967295
    → Ascend ripe lo slots
    → Finds ripe lo slots (scan ripe slots lo)
unfolding scan
scan-Finds ripe lo [] small up =
    All-map _ _ (count_up lo (add32 ripe 1 - lo)) (λ n h. (h.0, omega (arith, h.0, h.1), tt))
      (count_up-All lo (add32 ripe 1 - lo))
scan-Finds ripe lo (s ∷ slots) small (inl (out, up)) =
    subst (Finds ripe lo (s ∷ slots)) (sym (scan-outside ripe lo s slots out))
      (skip-Finds ripe lo s slots (scan ripe slots lo) out (scan-Finds ripe lo slots small up))
scan-Finds ripe lo (s ∷ slots) small (inr (inside, other, from, to, up)) =
    subst (Finds ripe lo (s ∷ slots)) (sym (scan-inside ripe lo s slots inside other (omega arith)))
      (put_before-Finds ripe lo s slots (scan ripe slots (s.number + 1)) from to up
        (scan-Finds ripe (s.number + 1) slots small up))

-- The entries of the network that are inside the range ascend from its first free address on, do
-- not pass its end, which is below the last 32-bit number, and are other pods'. Then the fixed
-- address that is chosen, whatever number the random choice takes, is inside the range, and no
-- entry inside the range has it.
pub choose-IsFree :
    (pick : ℕ → ℕ) (rips ripe a : ℕ) (slots : List Slot)
    → ripe < 4294967295
    → Ascend ripe rips slots
    → choose pick ripe slots rips ≡ some a
    → (rips ≤ a) × (a ≤ ripe) × IsFree slots a
unfolding choose
choose-IsFree pick rips ripe a slots small up chosen =
    picked (scan ripe slots rips) (scan-Finds ripe rips slots small up) chosen
  where
    picked :
        (x : Scan)
        → Finds ripe rips slots x
        → elim x as (λ _. Option ℕ) [
          | has n ↦ some n
          | free [] ↦ none
          | free (n ∷ ns) ↦ get_elem? (n ∷ ns) (pick (length (n ∷ ns)))
        ]
          ≡ some a
        → (rips ≤ a) × (a ≤ ripe) × IsFree slots a
    picked (has n) found e = absurd found
    picked (free []) found e = cc
    picked (free (n ∷ ns)) found e =
        let (b, at, good) =
          get_elem?-All _ (n ∷ ns) (pick (length (n ∷ ns))) found
            (get_elem?-lt (n ∷ ns) (pick (length (n ∷ ns))) a e) in
        subst (λ m. (rips ≤ m) × (m ≤ ripe) × IsFree slots m) (same b at) good
      where
        same : (b : ℕ) → get_elem? (n ∷ ns) (pick (length (n ∷ ns))) ≡ some b → b ≡ a
        same b at = ground (arith, e, at)
