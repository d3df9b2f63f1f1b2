-- ===== src/Ipam/Iter/Walk.antt =====
-- What a range iterator hands out before it stops, and that Next steps through it.
use multus_ext_cni.Prelude.{
  ℕ, zero, suc, ◌+◌, ◌≤◌, ◌<◌, ◌≡◌, refl, Bool, true, false, ◌++◌, if◌then◌else◌, List, [], ◌∷◌,
  Option, none, some, arith,
}
use multus_ext_cni.Net.IpPackage.{IpPackage}
use multus_ext_cni.Ipam.RangeSet.{RangeSet}
use multus_ext_cni.Ipam.Iter.{Run, returned, RangeIter, Offer, stop, skip, visit, advance, next}

module _ (p : IpPackage) (rs : RangeSet) where
  -- From this iterator the calls of Next hand out these offers, and then nil.
  pub data Trail : RangeIter → List Offer → Type 0 where
    ended : {i i' : RangeIter} → advance p rs i ≡ stop i' → Trail i []
    skipped :
        {i i' : RangeIter} {l : List Offer} → advance p rs i ≡ skip i' → Trail i' l → Trail i l
    offered :
        {i i' : RangeIter} {o : Offer} {l : List Offer}
        → advance p rs i ≡ visit i' o
        → Trail i' l
        → Trail i (o ∷ l)

  -- The activations of Next that it takes.
  unfoldable pub steps : {i : RangeIter} {l : List Offer} → Trail i l → ℕ
  steps (ended e) = 1
  steps (skipped e t) = suc (steps t)
  steps (offered e t) = suc (steps t)

  pub steps-pos : {i : RangeIter} {l : List Offer} (t : Trail i l) → 0 < steps t
  unfolding steps
  steps-pos (ended e) = omega arith
  steps-pos (skipped e t) = omega arith
  steps-pos (offered e t) = omega arith

  -- One call of Next on a trail: nil at its end, else its first offer and the rest of the trail.
  abbrev pub Hands : List Offer → ℕ → Run (Option Offer × RangeIter) → Type 0
  Hands [] n r = (i' : RangeIter) × (r ≡ returned (none, i'))
  Hands (o ∷ l) n r =
      (i' : RangeIter) × (t : Trail i' l) × (r ≡ returned (some o, i')) × (steps t < n)

  Hands-mono :
      (l : List Offer) (m n : ℕ) (r : Run (Option Offer × RangeIter))
      → m ≤ n
      → Hands l m r
      → Hands l n r
  Hands-mono [] m n r h x = x
  Hands-mono (o ∷ l) m n r h x = (x.0, x.1, x.2, omega arith)

  pub next-Hands :
      {i : RangeIter} {l : List Offer} (fuel : ℕ) (t : Trail i l)
      → steps t ≤ fuel
      → Hands l (steps t) (next p fuel rs i)
  unfolding next steps
  next-Hands zero (ended e) h = absurd (omega arith)
  next-Hands zero (skipped e t) h = absurd (omega arith)
  next-Hands zero (offered e t) h = absurd (omega arith)
  next-Hands (suc fuel) (ended {i' = i'} e) h = (i', rw (e, next))
  next-Hands (suc fuel) (skipped {i' = i'} {l = l} e t) h =
      rw (e, next)
        (Hands-mono l (steps t) (suc (steps t)) (next p fuel rs i') (omega arith)
          (next-Hands fuel t (omega arith)))
  next-Hands (suc fuel) (offered {i' = i'} e t) h = (i', t, rw (e, next), omega arith)

  -- A trail that takes at most `n` activations of Next.
  abbrev pub TrailIn : RangeIter → List Offer → ℕ → Type 0
  TrailIn i l n = (t : Trail i l) × (steps t ≤ n)

  pub ended_in : (i i' : RangeIter) → advance p rs i ≡ stop i' → TrailIn i [] 1
  unfolding steps
  ended_in i i' e = (ended e, omega arith)

  pub skipped_in :
      (i i' : RangeIter) (l : List Offer) (n : ℕ)
      → advance p rs i ≡ skip i'
      → TrailIn i' l n
      → TrailIn i l (n + 1)
  unfolding steps
  skipped_in i i' l n e t = (skipped e t.0, omega (arith, t.1))

  pub offered_in :
      (i i' : RangeIter) (o : Offer) (l : List Offer) (n : ℕ)
      → advance p rs i ≡ visit i' o
      → TrailIn i' l n
      → TrailIn i (o ∷ l) (n + 1)
  unfolding steps
  offered_in i i' o l n e t = (offered e t.0, omega (arith, t.1))

  pub TrailIn-mono :
      (i : RangeIter) (l : List Offer) (m n : ℕ) → m ≤ n → TrailIn i l m → TrailIn i l n
  TrailIn-mono i l m n h t = (t.0, omega (arith, t.1))

  -- A step that skips or hands out, by a test.
  pub either_in :
      (g : Bool) (i i' : RangeIter) (o : Offer) (l : List Offer) (n : ℕ)
      → advance p rs i ≡ (if g then skip i' else visit i' o)
      → TrailIn i' l n
      → TrailIn i (if g then l else o ∷ l) (n + 1)
  either_in true i i' o l n e t = skipped_in i i' l n e t
  either_in false i i' o l n e t = offered_in i i' o l n e t

pub append_if :
    (g : Bool) (o : Offer) (l m : List Offer)
    → (if g then l else o ∷ l) ++ m ≡ (if g then l ++ m else o ∷ (l ++ m))
append_if true o l m = refl
append_if false o l m = refl
