-- ===== src/Ipam/Allocator/FirstFree.antt =====
-- The loop of Get against its specification: the first address, in the iterator's order, that the
-- store reserves.
use multus_ext_cni.Prelude.{
  ℕ, zero, suc, ◌≤◌, ◌≡◌, subst, ◌∙◌, ◌⊎◌, inl, inr, Bool, true, false, List, [], ◌∷◌, Option, none,
  some, arith, Text, Result, ok, err, All,
}
use multus_ext_cni.Net.IpPackage.{IpPackage}
use multus_ext_cni.Ipam.Address.{AllocError, store_failed}
use multus_ext_cni.Ipam.RangeSet.{RangeSet}
use multus_ext_cni.Ipam.Store.{Store, StoreContract, StoreError}
use multus_ext_cni.Ipam.Iter.{returned, RangeIter, Offer, next}
use multus_ext_cni.Ipam.Iter.Walk.{Trail, steps, Hands, next-Hands, steps-pos}
use multus_ext_cni.Ipam.Allocator.{allocate}

module _ {S : Type 0} (store : Store S) (id ifname range_id : Text) where
  open store use {reserve}

  -- Try the offers in order; `none` where the store has refused each of them.
  unfoldable pub first_free : List Offer → S → Result AllocError (Option Offer) × S
  first_free [] s = (ok none, s)
  first_free (o ∷ l) s =
      let (reserved, s') = reserve id ifname o.address.ip range_id s in
      elim reserved [
        | err e ↦ (err store_failed, s')
        | ok true ↦ (ok (some o), s')
        | ok false ↦ first_free l s'
      ]

module _ (p : IpPackage) {S : Type 0} (store : Store S) (rs : RangeSet)
    (id ifname range_id : Text) where
  open store use {reserve}

  abbrev Runs : ℕ → List Offer → RangeIter → S → Type 0
  Runs fuel l i s =
      allocate p store fuel rs id ifname range_id i s
      ≡ returned (first_free store id ifname range_id l s)

  allocate-Hands :
      (fuel : ℕ) (l : List Offer) (n : ℕ) (i : RangeIter) (s : S)
      → n ≤ suc fuel
      → Hands p rs l n (next p (suc fuel) rs i)
      → ((l' : List Offer) (i' : RangeIter) (t : Trail p rs i' l') (s' : S)
          → steps p rs t ≤ fuel
          → Runs fuel l' i' s')
      → Runs (suc fuel) l i s
  unfolding allocate first_free
  allocate-Hands fuel [] n i s h (i', e) later = rw (e, allocate)
  allocate-Hands fuel (o ∷ l) n i s h (i', t, e, fewer) later =
      let s' = (reserve id ifname o.address.ip range_id s).1 in
      rw (e, allocate) (ground (arith, later l i' t s' (omega arith)))

  -- With fuel for the whole trail, the loop of Get does what the specification says.
  pub allocate-eq-first_free :
      (fuel : ℕ) (l : List Offer) (i : RangeIter) (t : Trail p rs i l) (s : S)
      → steps p rs t ≤ fuel
      → Runs fuel l i s
  allocate-eq-first_free zero l i t s h = absurd (omega (arith, steps-pos p rs t))
  allocate-eq-first_free (suc fuel) l i t s h =
      allocate-Hands fuel l (steps p rs t) i s h (next-Hands p rs (suc fuel) t h)
        (allocate-eq-first_free fuel)

-- Over a store that keeps its contract: what the two answers mean.
module _ {S : Type 0} (store : Store S) (contract : StoreContract store)
    (id ifname range_id : Text) where
  open contract use {Taken}
  open store use {reserve}

  abbrev answer : Offer → S → Result StoreError Bool × S
  answer o s = reserve id ifname o.address.ip range_id s

  step_none :
      (o : Offer) (l : List Offer) (s s' : S)
      → first_free store id ifname range_id (o ∷ l) s ≡ (ok none, s')
      → (answer o s ≡ (ok false, (answer o s).1))
        × (first_free store id ifname range_id l (answer o s).1 ≡ (ok none, s'))
  unfolding first_free
  step_none o l s s' e = ground arith

  step_some :
      (x o : Offer) (l : List Offer) (s s' : S)
      → first_free store id ifname range_id (x ∷ l) s ≡ (ok (some o), s')
      → ((answer x s ≡ (ok true, s')) × (x ≡ o))
        ⊎ ((answer x s ≡ (ok false, (answer x s).1))
            × (first_free store id ifname range_id l (answer x s).1 ≡ (ok (some o), s')))
  unfolding first_free
  step_some x o l s s' e = ground arith

  -- No answer: each offer is taken, and nothing has changed.
  pub first_free-none :
      (l : List Offer) (s s' : S)
      → first_free store id ifname range_id l s ≡ (ok none, s')
      → (s' ≡ s) × All (λ o. Taken s o.address.ip) l
  unfolding first_free
  first_free-none [] s s' e = (ground arith, tt)
  first_free-none (o ∷ l) s s' e =
      let (refusal, later) = step_none o l s s' e in
      let (same, taken) = contract.refused id ifname o.address.ip range_id s _ refusal in
      let (kept, rest) = first_free-none l (answer o s).1 s' later in
      (kept ∙ same, (taken, subst (λ t. All (λ u. Taken t u.address.ip) l) same rest))

  -- An answer: it is one of the offers, it was free, and it is taken now.
  pub first_free-some {ℓ} :
      (P : Offer → Type ℓ) (l : List Offer) (o : Offer) (s s' : S)
      → All P l
      → first_free store id ifname range_id l s ≡ (ok (some o), s')
      → P o × (¬ Taken s o.address.ip) × Taken s' o.address.ip
  unfolding first_free
  first_free-some P [] o s s' all e = absurd (ground arith)
  first_free-some P (x ∷ l) o s s' all e = elim (step_some x o l s s' e) [
    | inl (grant, same) ↦
        let (free, taken) = contract.granted id ifname x.address.ip range_id s s' grant in
        subst (λ u. P u × (¬ Taken s u.address.ip) × Taken s' u.address.ip) same
          (all.0, free, taken)
    | inr (refusal, later) ↦
        let (same, taken) = contract.refused id ifname x.address.ip range_id s _ refusal in
        first_free-some P l o s s' all.1
          (subst (λ t. first_free store id ifname range_id l t ≡ (ok (some o), s')) same later)
  ]
