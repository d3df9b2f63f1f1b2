-- ===== src/Ipam/RangeSet/Disjoint.antt =====
-- Canonicalize of a range set (multus-ipam/backend/allocator/range_set.go): its two loops, and the pairs
-- of ranges that it leaves.
use multus_ext_cni.Prelude.{
  ℕ, zero, suc, ◌<◌, ◌≡◌, ◌≢◌, refl, sym, ◌∙◌, ap, subst, false, [], ◌∷◌, none, some, ◌==◌, length,
  arith, get_elem?, any-false, some-injective, ok, >>=-eq-ok, Bool-cases, Result-cases, inl, inr,
  ltb,
}
use multus_ext_cni.Net.IpPackage.{IpPackage}
use multus_ext_cni.Ipam.Range
use multus_ext_cni.Ipam.Range.{Range}
use multus_ext_cni.Ipam.RangeSet.{RangeSet, canonicalize, canonicalize_rest, any_overlap}

module _ (p : IpPackage) where
  pub overlaps_comm : (a b : Range) → Range.overlaps p a b ≡ Range.overlaps p b a
  unfolding Range.overlaps
  overlaps_comm a b = ground arith

  any_overlap-before :
      (cs : RangeSet) (i j : ℕ) (a b : Range)
      → any_overlap p cs ≡ false
      → get_elem? cs i ≡ some a
      → get_elem? cs j ≡ some b
      → i < j
      → Range.overlaps p a b ≡ false
  unfolding any_overlap
  any_overlap-before [] i j a b none' ai bj lt = cc
  any_overlap-before (c ∷ cs) i zero a b none' ai bj lt = absurd (omega arith)
  any_overlap-before (c ∷ cs) zero (suc j) a b none' ai bj lt =
      subst (λ x. Range.overlaps p x b ≡ false) (some-injective ai)
        (any-false (λ x. Range.overlaps p c x) cs j b (ground arith) bj)
  any_overlap-before (c ∷ cs) (suc i) (suc j) a b none' ai bj lt =
      any_overlap-before cs i j a b (ground arith) ai bj (omega arith)

  canonicalize_rest-cons :
      (fam : ℕ) (r : Range) (rs cs : RangeSet)
      → canonicalize_rest p fam (r ∷ rs) ≡ ok cs
      → (c : Range) × (more : RangeSet) × (cs ≡ c ∷ more)
        × (length c.range_start ≡ fam)
        × (canonicalize_rest p fam rs ≡ ok more)
  unfolding canonicalize_rest
  canonicalize_rest-cons fam r rs cs done =
      let (c, first, rest) = >>=-eq-ok (Range.canonicalize p r) _ done in
      elim (Bool-cases (fam == length c.range_start)) [
        | inr other ↦ absurd (ground arith)
        | inl same ↦ elim (Result-cases (canonicalize_rest p fam rs)) [
          | inr (x, bad) ↦ absurd (ground arith)
          | inl (more, good) ↦ (c, more, ground arith, ground arith, good)
        ]
      ]

  head-or-tail :
      (fam : ℕ) (c : Range) (more : RangeSet) (j : ℕ) (b : Range)
      → length c.range_start ≡ fam
      → ((k : ℕ) → get_elem? more k ≡ some b → length b.range_start ≡ fam)
      → get_elem? (c ∷ more) j ≡ some b
      → length b.range_start ≡ fam
  head-or-tail fam c more zero b family others h =
      subst (λ x. length x.range_start ≡ fam) (ap (λ o. elim o [ none ↦ c | some x ↦ x ]) h) family
  head-or-tail fam c more (suc j) b family others h = others j h

  -- The ranges behind the first one have its family.
  canonicalize_rest-family :
      (fam : ℕ) (rs cs : RangeSet) (j : ℕ) (b : Range)
      → canonicalize_rest p fam rs ≡ ok cs
      → get_elem? cs j ≡ some b
      → length b.range_start ≡ fam
  unfolding canonicalize_rest
  canonicalize_rest-family fam [] cs j b done at =
      let e : [] ≡ cs = ground arith in
      let none' : none ≡ some b = subst (λ x. get_elem? x j ≡ some b) (sym e) at in
      absurd (cc none')
  canonicalize_rest-family fam (r ∷ rs) cs j b done at =
      let (c, more, e, family, rest) = canonicalize_rest-cons fam r rs cs done in
      head-or-tail fam c more j b family (λ k h. canonicalize_rest-family fam rs more k b rest h)
        (subst (λ x. get_elem? x j ≡ some b) e at)

  canonicalize-family :
      (rs cs : RangeSet)
      → canonicalize p rs ≡ ok cs
      → (fam : ℕ) × (any_overlap p cs ≡ false)
        × ((j : ℕ) (b : Range) → get_elem? cs j ≡ some b → length b.range_start ≡ fam)
  unfolding canonicalize
  canonicalize-family [] cs done = absurd (ground arith)
  canonicalize-family (r ∷ rs) cs done =
      let (c, first, rest) = >>=-eq-ok (Range.canonicalize p r) _ done in
      let (more, others, end) = >>=-eq-ok (canonicalize_rest p (length c.range_start) rs) _ rest in
      elim (Bool-cases (any_overlap p (c ∷ more))) [
        | inl bad ↦ absurd (ground arith)
        | inr good ↦
            let e : c ∷ more ≡ cs = ground arith in
            (
              length c.range_start,
              subst (λ x. any_overlap p x ≡ false) e good,
              λ j b at.
                  head-or-tail (length c.range_start) c more j b refl
                    (λ k h. canonicalize_rest-family (length c.range_start) rs more k b others h)
                    (subst (λ x. get_elem? x j ≡ some b) (sym e) at),
            )
      ]

  -- In a range set that Canonicalize has accepted, two different ranges do not overlap, whichever
  -- of them Overlaps is asked of, and their starts are of one family.
  pub canonicalize-overlaps :
      (rs cs : RangeSet) (i j : ℕ) (a b : Range)
      → canonicalize p rs ≡ ok cs
      → get_elem? cs i ≡ some a
      → get_elem? cs j ≡ some b
      → i ≢ j
      → (Range.overlaps p a b ≡ false) × (length a.range_start ≡ length b.range_start)
  canonicalize-overlaps rs cs i j a b done ai bj apart =
      let (fam, none', family) = canonicalize-family rs cs done in
      (
        elim (Bool-cases (ltb i j)) [
          | inl lt ↦ any_overlap-before cs i j a b none' ai bj (ground arith)
          | inr ge ↦ overlaps_comm a b ∙ any_overlap-before cs j i b a none' bj ai (ground arith)
        ],
        family i a ai ∙ sym (family j b bj),
      )
