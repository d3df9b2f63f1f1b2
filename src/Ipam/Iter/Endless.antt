-- ===== src/Ipam/Iter/Endless.antt =====
-- When a range iterator goes round for ever: its first address does not lie in the range at which it
-- would stop.
use multus_ext_cni.Prelude.{
  ℕ, zero, suc, ◌+◌, ◌≤◌, ◌<◌, ◌≡◌, refl, sym, ◌∙◌, ap, subst, Bool, Option, some, arith, false,
  ◌⊎◌, length, get_elem?, All, if◌then◌else◌, Bool-cases, inl, inr,
}
use multus_ext_cni.Net.{equal}
use multus_ext_cni.Net.Number.{value}
use multus_ext_cni.Net.IpPackage.{IpPackage, IpLaws}
use multus_ext_cni.Ipam.Range.{Range}
use multus_ext_cni.Ipam.RangeSet.{RangeSet}
use multus_ext_cni.Ipam.Iter.{
  Run, returned, out_of_fuel, RangeIter, Offer, offer, skip, visit, advance, next,
}
use multus_ext_cni.Ipam.Iter.Span.{IsRange, Stands, Passes, next-Stands, advance_inside}
use multus_ext_cni.Ipam.Iter.Chain.{start-Stands, after_idx, advance_on}
use multus_ext_cni.Prelude.{get_elem?-All, get_elem?-lt, ltb}
use native.Mathlib.Nat.{mod-lt}

-- The cursor stands in the range of its index; the iterator would stop at an address that is not in
-- the range in which it would stop.
pub record Inside (rs : RangeSet) (family : ℕ) (i : RangeIter) : Type 0 where
  pub range : Range
  pub at : get_elem? rs i.range_idx ≡ some range
  pub is_range : IsRange family range
  pub number : ℕ
  pub stands : Stands family i.cur number
  pub above : value range.range_start ≤ number
  pub below : number ≤ value range.range_end
  pub first : ℕ
  pub start_stands : Stands family i.start_ip first
  pub outside :
      (s : Range)
      → get_elem? rs i.start_range ≡ some s
      → (first < value s.range_start) ⊎ (value s.range_end < first)

-- One activation of Next goes on.
pub record GoesOn (p : IpPackage) (rs : RangeSet) (family : ℕ) (i : RangeIter) : Type 0 where
  pub test : Bool
  pub then' : RangeIter
  pub out : Offer
  pub step : advance p rs i ≡ (if test then skip then' else visit then' out)
  pub inside : Inside rs family then'
  pub offered : out.address.ip ≡ then'.cur
  pub tested : test ≡ equal then'.cur inside.range.gateway

module _ (p : IpPackage) (laws : IpLaws p) (rs : RangeSet) (family : ℕ)
    (ranges : All (IsRange family) rs) where
  open p use {next_ip}

  some_range :
      (r s : Range) (j k : ℕ) → get_elem? rs j ≡ some r → get_elem? rs k ≡ some s → j ≡ k → r ≡ s
  some_range r s j k e f h = cc (ap (get_elem? rs) h)

  Inside-range :
      (i : RangeIter) (h : Inside rs family i)
      → h.number < value h.range.range_end
      → GoesOn p rs family i
  Inside-range i h more =
      let b = next_ip i.cur in
      let r = h.range in
      let pass : Passes family i h.number (h.number + 1) = record {
        first = h.first;
        start_stands = h.start_stands;
        elsewhere = λ e x lo hi eq. elim (h.outside r (ap (get_elem? rs) (sym e) ∙ h.at)) [
          | inl under ↦ (let a = h.above in absurd (omega arith))
          | inr over ↦ absurd (omega arith)
        ];
      } in
      record {
        test = equal b r.gateway;
        then' = record i { cur = b };
        out = offer r b;
        step =
            advance_inside p laws rs family r h.is_range i h.number (h.number + 1) h.at h.stands
              h.above (omega arith) (omega arith) pass;
        inside = record {
          range = r;
          at = h.at;
          is_range = h.is_range;
          number = h.number + 1;
          stands = next-Stands p laws rs family r h.is_range i.cur h.number h.stands h.above more;
          above = (let a = h.above in omega arith);
          below = omega arith;
          first = h.first;
          start_stands = h.start_stands;
          outside = h.outside;
        };
        offered = refl;
        tested = refl;
      }

  next_range :
      (i : RangeIter) (h : Inside rs family i)
      → h.number ≡ value h.range.range_end
      → GoesOn p rs family i
  next_range i h done =
      let idx : ℕ = after_idx rs i.range_idx in
      let small : idx < length rs =
        (let l = get_elem?-lt rs i.range_idx h.range h.at in
          mod-lt (i.range_idx + 1) (omega arith)) in
      let (r, at, w) = get_elem?-All (IsRange family) rs idx ranges small in
      record {
        test = equal r.range_start r.gateway;
        then' = record i { range_idx = idx; cur = r.range_start };
        out = offer r r.range_start;
        step =
            advance_on p laws rs family i h.range r h.first h.is_range w h.at
              (subst (Stands family i.cur) done h.stands) h.start_stands at
              (λ e eq. elim (h.outside r (ap (get_elem? rs) (sym e) ∙ at)) [
                | inl under ↦ absurd (omega arith)
                | inr over ↦ (let o = w.ordered in absurd (omega arith))
              ]);
        inside = record {
          range = r;
          at = at;
          is_range = w;
          number = value r.range_start;
          stands = start-Stands family r w;
          above = omega arith;
          below = w.ordered;
          first = h.first;
          start_stands = h.start_stands;
          outside = h.outside;
        };
        offered = refl;
        tested = refl;
      }

  pub goes_on : (i : RangeIter) → Inside rs family i → GoesOn p rs family i
  goes_on i h = elim (Bool-cases (ltb h.number (value h.range.range_end))) [
    | inl more ↦ Inside-range i h (ground arith)
    | inr full ↦ next_range i h (let b = h.below in ground arith)
  ]

  -- Next does not return nil, however often it is called: it offers an address of a range that is not
  -- the gateway of that range.
  abbrev pub NotNil : Run (Option Offer × RangeIter) → Type 0
  NotNil r =
      (r ≡ out_of_fuel)
      ⊎ ((o : Offer) × (i' : RangeIter) × (r ≡ returned (some o, i'))
          × (h : Inside rs family i') × (o.address.ip ≡ i'.cur)
          × (equal i'.cur h.range.gateway ≡ false))

  pub next-NotNil : (fuel : ℕ) (i : RangeIter) → Inside rs family i → NotNil (next p fuel rs i)
  unfolding next
  next-NotNil zero i h = inl refl
  next-NotNil (suc fuel) i h =
      let g = goes_on i h in
      elim (Bool-cases g.test) [
        | inl skipped ↦ rw (g.step, skipped, next) (next-NotNil fuel g.then' g.inside)
        | inr visited ↦ inr (
          g.out,
          g.then',
          rw (g.step, visited, next),
          g.inside,
          g.offered,
          sym g.tested ∙ visited,
        )
      ]

  pub GoesOn-NotNil : (fuel : ℕ) (i : RangeIter) → GoesOn p rs family i → NotNil (next p fuel rs i)
  unfolding next
  GoesOn-NotNil zero i g = inl refl
  GoesOn-NotNil (suc fuel) i g = elim (Bool-cases g.test) [
    | inl skipped ↦ rw (g.step, skipped, next) (next-NotNil fuel g.then' g.inside)
    | inr visited ↦
        inr
          (g.out, g.then', rw (g.step, visited, next), g.inside, g.offered, sym g.tested ∙ visited)
  ]
