-- ===== src/Ipam/Iter/Round.antt =====
-- One whole round of a range iterator that begins at the first address of the set.
use mathlib.Core.List.{append-nil}
use multus_ext_cni.Prelude.{
  ℕ, ◌+◌, ◌≡◌, refl, sym, ap, subst, Bool, List, [], ◌∷◌, ◌++◌, some, arith, get_elem?, any, All,
  if◌then◌else◌, ◌||◌,
}
use multus_ext_cni.Net.{equal}
use multus_ext_cni.Net.Number.{value}
use multus_ext_cni.Net.IpPackage.{IpPackage, IpLaws}
use multus_ext_cni.Ipam.Address.Laws.{HasForm-nonempty}
use multus_ext_cni.Ipam.Range.{Range}
use multus_ext_cni.Ipam.RangeSet.{RangeSet}
use multus_ext_cni.Ipam.Iter.{RangeIter, Offer, offer, stop, skip, visit, advance}
use multus_ext_cni.Ipam.Iter.Walk.{TrailIn, ended_in, either_in, TrailIn-mono}
use multus_ext_cni.Ipam.Iter.Span.{IsRange, Stands, Passes, equal-Stands, offers_after, span}
use multus_ext_cni.Ipam.Iter.Chain.{
  size, total, offers_round, start-Stands, end-Stands, after_idx, last_idx, chain,
}
use multus_ext_cni.Ipam.Iter.Follow.{after_idx-last, Follow-run}

-- The first address of the set is left out as well where it is among the reserved ones.
unfoldable pub first_round : IpPackage → RangeSet → List Offer
first_round p [] = []
first_round p (r ∷ rs) =
    let rest = offers_after p r r.range_start (size r) ++ offers_round p rs in
    if equal r.range_start r.gateway || any (λ ip. equal r.range_start ip) r.reserves
    then rest
    else offer r r.range_start ∷ rest

abbrev pub at_first : Range → RangeIter
at_first r = record { range_idx = 0; cur = []; start_ip = r.range_start; start_range = 0 }

module _ (p : IpPackage) (laws : IpLaws p) (family : ℕ) (r0 : Range) (w0 : IsRange family r0) where
  -- From the end of the last range it is back at the beginning, and stops.
  advance_last :
      (rs : RangeSet) (i : RangeIter) (r : Range)
      → IsRange family r
      → get_elem? rs i.range_idx ≡ some r
      → Stands family i.cur (value r.range_end)
      → after_idx rs i.range_idx ≡ 0
      → get_elem? rs 0 ≡ some r0
      → i.start_range ≡ 0
      → i.start_ip ≡ r0.range_start
      → advance p rs i ≡ stop (record i { range_idx = 0; cur = r0.range_start })
  unfolding advance
  advance_last rs i r w at s wrap at0 z st = ground (
    arith,
    at,
    wrap,
    at0,
    HasForm-nonempty s.has_form,
    HasForm-nonempty w0.start,
    st,
    z,
    equal-Stands s (end-Stands family r w),
    equal-Stands (start-Stands family r0 w0) (start-Stands family r0 w0),
  )

  -- From its first address on, the iterator goes through the set and stops.
  from_start :
      (rest : RangeSet)
      → All (IsRange family) rest
      → TrailIn p
          (r0 ∷ rest)
          (record (at_first r0) { cur = r0.range_start })
          (offers_after p r0 r0.range_start (size r0) ++ offers_round p rest)
          (total (r0 ∷ rest))
  from_start rest ws =
      let rs : RangeSet = r0 ∷ rest in
      let a = r0.range_start in
      let i : RangeIter = record (at_first r0) { cur = a } in
      let (run, len) =
        Follow-run rs 0 rest [] [] r0 0 (ap (◌∷◌ r0) (sym (append-nil rest))) refl
          (λ j lo hi e. absurd (omega arith)) in
      let pass : Passes family i (value a) (value r0.range_end) = record {
        first = value a;
        start_stands = start-Stands family r0 w0;
        elsewhere = λ e x lo hi eq. absurd (omega arith);
      } in
      let whole : value a + size r0 ≡ value r0.range_end = let h = w0.ordered in omega arith in
      TrailIn-mono p rs i _ _ _ (omega arith) (
        span p laws rs family r0 w0 (size r0) i (value a) (value r0.range_end) (offers_round p rest)
          (total rest + 1) refl (start-Stands family r0 w0) (omega arith) whole (omega arith) pass
          (λ b s.
            subst (λ l. TrailIn p rs (record i { cur = b }) l (total rest + 1))
              (append-nil (offers_round p rest))
              (chain p laws rs family rest (record i { cur = b }) r0 (value a) [] 1 w0 ws refl s
                (start-Stands family r0 w0) run
                (λ c t at w.
                  ended_in p rs (record i { range_idx = last_idx rs 0 rest; cur = c }) _
                    (advance_last rs _ _ w at t
                      (after_idx-last rs (last_idx rs 0 rest) (omega (arith, len))) refl refl
                      refl)))))

  -- A new iterator goes once through all addresses of the set, range by range, and stops.
  pub round :
      (rest : RangeSet)
      → All (IsRange family) rest
      → TrailIn p (r0 ∷ rest) (at_first r0) (first_round p (r0 ∷ rest)) (total (r0 ∷ rest) + 1)
  unfolding first_round advance
  round rest ws =
      let rs : RangeSet = r0 ∷ rest in
      let a = r0.range_start in
      let i' : RangeIter = record (at_first r0) { cur = a } in
      let g : Bool = equal a r0.gateway || any (λ ip. equal a ip) r0.reserves in
      let step : advance p rs (at_first r0) ≡ (if g then skip i' else visit i' (offer r0 a)) =
        ground arith in
      either_in p rs g (at_first r0) i' (offer r0 a) _ _ step (from_start rest ws)
