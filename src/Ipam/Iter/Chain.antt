-- ===== src/Ipam/Iter/Chain.antt =====
-- The walk of a range iterator from the end of one range through the ranges that follow it.
use multus_ext_cni.Prelude.{
  ℕ, suc, ◌+◌, ◌-◌, ◌%◌, ◌≤◌, ◌<◌, ◌≡◌, ◌≢◌, refl, sym, subst, List, [], ◌∷◌, ◌++◌, some, arith,
  length, get_elem?, All, if◌then◌else◌,
}
use mathlib.Core.List.{append_assoc}
use multus_ext_cni.Net.{Ip, equal}
use multus_ext_cni.Net.Number.{value}
use multus_ext_cni.Net.IpPackage.{IpPackage, IpLaws}
use multus_ext_cni.Ipam.Address.Laws.{HasForm-nonempty}
use multus_ext_cni.Ipam.Range.{Range}
use multus_ext_cni.Ipam.RangeSet.{RangeSet}
use multus_ext_cni.Ipam.Iter.{RangeIter, Offer, offer, skip, visit, advance}
use multus_ext_cni.Ipam.Iter.Walk.{TrailIn, either_in, append_if, TrailIn-mono}
use multus_ext_cni.Ipam.Iter.Span.{IsRange, Stands, Passes, equal-Stands, offers_after, span}

abbrev pub size : Range → ℕ
size r = value r.range_end - value r.range_start

-- The addresses of the ranges, counted as the iterator counts them.
abbrev pub total : RangeSet → ℕ
total [] = 0
total (r ∷ rs) = suc (size r) + total rs

module _ (p : IpPackage) where
  -- The first address of a range and the `n` after it, without its gateway.
  unfoldable pub offers_to : Range → ℕ → List Offer
  offers_to r n =
      let rest = offers_after p r r.range_start n in
      if equal r.range_start r.gateway then rest else offer r r.range_start ∷ rest

  -- The addresses of the ranges but their gateways.
  unfoldable pub offers_round : RangeSet → List Offer
  unfolding offers_to
  offers_round [] = []
  offers_round (r ∷ rs) = offers_to r (size r) ++ offers_round rs

pub start-Stands :
    (family : ℕ) (r : Range) → IsRange family r → Stands family r.range_start (value r.range_start)
start-Stands family r w = record {
  form = r.range_start;
  has_form = w.start;
  form_family = w.start_family;
  number = refl;
}

pub end-Stands :
    (family : ℕ) (r : Range) → IsRange family r → Stands family r.range_end (value r.range_end)
end-Stands family r w = record {
  form = r.range_end;
  has_form = w.end;
  form_family = w.end_family;
  number = refl;
}

-- The index after `idx`, as the code forms it.
abbrev pub after_idx : RangeSet → ℕ → ℕ
after_idx rs idx = (idx + 1) % length rs

-- The ranges `more` follow the range at `idx` in turn, and none stands at `away`.
abbrev pub Follow : RangeSet → ℕ → ℕ → RangeSet → Type 0
Follow rs away idx [] = Unit {0}
Follow rs away idx (r ∷ more) =
    (get_elem? rs (after_idx rs idx) ≡ some r)
    × (after_idx rs idx ≢ away)
    × Follow rs away (after_idx rs idx) more

abbrev pub last_idx : RangeSet → ℕ → RangeSet → ℕ
last_idx rs idx [] = idx
last_idx rs idx (r ∷ more) = last_idx rs (after_idx rs idx) more

abbrev pub last_range : Range → RangeSet → Range
last_range r [] = r
last_range r (r' ∷ more) = last_range r' more

module _ (p : IpPackage) (laws : IpLaws p) (rs : RangeSet) (family : ℕ) where
  -- From the end of a range on to the next one, if that is not where it stops.
  pub advance_on :
      (i : RangeIter) (r r' : Range) (first : ℕ)
      → IsRange family r
      → IsRange family r'
      → get_elem? rs i.range_idx ≡ some r
      → Stands family i.cur (value r.range_end)
      → Stands family i.start_ip first
      → get_elem? rs (after_idx rs i.range_idx) ≡ some r'
      → (after_idx rs i.range_idx ≡ i.start_range → first ≢ value r'.range_start)
      → advance p rs i ≡ (
          if equal r'.range_start r'.gateway
          then skip (record i { range_idx = after_idx rs i.range_idx; cur = r'.range_start })
          else visit
              (record i { range_idx = after_idx rs i.range_idx; cur = r'.range_start })
              (offer r' r'.range_start))
  unfolding advance
  advance_on i r r' first w w' at s st at' away = ground (
    arith,
    at,
    at',
    HasForm-nonempty s.has_form,
    HasForm-nonempty st.has_form,
    equal-Stands s (end-Stands family r w),
    equal-Stands (start-Stands family r' w') st,
  )

  -- Along the first address of the next range and the `n` after it.
  pub along :
      (i : RangeIter) (r r' : Range) (first n : ℕ) (l : List Offer) (k : ℕ)
      → IsRange family r
      → IsRange family r'
      → get_elem? rs i.range_idx ≡ some r
      → Stands family i.cur (value r.range_end)
      → Stands family i.start_ip first
      → get_elem? rs (after_idx rs i.range_idx) ≡ some r'
      → (after_idx rs i.range_idx ≡ i.start_range → value r'.range_start + n < first)
      → value r'.range_start + n ≤ value r'.range_end
      → ((a : Ip)
          → Stands family a (value r'.range_start + n)
          → TrailIn p rs (record i { range_idx = after_idx rs i.range_idx; cur = a }) l k)
      → TrailIn p rs i (offers_to p r' n ++ l) (suc n + k)
  unfolding offers_to
  along i r r' first n l k w w' at s st at' away top later =
      let a = r'.range_start in
      let i' : RangeIter = record i { range_idx = after_idx rs i.range_idx; cur = a } in
      let pass : Passes family i' (value a) (value a + n) = record {
        first = first;
        start_stands = st;
        elsewhere = λ e x lo hi eq. let h = away e in absurd (omega arith);
      } in
      let step =
        advance_on i r r' first w w' at s st at' (λ e eq. let h = away e in absurd (omega arith)) in
      let body =
        span p laws rs family r' w' n i' (value a) (value a + n) l k at' (start-Stands family r' w')
          (omega arith) refl top pass later in
      subst (λ m. TrailIn p rs i m (suc n + k))
        (sym (append_if (equal a r'.gateway) (offer r' a) _ _))
        (TrailIn-mono p rs i _ _ _ (omega arith)
          (either_in p rs (equal a r'.gateway) i i' (offer r' a) _ _ step body))

  -- Through all of the ranges that follow.
  pub chain :
      (more : RangeSet) (i : RangeIter) (r : Range) (first : ℕ) (l : List Offer) (k : ℕ)
      → IsRange family r
      → All (IsRange family) more
      → get_elem? rs i.range_idx ≡ some r
      → Stands family i.cur (value r.range_end)
      → Stands family i.start_ip first
      → Follow rs i.start_range i.range_idx more
      → ((a : Ip)
          → Stands family a (value (last_range r more).range_end)
          → get_elem? rs (last_idx rs i.range_idx more) ≡ some (last_range r more)
          → IsRange family (last_range r more)
          → TrailIn p rs (record i { range_idx = last_idx rs i.range_idx more; cur = a }) l k)
      → TrailIn p rs i (offers_round p more ++ l) (total more + k)
  unfolding offers_round
  chain [] i r first l k w ws at s st f later =
      TrailIn-mono p rs i l k _ (omega arith) (later i.cur s at w)
  chain (r' ∷ more) i r first l k w ws at s st f later =
      let w' = ws.0 in
      let whole : value r'.range_start + size r' ≡ value r'.range_end =
        let h = w'.ordered in omega arith in
      subst (λ m. TrailIn p rs i m (total (r' ∷ more) + k))
        (sym (append_assoc (offers_to p r' (size r')) (offers_round p more) l))
        (TrailIn-mono p rs i _ _ _ (omega arith) (
          along i r r' first (size r') _ _ w w' at s st f.0 (λ e. absurd (f.1 e)) (omega arith)
            (λ a s'.
              chain more (record i { range_idx = after_idx rs i.range_idx; cur = a }) r' first l k
                w' ws.1 f.0 (subst (Stands family a) whole s') st f.2 later)))
