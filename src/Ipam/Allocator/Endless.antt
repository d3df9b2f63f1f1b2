-- ===== src/Ipam/Allocator/Endless.antt =====
-- Searches of Get (multus-ipam/backend/allocator/allocator.go) that resume at the end of a range.
use multus_ext_cni.Prelude.{
  ℕ, zero, suc, ◌<◌, ◌≤◌, ◌≡◌, refl, sym, ap, subst, true, false, [], ◌∷◌, ◌++◌, some, arith, ◌⊎◌,
  Text, ok, length, get_elem?, All, inl, inr,
}
use multus_ext_cni.Net.{Ip, equal}
use multus_ext_cni.Net.Number.{value}
use multus_ext_cni.Net.IpPackage.{IpPackage, IpLaws}
use multus_ext_cni.Ipam.Address.Laws.{HasForm-nonempty}
use multus_ext_cni.Ipam.Range
use multus_ext_cni.Ipam.Range.{Range}
use multus_ext_cni.Ipam.RangeSet.{RangeSet}
use multus_ext_cni.Ipam.Store.{Store}
use multus_ext_cni.Ipam.Iter.{out_of_fuel, RangeIter, offer}
use multus_ext_cni.Ipam.Iter.Span.{IsRange, Stands}
use multus_ext_cni.Ipam.Iter.Resume.{resumed}
use multus_ext_cni.Ipam.Allocator.{allocate, get}
use multus_ext_cni.Ipam.Iter.{advance}
use multus_ext_cni.Ipam.Iter.Span.{equal-Stands}
use multus_ext_cni.Ipam.Iter.Chain.{after_idx, start-Stands, end-Stands}
use multus_ext_cni.Ipam.Iter.Endless.{GoesOn, GoesOn-NotNil, goes_on}
use multus_ext_cni.Ipam.Iter.Follow.{at_done}
use multus_ext_cni.Ipam.Allocator.Order.{IsNew, get_iter-resumed}

module _ (p : IpPackage) (laws : IpLaws p) {S : Type 0} (store : Store S) (family : ℕ)
    (range_id id ifname : Text) (s : S) where
  open store use {last_reserved_ip}

  -- The store refuses the addresses of the ranges of a set, but for the gateways.
  abbrev pub RefusesAll : RangeSet → Type 0
  RefusesAll rs =
      (k : ℕ) (r : Range) (a : Ip) (v : ℕ)
      → get_elem? rs k ≡ some r
      → Stands family a v
      → value r.range_start ≤ v
      → v ≤ value r.range_end
      → equal a r.gateway ≡ false
      → store.reserve id ifname a range_id s ≡ (ok false, s)

  -- A search that cannot stop does not return where every address is refused.
  allocate-endless :
      (fuel : ℕ) (rs : RangeSet) (i : RangeIter)
      → All (IsRange family) rs
      → RefusesAll rs
      → GoesOn p rs family i
      → allocate p store fuel rs id ifname range_id i s ≡ out_of_fuel
  unfolding allocate
  allocate-endless zero rs i ws full g = refl
  allocate-endless (suc fuel) rs i ws full g =
      elim (GoesOn-NotNil p laws rs family ws (suc fuel) i g) [
        | inl e ↦ rw (e, allocate)
        | inr (o, i', e, h, shown, no_gateway) ↦
            let rest = allocate-endless fuel rs i' ws full (goes_on p laws rs family ws i' h) in
            let refusal =
              subst (λ a. store.reserve id ifname a range_id s ≡ (ok false, s)) (sym shown)
                (full i'.range_idx h.range i'.cur h.number h.at h.stands h.above h.below
                  no_gateway) in
            let rest' =
              subst (λ t. allocate p store fuel rs id ifname range_id i' t ≡ out_of_fuel)
                (sym (ap (λ q. q.1) refusal)) rest in
            rw (e, allocate) (rw (ap (λ q. q.0) refusal) rest')
      ]

  -- The first step from the end of range `r` into the range `r'`.
  begins :
      (before after : RangeSet) (r r' : Range)
      → let rs : RangeSet = before ++ r ∷ after in
        IsRange family r
        → IsRange family r'
        → get_elem? rs (after_idx rs (length before)) ≡ some r'
        → (value r'.range_start < value r.range_start) ⊎ (value r.range_end < value r'.range_start)
        → Stands family (last_reserved_ip range_id s) (value r.range_end)
        → GoesOn p rs family (resumed (length before) (last_reserved_ip range_id s))
  unfolding advance
  begins before after r r' w w' at' apart stands =
      let rs : RangeSet = before ++ r ∷ after in
      let k : ℕ = length before in
      let at : get_elem? rs k ≡ some r = at_done rs before after r k refl refl in
      let b = r'.range_start in
      let start = start-Stands family r' w' in
      record {
        test = equal b r'.gateway;
        then' = record { range_idx = after_idx rs k; cur = b; start_ip = b; start_range = k };
        out = offer r' b;
        step = ground (
          arith,
          at,
          at',
          HasForm-nonempty stands.has_form,
          equal-Stands stands (end-Stands family r w),
        );
        inside = record {
          range = r';
          at = at';
          is_range = w';
          number = value b;
          stands = start;
          above = omega arith;
          below = w'.ordered;
          first = value b;
          start_stands = start;
          outside = λ x same.
              let e : r ≡ x = ground arith in
              subst (λ y. (value b < value y.range_start) ⊎ (value y.range_end < value b)) e apart;
        };
        offered = refl;
        tested = refl;
      }

  -- The ranges are canonical, of one family and in order; the container has no address of the set;
  -- the address reserved last is the end of range `r`, is in no range before `r`, and the range
  -- that comes next begins outside the numbers of `r`. Then on a store that refuses the addresses
  -- of the set but the gateways Get does not return, whatever the fuel.
  pub get-endless :
      (fuel : ℕ) (before after : RangeSet) (r r' : Range)
      → let rs : RangeSet = before ++ r ∷ after in
        let last : Ip = last_reserved_ip range_id s in
        All (IsRange family) rs
        → IsRange family r
        → IsRange family r'
        → get_elem? rs (after_idx rs (length before)) ≡ some r'
        → (value r'.range_start < value r.range_start) ⊎ (value r.range_end < value r'.range_start)
        → IsNew p store rs id ifname s
        → RefusesAll rs
        → Stands family last (value r.range_end)
        → All (λ x. Range.contains p x last ≡ false) before
        → Range.contains p r last ≡ true
        → get p store fuel rs range_id id ifname [] s ≡ out_of_fuel
  unfolding get
  get-endless fuel before after r r' ws w w' at' apart fresh full stands others own = ground (
    arith,
    fresh,
    get_iter-resumed p store before after r range_id stands.form s stands.has_form others own,
    allocate-endless fuel (before ++ r ∷ after) _ ws full
        (begins before after r r' w w' at' apart stands),
  )
