-- ===== src/Ipam/Iter/Resume.antt =====
-- The round of a range iterator that resumes behind the address it handed out last.
use mathlib.Core.List.{append-nil}
use multus_ext_cni.Prelude.{
  ℕ, suc, ◌+◌, ◌-◌, ◌≤◌, ◌<◌, ◌≡◌, refl, sym, ◌∙◌, ap, subst, Bool, List, [], ◌∷◌, ◌++◌, some,
  arith, length, get_elem?, All, if◌then◌else◌,
}
use multus_ext_cni.Net.{Ip, equal}
use multus_ext_cni.Net.Number.{value}
use multus_ext_cni.Net.IpPackage.{IpPackage, IpLaws}
use multus_ext_cni.Ipam.Address.Laws.{HasForm-nonempty}
use multus_ext_cni.Ipam.Range.{Range}
use multus_ext_cni.Ipam.RangeSet.{RangeSet}
use multus_ext_cni.Ipam.Iter.{RangeIter, Offer, offer, stop, skip, visit, advance}
use multus_ext_cni.Ipam.Iter.Walk.{TrailIn, ended_in, either_in, append_if, TrailIn-mono}
use multus_ext_cni.Ipam.Iter.Span.{
  IsRange, Stands, Passes, equal-Stands, next-Stands, offers_after, span,
}
use multus_ext_cni.Ipam.Iter.Chain.{
  total, offers_to, offers_round, end-Stands, after_idx, last_idx, last_range, along, chain,
}
use multus_ext_cni.Ipam.Iter.Follow.{at_done, around}

-- Behind the address `a` with number `v` in range `r`: the rest of its range, the ranges after it,
-- those before it, and its range up to `a`.
unfoldable pub resumed_round : IpPackage → RangeSet → Range → RangeSet → Ip → ℕ → List Offer
resumed_round p before r after a v =
    offers_after p r a (value r.range_end - v)
    ++ (offers_round p (after ++ before) ++ offers_to p r (v - value r.range_start))

abbrev pub resumed : ℕ → Ip → RangeIter
resumed k a = record { range_idx = k; cur = a; start_ip = []; start_range = k }

module _ (p : IpPackage) (laws : IpLaws p) (family : ℕ) (before after : RangeSet) (r : Range)
    (w : IsRange family r) (a : Ip) (v : ℕ) (at_v : Stands family a v)
    (lo : value r.range_start ≤ v) (hi : v < value r.range_end) where
  open p use {next_ip}

  abbrev whole : RangeSet
  whole = before ++ r ∷ after

  abbrev k : ℕ
  k = length before

  abbrev b : Ip
  b = next_ip a

  b-Stands : Stands family b (v + 1)
  b-Stands = next-Stands p laws whole family r w a v at_v lo hi

  at_k : get_elem? whole k ≡ some r
  at_k = at_done whole before after r k refl refl

  -- The first step also fixes where the iterator will stop.
  advance_first : advance p whole (resumed k a) ≡ (
      if equal b r.gateway
      then skip (record (resumed k b) { start_ip = b })
      else visit (record (resumed k b) { start_ip = b }) (offer r b))
  unfolding advance
  advance_first =
      ground
        (arith, at_k, HasForm-nonempty at_v.has_form, equal-Stands at_v (end-Stands family r w))

  -- Back at the address it began behind, it stops.
  advance_back :
      (c : Ip)
      → Stands family c v
      → advance p whole (record (resumed k c) { start_ip = b })
        ≡ stop (record (resumed k (next_ip c)) { start_ip = b })
  unfolding advance
  advance_back c s = ground (
    arith,
    at_k,
    HasForm-nonempty s.has_form,
    HasForm-nonempty b-Stands.has_form,
    equal-Stands s (end-Stands family r w),
    equal-Stands (next-Stands p laws whole family r w c v s lo hi) b-Stands,
  )

  -- From the end of its range on: the other ranges, and its own up to the last address.
  turn :
      All (IsRange family) (after ++ before)
      → (c : Ip) → Stands family c (value r.range_end)
      → TrailIn p whole
          (record (resumed k c) { start_ip = b })
          (offers_round p (after ++ before) ++ offers_to p r (v - value r.range_start))
          (total (after ++ before) + (suc (v - value r.range_start) + 1))
  turn ws c s =
      let (run, back) = around before after r in
      chain p laws whole family (after ++ before) (record (resumed k c) { start_ip = b }) r (v + 1)
        _ _ w ws at_k s b-Stands run
        (λ d t at w'.
          let idx = last_idx whole k (after ++ before) in
          let n : ℕ = v - value r.range_start in
          let reach : value r.range_start + n ≡ v = omega arith in
          let i : RangeIter = record { range_idx = idx; cur = d; start_ip = b; start_range = k } in
          let home : get_elem? whole (after_idx whole idx) ≡ some r =
            ap (get_elem? whole) back ∙ at_k in
          subst (λ l. TrailIn p whole i l (suc n + 1)) (append-nil (offers_to p r n))
            (along p laws whole family i (last_range r (after ++ before)) r (v + 1) n [] 1 w' w at t
              b-Stands home (λ _. omega arith) (omega arith)
              (λ e u. ended_in p whole _ _ (
                ap
                  (λ j.
                    advance p whole
                      (record { range_idx = j; cur = e; start_ip = b; start_range = k }))
                  back
                ∙ advance_back e (subst (Stands family e) reach u)))))

  -- A resumed iterator goes once through all addresses, its last one included, and stops.
  pub resume :
      All (IsRange family) (after ++ before)
      → TrailIn p whole
          (resumed k a)
          (resumed_round p before r after a v)
          (total (r ∷ after ++ before) + 1)
  unfolding resumed_round offers_after
  resume ws =
      let m : ℕ = value r.range_end - v - 1 in
      let left : value r.range_end - v ≡ suc m = omega arith in
      let tail = offers_round p (after ++ before) ++ offers_to p r (v - value r.range_start) in
      let i' : RangeIter = record (resumed k b) { start_ip = b } in
      let pass : Passes family i' (v + 1) (value r.range_end) = record {
        first = v + 1;
        start_stands = b-Stands;
        elsewhere = λ e x above top eq. absurd (omega arith);
      } in
      let body =
        span p laws whole family r w m i' (v + 1) (value r.range_end) tail _ at_k b-Stands
          (omega arith) (omega arith) (omega arith) pass (turn ws) in
      let g : Bool = equal b r.gateway in
      subst
        (λ n.
          TrailIn p whole (resumed k a) (offers_after p r a n ++ tail)
            (total (r ∷ after ++ before) + 1))
        (sym left)
        (subst (λ l. TrailIn p whole (resumed k a) l (total (r ∷ after ++ before) + 1))
          (sym (append_if g (offer r b) (offers_after p r b m) tail))
          (TrailIn-mono p whole (resumed k a) _ _ _ (omega arith)
            (either_in p whole g (resumed k a) i' (offer r b) _ _ advance_first body)))
