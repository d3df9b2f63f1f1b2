-- ===== src/Ipam/Iter/Span.antt =====
-- The walk of a range iterator along one range.
use multus_ext_cni.Prelude.{
  ℕ, zero, suc, ◌+◌, ◌≤◌, ◌<◌, ◌≡◌, ◌≢◌, refl, sym, ◌∙◌, ap, subst, List, [], ◌∷◌, ◌++◌, some,
  arith, length, get_elem?, ◌==◌, if◌then◌else◌,
}
use multus_ext_cni.Net.{Ip, equal}
use multus_ext_cni.Net.Number.{value}
use multus_ext_cni.Net.IpPackage.{IpPackage, IpLaws}
use multus_ext_cni.Ipam.Address.{HasForm, IsCanonical}
use multus_ext_cni.Ipam.Address.Laws.{equal-value, HasForm-nonempty}
use multus_ext_cni.Ipam.Range.{Range}
use multus_ext_cni.Ipam.RangeSet.{RangeSet}
use multus_ext_cni.Ipam.Iter.{RangeIter, Offer, offer, skip, visit, arrive, advance}
use multus_ext_cni.Ipam.Iter.Walk.{TrailIn, either_in, append_if, TrailIn-mono}

-- A range from `start` to `end` with an address for each number between. Ranges of IPv4 addresses
-- always have one; an IPv6 range might run into the addresses that are read as IPv4.
pub record IsRange (family : ℕ) (r : Range) : Type 0 where
  pub start : IsCanonical r.range_start
  pub end : IsCanonical r.range_end
  pub start_family : length r.range_start ≡ family
  pub end_family : length r.range_end ≡ family
  pub ordered : value r.range_start ≤ value r.range_end
  pub spans :
      (v : ℕ)
      → value r.range_start ≤ v
      → v ≤ value r.range_end
      → (e : Ip) × IsCanonical e × (length e ≡ family) × (value e ≡ v)

-- The address `a` has the number `v`.
pub record Stands (family : ℕ) (a : Ip) (v : ℕ) : Type 0 where
  pub form : Ip
  pub has_form : HasForm a form
  pub form_family : length form ≡ family
  pub number : value form ≡ v

pub equal-Stands :
    {family : ℕ} {a b : Ip} {v w : ℕ} → Stands family a v → Stands family b w → equal a b ≡ (v == w)
equal-Stands {v = v} {w = w} s t =
    equal-value s.has_form t.has_form (s.form_family ∙ sym t.form_family)
    ∙ (λ i. s.number i == t.number i)

-- The iterator has begun, and will not stop at a number of its range between `v` and `last`.
pub record Passes (family : ℕ) (i : RangeIter) (v last : ℕ) : Type 0 where
  pub first : ℕ
  pub start_stands : Stands family i.start_ip first
  pub elsewhere : i.range_idx ≡ i.start_range → (w : ℕ) → v < w → w ≤ last → first ≢ w

module _ (p : IpPackage) where
  open p use {next_ip}

  -- The offers of the `n` addresses after `a`: the gateway is left out.
  unfoldable pub offers_after : Range → Ip → ℕ → List Offer
  offers_after r a zero = []
  offers_after r a (suc n) =
      let b = next_ip a in
      let rest = offers_after r b n in if equal b r.gateway then rest else offer r b ∷ rest

  pub addr_after : Ip → ℕ → Ip
  addr_after a zero = a
  addr_after a (suc n) = addr_after (next_ip a) n

module _ (p : IpPackage) (laws : IpLaws p) (rs : RangeSet) (family : ℕ) (r : Range)
    (w : IsRange family r) where
  open p use {next_ip}

  pub next-Stands :
      (a : Ip) (v : ℕ)
      → Stands family a v
      → value r.range_start ≤ v
      → v < value r.range_end
      → Stands family (next_ip a) (v + 1)
  next-Stands a v s lo hi =
      let (e, canonical, l, n) = w.spans (v + 1) (omega arith) (omega arith) in
      record {
        form = e;
        has_form =
            laws.next_form a s.form e s.has_form canonical (l ∙ sym s.form_family)
              (n ∙ ap (λ t. t + 1) (sym s.number));
        form_family = l;
        number = n;
      }

  end-Stands : Stands family r.range_end (value r.range_end)
  end-Stands = record {
    form = r.range_end;
    has_form = w.end;
    form_family = w.end_family;
    number = refl;
  }

  pub advance_inside :
      (i : RangeIter) (v last : ℕ)
      → get_elem? rs i.range_idx ≡ some r
      → Stands family i.cur v
      → value r.range_start ≤ v
      → v < last
      → last ≤ value r.range_end
      → Passes family i v last
      → advance p rs i ≡ (
          if equal (next_ip i.cur) r.gateway
          then skip (record i { cur = next_ip i.cur })
          else visit (record i { cur = next_ip i.cur }) (offer r (next_ip i.cur)))
  unfolding advance arrive
  advance_inside i v last at s lo hi top pass =
      let below : v < value r.range_end = omega arith in
      ground (
        arith,
        at,
        HasForm-nonempty s.has_form,
        HasForm-nonempty pass.start_stands.has_form,
        equal-Stands s end-Stands,
        equal-Stands (next-Stands i.cur v s lo below) pass.start_stands,
        λ (e : i.range_idx ≡ i.start_range). pass.elsewhere e (v + 1) (omega arith) (omega arith),
      )

  Passes-move :
      (i : RangeIter) (a : Ip) (v last : ℕ)
      → Passes family i v last
      → Passes family (record i { cur = a }) (v + 1) last
  Passes-move i a v last pass = record {
    first = pass.first;
    start_stands = pass.start_stands;
    elsewhere = λ e x lo hi. pass.elsewhere e x (omega arith) hi;
  }

  -- From `v`, which is `n` below `last`, the iterator goes along the range up to `last`.
  pub span :
      (n : ℕ) (i : RangeIter) (v last : ℕ) (l : List Offer) (k : ℕ)
      → get_elem? rs i.range_idx ≡ some r
      → Stands family i.cur v
      → value r.range_start ≤ v
      → v + n ≡ last
      → last ≤ value r.range_end
      → Passes family i v last
      → ((a : Ip) → Stands family a last → TrailIn p rs (record i { cur = a }) l k)
      → TrailIn p rs i (offers_after p r i.cur n ++ l) (n + k)
  unfolding offers_after
  span zero i v last l k at s lo sum top pass later =
      TrailIn-mono p rs i l k (0 + k) (omega arith)
        (later i.cur (let e : v ≡ last = omega arith in subst (Stands family i.cur) e s))
  span (suc n) i v last l k at s lo sum top pass later =
      let b = next_ip i.cur in
      let i' : RangeIter = record i { cur = b } in
      let step = advance_inside i v last at s lo (omega arith) top pass in
      let stands = next-Stands i.cur v s lo (omega arith) in
      let rest =
        span n i' (v + 1) last l k at stands (omega arith) (omega arith) top
          (Passes-move i b v last pass) later in
      subst (λ m. TrailIn p rs i m (suc n + k))
        (sym (append_if (equal b r.gateway) (offer r b) (offers_after p r b n) l))
        (TrailIn-mono p rs i _ _ _ (omega arith)
          (either_in p rs (equal b r.gateway) i i' (offer r b) _ (n + k) step rest))
