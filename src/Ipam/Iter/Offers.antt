-- ===== src/Ipam/Iter/Offers.antt =====
-- What the offers of a round are: each address of each range once, but the gateways.
use multus_ext_cni.Prelude.{
  ℕ, zero, suc, ◌+◌, ◌≤◌, ◌<◌, ◌≡◌, refl, subst, Bool, true, false, List, [], ◌∷◌, arith, ◌⊎◌, All,
  All-split, ◌==◌, if◌then◌else◌, Bool-cases, inl, inr,
}
use multus_ext_cni.Net.{Ip, equal}
use multus_ext_cni.Net.Number.{value}
use multus_ext_cni.Net.IpPackage.{IpPackage, IpLaws}
use multus_ext_cni.Ipam.Range.{Range}
use multus_ext_cni.Ipam.RangeSet.{RangeSet}
use multus_ext_cni.Ipam.Iter.{Offer, offer}
use multus_ext_cni.Ipam.Iter.Span.{IsRange, Stands, next-Stands, offers_after}
use multus_ext_cni.Ipam.Iter.Chain.{size, offers_to, offers_round, start-Stands}

-- An address of the range, in its right place, with the mask and gateway of the range.
pub record IsOffer (family : ℕ) (r : Range) (o : Offer) : Type 0 where
  pub number : ℕ
  pub stands : Stands family o.address.ip number
  pub above : value r.range_start ≤ number
  pub below : number ≤ value r.range_end
  pub not_gateway : equal o.address.ip r.gateway ≡ false
  pub is_offer : o ≡ offer r o.address.ip

split_head {ℓ} :
    (P : Offer → Type ℓ) (g : Bool) (o : Offer) (l : List Offer)
    → All P (if g then l else o ∷ l)
    → ((g ≡ true) ⊎ P o) × All P l
split_head P true o l all = (inl refl, all)
split_head P false o l all = (inr all.0, all.1)

-- Each of the numbers from `v` to `last` is that of an offer with `P`, or of the gateway.
abbrev pub Covers {ℓ} : (Offer → Type ℓ) → ℕ → Range → ℕ → ℕ → Type ℓ
Covers P family r v last =
    (n : ℕ)
    → v ≤ n
    → n ≤ last
    → (b : Ip) × Stands family b n × ((equal b r.gateway ≡ true) ⊎ P (offer r b))

module _ (p : IpPackage) (laws : IpLaws p) (family : ℕ) (r : Range) (w : IsRange family r) where
  open p use {next_ip}

  next-Stands' :
      (a : Ip) (v : ℕ)
      → Stands family a v
      → value r.range_start ≤ v
      → v < value r.range_end
      → Stands family (next_ip a) (v + 1)
  next-Stands' = next-Stands p laws [] family r w

  head-IsOffer :
      (b : Ip) (v : ℕ) (l : List Offer)
      → Stands family b v
      → value r.range_start ≤ v
      → v ≤ value r.range_end
      → All (IsOffer family r) l
      → All (IsOffer family r) (if equal b r.gateway then l else offer r b ∷ l)
  head-IsOffer b v l s lo hi all = elim (Bool-cases (equal b r.gateway)) [
    | inl gate ↦ rw gate all
    | inr other ↦ rw other (
      record {
        number = v;
        stands = s;
        above = lo;
        below = hi;
        not_gateway = other;
        is_offer = refl;
      },
      all,
    )
  ]

  pub offers_after-IsOffer :
      (n : ℕ) (a : Ip) (v : ℕ)
      → Stands family a v
      → value r.range_start ≤ v
      → v + n ≤ value r.range_end
      → All (IsOffer family r) (offers_after p r a n)
  unfolding offers_after
  offers_after-IsOffer zero a v s lo hi = tt
  offers_after-IsOffer (suc n) a v s lo hi =
      let t = next-Stands' a v s lo (omega arith) in
      head-IsOffer (next_ip a) (v + 1) _ t (omega arith) (omega arith)
        (offers_after-IsOffer n (next_ip a) (v + 1) t (omega arith) (omega arith))

  pub offers_to-IsOffer :
      (n : ℕ)
      → value r.range_start + n ≤ value r.range_end
      → All (IsOffer family r) (offers_to p r n)
  unfolding offers_to
  offers_to-IsOffer n hi =
      let s = start-Stands family r w in
      head-IsOffer r.range_start (value r.range_start) _ s (omega arith) w.ordered
        (offers_after-IsOffer n r.range_start (value r.range_start) s (omega arith) hi)

  module _ {ℓ} (P : Offer → Type ℓ) where
    head-Covers :
        (b : Ip) (v last : ℕ) (l : List Offer)
        → Stands family b v
        → All P (if equal b r.gateway then l else offer r b ∷ l)
        → (All P l → Covers P family r (v + 1) last)
        → Covers P family r v last
    head-Covers b v last l s all tail n lo hi =
        let (head, rest) = split_head P (equal b r.gateway) (offer r b) l all in
        elim (Bool-cases (n == v)) [
          | inl same ↦ (let e : v ≡ n = ground arith in (b, subst (Stands family b) e s, head))
          | inr later ↦ tail rest n (ground arith) hi
        ]

    pub offers_after-Covers :
        (n : ℕ) (a : Ip) (v : ℕ)
        → Stands family a v
        → value r.range_start ≤ v
        → v + n ≤ value r.range_end
        → All P (offers_after p r a n)
        → Covers P family r (v + 1) (v + n)
    unfolding offers_after
    offers_after-Covers zero a v s lo hi all m above below = absurd (omega arith)
    offers_after-Covers (suc n) a v s lo hi all m above below =
        let t = next-Stands' a v s lo (omega arith) in
        head-Covers (next_ip a) (v + 1) (v + suc n) _ t all
          (λ rest k lo' hi'.
            offers_after-Covers n (next_ip a) (v + 1) t (omega arith) (omega arith) rest k lo'
              (omega arith))
          m above below

    pub offers_to-Covers :
        (n : ℕ)
        → value r.range_start + n ≤ value r.range_end
        → All P (offers_to p r n)
        → Covers P family r (value r.range_start) (value r.range_start + n)
    unfolding offers_to
    offers_to-Covers n hi all =
        let s = start-Stands family r w in
        head-Covers r.range_start (value r.range_start) (value r.range_start + n) _ s all
          (offers_after-Covers n r.range_start (value r.range_start) s (omega arith) hi)

-- Each number of each range of the set.
abbrev pub CoversAll {ℓ} : (Offer → Type ℓ) → ℕ → RangeSet → Type ℓ
CoversAll P family = All (λ r. Covers P family r (value r.range_start) (value r.range_end))

module _ (p : IpPackage) (laws : IpLaws p) (family : ℕ) where
  module _ {ℓ} (P : Offer → Type ℓ) where
    pub offers_round-CoversAll :
        (rs : RangeSet)
        → All (IsRange family) rs
        → All P (offers_round p rs)
        → CoversAll P family rs
    unfolding offers_round
    offers_round-CoversAll [] ws all = tt
    offers_round-CoversAll (r ∷ rs) ws all =
        let (here, there) = All-split P (offers_to p r (size r)) (offers_round p rs) all in
        let h = ws.0.ordered in
        let whole : value r.range_start + size r ≡ value r.range_end = omega arith in
        (
          subst (Covers P family r (value r.range_start)) whole
              (offers_to-Covers p laws family r ws.0 P (size r) (omega arith) here),
          offers_round-CoversAll rs ws.1 there,
        )
