-- ===== src/Ipam/Iter/Rounds.antt =====
-- The two rounds of the iterator, the new one and the resumed one: what they offer and that they leave
-- nothing out.
use mathlib.Core.List.{append_assoc}
use multus_ext_cni.Prelude.{
  ℕ, ◌+◌, ◌-◌, ◌≤◌, ◌<◌, ◌≡◌, refl, sym, ◌∙◌, subst, Bool, true, false, List, [], ◌∷◌, ◌++◌, some,
  arith, ◌⊎◌, length, get_elem?, any, All, All-append, if◌then◌else◌, Bool-cases, inl, inr, ◌||◌,
}
use multus_ext_cni.Net.{Ip, equal}
use multus_ext_cni.Net.Number.{value}
use multus_ext_cni.Net.IpPackage.{IpPackage, IpLaws}
use multus_ext_cni.Ipam.Range.{Range}
use multus_ext_cni.Ipam.RangeSet.{RangeSet}
use multus_ext_cni.Ipam.Iter.{Offer, offer}
use multus_ext_cni.Ipam.Iter.Span.{IsRange, Stands, offers_after}
use multus_ext_cni.Ipam.Iter.Chain.{size, offers_to, offers_round, start-Stands}
use multus_ext_cni.Ipam.Iter.Follow.{at_done}
use multus_ext_cni.Prelude.{All-map, All-split, leb}
use multus_ext_cni.Ipam.Iter.Round.{first_round}
use multus_ext_cni.Ipam.Iter.Resume.{resumed_round}
use multus_ext_cni.Ipam.Iter.Offers.{
  IsOffer, Covers, CoversAll, offers_after-IsOffer, offers_to-IsOffer, offers_after-Covers,
  offers_to-Covers, offers_round-CoversAll,
}

-- An offer of the set is an offer of one of its ranges.
abbrev pub IsOfferOf : ℕ → RangeSet → Offer → Type 0
IsOfferOf family rs o = (j : ℕ) × (r : Range) × (get_elem? rs j ≡ some r) × IsOffer family r o

abbrev Within : RangeSet → Range → Type 0
Within rs r = (j : ℕ) × (get_elem? rs j ≡ some r)

All-Within : (rs done more : RangeSet) → rs ≡ done ++ more → All (Within rs) more
All-Within rs done [] e = tt
All-Within rs done (r ∷ more) e = (
  (length done, at_done rs done more r (length done) e refl),
  All-Within rs (done ++ r ∷ []) more (e ∙ sym (append_assoc done (r ∷ []) more)),
)

split_first {ℓ} :
    (P : Offer → Type ℓ) (gate reserved : Bool) (o : Offer) (l : List Offer)
    → All P (if gate || reserved then l else o ∷ l)
    → ((gate ≡ true) ⊎ ((reserved ≡ true) ⊎ P o)) × All P l
split_first P true reserved o l all = (inl refl, all)
split_first P false true o l all = (inr (inl refl), all)
split_first P false false o l all = (inr (inr all.0), all.1)

All-take : (rs done more rest : RangeSet) → rs ≡ done ++ (more ++ rest) → All (Within rs) more
All-take rs done [] rest e = tt
All-take rs done (r ∷ more) rest e = (
  (length done, at_done rs done (more ++ rest) r (length done) e refl),
  All-take rs (done ++ r ∷ []) more rest (e ∙ sym (append_assoc done (r ∷ []) (more ++ rest))),
)

module _ (p : IpPackage) (laws : IpLaws p) (family : ℕ) (rs : RangeSet) where
  of_range :
      (r : Range)
      → Within rs r
      → (l : List Offer) → All (IsOffer family r) l
      → All (IsOfferOf family rs) l
  of_range r (j, at) l all = All-map _ _ l (λ o h. (j, r, at, h)) all

  of_round :
      (more : RangeSet)
      → All (IsRange family) more
      → All (Within rs) more
      → All (IsOfferOf family rs) (offers_round p more)
  unfolding offers_round
  of_round [] ws ats = tt
  of_round (r ∷ more) ws ats =
      All-append (IsOfferOf family rs) (offers_to p r (size r)) (offers_round p more)
        (of_range r ats.0 _
          (offers_to-IsOffer p laws family r ws.0 (size r) (let h = ws.0.ordered in omega arith)))
        (of_round more ws.1 ats.1)

module _ (p : IpPackage) (laws : IpLaws p) (family : ℕ) where
  -- A new round offers addresses of the set, none a gateway.
  pub first_round-IsOfferOf :
      (r : Range) (rest : RangeSet)
      → IsRange family r
      → All (IsRange family) rest
      → All (IsOfferOf family (r ∷ rest)) (first_round p (r ∷ rest))
  unfolding first_round
  first_round-IsOfferOf r rest w ws =
      let rs : RangeSet = r ∷ rest in
      let a = r.range_start in
      let h = w.ordered in
      let s = start-Stands family r w in
      let g : Bool = equal a r.gateway || any (λ ip. equal a ip) r.reserves in
      let behind =
        All-append (IsOfferOf family rs) _ _
          (of_range p laws family rs r (0, refl) _
            (offers_after-IsOffer p laws family r w (size r) a (value a) s (omega arith)
              (omega arith)))
          (of_round p laws family rs rest ws (All-Within rs (r ∷ []) rest refl)) in
      elim (Bool-cases g) [
        | inl out ↦ rw out behind
        | inr kept ↦ rw kept (
          (
            0,
            r,
            refl,
            record {
              number = value a;
              stands = s;
              above = omega arith;
              below = h;
              not_gateway = ground arith;
              is_offer = refl;
            },
          ),
          behind,
        )
      ]

  -- A new round leaves out no number of the set, but the very first address if it is reserved.
  pub first_round-Covers {ℓ} :
      (P : Offer → Type ℓ) (r : Range) (rest : RangeSet)
      → IsRange family r
      → All (IsRange family) rest
      → All P (first_round p (r ∷ rest))
      → ((equal r.range_start r.gateway ≡ true)
          ⊎ ((any (λ ip. equal r.range_start ip) r.reserves ≡ true) ⊎ P (offer r r.range_start)))
        × Covers P family r (value r.range_start + 1) (value r.range_end)
        × CoversAll P family rest
  unfolding first_round
  first_round-Covers P r rest w ws all =
      let a = r.range_start in
      let h = w.ordered in
      let (head, behind) =
        split_first P (equal a r.gateway) (any (λ ip. equal a ip) r.reserves) (offer r a) _ all in
      let (here, there) = All-split P (offers_after p r a (size r)) (offers_round p rest) behind in
      let whole : value a + size r ≡ value r.range_end = omega arith in
      (
        head,
        subst (Covers P family r (value a + 1)) whole (
            offers_after-Covers p laws family r w P (size r) a (value a) (start-Stands family r w)
              (omega arith) (omega arith) here),
        offers_round-CoversAll p laws family P rest ws there,
      )

  -- So does a resumed round.
  pub resumed_round-IsOfferOf :
      (before after : RangeSet) (r : Range) (a : Ip) (v : ℕ)
      → All (IsRange family) before
      → IsRange family r
      → All (IsRange family) after
      → Stands family a v
      → value r.range_start ≤ v
      → v < value r.range_end
      → All (IsOfferOf family (before ++ r ∷ after)) (resumed_round p before r after a v)
  unfolding resumed_round
  resumed_round-IsOfferOf before after r a v wb w wa s lo hi =
      let rs : RangeSet = before ++ r ∷ after in
      let within : Within rs r =
        (length before, at_done rs before after r (length before) refl refl) in
      let others : All (Within rs) (after ++ before) =
        All-append (Within rs) after before
          (All-Within rs (before ++ r ∷ []) after (sym (append_assoc before (r ∷ []) after)))
          (All-take rs [] before (r ∷ after) refl) in
      All-append (IsOfferOf family rs) _ _
        (of_range p laws family rs r within _
          (offers_after-IsOffer p laws family r w _ a v s lo (omega arith)))
        (All-append (IsOfferOf family rs) _ _
          (of_round p laws family rs (after ++ before)
            (All-append (IsRange family) after before wa wb) others)
          (of_range p laws family rs r within _
            (offers_to-IsOffer p laws family r w _ (let h = w.ordered in omega arith))))

  -- A resumed round leaves out no number of the set.
  pub resumed_round-CoversAll {ℓ} :
      (P : Offer → Type ℓ) (before after : RangeSet) (r : Range) (a : Ip) (v : ℕ)
      → All (IsRange family) before
      → IsRange family r
      → All (IsRange family) after
      → Stands family a v
      → value r.range_start ≤ v
      → v < value r.range_end
      → All P (resumed_round p before r after a v)
      → CoversAll P family (before ++ r ∷ after)
  unfolding resumed_round
  resumed_round-CoversAll P before after r a v wb w wa s lo hi all =
      let h = w.ordered in
      let (end, more) = All-split P (offers_after p r a (value r.range_end - v)) _ all in
      let (others, start) = All-split P (offers_round p (after ++ before)) _ more in
      let rest =
        offers_round-CoversAll p laws family P (after ++ before)
          (All-append (IsRange family) after before wa wb) others in
      let (behind, ahead) = All-split _ after before rest in
      let high = offers_after-Covers p laws family r w P _ a v s lo (omega arith) end in
      let low =
        offers_to-Covers p laws family r w P (v - value r.range_start) (omega arith) start in
      let own : Covers P family r (value r.range_start) (value r.range_end) = λ n from to.
        elim (Bool-cases (leb n v)) [
          | inl under ↦ low n from (ground arith)
          | inr over ↦ high n (ground arith) (omega arith)
        ] in
      All-append _ before (r ∷ after) ahead (own, behind)
