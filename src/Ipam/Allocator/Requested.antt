-- ===== src/Ipam/Allocator/Requested.antt =====
-- Get (multus-ipam/backend/allocator/allocator.go) with a requested address, and the reserved addresses of a
-- range.
use multus_ext_cni.Prelude.{
  ℕ, suc, ◌+◌, ◌-◌, ◌≤◌, ◌<◌, ◌≡◌, sym, ◌∙◌, ap, subst, true, false, List, [], ◌∷◌, ◌++◌, none,
  some, arith, Text, ok, err, get_elem?, any, All, if◌then◌else◌, Bool-cases, inl, inr,
  Result-cases, Option-cases,
}
use multus_ext_cni.Net.{Ip, is_nil, equal}
use multus_ext_cni.Net.Number.{value}
use multus_ext_cni.Net.IpPackage.{IpPackage, IpLaws}
use multus_ext_cni.Ipam.Address.{AllocError, canonicalize_ip, HasForm}
use multus_ext_cni.Ipam.Address.Laws.{form-IsCanonical}
use multus_ext_cni.Ipam.Range
use multus_ext_cni.Ipam.Range.{Range}
use multus_ext_cni.Ipam.RangeSet
use multus_ext_cni.Ipam.RangeSet.{RangeSet}
use multus_ext_cni.Ipam.Store.{Store, StoreContract}
use multus_ext_cni.Ipam.Iter.{returned, Offer, offer}
use multus_ext_cni.Ipam.Iter.Span.{IsRange}
use multus_ext_cni.Ipam.Iter.Chain.{total}
use multus_ext_cni.Ipam.Iter.Round.{first_round}
use multus_ext_cni.Ipam.Allocator.{IpConfig, ip_config, conclude, get, check_requested}
use multus_ext_cni.Ipam.Allocator.FirstFree.{first_free}
use multus_ext_cni.Ipam.Address.{is_reserved, is_gateway, not_in_set}
use multus_ext_cni.Ipam.Address.Laws.{canonicalize_idem, form_nonempty}
use multus_ext_cni.Ipam.Iter.Chain.{size, offers_round}
use multus_ext_cni.Ipam.Iter.Span.{offers_after}
use multus_ext_cni.Ipam.Allocator.Order.{IsNew, get-eq-first_free}

module _ (p : IpPackage) where
  -- What RangeFor finds is a range of the set that contains the address.
  find_range-Contains :
      (rs : RangeSet) (c : Ip) (r : Range)
      → RangeSet.find_range p rs c ≡ some r
      → (j : ℕ) × (get_elem? rs j ≡ some r) × (Range.contains p r c ≡ true)
  unfolding RangeSet.find_range
  find_range-Contains [] c r e = absurd (ground arith)
  find_range-Contains (x ∷ rs) c r e = elim (Bool-cases (Range.contains p x c)) [
    | inl here ↦ (0, ground arith, ground arith)
    | inr miss ↦
        let (j, at, inside) = find_range-Contains rs c r (ground arith) in (suc j, at, inside)
  ]

  -- The address that Get would reserve for a request, and what it has been checked against.
  pub record IsChecked (rs : RangeSet) (requested : Ip) (o : Offer) : Type 0 where
    pub range : Range
    pub form : canonicalize_ip requested ≡ ok o.address.ip
    pub found : RangeSet.find_range p rs o.address.ip ≡ some range
    pub not_gateway : equal o.address.ip range.gateway ≡ false
    pub not_reserved : any (λ ip. equal o.address.ip ip) range.reserves ≡ false
    pub is_offer : o ≡ offer range o.address.ip

module _ (p : IpPackage) {S : Type 0} (store : Store S) (rs : RangeSet) (requested : Ip) where
  -- With the address in its canonical form and the range found, the two tests are left.
  check_found :
      (c : Ip) (r : Range)
      → canonicalize_ip requested ≡ ok c
      → RangeSet.find_range p rs c ≡ some r
      → check_requested p store rs requested ≡ (
          if equal c r.gateway
          then err is_gateway
          else if any (λ ip. equal c ip) r.reserves
          then err is_reserved
          else ok (offer r c))
  unfolding check_requested RangeSet.range_for
  check_found c r e f = ground (arith, e, canonicalize_idem requested c e, f)

  check_missing :
      (c : Ip)
      → canonicalize_ip requested ≡ ok c
      → RangeSet.find_range p rs c ≡ none
      → check_requested p store rs requested ≡ err not_in_set
  unfolding check_requested RangeSet.range_for
  check_missing c e f = ground (arith, e, canonicalize_idem requested c e, f)

  check_invalid :
      (x : AllocError)
      → canonicalize_ip requested ≡ err x
      → check_requested p store rs requested ≡ err x
  unfolding check_requested
  check_invalid x e = ground (arith, e)

  check_requested-IsChecked :
      (o : Offer) → check_requested p store rs requested ≡ ok o → IsChecked p rs requested o
  check_requested-IsChecked o e = elim (Result-cases (canonicalize_ip requested)) [
    | inr (x, bad) ↦ absurd (ground (arith, check_invalid x bad))
    | inl (c, form) ↦ elim (Option-cases (RangeSet.find_range p rs c)) [
      | inl none' ↦ absurd (ground (arith, check_missing c form none'))
      | inr (r, found) ↦
          let split = check_found c r form found in
          let same : c ≡ o.address.ip = ground arith in
          record {
            range = r;
            form = ground arith;
            found = subst (λ a. RangeSet.find_range p rs a ≡ some r) same found;
            not_gateway = subst (λ a. equal a r.gateway ≡ false) same (ground arith);
            not_reserved =
                subst (λ a. any (λ ip. equal a ip) r.reserves ≡ false) same (ground arith);
            is_offer = subst (λ a. o ≡ offer r a) same (ground arith);
          }
    ]
  ]

module _ (p : IpPackage) {S : Type 0} (store : Store S) (contract : StoreContract store)
    (rs : RangeSet) (range_id id ifname : Text) (requested : Ip) (fuel : ℕ) (s : S) where
  open contract use {Taken}

  -- On a store that keeps its contract, a Get with a requested address that succeeds answers with
  -- the canonical form of that address, with the mask and gateway of the first range of the set
  -- that contains it; the address is neither that gateway nor among the reserved addresses of the
  -- range, it was free in the store before and is taken after.
  pub get_requested_sound :
      (conf : IpConfig) (s' : S)
      → is_nil requested ≡ false
      → get p store fuel rs range_id id ifname requested s ≡ returned (ok conf, s')
      → (o : Offer) × (conf ≡ ip_config o)
        × IsChecked p rs requested o
        × ((j : ℕ) × (r : Range) × (get_elem? rs j ≡ some r)
            × (Range.contains p r o.address.ip ≡ true))
        × (¬ Taken s o.address.ip)
        × Taken s' o.address.ip
  unfolding get
  get_requested_sound conf s' given got =
      elim (Result-cases (check_requested p store rs requested)) [
        | inr (x, bad) ↦ absurd (ground arith)
        | inl (o, good) ↦
            let checked = check_requested-IsChecked p store rs requested o good in
            let (j, at, inside) =
              find_range-Contains p rs o.address.ip checked.range checked.found in
            let (free, taken) =
              contract.granted id ifname o.address.ip range_id s s' (ground arith) in
            (o, ground arith, checked, (j, checked.range, at, inside), free, taken)
      ]

module _ (p : IpPackage) (laws : IpLaws p) {S : Type 0} (store : Store S) (family : ℕ)
    (range_id id ifname : Text) (s s' : S) where
  open p use {next_ip}
  open store use {reserve, last_reserved_ip}

  -- The first offers of such a range.
  first_round_gateway :
      (r : Range) (rest : RangeSet)
      → equal r.range_start r.gateway ≡ true
      → equal (next_ip r.range_start) r.gateway ≡ false
      → value r.range_start < value r.range_end
      → (l : List Offer) × (first_round p (r ∷ rest) ≡ offer r (next_ip r.range_start) ∷ l)
  unfolding first_round offers_after
  first_round_gateway r rest start other room =
      let b = next_ip r.range_start in
      let more : size r ≡ suc (size r - 1) = omega arith in
      (
        offers_after p r b (size r - 1) ++ offers_round p rest,
        rw start (
            subst
              (λ n.
                offers_after p r r.range_start n ++ offers_round p rest
                ≡ offer r b ∷ offers_after p r b (size r - 1) ++ offers_round p rest)
              (sym more) (rw other)),
      )

  get_requested-reserved :
      (fuel : ℕ) (r : Range) (rest : RangeSet) (e : Ip)
      → canonicalize_ip e ≡ ok e
      → Range.contains p r e ≡ true
      → equal e r.gateway ≡ false
      → any (λ ip. equal e ip) r.reserves ≡ true
      → get p store fuel (r ∷ rest) range_id id ifname e s ≡ returned (err is_reserved, s)
  unfolding get RangeSet.find_range
  get_requested-reserved fuel r rest e form inside other reserved =
      ground
        (arith, form_nonempty e e form, check_found p store (r ∷ rest) e e r form (ground arith))

  -- The ranges are canonical, of one family and in order; the container has no address of the set
  -- and no address was reserved last; the first range begins with its gateway, and the next
  -- address `e` is in it, is not the gateway, is among its reserved addresses, and is free in the
  -- store. Then Get refuses a request for `e` as reserved, and without a request it hands out `e`.
  pub get-reserved :
      (fuel : ℕ) (r : Range) (rest : RangeSet) (e : Ip)
      → IsRange family r
      → All (IsRange family) rest
      → IsNew p store (r ∷ rest) id ifname s
      → is_nil (last_reserved_ip range_id s) ≡ true
      → total (r ∷ rest) + 1 ≤ fuel
      → equal r.range_start r.gateway ≡ true
      → HasForm (next_ip r.range_start) e
      → Range.contains p r e ≡ true
      → equal e r.gateway ≡ false
      → equal (next_ip r.range_start) r.gateway ≡ false
      → any (λ ip. equal e ip) r.reserves ≡ true
      → value r.range_start < value r.range_end
      → reserve id ifname (next_ip r.range_start) range_id s ≡ (ok true, s')
      → (get p store fuel (r ∷ rest) range_id id ifname e s ≡ returned (err is_reserved, s))
        × (get p store fuel (r ∷ rest) range_id id ifname [] s
            ≡ returned (ok (ip_config (offer r (next_ip r.range_start))), s'))
  unfolding conclude first_free get
  get-reserved fuel r rest e w ws fresh h enough start form inside other other' reserved room free =
      let tried =
        get-eq-first_free p laws store family range_id id ifname s fuel r rest w ws fresh
          (ground arith) enough in
      let (l, first) = first_round_gateway r rest start other' room in
      (
        get_requested-reserved fuel r rest e (form-IsCanonical form).form inside other reserved,
        tried
            ∙ ap (λ m. returned (conclude p store (first_free store id ifname range_id m s))) first
            ∙ ground (arith, free),
      )
