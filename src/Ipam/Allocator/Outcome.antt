-- ===== src/Ipam/Allocator/Outcome.antt =====
-- What an answer of Get (multus-ipam/backend/allocator/allocator.go) means for the store.
use multus_ext_cni.Prelude.{
  ℕ, ◌+◌, ◌≤◌, ◌<◌, ◌≡◌, true, false, not, List, [], ◌∷◌, ◌++◌, Option, none, some, arith, ◌⊎◌,
  Text, Result, ok, err, any, All, inl, inr, ◌||◌,
}
use multus_ext_cni.Net.{is_nil, equal}
use multus_ext_cni.Net.Number.{value}
use multus_ext_cni.Net.IpPackage.{IpPackage, IpLaws}
use multus_ext_cni.Ipam.Address.{AllocError, no_addresses, store_failed}
use multus_ext_cni.Ipam.Range
use multus_ext_cni.Ipam.Range.{Range}
use multus_ext_cni.Ipam.RangeSet
use multus_ext_cni.Ipam.RangeSet.{RangeSet}
use multus_ext_cni.Ipam.Store.{Store, StoreContract}
use multus_ext_cni.Ipam.Iter.{returned, Offer}
use multus_ext_cni.Ipam.Iter.Span.{IsRange, Stands}
use multus_ext_cni.Ipam.Iter.Chain.{total}
use multus_ext_cni.Ipam.Iter.Offers.{Covers, CoversAll}
use multus_ext_cni.Ipam.Iter.Rounds.{
  IsOfferOf, first_round-IsOfferOf, resumed_round-IsOfferOf, first_round-Covers,
  resumed_round-CoversAll,
}
use multus_ext_cni.Ipam.Allocator.{IpConfig, ip_config, conclude, get}
use multus_ext_cni.Ipam.Allocator.FirstFree.{first_free, first_free-none, first_free-some}
use multus_ext_cni.Ipam.Allocator.Order.{IsNew, Tries, get-eq-first_free, get-eq-resumed}

module _ (p : IpPackage) (laws : IpLaws p) {S : Type 0} (store : Store S)
    (contract : StoreContract store) (family : ℕ) (range_id id ifname : Text) (s : S) where
  open store use {last_reserved_ip}
  open contract use {Taken}

  -- The answer is an address of the set and no gateway, with its mask and gateway; it was free in
  -- the store and is taken now.
  abbrev pub Allocates : RangeSet → IpConfig → S → Type 0
  Allocates rs conf s' =
      (o : Offer) × (conf ≡ ip_config o)
      × IsOfferOf family rs o
      × (¬ Taken s o.address.ip)
      × Taken s' o.address.ip

  conclude-ok :
      (x : Result AllocError (Option Offer) × S) (conf : IpConfig) (s' : S)
      → conclude p store x ≡ (ok conf, s')
      → (o : Offer) × (conf ≡ ip_config o) × (x ≡ (ok (some o), s'))
  unfolding conclude
  conclude-ok (ok none, t) conf s' e = absurd (ground arith)
  conclude-ok (ok (some o), t) conf s' e = (o, ground arith, ground arith)
  conclude-ok (err x, t) conf s' e = absurd (ground arith)

  -- The errors of the search are those of the store.
  first_free-err :
      (l : List Offer) (t s' : S) (e : AllocError)
      → first_free store id ifname range_id l t ≡ (err e, s')
      → e ≡ store_failed
  unfolding first_free
  first_free-err [] t s' e h = absurd (ground arith)
  first_free-err (o ∷ l) t s' e h =
      ground (arith, first_free-err l (store.reserve id ifname o.address.ip range_id t).1 s' e)

  conclude-none :
      (x : Result AllocError (Option Offer) × S) (s' : S)
      → conclude p store x ≡ (err no_addresses, s')
      → (x ≡ (ok none, s')) ⊎ (x ≡ (err no_addresses, s'))
  unfolding conclude
  conclude-none (ok none, t) s' e = inl (ground arith)
  conclude-none (ok (some o), t) s' e = absurd (ground arith)
  conclude-none (err x, t) s' e = inr (ground arith)

  answer-ok :
      (rs : RangeSet) (fuel : ℕ) (l : List Offer) (conf : IpConfig) (s' : S)
      → Tries p laws store family range_id id ifname s fuel rs l
      → All (IsOfferOf family rs) l
      → get p store fuel rs range_id id ifname [] s ≡ returned (ok conf, s')
      → Allocates rs conf s'
  answer-ok rs fuel l conf s' tried all got =
      let result : conclude p store (first_free store id ifname range_id l s) ≡ (ok conf, s') =
        ground arith in
      let (o, shown, found) = conclude-ok _ conf s' result in
      let (offer', free, taken) =
        first_free-some store contract id ifname range_id (IsOfferOf family rs) l o s s' all
          found in
      (o, shown, offer', free, taken)

  answer-none :
      (rs : RangeSet) (fuel : ℕ) (l : List Offer) (s' : S)
      → Tries p laws store family range_id id ifname s fuel rs l
      → get p store fuel rs range_id id ifname [] s ≡ returned (err no_addresses, s')
      → (s' ≡ s) × All (λ o. Taken s o.address.ip) l
  answer-none rs fuel l s' tried got =
      let result : conclude p store (first_free store id ifname range_id l s)
          ≡ (err no_addresses, s') =
        ground arith in
      elim (conclude-none _ s' result) [
        | inl none' ↦ first_free-none store contract id ifname range_id l s s' none'
        | inr failed ↦ (let e = first_free-err l s s' no_addresses failed in absurd (cc e))
      ]

  -- On a store that keeps its contract, with ranges that are canonical, of one family and in
  -- order, a container without an address of the set, no address of the set reserved last and
  -- enough fuel: if Get without a request answers with a configuration, it is an address of a
  -- range of the set that is not the gateway of that range, with the mask and gateway of the
  -- range; the address was free in the store before and is taken after.
  pub get_sound :
      (fuel : ℕ) (r : Range) (rest : RangeSet) (conf : IpConfig) (s' : S)
      → IsRange family r
      → All (IsRange family) rest
      → IsNew p store (r ∷ rest) id ifname s
      → (is_nil (last_reserved_ip range_id s)
          || not (RangeSet.contains p (r ∷ rest) (last_reserved_ip range_id s)))
        ≡ true
      → total (r ∷ rest) + 1 ≤ fuel
      → get p store fuel (r ∷ rest) range_id id ifname [] s ≡ returned (ok conf, s')
      → Allocates (r ∷ rest) conf s'
  get_sound fuel r rest conf s' w ws fresh h enough got =
      answer-ok (r ∷ rest) fuel _ conf s'
        (get-eq-first_free p laws store family range_id id ifname s fuel r rest w ws fresh h enough)
        (first_round-IsOfferOf p laws family r rest w ws) got

  -- On a store that keeps its contract, with ranges that are canonical, of one family and in
  -- order, a container without an address of the set and enough fuel, where the address reserved
  -- last has the number `v` inside range `r`, is not the end of `r` and is in no range before `r`:
  -- if Get without a request answers with a configuration, it is an address of a range of the set
  -- that is not the gateway of that range, with the mask and gateway of the range; the address was
  -- free in the store before and is taken after.
  pub get_sound_resumed :
      (fuel : ℕ) (before after : RangeSet) (r : Range) (v : ℕ) (conf : IpConfig) (s' : S)
      → All (IsRange family) before
      → IsRange family r
      → All (IsRange family) after
      → IsNew p store (before ++ r ∷ after) id ifname s
      → Stands family (last_reserved_ip range_id s) v
      → value r.range_start ≤ v
      → v < value r.range_end
      → All (λ x. Range.contains p x (last_reserved_ip range_id s) ≡ false) before
      → Range.contains p r (last_reserved_ip range_id s) ≡ true
      → total (r ∷ after ++ before) + 1 ≤ fuel
      → get p store fuel (before ++ r ∷ after) range_id id ifname [] s ≡ returned (ok conf, s')
      → Allocates (before ++ r ∷ after) conf s'
  get_sound_resumed fuel before after r v conf s' wb w wa fresh at lo hi others own enough got =
      answer-ok (before ++ r ∷ after) fuel _ conf s'
        (get-eq-resumed p laws store family range_id id ifname s fuel before after r v wb w wa fresh
          at lo hi others own enough)
        (resumed_round-IsOfferOf p laws family before after r _ v wb w wa at lo hi) got

  -- The address is taken, as an offer.
  abbrev pub IsTaken : Offer → Type 0
  IsTaken o = Taken s o.address.ip

  -- On a store that keeps its contract, with ranges that are canonical, of one family and in
  -- order, a container without an address of the set, no address of the set reserved last and
  -- enough fuel: if Get answers that no address is available, the store is as it was, and each
  -- number of each range is that of the gateway or of an address that is taken; only the very
  -- first address may be reserved by the configuration instead.
  pub get-exhausted :
      (fuel : ℕ) (r : Range) (rest : RangeSet) (s' : S)
      → IsRange family r
      → All (IsRange family) rest
      → IsNew p store (r ∷ rest) id ifname s
      → (is_nil (last_reserved_ip range_id s)
          || not (RangeSet.contains p (r ∷ rest) (last_reserved_ip range_id s)))
        ≡ true
      → total (r ∷ rest) + 1 ≤ fuel
      → get p store fuel (r ∷ rest) range_id id ifname [] s ≡ returned (err no_addresses, s')
      → (s' ≡ s)
        × ((equal r.range_start r.gateway ≡ true)
            ⊎ ((any (λ ip. equal r.range_start ip) r.reserves ≡ true) ⊎ Taken s r.range_start))
        × Covers IsTaken family r (value r.range_start + 1) (value r.range_end)
        × CoversAll IsTaken family rest
  get-exhausted fuel r rest s' w ws fresh h enough got =
      let (same, all) =
        answer-none (r ∷ rest) fuel _ s'
          (get-eq-first_free p laws store family range_id id ifname s fuel r rest w ws fresh h
            enough)
          got in
      let (start, own, others) = first_round-Covers p laws family IsTaken r rest w ws all in
      (same, start, own, others)

  -- On a store that keeps its contract, with ranges that are canonical, of one family and in
  -- order, a container without an address of the set and enough fuel, where the address reserved
  -- last has the number `v` inside range `r`, is not the end of `r` and is in no range before `r`:
  -- if Get answers that no address is available, the store is as it was, and each number of each
  -- range is that of the gateway or of an address that is taken.
  pub get-exhausted_resumed :
      (fuel : ℕ) (before after : RangeSet) (r : Range) (v : ℕ) (s' : S)
      → All (IsRange family) before
      → IsRange family r
      → All (IsRange family) after
      → IsNew p store (before ++ r ∷ after) id ifname s
      → Stands family (last_reserved_ip range_id s) v
      → value r.range_start ≤ v
      → v < value r.range_end
      → All (λ x. Range.contains p x (last_reserved_ip range_id s) ≡ false) before
      → Range.contains p r (last_reserved_ip range_id s) ≡ true
      → total (r ∷ after ++ before) + 1 ≤ fuel
      → get p store fuel (before ++ r ∷ after) range_id id ifname [] s
        ≡ returned (err no_addresses, s')
      → (s' ≡ s) × CoversAll IsTaken family (before ++ r ∷ after)
  get-exhausted_resumed fuel before after r v s' wb w wa fresh at lo hi others own enough got =
      let (same, all) =
        answer-none (before ++ r ∷ after) fuel _ s'
          (get-eq-resumed p laws store family range_id id ifname s fuel before after r v wb w wa
            fresh at lo hi others own enough)
          got in
      (same, resumed_round-CoversAll p laws family IsTaken before after r _ v wb w wa at lo hi all)
