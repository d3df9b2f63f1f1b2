-- ===== src/Ipam/Allocator/Order.antt =====
-- The order in which Get (multus-ipam/backend/allocator/allocator.go) tries addresses.
use multus_ext_cni.Prelude.{
  ℕ, ◌+◌, ◌≤◌, ◌<◌, ◌≡◌, sym, ◌∙◌, true, false, not, List, [], ◌∷◌, ◌++◌, some, arith, Text, length,
  any, All, All-append, All-map, ◌||◌,
}
use multus_ext_cni.Net.{Ip, is_nil}
use multus_ext_cni.Net.Number.{value}
use multus_ext_cni.Net.IpPackage.{IpPackage, IpLaws}
use multus_ext_cni.Ipam.Address.{HasForm}
use multus_ext_cni.Ipam.Address.Laws.{HasForm-nonempty, form-IsCanonical}
use multus_ext_cni.Ipam.Range
use multus_ext_cni.Ipam.Range.{Range}
use multus_ext_cni.Ipam.RangeSet
use multus_ext_cni.Ipam.RangeSet.{RangeSet}
use multus_ext_cni.Ipam.Store.{Store}
use multus_ext_cni.Ipam.Iter.{returned, RangeIter, Offer}
use multus_ext_cni.Ipam.Iter.Walk.{TrailIn}
use multus_ext_cni.Ipam.Iter.Span.{IsRange, Stands}
use multus_ext_cni.Ipam.Iter.Chain.{total}
use multus_ext_cni.Ipam.Iter.Round.{first_round, at_first, round}
use multus_ext_cni.Ipam.Iter.Resume.{resumed_round, resumed, resume}
use multus_ext_cni.Ipam.Allocator.{index_of, get_iter, conclude, get}
use multus_ext_cni.Ipam.Allocator.FirstFree.{first_free, allocate-eq-first_free}

module _ (p : IpPackage) {S : Type 0} (store : Store S) where
  open store use {last_reserved_ip, get_by_id}

  -- Get has no address for this container yet.
  abbrev pub IsNew : RangeSet → Text → Text → S → Type 0
  IsNew rs id ifname s = any (λ ip. RangeSet.contains p rs ip) (get_by_id id ifname s) ≡ false

  get_iter-new :
      (r : Range) (rest : RangeSet) (range_id : Text) (s : S)
      → (is_nil (last_reserved_ip range_id s)
          || not (RangeSet.contains p (r ∷ rest) (last_reserved_ip range_id s)))
        ≡ true
      → get_iter p store (r ∷ rest) range_id s ≡ returned (at_first r)
  unfolding get_iter
  get_iter-new r rest range_id s h = ground arith

  index_of-before :
      (before after : RangeSet) (r : Range) (a : Ip)
      → All (λ x. Range.contains p x a ≡ false) before
      → Range.contains p r a ≡ true
      → index_of p store (before ++ r ∷ after) a ≡ some (length before)
  unfolding index_of
  index_of-before [] after r a h e = rw e
  index_of-before (x ∷ before) after r a h e = rw (h.0, index_of-before before after r a h.1 e)

  contains_form : (r : Range) (a c : Ip) → HasForm a c → Range.contains p r a ≡ Range.contains p r c
  unfolding Range.contains
  contains_form r a c h = ground (arith, h.form, (form-IsCanonical h).form)

  find_range-some :
      (before after : RangeSet) (r : Range) (c : Ip)
      → All (λ x. Range.contains p x c ≡ false) before
      → Range.contains p r c ≡ true
      → RangeSet.find_range p (before ++ r ∷ after) c ≡ some r
  unfolding RangeSet.find_range
  find_range-some [] after r c h e = rw e
  find_range-some (x ∷ before) after r c h e = rw (h.0, find_range-some before after r c h.1 e)

  contains-resumed :
      (before after : RangeSet) (r : Range) (a c : Ip)
      → HasForm a c
      → All (λ x. Range.contains p x a ≡ false) before
      → Range.contains p r a ≡ true
      → RangeSet.contains p (before ++ r ∷ after) a ≡ true
  unfolding RangeSet.contains
  contains-resumed before after r a c h others own = ground (
    arith,
    h.form,
    find_range-some before after r c
        (All-map _ _ before (λ x e. sym (contains_form x a c h) ∙ e) others)
        (sym (contains_form r a c h) ∙ own),
  )

  pub get_iter-resumed :
      (before after : RangeSet) (r : Range) (range_id : Text) (c : Ip) (s : S)
      → HasForm (last_reserved_ip range_id s) c
      → All (λ x. Range.contains p x (last_reserved_ip range_id s) ≡ false) before
      → Range.contains p r (last_reserved_ip range_id s) ≡ true
      → get_iter p store (before ++ r ∷ after) range_id s
        ≡ returned (resumed (length before) (last_reserved_ip range_id s))
  unfolding get_iter
  get_iter-resumed before after r range_id c s h others own =
      let a = last_reserved_ip range_id s in
      ground (
        arith,
        HasForm-nonempty h,
        contains-resumed before after r a c h others own,
        index_of-before before after r a others own,
      )

module _ (p : IpPackage) (laws : IpLaws p) {S : Type 0} (store : Store S) (family : ℕ)
    (range_id id ifname : Text) (s : S) where
  open store use {last_reserved_ip}

  -- What Get returns for the outcome of a search through these offers.
  abbrev pub Tries : ℕ → RangeSet → List Offer → Type 0
  Tries fuel rs l =
      get p store fuel rs range_id id ifname [] s
      ≡ returned (conclude p store (first_free store id ifname range_id l s))

  tries :
      (fuel n : ℕ) (rs : RangeSet) (i : RangeIter) (l : List Offer)
      → IsNew p store rs id ifname s
      → get_iter p store rs range_id s ≡ returned i
      → TrailIn p rs i l n
      → n ≤ fuel
      → Tries fuel rs l
  unfolding get
  tries fuel n rs i l fresh begun (t, short) enough = ground (
    arith,
    fresh,
    begun,
    allocate-eq-first_free p store rs id ifname range_id fuel l i t s (omega arith),
  )

  -- The ranges of the set are canonical, of one family and in order; the container has no address
  -- of the set; the address reserved last is none or outside the set; the fuel is above the number
  -- of addresses. Then Get without a request returns, and its answer is that of trying in turn
  -- every address of the set, from the first of the first range on, each with the mask and gateway
  -- of its range, the gateways left out and the very first address also where it is reserved.
  pub get-eq-first_free :
      (fuel : ℕ) (r : Range) (rest : RangeSet)
      → IsRange family r
      → All (IsRange family) rest
      → IsNew p store (r ∷ rest) id ifname s
      → (is_nil (last_reserved_ip range_id s)
          || not (RangeSet.contains p (r ∷ rest) (last_reserved_ip range_id s)))
        ≡ true
      → total (r ∷ rest) + 1 ≤ fuel
      → Tries fuel (r ∷ rest) (first_round p (r ∷ rest))
  get-eq-first_free fuel r rest w ws fresh h enough =
      tries fuel _ (r ∷ rest) (at_first r) _ fresh (get_iter-new p store r rest range_id s h)
        (round p laws family r w rest ws) enough

  -- The ranges of the set are canonical, of one family and in order; the container has no address
  -- of the set; the address reserved last has the number `v` inside range `r`, is not the end of
  -- `r`, and is in no range before `r`; the fuel is above the number of addresses. Then Get
  -- without a request returns, and its answer is that of trying in turn the addresses of `r`
  -- behind `v`, the ranges after `r`, those before it, and `r` from its start up to `v`, the
  -- gateways left out.
  pub get-eq-resumed :
      (fuel : ℕ) (before after : RangeSet) (r : Range) (v : ℕ)
      → All (IsRange family) before
      → IsRange family r
      → All (IsRange family) after
      → IsNew p store (before ++ r ∷ after) id ifname s
      → Stands family (last_reserved_ip range_id s) v
      → value r.range_start ≤ v
      → v < value r.range_end
      → All (λ x. Range.contains p x (last_reserved_ip range_id s) ≡ false) before
      → Range.contains p r (last_reserved_ip range_id s) ≡ true
      → total (r ∷ after ++ before) + 1 ≤ fuel
      → Tries fuel
          (before ++ r ∷ after)
          (resumed_round p before r after (last_reserved_ip range_id s) v)
  get-eq-resumed fuel before after r v wb w wa fresh at lo hi others own enough =
      tries fuel _ (before ++ r ∷ after) (resumed (length before) (last_reserved_ip range_id s)) _
        fresh (get_iter-resumed p store before after r range_id at.form s at.has_form others own)
        (resume p laws family before after r w (last_reserved_ip range_id s) v at lo hi
          (All-append (IsRange family) after before wa wb))
        enough
