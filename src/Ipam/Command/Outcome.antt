-- ===== src/Ipam/Command/Outcome.antt =====
-- The two ends of allocateIP (multus-ipam/main.go): as many addresses as the configuration asks for, or an
-- error after the releases.
use multus_ext_cni.Prelude.{
  ℕ, zero, suc, ◌+◌, ◌<◌, ◌≡◌, refl, sym, ◌∙◌, ap, subst, List, [], ◌∷◌, ◌++◌, some, Option-cases,
  Bool-cases, length, append-nil, append_assoc, Result-cases, Text, inl, inr, ◌⊎◌, Result, ok, err,
  arith,
}
use multus_ext_cni.Net.IpPackage.{IpPackage}
use multus_ext_cni.Ipam.Address.{AllocError}
use multus_ext_cni.Ipam.RangeSet.{RangeSet}
use multus_ext_cni.Ipam.Range.{Range, SimpleRange}
use multus_ext_cni.Ipam.Store.{Store, StoreContract}
use multus_ext_cni.Ipam.Iter.{Run, returned}
use multus_ext_cni.Ipam.Allocator.{IpConfig, release}
use multus_ext_cni.Ipam.Config.{IpamConfig}
use multus_ext_cni.Ipam.Command.{
  Host, IpamError, alloc_failed, lease_failed, rounds, and_then, sub_ifname, first_range,
  is_no_addresses, form_range_sets, try_get, try_lease, allocate_one, release_times, allocate_rest,
  allocate_ip,
}
use multus_ext_cni.Ipam.Command.Reserved.{
  Reserves, AreNew, AreApart, Reserves-AreNew, Reserves-AreApart,
}
use multus_ext_cni.Ipam.Command.Granted.{Keeps, Answers, try_lease-suc, allocate_one-Answers}

-- A chain whose first step returns goes on with its answer.
and_then-returns {ℓ κ} :
    {A : Type ℓ} {B : Type κ} {r : Run A} (k : A → Run B) {a : A} {b : Run B}
    → r ≡ returned a
    → k a ≡ b
    → and_then r k ≡ b
and_then-returns k first next = ap (λ x. and_then x k) first ∙ next

module _ (p : IpPackage) {S : Type 0} (store : Store S) (contract : StoreContract store)
    (host : Host S) (keeps : Keeps store host contract.Taken) (fuel : ℕ) (conf : IpamConfig)
    (id ifname : Text) where
  open contract use {Taken}

  -- So many calls of ReleaseByID for the interface
  abbrev pub released : ℕ → S → S
  released zero s = s
  released (suc n) s = released n (store.release_by_id id ifname s).1

  -- A call of Get that ends.
  abbrev pub Ends : RangeSet → Type 0
  Ends rs =
      (name : Text) (s : S)
      → (x : Result AllocError IpConfig × S) × (try_get p store host fuel conf rs id name s
          ≡ returned x)

  -- A run that goes on from `k` addresses: it has reserved `n` more of them after `got`, or has
  -- reserved fewer, and then has released once for each address there is.
  abbrev Goes : ℕ → List IpConfig → ℕ → S → Run (Result IpamError (List IpConfig) × S) → Type 0
  Goes n got k s run =
      ((new : List IpConfig) × (s' : S) × (run ≡ returned (ok (got ++ new), s'))
        × (length new ≡ n)
        × Reserves store contract host keeps id ifname k s new s')
      ⊎ ((new : List IpConfig) × (e : IpamError) × (s' : S) × (run
            ≡ returned (err e, released (k + length new) s'))
          × (length new < n)
          × Reserves store contract host keeps id ifname k s new s')

  -- The two ends of allocateIP from a state on
  abbrev pub Allocated : ℕ → S → Run (Result IpamError (List IpConfig) × S) → Type 0
  Allocated n s run =
      ((cs : List IpConfig) × (s' : S) × (run ≡ returned (ok cs, s'))
        × (length cs ≡ n)
        × Reserves store contract host keeps id ifname 0 s cs s'
        × AreNew store contract host keeps id ifname s cs s'
        × AreApart cs)
      ⊎ ((cs : List IpConfig) × (e : IpamError) × (s' : S) × (run
            ≡ returned (err e, released (length cs) s'))
          × (length cs < n)
          × Reserves store contract host keeps id ifname 0 s cs s'
          × AreNew store contract host keeps id ifname s cs s')

  release-state : (s : S) → (release p store id ifname s).1 ≡ (store.release_by_id id ifname s).1
  unfolding release
  release-state s = elim (Result-cases (store.release_by_id id ifname s).0) [
    | inl (u, e) ↦ ground arith
    | inr (x, e) ↦ ground arith
  ]

  as_many :
      (run : Run (Result IpamError (List IpConfig) × S)) (e : IpamError) (s : S) (m n : ℕ)
      → run ≡ returned (err e, released m s)
      → m ≡ n
      → run ≡ returned (err e, released n s)
  as_many run e s m n h same = h ∙ ap (λ k. returned (err e, released k s)) same

  release_times-released :
      (n : ℕ) (s : S) → release_times p store host fuel conf n id ifname s ≡ released n s
  unfolding release_times
  release_times-released zero s = refl
  release_times-released (suc n) s = release_times-released n _ ∙ ap (released n) (release-state s)

  module _ (r : Range) (asked : first_range conf.ranges ≡ some r)
      (leases : (s : S) (sr : SimpleRange)
        → (host.apply_ip_range conf.name r conf.apply_unit s).0 ≡ some sr
        → Ends (record r { range_start = sr.range_start; range_end = sr.range_end } ∷ [])) where
    try_lease-Ends :
        (n : ℕ) (name : Text) (x : Result AllocError IpConfig × S)
        → (y : Result IpamError IpConfig × S) × (try_lease p store host fuel conf n id name x
            ≡ returned y)
    unfolding try_lease try_get
    try_lease-Ends n name (ok c, s) = (_, refl)
    try_lease-Ends zero name (err e, s) = (_, refl)
    try_lease-Ends (suc n) name (err e, s) = elim (Bool-cases (is_no_addresses e)) [
      | inr other ↦ ((err (alloc_failed e), s), ground arith)
      | inl out ↦
          let leased = host.apply_ip_range conf.name r conf.apply_unit s in
          elim (Option-cases leased.0) [
            | inl failed ↦ ((err lease_failed, leased.1), ground arith)
            | inr (sr, got) ↦
                let (x, first) = leases s sr got name (host.append_cache sr leased.1) in
                let (y, more) = try_lease-Ends n name x in
                (
                  y,
                  try_lease-suc p store host Taken keeps id name fuel conf n e s r sr out asked got
                      ∙ and_then-returns (try_lease p store host fuel conf n id name) first more,
                )
          ]
    ]

    allocate_one-Ends :
        (rs : RangeSet)
        → Ends rs
        → (name : Text) (s : S)
        → (y : Result IpamError IpConfig × S) × (allocate_one p store host fuel conf rs id name s
            ≡ returned y)
    unfolding allocate_one
    allocate_one-Ends rs ends name s =
        let (x, first) = ends name s in
        let (y, more) = try_lease-Ends 3 name x in
        (y, and_then-returns (try_lease p store host fuel conf 3 id name) first more)

    -- One round that reserves an address, and one that fails
    rest-ok :
        (n : ℕ) (rs : RangeSet) (got : List IpConfig) (k : ℕ) (s : S) (c : IpConfig) (s1 : S)
        → allocate_one p store host fuel conf rs id (sub_ifname ifname k) s ≡ returned (ok c, s1)
        → allocate_rest p store host fuel conf (suc n) rs id ifname got k s
          ≡ allocate_rest p store host fuel conf n rs id ifname (got ++ (c ∷ [])) (suc k) s1
    unfolding allocate_rest
    rest-ok n rs got k s c s1 one = and_then-returns _ one refl

    rest-err :
        (n : ℕ) (rs : RangeSet) (got : List IpConfig) (k : ℕ) (s : S) (e : IpamError) (s1 : S)
        → allocate_one p store host fuel conf rs id (sub_ifname ifname k) s ≡ returned (err e, s1)
        → allocate_rest p store host fuel conf (suc n) rs id ifname got k s
          ≡ returned (err e, release_times p store host fuel conf k id ifname s1)
    unfolding allocate_rest
    rest-err n rs got k s e s1 one = and_then-returns _ one refl

    -- A reserved address before the others
    one_more :
        (n : ℕ) (got : List IpConfig) (k : ℕ) (s : S) (c : IpConfig) (s1 : S)
        → Answers p store host Taken keeps id (sub_ifname ifname k) {E = IpamError} s (ok c, s1)
        → (run : Run (Result IpamError (List IpConfig) × S))
        → Goes n (got ++ (c ∷ [])) (suc k) s1 run
        → Goes (suc n) got k s run
    one_more n got k s c s1 (range_id, before, grows, is) run (inl (new, s', e, l, rest)) = inl (
      c ∷ new,
      s',
      e ∙ ap (λ x. returned (ok x, s')) (append_assoc got (c ∷ []) new),
      ap suc l,
      (range_id, before, s1, grows, is, rest),
    )
    one_more n got k s c s1 (range_id, before, grows, is) run (inr (new, x, s', e, below, rest)) =
        inr (
          c ∷ new,
          x,
          s',
          as_many run x s' (suc k + length new) (k + suc (length new)) e (omega arith),
          ground arith,
          (range_id, before, s1, grows, is, rest),
        )

    allocate_rest-Goes :
        (n : ℕ) (rs : RangeSet)
        → Ends rs
        → (got : List IpConfig) (k : ℕ) (s : S)
        → Goes n got k s (allocate_rest p store host fuel conf n rs id ifname got k s)
    unfolding allocate_rest
    allocate_rest-Goes zero rs ends got k s =
        inl ([], s, ap (λ l. returned (ok l, s)) (sym (append-nil got)), refl, (λ a taken. taken))
    allocate_rest-Goes (suc n) rs ends got k s =
        let ((result, s1), one) = allocate_one-Ends rs ends (sub_ifname ifname k) s in
        let answers =
          allocate_one-Answers p store host Taken keeps id (sub_ifname ifname k) fuel conf rs s
            (result, s1) one in
        elim (Result-cases result) [
          | inl (c, e) ↦
              one_more n got k s c s1
                (subst
                  (λ y.
                    Answers p store host Taken keeps id (sub_ifname ifname k) {E = IpamError} s
                      (y, s1))
                  e answers)
                _
                (subst (Goes n (got ++ (c ∷ [])) (suc k) s1)
                  (sym (rest-ok n rs got k s c s1 (one ∙ ap (λ y. returned (y, s1)) e)))
                  (allocate_rest-Goes n rs ends (got ++ (c ∷ [])) (suc k) s1))
          | inr (x, e) ↦ inr (
            [],
            x,
            s1,
            as_many _ x s1 k (k + 0)
                (rest-err n rs got k s x s1 (one ∙ ap (λ y. returned (y, s1)) e)
                  ∙ ap (λ t. returned (err x, t)) (release_times-released k s1))
                (omega arith),
            ground arith,
            subst
                (λ y.
                  Answers p store host Taken keeps id (sub_ifname ifname k) {E = IpamError} s
                    (y, s1))
                e answers,
          )
        ]

    whole :
        (n : ℕ) (s : S) (run : Run (Result IpamError (List IpConfig) × S))
        → Goes n [] 0 s run
        → Allocated n s run
    whole n s run (inl (cs, s', e, l, is)) = inl (
      cs,
      s',
      e,
      l,
      is,
      Reserves-AreNew store contract host keeps id ifname 0 s cs s' is,
      Reserves-AreApart store contract host keeps id ifname 0 s cs s' is,
    )
    whole n s run (inr (cs, x, s', e, l, is)) = inr (
      cs,
      x,
      s',
      as_many run x s' (0 + length cs) (length cs) e (omega arith),
      l,
      is,
      Reserves-AreNew store contract host keeps id ifname 0 s cs s' is,
    )

    -- On a store that keeps its contract, where what is taken stays taken through Reserve, the
    -- cache of leased ranges and the leasing of a range; where the cached ranges can be read, the
    -- configuration has a first range, and each Get on the ranges of its first set, cut to the
    -- cached ones, and on a range leased for it ends: allocateIP returns. Either it returns as
    -- many addresses as the configuration asks for, no two of them equal; or an error, after fewer
    -- addresses have been reserved, and after one ReleaseByID for the container and the interface
    -- for each of these. Up to the releases, the addresses are reserved one after the other for
    -- the container under the name of the interface and the number of the address, and each was
    -- free after the cached ranges were read and is taken at the end.
    pub allocate_ip-Allocated :
        (s : S) (here : RangeSet) (others : List RangeSet) (s1 : S)
        → form_range_sets p store host conf.ranges s ≡ some (here ∷ others, s1)
        → Ends here
        → Allocated (rounds conf.num) s1 (allocate_ip p store host fuel conf id ifname s)
    unfolding allocate_ip
    allocate_ip-Allocated s here others s1 formed ends = whole (rounds conf.num) s1 _ (
        subst (Goes (rounds conf.num) [] 0 s1) (sym (ground arith))
          (allocate_rest-Goes (rounds conf.num) here ends [] 0 s1))
