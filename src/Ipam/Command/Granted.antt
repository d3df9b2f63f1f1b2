-- ===== src/Ipam/Command/Granted.antt =====
-- One address of allocateIP (multus-ipam/main.go): what the calls of the store and of the leases do for
-- it, on stores where what is taken stays taken meanwhile.
use multus_ext_cni.Prelude.{
  ℕ, zero, suc, ◌≡◌, refl, sym, ◌∙◌, subst, Bool, true, false, [], ◌∷◌, any, Option, none, some,
  Option-cases, Result-cases, Bool-cases, if◌then◌else◌, Text, inl, inr, ◌⊎◌, Result, ok, err,
  arith,
}
use multus_ext_cni.Net.{Ip}
use multus_ext_cni.Net.IpPackage.{IpPackage}
use multus_ext_cni.Ipam.Address.{AllocError, no_addresses, store_failed, duplicate_allocation}
use multus_ext_cni.Ipam.RangeSet
use multus_ext_cni.Ipam.RangeSet.{RangeSet}
use multus_ext_cni.Ipam.Range.{Range, SimpleRange}
use multus_ext_cni.Ipam.Store.{Store}
use multus_ext_cni.Ipam.Iter.{Run, returned, panicked, out_of_fuel, RangeIter, Offer, next}
use multus_ext_cni.Ipam.Allocator.{IpConfig, itoa, ip_config, get_iter, allocate, conclude, get_any}
use multus_ext_cni.Ipam.Config.{IpamConfig}
use multus_ext_cni.Ipam.Command.{
  Host, IpamError, alloc_failed, lease_failed, and_then, first_range, is_no_addresses, try_get,
  try_lease, allocate_one,
}

pub Run-cases {ℓ} :
    {A : Type ℓ} (r : Run A) → (r ≡ panicked) ⊎ ((r ≡ out_of_fuel) ⊎ ((a : A) × (r ≡ returned a)))
Run-cases panicked = inl refl
Run-cases out_of_fuel = inr (inl refl)
Run-cases (returned a) = inr (inr (a, refl))

-- A chain that returns has returned from its first step.
and_then-returned {ℓ κ} :
    {A : Type ℓ} {B : Type κ} (r : Run A) (k : A → Run B) {b : B}
    → and_then r k ≡ returned b
    → (a : A) × (r ≡ returned a) × (k a ≡ returned b)
and_then-returned (returned a) k h = (a, refl, h)
and_then-returned panicked k h = cc
and_then-returned out_of_fuel k h = cc

-- What is taken stays taken in the calls that look for an address.
pub record Keeps {S : Type 0} (store : Store S) (host : Host S) (Taken : S → Ip → Type 0)
    : Type 0 where
  pub reserve_keeps :
      (id ifname : Text) (ip : Ip) (range_id : Text) (s : S) (a : Ip)
      → Taken s a
      → Taken (store.reserve id ifname ip range_id s).1 a
  pub append_keeps :
      (sr : SimpleRange) (s : S) (a : Ip) → Taken s a → Taken (host.append_cache sr s) a
  pub apply_keeps :
      (name : Text) (r : Range) (unit : ℕ) (s : S) (a : Ip)
      → Taken s a
      → Taken (host.apply_ip_range name r unit s).1 a

module _ (p : IpPackage) {S : Type 0} (store : Store S) (host : Host S) (Taken : S → Ip → Type 0)
    (keeps : Keeps store host Taken) (id ifname : Text) where
  abbrev pub Grows : S → S → Type 0
  Grows s s' = (a : Ip) → Taken s a → Taken s' a

  -- Reserve has succeeded, from a state in which all is taken that was before.
  abbrev pub IsReserved : S → IpConfig → S → Type 0
  IsReserved s c s' =
      (range_id : Text) × (before : S) × Grows s before
      × (store.reserve id ifname c.address.ip range_id before ≡ (ok true, s'))

  -- An answer: a reserved address, or an error with all taken that was before.
  abbrev pub Answers {ℓ} : {E : Type ℓ} → S → Result E IpConfig × S → Type 0
  Answers s (ok c, s') = IsReserved s c s'
  Answers s (err e, s') = Grows s s'

  reserved : (ip : Ip) (range_id : Text) (s : S) → Grows s (store.reserve id ifname ip range_id s).1
  reserved ip range_id s = keeps.reserve_keeps id ifname ip range_id s

  later {ℓ} :
      {E : Type ℓ} {s t : S} (x : Result E IpConfig × S) → Grows s t → Answers t x → Answers s x
  later (ok c, s') grows (range_id, before, more, e) =
      (range_id, before, (λ a taken. more a (grows a taken)), e)
  later (err e, s') grows more = λ a taken. more a (grows a taken)

  allocate-Answers :
      (fuel : ℕ) (rs : RangeSet) (range_id : Text) (i : RangeIter) (s : S)
      (x : Result AllocError (Option Offer) × S)
      → allocate p store fuel rs id ifname range_id i s ≡ returned x
      → Answers s (conclude p store x)
  unfolding allocate conclude ip_config
  allocate-Answers zero rs range_id i s x h = cc
  allocate-Answers (suc fuel) rs range_id i s x h = elim (Run-cases (next p (suc fuel) rs i)) [
    | inl e ↦ absurd (ground arith)
    | inr (inl e) ↦ absurd (ground arith)
    | inr (inr ((none, i'), e)) ↦
        let same : (ok none, s) ≡ x = ground arith in
        subst (λ y. Answers s (conclude p store y)) same (λ a taken. taken)
    | inr (inr ((some o', i'), e)) ↦
        let call = store.reserve id ifname o'.address.ip range_id s in
        elim (Result-cases call.0) [
          | inl (true, r) ↦
              let same : (ok (some o'), call.1) ≡ x = ground arith in
              subst (λ y. Answers s (conclude p store y)) same
                (range_id, s, (λ a taken. taken), ground arith)
          | inl (false, r) ↦
              later (conclude p store x) (reserved o'.address.ip range_id s)
                (allocate-Answers fuel rs range_id i' call.1 x (ground arith))
          | inr (y, r) ↦
              let same : (err store_failed, call.1) ≡ x = ground arith in
              subst (λ y. Answers s (conclude p store y)) same (reserved o'.address.ip range_id s)
        ]
  ]

  -- What Get makes of the end of its loop
  answer_of :
      (double : Bool) (r : Run RangeIter)
      (run : RangeIter → Run (Result AllocError (Option Offer) × S)) (s : S)
      (x : Result AllocError IpConfig × S)
      → ((i : RangeIter) (y : Result AllocError (Option Offer) × S)
          → run i ≡ returned y
          → Answers s (conclude p store y))
      → (if double then returned (err duplicate_allocation, s) else elim r [
        | out_of_fuel ↦ out_of_fuel
        | panicked ↦ panicked
        | returned i ↦ elim (run i) [
          | out_of_fuel ↦ out_of_fuel
          | panicked ↦ panicked
          | returned x ↦ returned (conclude p store x)
        ]
      ])
        ≡ returned x
      → Answers s x
  answer_of true r run s x answers h =
      let same : (err duplicate_allocation, s) ≡ x = ground arith in
      subst (Answers s) same (λ a taken. taken)
  answer_of false panicked run s x answers h = absurd (ground arith)
  answer_of false out_of_fuel run s x answers h = absurd (ground arith)
  answer_of false (returned i) run s x answers h = elim (Run-cases (run i)) [
    | inl e ↦ absurd (ground arith)
    | inr (inl e) ↦ absurd (ground arith)
    | inr (inr (y, e)) ↦
        let same : conclude p store y ≡ x = ground arith in subst (Answers s) same (answers i y e)
  ]

  pub get_any-Answers :
      (fuel : ℕ) (rs : RangeSet) (range_id : Text) (s : S) (x : Result AllocError IpConfig × S)
      → get_any p store fuel rs range_id id ifname s ≡ returned x
      → Answers s x
  unfolding get_any
  get_any-Answers fuel rs range_id s x h =
      answer_of (any (λ ip. RangeSet.contains p rs ip) (store.get_by_id id ifname s))
        (get_iter p store rs range_id s) (λ i. allocate p store fuel rs id ifname range_id i s) s x
        (λ i. allocate-Answers fuel rs range_id i s) h

  module _ (fuel : ℕ) (conf : IpamConfig) where
    -- A try on a leased range: Get is called on it, and its answer is tried on.
    pub try_lease-suc :
        (n : ℕ) (x : AllocError) (s : S) (r : Range) (sr : SimpleRange)
        → is_no_addresses x ≡ true
        → first_range conf.ranges ≡ some r
        → (host.apply_ip_range conf.name r conf.apply_unit s).0 ≡ some sr
        → try_lease p store host fuel conf (suc n) id ifname (err x, s)
          ≡ and_then
              (get_any p store fuel
                (record r { range_start = sr.range_start; range_end = sr.range_end } ∷ [])
                (itoa 0)
                id
                ifname
                (host.append_cache sr (host.apply_ip_range conf.name r conf.apply_unit s).1))
              (try_lease p store host fuel conf n id ifname)
    unfolding try_lease
    try_lease-suc n x s r sr e f a = ground arith

    try_lease-Answers :
        (n : ℕ) (s : S) (r : Result AllocError IpConfig) (t : S) (y : Result IpamError IpConfig × S)
        → Answers s (r, t)
        → try_lease p store host fuel conf n id ifname (r, t) ≡ returned y
        → Answers s y
    unfolding try_lease
    try_lease-Answers n s (ok c) t y answers h =
        let same : (ok c, t) ≡ y = ground arith in subst (Answers s) same answers
    try_lease-Answers zero s (err e) t y answers h =
        let same : (err (alloc_failed e), t) ≡ y = ground arith in subst (Answers s) same answers
    try_lease-Answers (suc n) s (err e) t y answers h = elim (Bool-cases (is_no_addresses e)) [
      | inr other ↦
          let same : (err (alloc_failed e), t) ≡ y = ground arith in subst (Answers s) same answers
      | inl out ↦ elim (Option-cases (first_range conf.ranges)) [
        | inl f ↦ absurd (ground arith)
        | inr (r, f) ↦
            let leased = host.apply_ip_range conf.name r conf.apply_unit t in
            let grows : Grows s leased.1 =
              λ a taken. keeps.apply_keeps conf.name r conf.apply_unit t a (answers a taken) in
            elim (Option-cases leased.0) [
              | inl failed ↦
                  let same : (err lease_failed, leased.1) ≡ y = ground arith in
                  subst (Answers s) same grows
              | inr (sr, got) ↦
                  let part = record r { range_start = sr.range_start; range_end = sr.range_end } in
                  let ((x, t'), found, more) =
                    and_then-returned
                      (get_any p store fuel (part ∷ []) (itoa 0) id ifname
                        (host.append_cache sr leased.1))
                      (try_lease p store host fuel conf n id ifname) {b = y}
                      (sym (try_lease-suc n e t r sr out f got) ∙ h) in
                  try_lease-Answers n s x t' y
                    (later (x, t') (λ a taken. keeps.append_keeps sr leased.1 a (grows a taken))
                      (get_any-Answers fuel (part ∷ []) (itoa 0) (host.append_cache sr leased.1)
                        (x, t') found))
                    more
            ]
      ]
    ]

    -- One round of allocateIP
    pub allocate_one-Answers :
        (rs : RangeSet) (s : S) (y : Result IpamError IpConfig × S)
        → allocate_one p store host fuel conf rs id ifname s ≡ returned y
        → Answers s y
    unfolding allocate_one try_get
    allocate_one-Answers [] s y h =
        try_lease-Answers 3 s (err no_addresses) s y (λ a taken. taken) h
    allocate_one-Answers (r ∷ rs) s y h =
        let ((x, t), found, more) =
          and_then-returned (get_any p store fuel (r ∷ rs) (itoa 0) id ifname s)
            (try_lease p store host fuel conf 3 id ifname) {b = y} h in
        try_lease-Answers 3 s x t y (get_any-Answers fuel (r ∷ rs) (itoa 0) s (x, t) found) more
