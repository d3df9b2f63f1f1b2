-- ===== src/Ipam/Command/Reserved.antt =====
-- Addresses that allocateIP (multus-ipam/main.go) reserves one after the other.
use multus_ext_cni.Prelude.{ℕ, suc, ◌≡◌, ◌≢◌, ap, subst, All, true, List, [], ◌∷◌, Text, ok}
use multus_ext_cni.Net.{Ip}
use multus_ext_cni.Ipam.Store.{Store, StoreContract}
use multus_ext_cni.Ipam.Allocator.{IpConfig}
use multus_ext_cni.Ipam.Command.{Host, sub_ifname}
use multus_ext_cni.Ipam.Command.Granted.{Keeps}

-- No two of the addresses are equal.
abbrev pub AreApart : List IpConfig → Type 0
AreApart [] = Unit
AreApart (c ∷ cs) = All (λ d. c.address.ip ≢ d.address.ip) cs × AreApart cs

module _ {S : Type 0} (store : Store S) (contract : StoreContract store) (host : Host S)
    (keeps : Keeps store host contract.Taken) (id ifname : Text) where
  open contract use {Taken}

  -- The addresses are reserved one after the other, number `k` first, under the names `ifname.k`,
  -- and what is taken stays taken in between.
  abbrev pub Reserves : ℕ → S → List IpConfig → S → Type 0
  Reserves k s [] s' = (a : Ip) → Taken s a → Taken s' a
  Reserves k s (c ∷ cs) s' =
      (range_id : Text) × (before : S) × (after : S) × ((a : Ip) → Taken s a → Taken before a)
      × (store.reserve id (sub_ifname ifname k) c.address.ip range_id before ≡ (ok true, after))
      × Reserves (suc k) after cs s'

  -- The addresses are free in the one state and taken in the other.
  abbrev pub AreNew : S → List IpConfig → S → Type 0
  AreNew s cs s' = All (λ c. (¬ Taken s c.address.ip) × Taken s' c.address.ip) cs

  -- A call of Reserve after other calls
  after_reserve :
      (k : ℕ) (c : IpConfig) (range_id : Text) (s before after : S)
      → ((a : Ip) → Taken s a → Taken before a)
      → store.reserve id (sub_ifname ifname k) c.address.ip range_id before ≡ (ok true, after)
      → (a : Ip) → Taken s a
      → Taken after a
  after_reserve k c range_id s before after grows e a taken =
      subst (λ x. Taken x a) (ap (λ x. x.1) e)
        (keeps.reserve_keeps id (sub_ifname ifname k) c.address.ip range_id before a
          (grows a taken))

  Reserves-grows :
      (k : ℕ) (s : S) (cs : List IpConfig) (s' : S)
      → Reserves k s cs s'
      → (a : Ip) → Taken s a
      → Taken s' a
  Reserves-grows k s [] s' grows = grows
  Reserves-grows k s (c ∷ cs) s' (range_id, before, after, grows, e, more) = λ a taken.
      Reserves-grows (suc k) after cs s' more a
        (after_reserve k c range_id s before after grows e a taken)

  weaken :
      (s t s' : S)
      → ((a : Ip) → Taken s a → Taken t a)
      → (cs : List IpConfig) → AreNew t cs s'
      → AreNew s cs s'
  weaken s t s' grows [] all = tt
  weaken s t s' grows (c ∷ cs) ((free, taken), all) =
      ((λ is. free (grows _ is), taken), weaken s t s' grows cs all)

  pub Reserves-AreNew :
      (k : ℕ) (s : S) (cs : List IpConfig) (s' : S) → Reserves k s cs s' → AreNew s cs s'
  Reserves-AreNew k s [] s' grows = tt
  Reserves-AreNew k s (c ∷ cs) s' (range_id, before, after, grows, e, more) =
      let (free, taken) =
        contract.granted id (sub_ifname ifname k) c.address.ip range_id before after e in
      (
        (λ is. free (grows _ is), Reserves-grows (suc k) after cs s' more _ taken),
        weaken s after s' (after_reserve k c range_id s before after grows e) cs
            (Reserves-AreNew (suc k) after cs s' more),
      )

  taken-differs :
      (a : Ip) (s s' : S) (cs : List IpConfig)
      → Taken s a
      → AreNew s cs s'
      → All (λ d. a ≢ d.address.ip) cs
  taken-differs a s s' [] taken all = tt
  taken-differs a s s' (c ∷ cs) taken ((free, _), all) =
      (λ e. free (subst (Taken s) e taken), taken-differs a s s' cs taken all)

  pub Reserves-AreApart :
      (k : ℕ) (s : S) (cs : List IpConfig) (s' : S) → Reserves k s cs s' → AreApart cs
  Reserves-AreApart k s [] s' grows = tt
  Reserves-AreApart k s (c ∷ cs) s' (range_id, before, after, grows, e, more) =
      let (_, taken) =
        contract.granted id (sub_ifname ifname k) c.address.ip range_id before after e in
      (
        taken-differs c.address.ip after s' cs taken (Reserves-AreNew (suc k) after cs s' more),
        Reserves-AreApart (suc k) after cs s' more,
      )
