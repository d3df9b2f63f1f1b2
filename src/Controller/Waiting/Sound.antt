-- ===== src/Controller/Waiting/Sound.antt =====
-- The loop of CheckFixIP (multus-controller/controller.go) over the entries of etcd.
use multus_ext_cni.Prelude.{
  ℕ, ◌-◌, ◌<◌, ◌≡◌, ◌⊎◌, inl, inr, refl, sym, ◌∙◌, subst, Bool, true, false, ◌||◌, List, [], ◌∷◌,
  ◌++◌, none, some, ltb, Text, text_eq, text_eq_iff, arith, Bool-cases, Option-cases,
}
use multus_ext_cni.Ipam.Lease.Fixed.{Entry}
use multus_ext_cni.Controller.{Waits, Check, since, among, orphan, check_entries, parse_fix_info}

module _ (exists : Text → Text → Bool) (now delay : ℕ) where
  -- An entry with this key has no pod.
  abbrev pub HasNoPod : Text → Entry → Type 0
  HasNoPod k e =
      (e.key ≡ k) × (exists (parse_fix_info e.value).0 (parse_fix_info e.value).1 ≡ false)

  abbrev pub SomeEntry : Text → List Entry → Type 0
  SomeEntry k [] = ⊥
  SomeEntry k (e ∷ es) = HasNoPod k e ⊎ SomeEntry k es

  -- What the check may do: a key that it deletes has no pod and has waited for more than the delay;
  -- a key that is an orphan has no pod; what waits, waits as before or from now on.
  pub record IsSound (entries : List Entry) (before : Waits) (c : Check) : Type 0 where
    pub doomed :
        (k : Text)
        → among k c.doomed ≡ true
        → SomeEntry k entries × (t : ℕ) × (since k before ≡ some t) × (delay < now - t)
    pub orphans : (k : Text) → among k c.orphans ≡ true → SomeEntry k entries
    pub waits :
        (k : Text)
        → (since k c.waits ≡ since k before)
          ⊎ ((since k before ≡ none) × (since k c.waits ≡ some now))

  among-append :
      (k x : Text) (keys : List Text) → among k (keys ++ (x ∷ [])) ≡ (among k keys || text_eq x k)
  among-append k x [] = ground arith
  among-append k x (y ∷ keys) = ground (arith, among-append k x keys)

  module _ (entries : List Entry) (before : Waits) where
    -- A key that is an orphan has no pod, also after one more.
    orphans-cons :
        (e : Entry) (c : Check)
        → SomeEntry e.key entries
        → IsSound entries before c
        → (k : Text) → among k (e.key ∷ c.orphans) ≡ true
        → SomeEntry k entries
    orphans-cons e c here sound k h = elim (Bool-cases (text_eq e.key k)) [
      | inl same ↦ subst (λ x. SomeEntry x entries) ((text_eq_iff e.key k).0 same) here
      | inr other ↦ sound.orphans k (ground arith)
    ]

    orphan-new :
        (e : Entry) (c : Check)
        → SomeEntry e.key entries
        → IsSound entries before c
        → since e.key c.waits ≡ none
        → (k : Text)
        → (since k ((e.key, now) ∷ c.waits) ≡ since k before)
          ⊎ ((since k before ≡ none) × (since k ((e.key, now) ∷ c.waits) ≡ some now))
    unfolding since
    orphan-new e c here sound new k = elim (Bool-cases (text_eq e.key k)) [
      | inr other ↦ rw other (sound.waits k)
      | inl same ↦
          let key : e.key ≡ k = (text_eq_iff e.key k).0 same in
          let fresh : since k c.waits ≡ none = subst (λ x. since x c.waits ≡ none) key new in
          elim (sound.waits k) [
            | inl as_before ↦ inr (sym as_before ∙ fresh, ground (arith, same))
            | inr (none', now') ↦ absurd (ground (arith, fresh, now'))
          ]
    ]

    orphan-late :
        (e : Entry) (c : Check) (t : ℕ)
        → SomeEntry e.key entries
        → IsSound entries before c
        → since e.key c.waits ≡ some t
        → delay < now - t
        → (k : Text) → among k (c.doomed ++ (e.key ∷ [])) ≡ true
        → SomeEntry k entries × (t : ℕ) × (since k before ≡ some t) × (delay < now - t)
    orphan-late e c t here sound old late k h = elim (Bool-cases (text_eq e.key k)) [
      | inr other ↦ sound.doomed k (ground (arith, among-append k e.key c.doomed))
      | inl same ↦
          let key : e.key ≡ k = (text_eq_iff e.key k).0 same in
          let old' : since k c.waits ≡ some t = subst (λ x. since x c.waits ≡ some t) key old in
          elim (sound.waits k) [
            | inl as_before ↦
                (subst (λ x. SomeEntry x entries) key here, t, sym as_before ∙ old', late)
            | inr (none', now') ↦ absurd (ground (arith, old', now'))
          ]
    ]

    orphan-IsSound :
        (e : Entry) (c : Check)
        → SomeEntry e.key entries
        → IsSound entries before c
        → IsSound entries before (orphan exists now delay e.key c)
    unfolding orphan
    orphan-IsSound e c here sound = elim (Option-cases (since e.key c.waits)) [
      | inl new ↦
          let c' : Check = record {
            doomed = c.doomed;
            orphans = e.key ∷ c.orphans;
            waits = (e.key, now) ∷ c.waits;
          } in
          let step : orphan exists now delay e.key c ≡ c' = ground (arith, new) in
          subst (IsSound entries before) (sym step) (record {
            doomed = sound.doomed;
            orphans = orphans-cons e c here sound;
            waits = orphan-new e c here sound new;
          })
      | inr (t, old) ↦ elim (Bool-cases (ltb delay (now - t))) [
        | inl late ↦
            let c' : Check = record {
              doomed = c.doomed ++ (e.key ∷ []);
              orphans = e.key ∷ c.orphans;
              waits = c.waits;
            } in
            let step : orphan exists now delay e.key c ≡ c' = ground (arith, old, late) in
            subst (IsSound entries before) (sym step) (record {
              doomed = orphan-late e c t here sound old (ground arith);
              orphans = orphans-cons e c here sound;
              waits = sound.waits;
            })
        | inr early ↦
            let c' : Check = record {
              doomed = c.doomed;
              orphans = e.key ∷ c.orphans;
              waits = c.waits;
            } in
            let step : orphan exists now delay e.key c ≡ c' = ground (arith, old, early) in
            subst (IsSound entries before) (sym step) (record {
              doomed = sound.doomed;
              orphans = orphans-cons e c here sound;
              waits = sound.waits;
            })
      ]
    ]

    check_entries-IsSound :
        (es : List Entry) (c : Check)
        → ((k : Text) → SomeEntry k es → SomeEntry k entries)
        → IsSound entries before c
        → IsSound entries before (check_entries exists now delay es c)
    unfolding check_entries
    check_entries-IsSound [] c all sound = sound
    check_entries-IsSound (e ∷ es) c all sound =
        elim (Bool-cases (exists (parse_fix_info e.value).0 (parse_fix_info e.value).1)) [
          | inl there ↦ rw there (check_entries-IsSound es c (λ k h. all k (inr h)) sound)
          | inr gone ↦ rw gone (
              check_entries-IsSound es (orphan exists now delay e.key c) (λ k h. all k (inr h))
                (orphan-IsSound e c (all e.key (inl (refl, gone))) sound))
        ]

  start-IsSound :
      (entries : List Entry) (waits : Waits)
      → IsSound entries waits (record { doomed = []; orphans = []; waits = waits })
  start-IsSound entries waits = record {
    doomed = λ k h. absurd (cc h);
    orphans = λ k h. absurd (cc h);
    waits = λ k. inl refl;
  }

  pub checked-IsSound :
      (entries : List Entry) (waits : Waits)
      → IsSound entries waits (
          check_entries exists now delay entries
            (record { doomed = []; orphans = []; waits = waits }))
  checked-IsSound entries waits =
      check_entries-IsSound entries waits entries _ (λ k h. h) (start-IsSound entries waits)
