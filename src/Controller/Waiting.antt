-- ===== src/Controller/Waiting.antt =====
-- The keys that CheckFixIP (multus-controller/controller.go) deletes, and those that wait.
pub mod Sound
use multus_ext_cni.Prelude.{
  ℕ, ◌-◌, ◌<◌, ◌≡◌, ◌⊎◌, inl, inr, refl, sym, ◌∙◌, ap, subst, Bool, true, false, not, ◌||◌, List,
  [], ◌∷◌, ◌++◌, none, some, ltb, Text, text_eq, text_eq_iff, arith, Bool-cases, Option-cases,
  some-injective, if◌then◌else◌,
}
use multus_ext_cni.Ipam.Lease.Fixed.{Entry}
use multus_ext_cni.Controller.{
  Waits, Check, since, among, retain, orphan, check_entries, check_fix_ip, parse_fix_info,
}
use multus_ext_cni.Controller.Waiting.Sound.{SomeEntry, IsSound, checked-IsSound}

since-retain :
    (p : Text → Bool) (k : Text) (waits : Waits)
    → since k (retain p waits) ≡ (if p k then since k waits else none)
unfolding since retain
since-retain p k [] = ground arith
since-retain p k ((key, t) ∷ waits) = elim (Bool-cases (text_eq key k)) [
  | inl same ↦
      let e : p key ≡ p k = ap p ((text_eq_iff key k).0 same) in
      ground (arith, same, e, since-retain p k waits)
  | inr other ↦ ground (arith, other, since-retain p k waits)
]

-- A key that is left after both deletions.
retained :
    (doomed orphans : List Text) (k : Text) (t : ℕ) (waits : Waits)
    → since k (retain (λ x. not (among x doomed)) (retain (λ x. among x orphans) waits)) ≡ some t
    → (among k doomed ≡ false) × (among k orphans ≡ true) × (since k waits ≡ some t)
retained doomed orphans k t waits h =
    let outer = since-retain (λ x. not (among x doomed)) k (retain (λ x. among x orphans) waits) in
    let inner = since-retain (λ x. among x orphans) k waits in
    elim (Bool-cases (among k doomed)) [
      | inl gone ↦ absurd (ground arith)
      | inr kept ↦ elim (Bool-cases (among k orphans)) [
        | inl orphaned ↦ (kept, orphaned, ground arith)
        | inr found ↦ absurd (ground arith)
      ]
    ]

module _ (exists : Text → Text → Bool) (now delay : ℕ) where
  -- A key that the check of fixed addresses deletes from etcd has an entry whose pod the API
  -- server does not return now, and waited before the check since a time from which more than the
  -- delay has passed.
  pub check_fix_ip-doomed :
      (entries : List Entry) (waits : Waits) (k : Text)
      → among k (check_fix_ip exists now delay entries waits).0 ≡ true
      → SomeEntry exists now delay k entries
        × (t : ℕ) × (since k waits ≡ some t)
        × (delay < now - t)
  unfolding check_fix_ip
  check_fix_ip-doomed entries waits k h =
      (checked-IsSound exists now delay entries waits).doomed k h

  -- A key that waits after the check of fixed addresses, since a time `t`, has an entry whose pod
  -- the API server does not return now, is not deleted by the check, and waited since `t` before,
  -- or did not wait before and `t` is the time of the check.
  pub check_fix_ip-waits :
      (entries : List Entry) (waits : Waits) (k : Text) (t : ℕ)
      → since k (check_fix_ip exists now delay entries waits).1 ≡ some t
      → SomeEntry exists now delay k entries
        × (among k (check_fix_ip exists now delay entries waits).0 ≡ false)
        × ((since k waits ≡ some t) ⊎ ((since k waits ≡ none) × (t ≡ now)))
  unfolding check_fix_ip
  check_fix_ip-waits entries waits k t h =
      let c =
        check_entries exists now delay entries
          (record { doomed = []; orphans = []; waits = waits }) in
      let sound = checked-IsSound exists now delay entries waits in
      let (kept, orphaned, old) = retained c.doomed c.orphans k t c.waits h in
      (
        sound.orphans k orphaned,
        kept,
        elim (sound.waits k) [
          | inl as_before ↦ inl (sym as_before ∙ old)
          | inr (none', now') ↦ inr (none', some-injective (sym old ∙ now'))
        ],
      )
