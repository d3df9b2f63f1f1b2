-- ===== src/Ipam/Config/Apart.antt =====
-- The ranges of a configuration that LoadIPAMConfig (multus-ipam/backend/allocator/config.go) accepts.
use multus_ext_cni.Prelude.{
  ℕ, zero, suc, ◌<◌, ◌≡◌, ◌≢◌, ◌⊎◌, inl, inr, refl, sym, ◌∙◌, ap, subst, Bool, true, false, not,
  ◌&&◌, ◌||◌, List, [], ◌∷◌, ◌++◌, any, any-false, some-injective, some, Option-cases, Result-cases,
  Bool-cases, get_elem?, Text, is_empty, Result, ok, >>=-eq-ok, >>-eq-ok, ok-injective, guard, ◌>>◌,
  ltb, text_eq, arith,
}
use multus_ext_cni.Net.IpPackage.{IpPackage}
use multus_ext_cni.Ipam.Range
use multus_ext_cni.Ipam.Range.{Range}
use multus_ext_cni.Ipam.RangeSet
use multus_ext_cni.Ipam.RangeSet.{RangeSet}
use multus_ext_cni.Ipam.RangeSet.Disjoint.{overlaps_comm, canonicalize-overlaps}
use multus_ext_cni.Ipam.Config.EnvArgs.{ConfigError, too_many, sets_overlap}
use multus_ext_cni.Ipam.Config.{
  IpamConfig, Net, Loader, canonicalize_all, all_ranges, count_sets, canonicalize_sets,
  any_sets_overlap, check_ranges, check_fix_range, check_config, with_args, load_ipam_config,
}

order : (i j : ℕ) → ((i < j) ⊎ (j < i)) ⊎ (i ≡ j)
order i j = elim (Bool-cases (ltb i j)) [
  | inl lt ↦ inl (inl (ground arith))
  | inr ge ↦ elim (Bool-cases (ltb j i)) [
    | inl gt ↦ inl (inr (ground arith))
    | inr le ↦ inr (ground arith)
  ]
]

apart_inside : (i j k l : ℕ) → i ≡ j → (i ≢ j) ⊎ (k ≢ l) → k ≢ l
apart_inside i j k l same (inl other) = absurd (other same)
apart_inside i j k l same (inr other) = other

module _ (p : IpPackage) where
  canonicalize_sets-cons :
      (x : RangeSet) (ss cs : List RangeSet)
      → canonicalize_sets p (x ∷ ss) ≡ ok cs
      → (c : RangeSet) × (rest : List RangeSet) × (RangeSet.canonicalize p x ≡ ok c)
        × (canonicalize_sets p ss ≡ ok rest)
        × (c ∷ rest ≡ cs)
  unfolding canonicalize_sets
  canonicalize_sets-cons x ss cs h = elim (Result-cases (RangeSet.canonicalize p x)) [
    | inr (e, bad) ↦ absurd (ground arith)
    | inl (c, good) ↦ elim (Result-cases (canonicalize_sets p ss)) [
      | inr (e, bad) ↦ absurd (ground arith)
      | inl (rest, others) ↦ (c, rest, good, others, ground arith)
    ]
  ]

  -- Each set is what Canonicalize has made of one.
  canonicalize_sets-each :
      (ss cs : List RangeSet) (i : ℕ) (s : RangeSet)
      → canonicalize_sets p ss ≡ ok cs
      → get_elem? cs i ≡ some s
      → (origin : RangeSet) × (RangeSet.canonicalize p origin ≡ ok s)
  unfolding canonicalize_sets
  canonicalize_sets-each [] cs i s h at =
      absurd (cc (subst (λ c. get_elem? c i ≡ some s) (sym (ok-injective h)) at))
  canonicalize_sets-each (x ∷ ss) cs zero s h at =
      let (c, rest, first, others, is) = canonicalize_sets-cons x ss cs h in
      let same : c ≡ s = some-injective (subst (λ l. get_elem? l 0 ≡ some s) (sym is) at) in
      (x, first ∙ ap ok same)
  canonicalize_sets-each (x ∷ ss) cs (suc i) s h at =
      let (c, rest, first, others, is) = canonicalize_sets-cons x ss cs h in
      canonicalize_sets-each ss rest i s others
        (subst (λ l. get_elem? l (suc i) ≡ some s) (sym is) at)

  -- Two sets do not overlap, the earlier one first.
  any_sets_overlap-before :
      (cs : List RangeSet) (i j : ℕ) (s t : RangeSet)
      → any_sets_overlap p cs ≡ false
      → get_elem? cs i ≡ some s
      → get_elem? cs j ≡ some t
      → i < j
      → RangeSet.overlaps p s t ≡ false
  unfolding any_sets_overlap
  any_sets_overlap-before [] i j s t apart si tj lt = cc
  any_sets_overlap-before (c ∷ cs) i zero s t apart si tj lt = absurd (omega arith)
  any_sets_overlap-before (c ∷ cs) zero (suc j) s t apart si tj lt =
      subst (λ x. RangeSet.overlaps p x t ≡ false) (some-injective si)
        (any-false (λ x. RangeSet.overlaps p c x) cs j t (ground arith) tj)
  any_sets_overlap-before (c ∷ cs) (suc i) (suc j) s t apart si tj lt =
      any_sets_overlap-before cs i j s t (ground arith) si tj (omega arith)

  -- Neither do their ranges.
  overlaps-each :
      (s t : RangeSet) (k l : ℕ) (a b : Range)
      → RangeSet.overlaps p s t ≡ false
      → get_elem? s k ≡ some a
      → get_elem? t l ≡ some b
      → Range.overlaps p a b ≡ false
  unfolding RangeSet.overlaps
  overlaps-each s t k l a b apart ak bl =
      any-false (λ r1. Range.overlaps p a r1) t l b
        (any-false (λ r. any (λ r1. Range.overlaps p r r1) t) s k a apart ak) bl

  -- The last guard has passed.
  guarded :
      (cs sets : List RangeSet) (b : Bool)
      → (guard (not b) sets_overlap >> ok cs) ≡ ok sets
      → (b ≡ false) × (◌≡◌ {A = Result ConfigError (List RangeSet)} (ok cs) (ok sets))
  guarded cs sets true h = absurd (cc h)
  guarded cs sets false h = (refl, h)

  check_ranges-apart :
      (loader : Loader) (n : Net) (ss sets : List RangeSet)
      → check_ranges p loader n ss ≡ ok sets
      → (canonicalize_sets p ss ≡ ok sets) × (any_sets_overlap p sets ≡ false)
  unfolding check_ranges
  check_ranges-apart loader n [] sets h = absurd (cc h)
  check_ranges-apart loader n (s ∷ ss) sets h =
      let (cs, canonical, h1) = >>=-eq-ok (canonicalize_sets p (s ∷ ss)) _ h in
      let few = not (
        (ltb 1 (count_sets true cs) || ltb 1 (count_sets false cs))
        && any (λ v. text_eq n.cni_version v) loader.old_versions) in
      let h2 =
        >>-eq-ok (guard few too_many) (guard (not (any_sets_overlap p cs)) sets_overlap >> ok cs)
          h1 in
      let (apart, same) = guarded cs sets (any_sets_overlap p cs) h2 in
      (canonical ∙ same, subst (λ x. any_sets_overlap p x ≡ false) (ok-injective same) apart)

  check_config-ranges :
      (loader : Loader) (n : Net) (c0 c : IpamConfig)
      → check_config p loader n c0 ≡ ok c
      → (canonicalize_sets p (all_ranges n c0) ≡ ok c.ranges)
        × (any_sets_overlap p c.ranges ≡ false)
  unfolding check_config
  check_config-ranges loader n c0 c h =
      let (ips, canonical, h1) = >>=-eq-ok (canonicalize_all (c0.ip_args ++ n.args_ips)) _ h in
      let (sets, checked, h2) = >>=-eq-ok (check_ranges p loader n (all_ranges n c0)) _ h1 in
      let (fix, fixed, h3) = >>=-eq-ok (check_fix_range p c0.fix_range) _ h2 in
      subst
        (λ x.
          (canonicalize_sets p (all_ranges n c0) ≡ ok x.ranges)
          × (any_sets_overlap p x.ranges ≡ false))
        (ok-injective h3) (check_ranges-apart loader n (all_ranges n c0) sets checked)

  load_ipam_config-checked :
      (loader : Loader) (bytes env_args : Text) (c : IpamConfig)
      → load_ipam_config p loader bytes env_args ≡ ok c
      → (n : Net) × (c0 : IpamConfig) × (check_config p loader n c0 ≡ ok c)
  unfolding load_ipam_config
  load_ipam_config-checked loader bytes env_args c h =
      elim (Option-cases (loader.decode_net bytes)) [
        | inl bad ↦ absurd (ground arith)
        | inr (n, read) ↦ elim (Option-cases n.ipam) [
          | inl none' ↦ absurd (ground arith)
          | inr (c0, there) ↦ elim (Bool-cases (is_empty env_args)) [
            | inl no_args ↦ (n, c0, ground arith)
            | inr args ↦ elim (Option-cases (loader.load_args env_args)) [
              | inl bad ↦ absurd (ground arith)
              | inr (e, loaded) ↦
                  let (c1, with', h1) =
                    >>=-eq-ok (with_args n.name e c0) (check_config p loader n) (ground arith) in
                  (n, c1, h1)
            ]
          ]
        ]
      ]

  -- In a configuration that LoadIPAMConfig accepts, two ranges at different places, of one range
  -- set or of two, do not overlap.
  pub load_ipam_config-apart :
      (loader : Loader) (bytes env_args : Text) (c : IpamConfig) (i j k l : ℕ) (s t : RangeSet)
      (a b : Range)
      → load_ipam_config p loader bytes env_args ≡ ok c
      → get_elem? c.ranges i ≡ some s
      → get_elem? c.ranges j ≡ some t
      → get_elem? s k ≡ some a
      → get_elem? t l ≡ some b
      → (i ≢ j) ⊎ (k ≢ l)
      → Range.overlaps p a b ≡ false
  load_ipam_config-apart loader bytes env_args c i j k l s t a b h si tj ak bl differ =
      let (n, c0, checked) = load_ipam_config-checked loader bytes env_args c h in
      let (canonical, apart) = check_config-ranges loader n c0 c checked in
      elim (order i j) [
        | inl (inl lt) ↦
            overlaps-each s t k l a b (any_sets_overlap-before c.ranges i j s t apart si tj lt) ak
              bl
        | inl (inr gt) ↦
            overlaps_comm p a b
            ∙ overlaps-each t s l k b a (any_sets_overlap-before c.ranges j i t s apart tj si gt) bl
                ak
        | inr same ↦
            let (origin, made) =
              canonicalize_sets-each (all_ranges n c0) c.ranges i s canonical si in
            let one : t ≡ s = some-injective (sym tj ∙ ap (get_elem? c.ranges) (sym same) ∙ si) in
            (canonicalize-overlaps p origin s k l a b made ak
              (subst (λ x. get_elem? x l ≡ some b) one bl) (apart_inside i j k l same differ)).0
      ]
