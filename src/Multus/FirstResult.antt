-- ===== src/Multus/FirstResult.antt =====
-- The result of the loop of cmdAdd (multus/multus.go), where only the first delegate is a master.
use multus_ext_cni.Prelude.{
  ℕ, suc, ◌≡◌, subst, Bool, not, List, [], ◌∷◌, ◌++◌, Option, none, some, Text, codes, is_empty,
  if◌then◌else◌, ok, err, arith, Bool-cases, Result-cases, Option-cases, inl, inr, All,
}
use multus_ext_cni.Conf.Ready.{IsPlain}
use multus_ext_cni.Multus.Delegates.{Delegate, Cni, State}
use multus_ext_cni.Multus.{get_ifname, delegate_add, keep_result, add_loop, add_pod}

module _ {W R N : Type 0} (cni : Cni W R N) where
  -- One round of the loop of cmdAdd that does not fail.
  add_loop-step :
      (argif cni_args : Text) (reporting : Bool) (all : List Delegate) (idx : ℕ) (d : Delegate)
      (ds : List Delegate) (result : Option R) (statuses : List N) (s : State W)
      {end : Option R × List N} {s' : State W}
      → add_loop cni argif cni_args reporting all idx (d ∷ ds) result statuses s ≡ some (ok end, s')
      → (r : R) × (new : List N) × ((delegate_add cni (get_ifname d argif idx) d cni_args s).0
          ≡ ok r)
        × (add_loop cni argif cni_args reporting all
              (suc idx)
              ds
              (keep_result cni d r result)
              new
              (delegate_add cni (get_ifname d argif idx) d cni_args s).1
            ≡ some (ok end, s'))
  unfolding add_loop
  add_loop-step argif cni_args reporting all idx d ds result statuses s h =
      elim (Result-cases (delegate_add cni (get_ifname d argif idx) d cni_args s).0) [
        | inr (e, failed) ↦ ground arith
        | inl (r, added) ↦ elim (Bool-cases reporting) [
          | inr silent ↦ (r, statuses, added, ground arith)
          | inl reported ↦ elim (Option-cases (cni.load_status r d)) [
            | inl lost ↦ ground arith
            | inr (n, loaded) ↦ (r, statuses ++ (n ∷ []), added, ground arith)
          ]
        ]
      ]

  keep_result-plain :
      (d : Delegate) (r old : R) → IsPlain d → keep_result cni d r (some old) ≡ some old
  keep_result-plain d r old plain = ground arith

  -- The delegates that are no master keep a result.
  add_loop-keeps :
      (argif cni_args : Text) (reporting : Bool) (all : List Delegate) (idx : ℕ)
      (ds : List Delegate) (old : R) (statuses : List N) (s : State W) {end : Option R × List N}
      {s' : State W}
      → All IsPlain ds
      → add_loop cni argif cni_args reporting all idx ds (some old) statuses s ≡ some (ok end, s')
      → end.0 ≡ some old
  unfolding add_loop
  add_loop-keeps argif cni_args reporting all idx [] old statuses s plain h = ground arith
  add_loop-keeps argif cni_args reporting all idx (d ∷ ds) old statuses s {end} {s'} plain h =
      let s1 = (delegate_add cni (get_ifname d argif idx) d cni_args s).1 in
      let (r, new, added, h1) =
        add_loop-step argif cni_args reporting all idx d ds (some old) statuses s h in
      add_loop-keeps argif cni_args reporting all (suc idx) ds old new s1 plain.1 (
        subst
          (λ k. add_loop cni argif cni_args reporting all (suc idx) ds k new s1 ≡ some (ok end, s'))
          (keep_result-plain d r old plain.0) h1)

  -- Where cmdAdd succeeds, its loop over the delegates does.
  add_pod-loop :
      (argif ext_env : Text) (reporting : Bool) (ds : List Delegate) (s : State W)
      {result : Option R} {s' : State W}
      → add_pod cni argif ext_env reporting ds s ≡ some (ok result, s')
      → (cni_args : Text) × (before after : State W) × (statuses : List N) × (add_loop cni argif
            cni_args reporting ds 0 ds none [] before
          ≡ some (ok (result, statuses), after))
  unfolding add_pod
  add_pod-loop argif ext_env reporting ds s h =
      let cni_args : Text =
        if not (is_empty ext_env) then s.env.args ++ (codes ";" ++ ext_env) else s.env.args in
      let before : State W = record {
        env = record s.env { args = cni_args };
        world = (cni.save_delegates ds s.world).1;
      } in
      elim (Option-cases (add_loop cni argif cni_args reporting ds 0 ds none [] before)) [
        | inl none' ↦ ground arith
        | inr ((err e, after), looped) ↦ ground arith
        | inr ((ok (r, statuses), after), looped) ↦
            (cni_args, before, after, statuses, ground arith)
      ]

  -- The result of the first delegate is the result of the pod.
  pub add_pod-first :
      (argif ext_env : Text) (reporting : Bool) (d : Delegate) (ds : List Delegate) (s : State W)
      {result : Option R} {s' : State W}
      → All IsPlain ds
      → add_pod cni argif ext_env reporting (d ∷ ds) s ≡ some (ok result, s')
      → (cni_args : Text) × (before : State W) × (r : R) × ((delegate_add cni
            (get_ifname d argif 0)
            d
            cni_args
            before).0
          ≡ ok r)
        × (result ≡ some r)
  add_pod-first argif ext_env reporting d ds s plain h =
      let (cni_args, before, after, statuses, looped) =
        add_pod-loop argif ext_env reporting (d ∷ ds) s h in
      let (r, new, added, rest) =
        add_loop-step argif cni_args reporting (d ∷ ds) 0 d ds none [] before looped in
      (
        cni_args,
        before,
        r,
        added,
        add_loop-keeps argif cni_args reporting (d ∷ ds) 1 ds r new
            (delegate_add cni (get_ifname d argif 0) d cni_args before).1 plain rest,
      )
