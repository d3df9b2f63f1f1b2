-- ===== src/Multus/Rollback.antt =====
-- cmdAdd (multus/multus.go) as a whole: which plugins it calls, and what it undoes.
pub mod Loop
use multus_ext_cni.Prelude.{
  ℕ, suc, ◌+◌, ◌<◌, ◌≡◌, ◌⊎◌, Result-cases, refl, sym, ◌∙◌, ap, Bool, true, false, not, ◌&&◌, List,
  [], ◌∷◌, ◌++◌, Option, none, some, if◌then◌else◌, Text, codes, is_empty, Result, ok, err, length,
  arith, append_assoc, append-nil, Bool-cases, Option-cases, inl, inr,
}
use multus_ext_cni.Multus.Delegates.{Delegate, Env, Cni, State}
use multus_ext_cni.Multus.{
  MultusError, adding_failed, status_failed, save_failed, env_failed, is_bad_value, add_pod,
  get_ifname, delegate_add, del_plugins, add_loop, keep_result,
}
use multus_ext_cni.Multus.Calls.{
  Call, call_of, del_calls, recorded, ArePlain, del_plugins-calls, delegate_add-Call,
}
use multus_ext_cni.Multus.Rollback.Loop.{Outcome, add_loop-Outcome}

module _ {W R N : Type 0} (cni : Cni W R N) (argif : Text) (all : List Delegate)
    (plain : ArePlain cni argif all) where
  -- How the answer of cmdAdd follows from the end of its loop.
  abbrev pub Answers :
      Result MultusError (Option R × List N) → Result MultusError (Option R) → Type 0
  Answers (err e) answer = answer ≡ err e
  Answers (ok (result, statuses)) answer = (answer ≡ ok result) ⊎ (answer ≡ err status_failed)

  -- cmdAdd returns, and either has called no plugin, since the delegates could not be saved or the
  -- environment not be set, or its calls are those of its loop.
  abbrev pub PodEnds : Text → Bool → State (W × List Call) → Type 0
  PodEnds ext_env reports s =
      (answer : Result MultusError (Option R)) × (s' : State (W × List Call)) × (calls : List Call)
      × (add_pod (recorded cni) argif ext_env reports all s ≡ some (answer, s'))
      × (s'.world.1 ≡ s.world.1 ++ calls)
      × (((calls ≡ []) × ((answer ≡ err save_failed) ⊎ (answer ≡ err env_failed)))
          ⊎ ((x : Result MultusError (Option R × List N)) × Outcome argif all 0 all calls x
              × Answers x answer))

  -- No name of an interface has a NUL byte. Then cmdAdd, from the loading of the delegates on,
  -- returns, whatever the plugins do. Either it has called no plugin, as it cannot save the
  -- delegates or set the environment; or it has asked the plugins of the delegates to add, in
  -- order: all of them, and it succeeds or fails to set the status; or up to one that is refused
  -- or fails, and then it has asked the plugins of the delegates up to that one to delete, in the
  -- reverse order, and fails; or up to one whose result cannot be reported, and then it fails and
  -- has deleted none.
  pub add_pod-Outcome :
      (ext_env : Text) (reports : Bool) (s : State (W × List Call)) → PodEnds ext_env reports s
  unfolding add_pod
  add_pod-Outcome ext_env reports s =
      let (x, s', calls, ends, log, out) =
        add_loop-Outcome cni argif all plain cni_args reports 0 all none [] s2 (omega arith) in
      elim (Bool-cases (cni.save_delegates all s.world.0).0) [
        | inr unsaved ↦ (
          err save_failed,
          s1,
          [],
          ground arith,
          sym (append-nil s.world.1),
          inl (refl, inl refl),
        )
        | inl is_saved ↦ elim (Bool-cases (not (is_empty ext_env) && is_bad_value cni_args)) [
          | inl bad ↦ (
            err env_failed,
            s1,
            [],
            ground arith,
            sym (append-nil s.world.1),
            inl (refl, inr refl),
          )
          | inr good ↦ ended x s' calls ends log out is_saved good
        ]
      ]
    where
      cni_args : Text
      cni_args = if not (is_empty ext_env) then s.env.args ++ (codes ";" ++ ext_env) else s.env.args

      s1 : State (W × List Call)
      s1 = record { env = s.env; world = ((cni.save_delegates all s.world.0).1, s.world.1) }

      s2 : State (W × List Call)
      s2 = record {
        env = record s.env { args = cni_args };
        world = ((cni.save_delegates all s.world.0).1, s.world.1);
      }

      ended :
          (x : Result MultusError (Option R × List N)) (s' : State (W × List Call))
          (calls : List Call)
          → add_loop (recorded cni) argif cni_args reports all 0 all none [] s2 ≡ some (x, s')
          → s'.world.1 ≡ s.world.1 ++ calls
          → Outcome argif all 0 all calls x
          → (cni.save_delegates all s.world.0).0 ≡ true
          → (not (is_empty ext_env) && is_bad_value cni_args) ≡ false
          → PodEnds ext_env reports s
      ended (err e) s' calls ends log out is_saved good =
          (err e, s', calls, ground arith, log, inr (err e, out, refl))
      ended (ok (result, statuses)) s' calls ends log out is_saved good =
          elim (Bool-cases reports) [
            | inr silent ↦ (
              ok result,
              s',
              calls,
              ground arith,
              log,
              inr (ok (result, statuses), out, inl refl),
            )
            | inl loud ↦
                let (set, w') = cni.set_status statuses s'.world.0 in
                elim (Bool-cases (cni.set_status statuses s'.world.0).0) [
                  | inl is_set ↦ (
                    ok result,
                    record s' { world = (w', s'.world.1) },
                    calls,
                    ground arith,
                    log,
                    inr (ok (result, statuses), out, inl refl),
                  )
                  | inr unset ↦ (
                    err status_failed,
                    record s' { world = (w', s'.world.1) },
                    calls,
                    ground arith,
                    log,
                    inr (ok (result, statuses), out, inr refl),
                  )
                ]
          ]
