-- ===== src/Multus/Rollback/Loop.antt =====
-- The loop of cmdAdd (multus/multus.go): which plugins it calls, and how it ends.
use multus_ext_cni.Prelude.{
  ℕ, suc, ◌+◌, ◌<◌, ◌≡◌, ◌⊎◌, Result-cases, refl, sym, ◌∙◌, ap, Bool, true, List, [], ◌∷◌, ◌++◌,
  Option, some, Text, codes, Result, ok, err, length, arith, append_assoc, append-nil, Bool-cases,
  Option-cases, inl, inr,
}
use multus_ext_cni.Multus.Delegates.{Delegate, Env, Cni, State}
use multus_ext_cni.Multus.{
  MultusError, adding_failed, status_failed, get_ifname, delegate_add, del_plugins, add_loop,
  keep_result,
}
use multus_ext_cni.Multus.Calls.{
  Call, call_of, del_calls, recorded, ArePlain, del_plugins-calls, delegate_add-Call,
}

-- What the loop of cmdAdd, from the delegates `ds` on, the first of which has index `idx`, has called
-- when it ends, and how it ends.
pub data Outcome {A : Type 0} (argif : Text) (all : List Delegate)
    : ℕ → List Delegate → List Call → Result MultusError A → Type 0 where
  -- every delegate is added
  finished : (idx : ℕ) (x : A) → Outcome argif all idx [] [] (ok x)
  -- a delegate is refused before its plugin is called, or its plugin fails: the delegates up to it are
  -- deleted
  refused :
      (idx : ℕ) (d : Delegate) (ds : List Delegate) (env : Env)
      → Outcome argif all idx
          (d ∷ ds)
          (del_calls argif all (suc idx) (record env { command = codes "DEL" }))
          (err adding_failed)
  undone :
      (idx : ℕ) (d : Delegate) (ds : List Delegate) (env env' : Env)
      → Outcome argif all idx
          (d ∷ ds)
          (call_of true d (record env { ifname = get_ifname d argif idx })
            ∷ del_calls argif all (suc idx) (record env' { command = codes "DEL" }))
          (err adding_failed)
  -- the result of a plugin cannot be reported: nothing is deleted
  unreported :
      (idx : ℕ) (d : Delegate) (ds : List Delegate) (env : Env)
      → Outcome argif all idx
          (d ∷ ds)
          (call_of true d (record env { ifname = get_ifname d argif idx }) ∷ [])
          (err status_failed)
  added :
      (idx : ℕ) (d : Delegate) (ds : List Delegate) (env : Env) (calls : List Call)
      (x : Result MultusError A)
      → Outcome argif all (suc idx) ds calls x
      → Outcome argif all idx
          (d ∷ ds)
          (call_of true d (record env { ifname = get_ifname d argif idx }) ∷ calls)
          x

module _ {W R N : Type 0} (cni : Cni W R N) (argif : Text) (all : List Delegate)
    (plain : ArePlain cni argif all) where
  -- The loop has ended as `Outcome` says, with these calls behind those before.
  abbrev pub Ends :
      ℕ
      → List Delegate
      → State (W × List Call)
      → Option (Result MultusError (Option R × List N) × State (W × List Call))
      → Type 0
  Ends idx ds s answer =
      (x : Result MultusError (Option R × List N)) × (s' : State (W × List Call)) × (calls : List
        Call)
      × (answer ≡ some (x, s'))
      × (s'.world.1 ≡ s.world.1 ++ calls)
      × Outcome argif all idx ds calls x

  -- After a failure the delegates up to it are deleted.
  undo :
      (idx : ℕ) (s : State (W × List Call))
      → idx < length all
      → (s' : State (W × List Call)) × (r : Result MultusError (Unit {0})) × (del_plugins
            (recorded cni)
            argif
            all
            (suc idx)
            s
          ≡ some (r, s'))
        × (s'.world.1
            ≡ s.world.1 ++ del_calls argif all (suc idx) (record s.env { command = codes "DEL" }))
  undo idx s room =
      let (r, done, calls) = del_plugins-calls cni argif all (suc idx) s plain (omega arith) in
      (r.1, r.0, done, calls)

  module _ (cni_args : Text) (reports : Bool) (idx : ℕ) (d : Delegate) (ds : List Delegate)
      (result : Option R) (statuses : List N) (s : State (W × List Call)) where
    -- The first round of the loop.
    step : Result MultusError R × State (W × List Call)
    step = delegate_add (recorded cni) (get_ifname d argif idx) d cni_args s

    loop : Option (Result MultusError (Option R × List N) × State (W × List Call))
    loop = add_loop (recorded cni) argif cni_args reports all idx (d ∷ ds) result statuses s

    loop-err :
        (e : MultusError) (r : Result MultusError (Unit {0})) (s' : State (W × List Call))
        → step.0 ≡ err e
        → del_plugins (recorded cni) argif all (suc idx) step.1 ≡ some (r, s')
        → loop ≡ some (err adding_failed, s')
    unfolding step loop add_loop
    loop-err e r s' bad undone' = ground (arith, bad, undone')

    -- After a success the loop goes on, or a result is not reported.
    loop-ok :
        (x : R)
        → step.0 ≡ ok x
        → (loop ≡ some (err status_failed, step.1))
          ⊎ ((more : List N) × (loop
                ≡ add_loop
                    (recorded cni)
                    argif
                    cni_args
                    reports
                    all
                    (suc idx)
                    ds
                    (keep_result (recorded cni) d x result)
                    more
                    step.1))
    unfolding step loop add_loop
    loop-ok x good = elim (Bool-cases reports) [
      | inr silent ↦ inr (statuses, ground arith)
      | inl loud ↦ elim (Option-cases (cni.load_status x d)) [
        | inl bad ↦ inl (ground arith)
        | inr (n, fine) ↦ inr (statuses ++ (n ∷ []), ground arith)
      ]
    ]

  -- The call that adds the delegate.
  abbrev call : ℕ → Delegate → Text → State (W × List Call) → Call
  call idx d args s = call_of true d (record s.env { ifname = get_ifname d argif idx; args = args })

  -- The calls that delete the delegates up to one, from an environment on
  abbrev deletions : ℕ → Env → List Call
  deletions idx env = del_calls argif all (suc idx) (record env { command = codes "DEL" })

  -- A delegate that cannot be added ends the loop.
  failed-Ends :
      (cni_args : Text) (reports : Bool) (idx : ℕ) (d : Delegate) (ds : List Delegate)
      (result : Option R) (statuses : List N) (s : State (W × List Call)) (e : MultusError)
      → idx < length all
      → (step cni_args reports idx d ds result statuses s).0 ≡ err e
      → Ends idx (d ∷ ds) s (loop cni_args reports idx d ds result statuses s)
  unfolding step
  failed-Ends cni_args reports idx d ds result statuses s e room bad =
      let first = step cni_args reports idx d ds result statuses s in
      let (s', r, done, log) = undo idx first.1 room in
      let ended = loop-err cni_args reports idx d ds result statuses s e r s' bad done in
      let removed = deletions idx first.1.env in
      elim (delegate_add-Call cni (get_ifname d argif idx) d cni_args s) [
        | inl (same, none') ↦ (
          err adding_failed,
          s',
          removed,
          ended,
          log ∙ ap (λ l. l ++ removed) same,
          refused idx d ds first.1.env,
        )
        | inr (args, called) ↦ (
          err adding_failed,
          s',
          call idx d args s ∷ removed,
          ended,
          log
              ∙ ap (λ l. l ++ removed) called
              ∙ append_assoc s.world.1 (call idx d args s ∷ []) removed,
          undone idx d ds (record s.env { args = args }) first.1.env,
        )
      ]

  -- A delegate that is added comes before what the loop does after it.
  added-Ends :
      (idx : ℕ) (d : Delegate) (ds : List Delegate) (args : Text) (s s1 : State (W × List Call))
      (answer rest : Option (Result MultusError (Option R × List N) × State (W × List Call)))
      → s1.world.1 ≡ s.world.1 ++ (call idx d args s ∷ [])
      → answer ≡ rest
      → Ends (suc idx) ds s1 rest
      → Ends idx (d ∷ ds) s answer
  added-Ends idx d ds args s s1 answer rest called next (y, s'', calls, ends, log, out) = (
    y,
    s'',
    call idx d args s ∷ calls,
    next ∙ ends,
    log ∙ ap (λ l. l ++ calls) called ∙ append_assoc s.world.1 (call idx d args s ∷ []) calls,
    added idx d ds (record s.env { args = args }) calls y out,
  )

  pub add_loop-Outcome :
      (cni_args : Text) (reports : Bool) (idx : ℕ) (ds : List Delegate) (result : Option R)
      (statuses : List N) (s : State (W × List Call))
      → idx + length ds ≡ length all
      → Ends idx ds s (add_loop (recorded cni) argif cni_args reports all idx ds result statuses s)
  unfolding add_loop step loop
  add_loop-Outcome cni_args reports idx [] result statuses s room = (
    ok (result, statuses),
    s,
    [],
    refl,
    sym (append-nil s.world.1),
    finished idx (result, statuses),
  )
  add_loop-Outcome cni_args reports idx (d ∷ ds) result statuses s room =
      let first = step cni_args reports idx d ds result statuses s in
      elim (Result-cases first.0) [
        | inr (e, bad) ↦ failed-Ends cni_args reports idx d ds result statuses s e (omega arith) bad
        | inl (x, good) ↦ elim (delegate_add-Call cni (get_ifname d argif idx) d cni_args s) [
          | inl (same, none') ↦ absurd (none' x good)
          | inr (args, called) ↦ elim (loop-ok cni_args reports idx d ds result statuses s x good) [
            | inl bad ↦ (
              err status_failed,
              first.1,
              call idx d args s ∷ [],
              bad,
              called,
              unreported idx d ds (record s.env { args = args }),
            )
            | inr (more, next) ↦ added-Ends idx d ds args s first.1 _ _ called next (
                add_loop-Outcome cni_args reports (suc idx) ds
                  (keep_result (recorded cni) d x result) more first.1 (omega arith))
          ]
        ]
      ]
