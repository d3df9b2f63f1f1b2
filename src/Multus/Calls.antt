-- ===== src/Multus/Calls.antt =====
-- The calls of the plugins by delPlugins and delegateAdd (multus/multus.go), in order, recorded beside
-- the state of the plugins.
use multus_ext_cni.Prelude.{
  ℕ, zero, suc, ◌≤◌, ◌≡◌, ◌≢◌, ◌⊎◌, Result-cases, refl, sym, ◌∙◌, ap, Bool, true, false, List, [],
  ◌∷◌, ◌++◌, none, some, if◌then◌else◌, Text, codes, Result, ok, err, get_elem?, length, arith,
  append_assoc, append-nil, Bool-cases, inl, inr, get_elem?-some,
}
use multus_ext_cni.Multus.Delegates.{Delegate, Env, Cni, State}
use multus_ext_cni.Multus.{
  MultusError, deleting_failed, get_ifname, is_bad_value, delegate_add, delegate_del, del_loop,
  del_plugins, prepare,
}

-- A call of a plugin, or of a list of plugins: what it is told apart by, the configuration and the
-- environment. A list does not inherit the environment of the process: libcni sets its own.
pub record Call : Type 0 where
  pub adds : Bool
  pub is_list : Bool
  pub target : Text
  pub bytes : Text
  pub env : Env

-- What libcni sets for a list, without CNI_ARGS, which is the same for all delegates of a pod
abbrev pub list_env : Bool → Text → Env
list_env adds ifname = record {
  ifname = ifname;
  command = if adds then codes "ADD" else codes "DEL";
  args = [];
}

abbrev pub call_of : Bool → Delegate → Env → Call
call_of adds d env = record {
  adds = adds;
  is_list = d.conf_list_plugin;
  target = if d.conf_list_plugin then env.ifname else d.type_name;
  bytes = d.bytes;
  env = if d.conf_list_plugin then list_env adds env.ifname else env;
}

-- The calls of delPlugins below index `n`.
unfoldable pub del_calls : Text → List Delegate → ℕ → Env → List Call
del_calls argif delegates zero env = []
del_calls argif delegates (suc n) env = elim (get_elem? delegates n) [
  | none ↦ []
  | some d ↦
      let env' : Env = record env { ifname = get_ifname d argif n } in
      call_of false d env' ∷ del_calls argif delegates n env'
]

del_calls-suc :
    (argif : Text) (delegates : List Delegate) (n : ℕ) (d : Delegate) (env : Env)
    → get_elem? delegates n ≡ some d
    → let env' : Env = record env { ifname = get_ifname d argif n } in
      del_calls argif delegates (suc n) env
      ≡ call_of false d env' ∷ del_calls argif delegates n env'
unfolding del_calls
del_calls-suc argif delegates n d env at = ground (arith, at)

module _ {W R N : Type 0} (cni : Cni W R N) where
  abbrev pub note :
      {A : Type 0} → A × W → List Call → Bool → Bool → Text → Text → Env → A × (W × List Call)
  note (a, w) log adds is_list target bytes env = (
    a,
    (
      w,
      log
          ++ (record { adds = adds; is_list = is_list; target = target; bytes = bytes; env = env }
              ∷ []),
    ),
  )

  abbrev pub recorded : Cni (W × List Call) R N
  recorded = record {
    has_netns = λ s. cni.has_netns s.0;
    link_by_name = λ n s. cni.link_by_name n s.0;
    parse_mac = cni.parse_mac;
    parse_cidr = cni.parse_cidr;
    parse_ip = cni.parse_ip;
    add_list = λ i b s. note (cni.add_list i b s.0) s.1 true true i b (list_env true i);
    add_plugin = λ t b env s. note (cni.add_plugin t b env s.0) s.1 true false t b env;
    del_list = λ i b s. note (cni.del_list i b s.0) s.1 false true i b (list_env false i);
    del_plugin = λ t b env s. note (cni.del_plugin t b env s.0) s.1 false false t b env;
    load_status = cni.load_status;
    set_status = λ l s. let (a, w) = cni.set_status l s.0 in (a, (w, s.1));
    save_delegates = λ l s. let (a, w) = cni.save_delegates l s.0 in (a, (w, s.1));
  }

  -- No name of an interface has a NUL byte.
  abbrev pub ArePlain : Text → List Delegate → Type 0
  ArePlain argif delegates =
      (i : ℕ) (d : Delegate)
      → get_elem? delegates i ≡ some d
      → is_bad_value (get_ifname d argif i) ≡ false

  delegate_del-Call :
      (ifname : Text) (d : Delegate) (s : State (W × List Call))
      → is_bad_value ifname ≡ false
      → let env' : Env = record s.env { ifname = ifname } in
        let s' : State (W × List Call) = (delegate_del recorded ifname d s).1 in
        (s'.env ≡ env') × (s'.world.1 ≡ s.world.1 ++ (call_of false d env' ∷ []))
  unfolding delegate_del
  delegate_del-Call ifname d s plain = elim (Bool-cases d.conf_list_plugin) [
    | inl list ↦ (ground arith, ground arith)
    | inr single ↦ (ground arith, ground arith)
  ]

  -- One round of the loop of delPlugins.
  del_loop-suc :
      (argif : Text) (delegates : List Delegate) (n : ℕ) (d : Delegate) (s : State (W × List Call))
      (r : List MultusError × State (W × List Call))
      → get_elem? delegates n ≡ some d
      → del_loop recorded argif delegates n (delegate_del recorded (get_ifname d argif n) d s).1
        ≡ some r
      → (es : List MultusError) × (del_loop recorded argif delegates (suc n) s ≡ some (es, r.1))
  unfolding del_loop
  del_loop-suc argif delegates n d s (es, s') at rest = (
    elim (delegate_del recorded (get_ifname d argif n) d s).0 [ none ↦ es | some x ↦ x ∷ es ],
    ground (arith, at, rest),
  )

  -- The errors of delPlugins are collected, and never stop it.
  del_loop-calls :
      (argif : Text) (delegates : List Delegate) (n : ℕ) (s : State (W × List Call))
      → ArePlain argif delegates
      → n ≤ length delegates
      → (r : List MultusError × State (W × List Call)) × (del_loop recorded argif delegates n s
          ≡ some r)
        × (r.1.world.1 ≡ s.world.1 ++ del_calls argif delegates n s.env)
  unfolding del_loop del_calls
  del_loop-calls argif delegates zero s plain enough = (([], s), refl, sym (append-nil s.world.1))
  del_loop-calls argif delegates (suc n) s plain enough =
      let (d, at) = get_elem?-some delegates n enough in
      let ifname = get_ifname d argif n in
      let env' : Env = record s.env { ifname = ifname } in
      let s' : State (W × List Call) = (delegate_del recorded ifname d s).1 in
      let (env, log) = delegate_del-Call ifname d s (plain n d at) in
      let (r, done, calls) = del_loop-calls argif delegates n s' plain (omega arith) in
      let (es, whole) = del_loop-suc argif delegates n d s r at done in
      (
        (es, r.1),
        whole,
        calls
            ∙ ap (λ e. s'.world.1 ++ del_calls argif delegates n e) env
            ∙ ap (λ l. l ++ del_calls argif delegates n env') log
            ∙ append_assoc s.world.1 (call_of false d env' ∷ []) (del_calls argif delegates n env')
            ∙ sym (ap (λ l. s.world.1 ++ l) (del_calls-suc argif delegates n d s.env at)),
      )

  -- No name of an interface has a NUL byte, and the delegates below index `n` exist. Then
  -- delPlugins returns, and has asked the plugin of each of these delegates to delete, once each,
  -- from the last one down to the first, under the name that getIfname gives it, with CNI_COMMAND
  -- set to DEL, whatever the plugins answer.
  pub del_plugins-calls :
      (argif : Text) (delegates : List Delegate) (n : ℕ) (s : State (W × List Call))
      → ArePlain argif delegates
      → n ≤ length delegates
      → (r : Result MultusError (Unit {0}) × State (W × List Call)) × (del_plugins recorded argif
            delegates n s
          ≡ some r)
        × (r.1.world.1
            ≡ s.world.1 ++ del_calls argif delegates n (record s.env { command = codes "DEL" }))
  unfolding del_plugins
  del_plugins-calls argif delegates n s plain enough =
      let s1 : State (W × List Call) = record s { env = record s.env { command = codes "DEL" } } in
      let (r, done, calls) = del_loop-calls argif delegates n s1 plain enough in closed r done calls
    where
      closed :
          (r : List MultusError × State (W × List Call))
          → del_loop recorded argif delegates n
              (record s { env = record s.env { command = codes "DEL" } })
            ≡ some r
          → r.1.world.1
            ≡ s.world.1 ++ del_calls argif delegates n (record s.env { command = codes "DEL" })
          → (r : Result MultusError (Unit {0}) × State (W × List Call)) × (del_plugins recorded
                argif delegates n s
              ≡ some r)
            × (r.1.world.1
                ≡ s.world.1 ++ del_calls argif delegates n (record s.env { command = codes "DEL" }))
      closed ([], s') done calls = ((ok tt, s'), rw (done, del_plugins) refl, calls)
      closed (e ∷ es, s') done calls = ((err deleting_failed, s'), ground arith, calls)

  -- delegateAdd adds at most one call, of the delegate; it has, where it succeeds.
  pub delegate_add-Call :
      (ifname : Text) (d : Delegate) (cni_args : Text) (s : State (W × List Call))
      → let (answer, s') = delegate_add recorded ifname d cni_args s in
        ((s'.world.1 ≡ s.world.1) × ((r : R) → answer ≢ ok r))
        ⊎ ((args : Text) × (s'.world.1
              ≡ s.world.1 ++ (call_of true d (record s.env { ifname = ifname; args = args }) ∷ [])))
  unfolding delegate_add
  delegate_add-Call ifname d cni_args s = elim (Bool-cases (is_bad_value ifname)) [
    | inl bad ↦ inl (ground arith, λ r e. absurd (ground arith))
    | inr good ↦
        elim (Result-cases (
          prepare recorded ifname d cni_args
            (record s { env = record s.env { ifname = ifname } }))) [
              | inr (e, bad) ↦ inl (ground arith, λ r e. absurd (ground arith))
              | inl (args, fine) ↦ elim (Bool-cases d.conf_list_plugin) [
                | inl list ↦ inr (args, ground arith)
                | inr single ↦ inr (args, ground arith)
              ]
            ]
  ]
