-- ===== src/Multus/Arguments.antt =====
-- The environment variable CNI_ARGS from one call of delegateAdd (multus/multus.go) to the next.
use multus_ext_cni.Prelude.{
  ◌≡◌, ◌⊎◌, Result-cases, ◌∙◌, ap, Bool, true, false, not, ◌||◌, List, [], ◌∷◌, ◌++◌, Text,
  is_empty, ok, arith, Bool-cases, Option-cases, inl, inr,
}
use multus_ext_cni.Multus.Delegates.{Delegate, Env, Cni, State}
use multus_ext_cni.Multus.{is_bad_value, delegate_add, prepare, extra_args, validate_ifname}
use multus_ext_cni.Multus.Calls.{Call, call_of, recorded}

-- The delegate asks for a MAC or an IP address.
abbrev pub has_request : Delegate → Bool
has_request d = not (is_empty d.mac_request) || not (is_empty d.ip_request)

-- The call that adds a single plugin, with the environment of the process
abbrev pub plugin_call : Delegate → Env → Call
plugin_call d env = record {
  adds = true;
  is_list = false;
  target = d.type_name;
  bytes = d.bytes;
  env = env;
}

single_call :
    (d : Delegate) (env : Env) → d.conf_list_plugin ≡ false → call_of true d env ≡ plugin_call d env
single_call d env single = ground (arith, single)

module _ {W R N : Type 0} (cni : Cni W R N) where
  -- CNI_ARGS as the call of the delegate finds it.
  prepare-args :
      (ifname : Text) (d : Delegate) (cni_args args : Text) (s : State (W × List Call))
      → prepare (recorded cni) ifname d cni_args s ≡ ok args
      → ((has_request d ≡ true) × (extra_args (recorded cni) d cni_args ≡ ok args))
        ⊎ ((has_request d ≡ false) × (args ≡ s.env.args))
  unfolding prepare
  prepare-args ifname d cni_args args s e =
      elim (Option-cases (validate_ifname (recorded cni) ifname s.world)) [
        | inr (x, bad) ↦ absurd (ground arith)
        | inl fine ↦ elim (Bool-cases (has_request d)) [
          | inr plain ↦ inr (plain, ground arith)
          | inl asks ↦ elim (Result-cases (extra_args (recorded cni) d cni_args)) [
            | inr (x, bad) ↦ absurd (ground arith)
            | inl (found, ok') ↦ elim (Bool-cases (is_bad_value found)) [
              | inl bad ↦ absurd (ground arith)
              | inr good ↦ inl (asks, ground arith)
            ]
          ]
        ]
      ]

  -- A delegate that is added: its call is the last one, and CNI_ARGS stays as it was for the call.
  delegate_add-args :
      (ifname : Text) (d : Delegate) (cni_args : Text) (s s' : State (W × List Call)) (r : R)
      → delegate_add (recorded cni) ifname d cni_args s ≡ (ok r, s')
      → (args : Text) × (prepare
            (recorded cni)
            ifname
            d
            cni_args
            (record s { env = record s.env { ifname = ifname } })
          ≡ ok args)
        × (s'.env ≡ record s.env { ifname = ifname; args = args })
        × (s'.world.1
            ≡ s.world.1 ++ (call_of true d (record s.env { ifname = ifname; args = args }) ∷ []))
  unfolding delegate_add
  delegate_add-args ifname d cni_args s s' r e = elim (Bool-cases (is_bad_value ifname)) [
    | inl bad ↦ absurd (ground arith)
    | inr good ↦
        elim (Result-cases (
          prepare (recorded cni) ifname d cni_args
            (record s { env = record s.env { ifname = ifname } }))) [
              | inr (x, bad) ↦ absurd (ground arith)
              | inl (args, fine) ↦ elim (Bool-cases d.conf_list_plugin) [
                | inl list ↦ (args, fine, ground arith, ground arith)
                | inr single ↦ (args, fine, ground arith, ground arith)
              ]
            ]
  ]

  -- A delegate that asks for a MAC or an IP address is added, and then one that asks for none and
  -- is a single plugin. Then the plugin of the second is called with the CNI_ARGS of the first,
  -- its MAC and IP address included.
  pub delegate_add-inherits :
      (cni_args name name' : Text) (d d' : Delegate) (s s1 s2 : State (W × List Call)) (r r' : R)
      → has_request d ≡ true
      → has_request d' ≡ false
      → d'.conf_list_plugin ≡ false
      → delegate_add (recorded cni) name d cni_args s ≡ (ok r, s1)
      → delegate_add (recorded cni) name' d' cni_args s1 ≡ (ok r', s2)
      → (args : Text) × (extra_args (recorded cni) d cni_args ≡ ok args)
        × (s2.world.1
            ≡ s1.world.1 ++ (plugin_call d' (record s1.env { ifname = name'; args = args }) ∷ []))
  delegate_add-inherits cni_args name name' d d' s s1 s2 r r' asks plain single e e' =
      let (args, prepared, env, log) = delegate_add-args name d cni_args s s1 r e in
      let (args', prepared', env', log') = delegate_add-args name' d' cni_args s1 s2 r' e' in
      elim (prepare-args name d cni_args args _ prepared) [
        | inr (none', same) ↦ absurd (ground arith)
        | inl (some', found) ↦ elim (prepare-args name' d' cni_args args' _ prepared') [
          | inl (some'', other) ↦ absurd (ground arith)
          | inr (none', same) ↦
              let kept : args' ≡ args = same ∙ ap (λ v. v.args) env in
              (
                args,
                found,
                log'
                    ∙ ap (λ c. s1.world.1 ++ (c ∷ [])) (single_call d' _ single)
                    ∙ ap
                        (λ a.
                          s1.world.1
                          ++ (plugin_call d' (record s1.env { ifname = name'; args = a }) ∷ []))
                        kept,
              )
        ]
      ]
