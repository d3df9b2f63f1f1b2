-- ===== src/Multus.antt =====
-- multus/multus.go: the delegates of a pod, added in order and deleted in the reverse order. What the code
-- calls outside of it is a Cni: the plugins, the links of the pod, the parsers of addresses and
-- the status of the networks. `W` is the state of all that.
pub mod Delegates
pub mod Calls
pub mod Rollback
pub mod Arguments
pub mod Command
pub mod FirstResult
pub mod Masters
use multus_ext_cni.Prelude.{
  ℕ, zero, suc, ◌+◌, ◌<◌, ◌≡◌, Bool, true, false, not, ◌&&◌, ◌||◌, List, [], ◌∷◌, ◌++◌, Option,
  none, some, if◌then◌else◌, Text, codes, is_empty, has_char, Result, ok, err, get_elem?, length,
}
use multus_ext_cni.Ipam.Allocator.{itoa}
use Delegates.{Delegate, Env, Link, found, not_found, failed, Cni, State}

pub data MultusError : Type 0 where
  env_failed no_netns link_failed ifname_exists bad_mac bad_cidr bad_ip : MultusError
  conflist_failed delegate_failed : MultusError
  adding_failed deleting_failed status_failed save_failed : MultusError

-- getIfname
unfoldable pub get_ifname : Delegate → Text → ℕ → Text
get_ifname delegate argif idx =
    if not (is_empty delegate.ifname_request)
    then delegate.ifname_request
    else if delegate.master_plugin
    then argif
    else codes "eth" ++ itoa idx

-- os.Setenv fails on a value with a NUL byte in it.
abbrev pub is_bad_value : Text → Bool
is_bad_value v = has_char 0 v

-- The extra CNI_ARGS of a delegate that asks for a MAC or an IP address.
unfoldable pub extra_args : {W R N : Type 0} → Cni W R N → Delegate → Text → Result MultusError Text
extra_args cni delegate cni_args =
    let base : Text =
      if not (is_empty cni_args)
      then cni_args ++ codes ";IgnoreUnknown=true"
      else codes "IgnoreUnknown=true" in
    let mac = delegate.mac_request in
    let ip = delegate.ip_request in
    let with_mac : Text = if not (is_empty mac) then base ++ (codes ";MAC=" ++ mac) else base in
    let with_ip : Text = if not (is_empty ip) then with_mac ++ (codes ";IP=" ++ ip) else with_mac in
    if not (is_empty mac) && not (cni.parse_mac mac)
    then err bad_mac
    else if not (is_empty ip) && has_char b'/' ip && not (cni.parse_cidr ip)
    then err bad_cidr
    else if not (is_empty ip) && not (has_char b'/' ip) && not (cni.parse_ip ip)
    then err bad_ip
    else ok with_ip

module _ {W R N : Type 0} (cni : Cni W R N) where
  -- validateIfName
  unfoldable pub validate_ifname : Text → W → Option MultusError
  validate_ifname ifname w =
      if not (cni.has_netns w) then some no_netns else elim (cni.link_by_name ifname w) [
        | found ↦ some ifname_exists
        | not_found ↦ none
        | failed ↦ some link_failed
      ]

  -- The environment of the call: CNI_ARGS is set only where the delegate asks for an address.
  unfoldable pub prepare : Text → Delegate → Text → State W → Result MultusError Text
  unfolding validate_ifname extra_args
  prepare ifname delegate cni_args s = elim (validate_ifname ifname s.world) [
    | some e ↦ err e
    | none ↦
        if not (is_empty delegate.mac_request) || not (is_empty delegate.ip_request)
        then elim (extra_args cni delegate cni_args) [
          | err e ↦ err e
          | ok args ↦ if is_bad_value args then err env_failed else ok args
        ]
        else ok s.env.args
  ]

  -- delegateAdd
  unfoldable pub delegate_add : Text → Delegate → Text → State W → Result MultusError R × State W
  unfolding prepare
  delegate_add ifname delegate cni_args s =
      let s1 : State W = record s { env = record s.env { ifname = ifname } } in
      if is_bad_value ifname
      then (err env_failed, s)
      else elim (prepare ifname delegate cni_args s1) [
        | err e ↦ (err e, s1)
        | ok args ↦
            let env : Env = record s1.env { args = args } in
            let (answer, w) =
              if delegate.conf_list_plugin
              then cni.add_list ifname delegate.bytes s.world
              else cni.add_plugin delegate.type_name delegate.bytes env s.world in
            (
              elim answer [
                | some r ↦ ok r
                | none ↦
                    err (if delegate.conf_list_plugin then conflist_failed else delegate_failed)
              ],
              record { env = env; world = w },
            )
      ]

  -- delegateDel
  unfoldable pub delegate_del : Text → Delegate → State W → Option MultusError × State W
  delegate_del ifname delegate s =
      let env : Env = record s.env { ifname = ifname } in
      let (done, w) =
        if delegate.conf_list_plugin
        then cni.del_list ifname delegate.bytes s.world
        else cni.del_plugin delegate.type_name delegate.bytes env s.world in
      if is_bad_value ifname then (some env_failed, s) else (
        if done
            then none
            else some (if delegate.conf_list_plugin then conflist_failed else delegate_failed),
        record { env = env; world = w },
      )

  -- The loop of delPlugins over the indices below `n`, from `n - 1` down to 0; the errors that it
  -- collects. `none` is an index that is out of range.
  unfoldable pub del_loop : Text → List Delegate → ℕ → State W → Option (List MultusError × State W)
  unfolding get_ifname delegate_del
  del_loop argif delegates zero s = some ([], s)
  del_loop argif delegates (suc n) s = elim (get_elem? delegates n) [
    | none ↦ none
    | some d ↦
        let (e, s') = delegate_del (get_ifname d argif n) d s in
        elim (del_loop argif delegates n s') [
          | none ↦ none
          | some (es, s'') ↦ some (elim e [ none ↦ es | some x ↦ x ∷ es ], s'')
        ]
  ]

  -- delPlugins, whose last index is `n - 1`
  unfoldable pub del_plugins :
      Text → List Delegate → ℕ → State W → Option (Result MultusError (Unit {0}) × State W)
  unfolding del_loop
  del_plugins argif delegates n s =
      elim (del_loop argif delegates n
        (record s { env = record s.env { command = codes "DEL" } })) [
          | none ↦ none
          | some ([], s') ↦ some (ok tt, s')
          | some (e ∷ es, s') ↦ some (err deleting_failed, s')
        ]

  -- `delegate.MasterPlugin || result == nil`
  abbrev pub keep_result : Delegate → R → Option R → Option R
  keep_result d r none = some r
  keep_result d r (some old) = if d.master_plugin then some r else some old

  -- The loop of cmdAdd over the delegates from index `idx` on. `reports` is whether the status of the
  -- networks is kept: there is a kubeconfig and a client, and the namespace is none of the system's.
  -- The result and the statuses so far are passed on.
  unfoldable pub add_loop :
      Text
      → Text
      → Bool
      → List Delegate
      → ℕ
      → List Delegate
      → Option R
      → List N
      → State W
      → Option (Result MultusError (Option R × List N) × State W)
  unfolding get_ifname delegate_add del_plugins
  add_loop argif cni_args reports all idx [] result statuses s = some (ok (result, statuses), s)
  add_loop argif cni_args reports all idx (d ∷ ds) result statuses s =
      let (added, s') = delegate_add (get_ifname d argif idx) d cni_args s in
      elim added [
        | err e ↦ elim (del_plugins argif all (suc idx) s') [
          | none ↦ none
          | some (_, s'') ↦ some (err adding_failed, s'')
        ]
        | ok r ↦
            if reports
            then elim (cni.load_status r d) [
              | none ↦ some (err status_failed, s')
              | some n ↦
                  add_loop argif cni_args reports all (suc idx) ds (keep_result d r result)
                    (statuses ++ (n ∷ [])) s'
            ]
            else add_loop argif cni_args reports all (suc idx) ds (keep_result d r result) statuses
                s'
      ]

  -- cmdAdd from the loading of the delegates on.
  unfoldable pub add_pod :
      Text
      → Text
      → Bool
      → List Delegate
      → State W
      → Option (Result MultusError (Option R) × State W)
  unfolding add_loop
  add_pod argif ext_env reports delegates s =
      let (saved, w) = cni.save_delegates delegates s.world in
      let s1 : State W = record s { world = w } in
      let cni_args : Text =
        if not (is_empty ext_env) then s.env.args ++ (codes ";" ++ ext_env) else s.env.args in
      let s2 : State W = record s1 { env = record s.env { args = cni_args } } in
      if not saved
      then some (err save_failed, s1)
      else if not (is_empty ext_env) && is_bad_value cni_args
      then some (err env_failed, s1)
      else elim (add_loop argif cni_args reports delegates 0 delegates none [] s2) [
        | none ↦ none
        | some (err e, s') ↦ some (err e, s')
        | some (ok (result, statuses), s') ↦
            let (set, w') = cni.set_status statuses s'.world in
            if not reports
            then some (ok result, s')
            else if set
            then some (ok result, record s' { world = w' })
            else some (err status_failed, record s' { world = w' })
      ]

  -- cmdDel from the loading of the delegates on; `reports` as above, in a namespace that is there.
  unfoldable pub del_pod :
      Text → Bool → List Delegate → State W → Option (Result MultusError (Unit {0}) × State W)
  unfolding del_plugins
  del_pod argif reports delegates s =
      let w = if reports then (cni.set_status [] s.world).1 else s.world in
      del_plugins argif delegates (length delegates) (record s { world = w })
