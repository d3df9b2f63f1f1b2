-- ===== src/Multus/Command.antt =====
-- cmdAdd, cmdGet and cmdDel of multus/multus.go, from the configuration on standard input to the calls of
-- the delegates. The wait for the readiness file, whose outcome is dropped, is left out.
use multus_ext_cni.Prelude.{
  Bool, true, false, not, ◌&&◌, List, [], ◌∷◌, Option, none, some, Text, is_empty, if◌then◌else◌,
  map, Result, ok, err, ◌>>=◌,
}
use multus_ext_cni.Conf.Decoder.{ConfError, panics, NetConf, Decoder}
use multus_ext_cni.Conf.Delegates.{or_fail}
use multus_ext_cni.Conf.Loading.{
  K8sArgs, set_master, no_entries, check_system_namespaces, load_net_conf,
}
use multus_ext_cni.Kube.Cluster.{KubeError, panics_here}
use multus_ext_cni.Kube.Annotation.{or_empty}
use multus_ext_cni.Kube.Defaults.{Access, Answer, get_default_networks, try_load_pod_delegates}
use multus_ext_cni.Multus.Delegates.{Delegate, ConfList, Cni, State}
use multus_ext_cni.Multus.{MultusError, add_pod, del_pod}

-- What a command fails with. The last one is no error: the code panics.
pub data CommandError : Type 0 where
  bad_conf : ConfError → CommandError
  bad_args bad_netns bad_scratch : CommandError
  bad_networks : KubeError → CommandError
  bad_delegates : MultusError → CommandError
  panics_there : CommandError

abbrev pub of_conf_error : ConfError → CommandError
of_conf_error panics = panics_there
of_conf_error e = bad_conf e

abbrev pub of_kube_error : KubeError → CommandError
of_kube_error panics_here = panics_there
of_kube_error e = bad_networks e

abbrev pub lift_conf {ℓ} : {A : Type ℓ} → Result ConfError A → Result CommandError A
lift_conf (ok a) = ok a
lift_conf (err e) = err (of_conf_error e)

abbrev pub lift_kube {ℓ} : {A : Type ℓ} → Result KubeError A → Result CommandError A
lift_kube (ok a) = ok a
lift_kube (err e) = err (of_kube_error e)

abbrev pub lift_multus {ℓ} : {A : Type ℓ} → Result MultusError A → Result CommandError A
lift_multus (ok a) = ok a
lift_multus (err e) = err (bad_delegates e)

-- The namespace of the pod, by its path: there, gone, or not to be opened.
pub data NetnsStatus : Type 0 where
  opened gone broken : NetnsStatus

-- consumeScratchNetConf: the delegates that cmdAdd has saved, as bytes
pub data Scratch : Type 0 where
  saved : Text → Scratch
  not_saved unreadable : Scratch

-- What cmdDel calls besides: the scratch file, which it removes in the end, and encoding/json.
-- Decoding writes into the delegates that are there, and a null among them is nil.
pub record Scratches (W : Type 0) : Type 0 where
  pub netns_status : W → NetnsStatus
  pub consume : Text → W → Scratch
  pub remove : W → W
  pub decode_delegates : Text → List Delegate → Option (List (Option Delegate))
  pub encode_list : ConfList → Option Text

-- The flag that is not in the scratch file: a delegate with plugins is a list of them.
abbrev pub mark_list : Delegate → Delegate
mark_list d = elim d.conf_list.plugins [
  | some (_ ∷ _) ↦ record d { conf_list_plugin = true }
  | _ ↦ d
]

-- The loop of cmdDel over the delegates of the scratch file; a nil one panics.
unfoldable pub mark_lists : List (Option Delegate) → Result CommandError (List Delegate)
mark_lists [] = ok []
mark_lists (none ∷ ds) = err panics_there
mark_lists (some d ∷ ds) = mark_lists ds >>= λ rest. ok (mark_list d ∷ rest)

abbrev pub is_opened : NetnsStatus → Bool
is_opened opened = true
is_opened _ = false

abbrev pub namespace_of : Option K8sArgs → Text
namespace_of none = []
namespace_of (some k8s) = k8s.pod_namespace

module _ {W : Type 0} (scratches : Scratches W) where
  -- The CNI version of multus, for a list of plugins that has none. An error of the encoder leaves
  -- no bytes.
  unfoldable pub with_version : Text → Delegate → Delegate
  with_version version d =
      let list : ConfList = record d.conf_list { cni_version = version } in
      if d.conf_list_plugin && is_empty d.conf_list.cni_version && not (is_empty version)
      then record d { conf_list = list; bytes = or_empty (scratches.encode_list list) }
      else d

  -- The delegates of the scratch file
  unfoldable pub saved_delegates : {P : Type 0} → Text → NetConf P → Result CommandError (NetConf P)
  unfolding set_master mark_lists
  saved_delegates bytes conf = do
    ds ← or_fail bad_scratch (scratches.decode_delegates bytes conf.delegates)
    marked ← mark_lists ds
    mastered ← lift_conf (set_master marked)
    ok (record conf { delegates = mastered })

module _ {P : Type 0} where
  -- With a cluster network its delegates are loaded, and the first delegate is the master.
  unfoldable pub load_default_networks :
      Access P → K8sArgs → NetConf P → Result CommandError (NetConf P)
  unfolding get_default_networks set_master
  load_default_networks access k8s conf = if is_empty conf.cluster_network then ok conf else do
    loaded ← lift_kube (get_default_networks access k8s conf)
    ds ← lift_conf (set_master loaded.delegates)
    ok (record loaded { delegates = ds })

  -- The configuration with the delegates of the pod, and what TryLoadPodDelegates answers.
  unfoldable pub load_pod :
      Decoder P → Access P → Text → Option K8sArgs → Result CommandError (Answer × NetConf P)
  unfolding load_net_conf load_default_networks try_load_pod_delegates
  load_pod decoder access stdin args = lift_conf (load_net_conf decoder stdin) >>= λ read.
      elim args [
        | none ↦ err bad_args
        | some k8s ↦ load_default_networks access k8s read >>= λ conf.
            let (answered, loaded) = try_load_pod_delegates access k8s conf in
            lift_kube answered >>= λ answer. ok (answer, loaded)
      ]

  -- Whether the status of the networks is kept
  abbrev pub reports : NetConf P → Bool → Text → Bool
  unfolding check_system_namespaces
  reports conf has_client namespace =
      not (is_empty conf.kubeconfig)
      && has_client
      && not (check_system_namespaces namespace conf.system_namespaces)

  -- cmdGet
  unfoldable pub cmd_get : Decoder P → Text → Result CommandError (Option P)
  unfolding load_net_conf
  cmd_get decoder stdin = lift_conf (load_net_conf decoder stdin) >>= λ conf. ok conf.prev_result

  module _ {W R N : Type 0} (cni : Cni W R N) (decoder : Decoder P) (access : Access P) where
    -- cmdAdd
    unfoldable pub cmd_add :
        Text → Text → Option K8sArgs → State W → Option (Result CommandError (Option R) × State W)
    unfolding load_pod add_pod
    cmd_add stdin argif args s = elim (load_pod decoder access stdin args) [
      | err e ↦ some (err e, s)
      | ok (answer, conf) ↦
          elim (add_pod cni argif answer.ext_env
            (reports conf answer.has_client (namespace_of args)) conf.delegates s) [
              | none ↦ none
              | some (result, s') ↦ some (lift_multus result, s')
            ]
    ]

    module _ (scratches : Scratches W) where
      -- The delegates without a scratch file: an error in the pod's own networks is dropped where
      -- there are delegates at all.
      unfoldable pub fetch_delegates : K8sArgs → NetConf P → Result CommandError (NetConf P)
      unfolding load_default_networks try_load_pod_delegates
      fetch_delegates k8s conf = load_default_networks access k8s conf >>= λ found.
          let (answered, loaded) = try_load_pod_delegates access k8s found in
          elim answered [
            | ok _ ↦ ok loaded
            | err panics_here ↦ err panics_there
            | err e ↦ if no_entries loaded.delegates then err (bad_networks e) else ok loaded
          ]

      unfoldable pub find_delegates :
          Scratch → K8sArgs → NetConf P → Result CommandError (NetConf P)
      unfolding saved_delegates fetch_delegates
      find_delegates (saved bytes) k8s conf = saved_delegates scratches bytes conf
      find_delegates not_saved k8s conf = fetch_delegates k8s conf
      find_delegates unreadable k8s conf = err bad_scratch

      abbrev remove_if_saved : Scratch → W → W
      remove_if_saved (saved _) w = scratches.remove w
      remove_if_saved _ w = w

      -- cmdDel with the configuration and the arguments at hand
      unfoldable pub del_configured :
          Text
          → NetnsStatus
          → K8sArgs
          → NetConf P
          → State W
          → Option (Result CommandError (Unit {0}) × State W)
      unfolding find_delegates with_version del_pod
      del_configured argif netns k8s conf s =
          let scratch = scratches.consume conf.cni_dir s.world in
          elim (find_delegates scratch k8s conf) [
            | err e ↦ some (err e, record s { world = remove_if_saved scratch s.world })
            | ok found ↦
                elim (del_pod cni argif (reports found (is_opened netns) k8s.pod_namespace)
                  (map (with_version scratches found.cni_version) found.delegates) s) [
                    | none ↦ none
                    | some (result, s') ↦
                        some (
                          lift_multus result,
                          record s' { world = remove_if_saved scratch s'.world },
                        )
                  ]
          ]

      -- cmdDel
      unfoldable pub cmd_del :
          Text → Text → Option K8sArgs → State W → Option (Result CommandError (Unit {0}) × State W)
      unfolding load_net_conf del_configured
      cmd_del stdin argif args s = elim (lift_conf (load_net_conf decoder stdin)) [
        | err e ↦ some (err e, s)
        | ok conf ↦ elim (scratches.netns_status s.world) [
          | broken ↦ some (err bad_netns, s)
          | netns ↦ elim args [
            | none ↦ some (err bad_args, s)
            | some k8s ↦ del_configured argif netns k8s conf s
          ]
        ]
      ]
