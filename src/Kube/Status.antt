-- ===== src/Kube/Status.antt =====
-- SetNetworkStatus and setPodNetworkAnnotation of k8sclient/k8sclient.go. `W` is the state of the API
-- server and of what else writes to it.
use multus_ext_cni.Prelude.{
  ◌≡◌, ◌≢◌, Bool, true, false, not, List, [], ◌∷◌, ◌++◌, Option, none, some, if◌then◌else◌, Text,
  codes, text_eq, Result, ok, err, ◌>>=◌,
}
use multus_ext_cni.Conf.Decoder.{NetConf}
use multus_ext_cni.Conf.Delegates.{or_fail}
use multus_ext_cni.Conf.Loading.{K8sArgs, no_entries}
use multus_ext_cni.Conf.Status.{NetworkStatus}
use multus_ext_cni.Kube.Cluster.{Pod, Annotations}

pub data StatusError : Type 0 where
  no_access no_client no_pod no_text not_updated : StatusError

abbrev pub status_annot : Text
status_annot = codes "k8s.v1.cni.cncf.io/networks-status"

-- `annotations[key] = value`
unfoldable pub put_annotation : Text → Text → Annotations → Annotations
put_annotation k v [] = (k, v) ∷ []
put_annotation k v ((key, w) ∷ as') =
    let rest = put_annotation k v as' in if text_eq key k then (key, v) ∷ as' else (key, w) ∷ rest

-- How an attempt of retry.RetryOnConflict ends.
pub data Attempt : Type 0 where
  done refused conflicted : Attempt

-- The calls of the API server: GetPod, and UpdatePodStatus with the pod that it returns where it is
-- done.
pub record Api (W : Type 0) : Type 0 where
  pub get_pod : Text → Text → W → Option Pod × W
  pub update_pod_status : Pod → W → (Attempt × Pod) × W

-- retry.RetryOnConflict of client-go, on a function with state
pub record Retry (S : Type 0) : Type 0 where
  pub run : (S → Attempt × S) → S → Attempt × S

-- The first attempt ends the run unless it meets a conflict, after which there is another one.
pub record RetryLaws {S : Type 0} (retry : Retry S) : Type 0 where
  pub at_once :
      (f : S → Attempt × S) (s : S) (end : Attempt) (s1 : S)
      → f s ≡ (end, s1)
      → end ≢ conflicted
      → retry.run f s ≡ (end, s1)
  pub again :
      (f : S → Attempt × S) (s s1 s2 : S) (end : Attempt)
      → f s ≡ (conflicted, s1)
      → f s1 ≡ (end, s2)
      → end ≢ conflicted
      → retry.run f s ≡ (end, s2)

-- What the closure of setPodNetworkAnnotation shares with its attempts: the pod and whether the last
-- attempt has failed; and the state around it.
pub record Shared (W : Type 0) : Type 0 where
  pub pod : Pod
  pub failed : Bool
  pub world : W

abbrev pub is_failure : Attempt → Bool
is_failure done = false
is_failure _ = true

-- The statuses in JSON, with commas between them.
unfoldable pub join_statuses : (NetworkStatus → Option Text) → List NetworkStatus → Option Text
join_statuses encode [] = some []
join_statuses encode (s ∷ []) = encode s
join_statuses encode (s ∷ t ∷ ss) = elim (encode s) [
  | none ↦ none
  | some first ↦ elim (join_statuses encode (t ∷ ss)) [
    | none ↦ none
    | some rest ↦ some (first ++ (codes "," ++ rest))
  ]
]

-- The value of the annotation: the list of the statuses, or empty where it is nil
unfoldable pub statuses_text :
    (NetworkStatus → Option Text) → Option (List NetworkStatus) → Result StatusError Text
unfolding join_statuses
statuses_text encode none = ok []
statuses_text encode (some statuses) = or_fail no_text (join_statuses encode statuses) >>= λ text.
    ok (codes "[" ++ (text ++ codes "]"))

-- What client-go answers with an error: a Pod without a name
abbrev pub no_fields : Pod
no_fields = record { name = []; namespace = []; uid = []; annotations = [] }

module _ {W : Type 0} (api : Api W) where
  unfoldable pub send : Pod → W → Attempt × Shared W
  send pod w =
      let ((end, pod'), w') = api.update_pod_status pod w in
      (
        end,
        record {
          pod = if is_failure end then no_fields else pod';
          failed = is_failure end;
          world = w';
        },
      )

  -- The closure of setPodNetworkAnnotation
  unfoldable pub attempt : Shared W → Attempt × Shared W
  unfolding send
  attempt s =
      if not s.failed
      then send s.pod s.world
      else let (found, w) = api.get_pod s.pod.namespace s.pod.name s.world in
        elim found [ none ↦ (refused, record s { world = w }) | some pod ↦ send pod w ]

  -- setPodNetworkAnnotation
  unfoldable pub set_pod_network_annotation :
      Retry (Shared W) → Pod → Text → W → Result StatusError Pod × W
  unfolding put_annotation attempt
  set_pod_network_annotation retry pod status w =
      let annotated = record pod {
        annotations = put_annotation status_annot status pod.annotations;
      } in
      let start : Shared W = record { pod = annotated; failed = false; world = w } in
      let (end, s) = retry.run attempt start in
      (elim end [ done ↦ ok s.pod | _ ↦ err not_updated ], s.world)

  -- SetNetworkStatus once there is a client. `none` in place of the statuses is nil.
  unfoldable pub write_status :
      Retry (Shared W)
      → (NetworkStatus → Option Text)
      → K8sArgs
      → Option (List NetworkStatus)
      → W
      → Result StatusError (Unit {0}) × W
  unfolding set_pod_network_annotation statuses_text
  write_status retry encode k8s statuses w =
      let (found, w1) = api.get_pod k8s.pod_namespace k8s.pod_name w in
      elim found [
        | none ↦ (err no_pod, w1)
        | some pod ↦ elim (statuses_text encode statuses) [
          | err e ↦ (err e, w1)
          | ok text ↦
              let (end, w2) = set_pod_network_annotation retry pod text w1 in
              (elim end [ ok _ ↦ ok tt | err e ↦ err e ], w2)
        ]
      ]

-- SetNetworkStatus, with the client that GetK8sClient answers: `none` is nil.
unfoldable pub set_network_status :
    {W P : Type 0}
    → Result StatusError (Option (Api W))
    → Retry (Shared W)
    → (NetworkStatus → Option Text)
    → K8sArgs
    → Option (List NetworkStatus)
    → NetConf P
    → W
    → Result StatusError (Unit {0}) × W
unfolding write_status
set_network_status (err e) retry encode k8s statuses conf w = (err no_access, w)
set_network_status (ok none) retry encode k8s statuses conf w =
    (if no_entries conf.delegates then err no_client else ok tt, w)
set_network_status (ok (some api)) retry encode k8s statuses conf w =
    write_status api retry encode k8s statuses w
