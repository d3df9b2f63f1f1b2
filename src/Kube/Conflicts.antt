-- ===== src/Kube/Conflicts.antt =====
-- What setPodNetworkAnnotation (k8sclient/k8sclient.go) does after a conflict.
use multus_ext_cni.Prelude.{
  ◌≡◌, refl, ap, true, false, [], Option, none, some, if◌then◌else◌, Text, Result, ok, err,
}
use multus_ext_cni.Kube.Cluster.{Pod}
use multus_ext_cni.Kube.Status.{
  StatusError, not_updated, status_annot, put_annotation, Attempt, done, refused, conflicted, Api,
  Retry, RetryLaws, Shared, is_failure, no_fields, send, attempt, set_pod_network_annotation,
}

module _ {W : Type 0} (api : Api W) where
  -- The pod with the status in its annotations
  abbrev pub annotated : Pod → Text → Pod
  annotated pod status = record pod {
    annotations = put_annotation status_annot status pod.annotations;
  }

  -- An answer of UpdatePodStatus as that of setPodNetworkAnnotation
  abbrev pub as_answer : (Attempt × Pod) × W → Result StatusError Pod × W
  as_answer ((done, pod), w) = (ok pod, w)
  as_answer ((_, pod), w) = (err not_updated, w)

  attempt-first :
      (pod p1 : Pod) (w w1 : W) (end : Attempt)
      → api.update_pod_status pod w ≡ ((end, p1), w1)
      → attempt api (record { pod = pod; failed = false; world = w }) ≡ (
        end,
        record {
          pod = if is_failure end then no_fields else p1;
          failed = is_failure end;
          world = w1;
        },
      )
  unfolding attempt send
  attempt-first pod p1 w w1 end h =
      ap
        (λ ((e, p), v). (
          e,
          record { pod = if is_failure e then no_fields else p; failed = is_failure e; world = v },
        ))
        h

  attempt-again :
      (w w1 : W)
      → api.get_pod [] [] w ≡ (none, w1)
      → attempt api (record { pod = no_fields; failed = true; world = w })
        ≡ (refused, record { pod = no_fields; failed = true; world = w1 })
  unfolding attempt
  attempt-again w w1 got =
      ap
        (λ ((o, v) : Option Pod × W). elim o [
          | none ↦ (refused, record { pod = no_fields; failed = true; world = v })
          | some p ↦ send api p v
        ])
        got

  abbrev as_ended : Attempt × Shared W → Result StatusError Pod × W
  as_ended (e, s) = (elim e [ done ↦ ok s.pod | _ ↦ err not_updated ], s.world)

  ended :
      (retry : Retry (Shared W)) (pod p1 : Pod) (status : Text) (w w1 : W)
      → RetryLaws retry
      → ((v : W) → api.get_pod [] [] v ≡ (none, v))
      → (end : Attempt) → api.update_pod_status (annotated pod status) w ≡ ((end, p1), w1)
      → set_pod_network_annotation api retry pod status w ≡ as_answer ((end, p1), w1)
  unfolding set_pod_network_annotation
  ended retry pod p1 status w w1 laws nameless done first = ap as_ended (
      laws.at_once (attempt api) _ done _ (attempt-first (annotated pod status) p1 w w1 done first)
        (λ e. cc))
  ended retry pod p1 status w w1 laws nameless refused first = ap as_ended (
      laws.at_once (attempt api) _ refused _
        (attempt-first (annotated pod status) p1 w w1 refused first) (λ e. cc))
  ended retry pod p1 status w w1 laws nameless conflicted first = ap as_ended (
      laws.again (attempt api) _ _ _ refused
        (attempt-first (annotated pod status) p1 w w1 conflicted first)
        (attempt-again w1 w1 (nameless w1)) (λ e. cc))

  -- A retry that goes on after a conflict, and an API server that has no pod without a name. Then
  -- setPodNetworkAnnotation answers and leaves behind what the update of the pod with the status
  -- in its annotations does, at the first attempt: after a conflict it fails.
  pub set_pod_network_annotation-once :
      (retry : Retry (Shared W)) (pod : Pod) (status : Text) (w : W)
      → RetryLaws retry
      → ((v : W) → api.get_pod [] [] v ≡ (none, v))
      → set_pod_network_annotation api retry pod status w
        ≡ as_answer (api.update_pod_status (annotated pod status) w)
  set_pod_network_annotation-once retry pod status w laws nameless =
      let ((end, p1), w1) = api.update_pod_status (annotated pod status) w in
      ended retry pod _ status w _ laws nameless _ refl
