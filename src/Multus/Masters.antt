-- ===== src/Multus/Masters.antt =====
-- The master plugin of a pod, and the result of cmdAdd (multus/multus.go).
use multus_ext_cni.Prelude.{
  ◌≡◌, refl, ap, subst, List, [], ◌∷◌, Option, none, some, Text, Result, ok, err, >>=-eq-ok,
  ok-injective, arith, Result-cases, inl, inr,
}
use multus_ext_cni.Conf.Decoder.{ConfError, NetConf, Decoder}
use multus_ext_cni.Conf.Loading.{K8sArgs, set_master, load_net_conf}
use multus_ext_cni.Conf.Ready.{IsMastered, IsFresh, HasDelegates, load_net_conf-IsComplete}
use multus_ext_cni.Kube.Cluster.{KubeError}
use multus_ext_cni.Kube.Defaults.{Access, Answer, get_default_networks, try_load_pod_delegates}
use multus_ext_cni.Kube.Masters.{get_default_networks-IsMastered, try_load_pod_delegates-IsMastered}
use multus_ext_cni.Multus.Delegates.{Delegate, Cni, State}
use multus_ext_cni.Multus.{get_ifname, delegate_add, add_pod}
use multus_ext_cni.Multus.FirstResult.{add_pod-first}
use multus_ext_cni.Multus.Command.{
  lift_conf, lift_kube, load_default_networks, load_pod, reports, namespace_of, cmd_add,
}

lift_conf-done : {A : Type 0} (r : Result ConfError A) {a : A} → lift_conf r ≡ ok a → r ≡ ok a
lift_conf-done (ok b) h = ap ok (ok-injective h)
lift_conf-done (err e) h = cc

lift_kube-done : {A : Type 0} (r : Result KubeError A) {a : A} → lift_kube r ≡ ok a → r ≡ ok a
lift_kube-done (ok b) h = ap ok (ok-injective h)
lift_kube-done (err e) h = cc

set_master-again :
    (ds : List Delegate) {new : List Delegate}
    → IsMastered ds
    → set_master ds ≡ ok new
    → IsMastered new
unfolding set_master
set_master-again [] m h = cc
set_master-again (d ∷ ds) m h = subst IsMastered (ok-injective h) (refl, m.1)

mastered-cons :
    (all : List Delegate) → IsMastered all → (d : Delegate) × (ds : List Delegate) × (all ≡ d ∷ ds)
mastered-cons [] m = absurd m
mastered-cons (d ∷ ds) m = (d, ds, refl)

module _ {P : Type 0} (decoder : Decoder P) (access : Access P) where
  load_default_networks-IsMastered :
      (k8s : K8sArgs) (raws : List _) (conf new : NetConf P)
      → HasDelegates raws conf
      → load_default_networks access k8s conf ≡ ok new
      → IsMastered new.delegates
  unfolding load_default_networks
  load_default_networks-IsMastered k8s raws conf new (inr (no_cluster, all_there, mastered)) h =
      subst (λ c. IsMastered c.delegates) (ok-injective (rw no_cluster at h)) mastered
  load_default_networks-IsMastered k8s raws conf new (inl (cluster, empty)) h =
      let (loaded, found, h1) =
        >>=-eq-ok (lift_kube (get_default_networks access k8s conf)) _ (rw cluster at h) in
      let (ds, mastered, h2) = >>=-eq-ok (lift_conf (set_master loaded.delegates)) _ h1 in
      let found_mastered =
        get_default_networks-IsMastered access k8s conf empty
          (lift_kube-done (get_default_networks access k8s conf) found) in
      subst (λ c. IsMastered c.delegates) (ok-injective h2)
        (set_master-again loaded.delegates found_mastered
          (lift_conf-done (set_master loaded.delegates) mastered))

  load_pod-IsMastered :
      (stdin : Text) (args : Option K8sArgs) (answer : Answer) (conf : NetConf P)
      → IsFresh decoder
      → load_pod decoder access stdin args ≡ ok (answer, conf)
      → IsMastered conf.delegates
  unfolding load_pod
  load_pod-IsMastered stdin none answer conf fresh h =
      let (read, decoded, h1) = >>=-eq-ok (lift_conf (load_net_conf decoder stdin)) _ h in cc
  load_pod-IsMastered stdin (some k8s) answer conf fresh h =
      let (read, decoded, h1) = >>=-eq-ok (lift_conf (load_net_conf decoder stdin)) _ h in
      let (raw, raw_read, complete, has) =
        load_net_conf-IsComplete decoder fresh stdin read
          (lift_conf-done (load_net_conf decoder stdin) decoded) in
      let (found, defaults, h2) = >>=-eq-ok (load_default_networks access k8s read) _ h1 in
      let mastered =
        load_default_networks-IsMastered k8s raw.raw_delegates read found has defaults in
      let after = try_load_pod_delegates access k8s found in
      let (a, answered, h3) = >>=-eq-ok (lift_kube after.0) (λ x. ok (x, after.1)) h2 in
      subst (λ x. IsMastered x.1.delegates) (ok-injective h3)
        (try_load_pod_delegates-IsMastered access k8s found mastered)

module _ {W R N : Type 0} (cni : Cni W R N) where
  -- The decoder leaves the field of the delegates out. Then, where cmdAdd succeeds, the delegates
  -- of the configuration and of the pod have been loaded, there is at least one, the first of them
  -- is the master plugin and no other one is, and the result of cmdAdd is the one that adding the
  -- first delegate has given.
  pub cmd_add-master :
      {P : Type 0} (decoder : Decoder P) (access : Access P) (stdin argif : Text)
      (args : Option K8sArgs) (s s' : State W) (result : Option R)
      → IsFresh decoder
      → cmd_add cni decoder access stdin argif args s ≡ some (ok result, s')
      → (answer : Answer) × (conf : NetConf P) × (d : Delegate) × (ds : List Delegate) × (load_pod
            decoder access stdin args
          ≡ ok (answer, conf))
        × (conf.delegates ≡ d ∷ ds)
        × IsMastered (d ∷ ds)
        × ((cni_args : Text) × (before : State W) × (r : R) × ((delegate_add cni
                (get_ifname d argif 0)
                d
                cni_args
                before).0
              ≡ ok r)
            × (result ≡ some r))
  unfolding cmd_add
  cmd_add-master decoder access stdin argif args s s' result fresh h =
      elim (Result-cases (load_pod decoder access stdin args)) [
        | inr (e, failed) ↦ ground arith
        | inl ((answer, conf), loaded) ↦
            let mastered = load_pod-IsMastered decoder access stdin args answer conf fresh loaded in
            let (d, ds, are) = mastered-cons conf.delegates mastered in
            let first = subst IsMastered are mastered in
            let reporting = reports conf answer.has_client (namespace_of args) in
            let added : add_pod cni argif answer.ext_env reporting (d ∷ ds) s
                ≡ some (ok result, s') =
              subst (λ all. add_pod cni argif answer.ext_env reporting all s ≡ some (ok result, s'))
                are (ground arith) in
            (
              answer,
              conf,
              d,
              ds,
              loaded,
              are,
              first,
              add_pod-first cni argif answer.ext_env reporting d ds s first.1 added,
            )
      ]
