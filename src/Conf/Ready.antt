-- ===== src/Conf/Ready.antt =====
-- What LoadNetConf (types/conf.go) establishes.
use multus_ext_cni.Prelude.{
  ◌≡◌, ◌⊎◌, inl, inr, refl, ◌∙◌, subst, true, false, not, ◌&&◌, List, [], ◌∷◌, ◌++◌, Option, none,
  some, if◌then◌else◌, Text, is_empty, ok, ◌>>=◌, >>=-eq-ok, >>-eq-ok, ok-injective, guard, arith,
  Bool-cases, All, length,
}
use multus_ext_cni.Conf.Json.{Members}
use multus_ext_cni.Conf.Decoder.{no_delegates, NetConf, Decoder}
use multus_ext_cni.Conf.Delegates.{
  NetworkSelectionElement, or_fail, or_fail-ok, load_contents, load_delegate_net_conf, marshal,
}
use multus_ext_cni.Conf.Loading.{
  or_default, no_entries, raw_value, set_master, with_defaults, load_prev_result,
  load_raw_delegates, load_delegates, load_net_conf,
}
use multus_ext_cni.Multus.Delegates.{Delegate}

-- The decoder leaves out the field of the delegates, whose tag is `json:"-"`.
abbrev pub IsFresh : {P : Type 0} → Decoder P → Type 0
IsFresh {P = P} decoder =
    (bytes : Text) (conf : NetConf P)
    → decoder.decode_net_conf bytes ≡ some conf
    → conf.delegates ≡ []

abbrev pub IsPlain : Delegate → Type 0
IsPlain d = d.master_plugin ≡ false

-- The first delegate is the master, and no other one is.
abbrev pub IsMastered : List Delegate → Type 0
IsMastered [] = ⊥
IsMastered (d ∷ ds) = (d.master_plugin ≡ true) × All IsPlain ds

-- The fields with a default are there.
abbrev pub IsComplete : {P : Type 0} → NetConf P → Type 0
IsComplete conf =
    (is_empty conf.cni_dir ≡ false)
    × (is_empty conf.conf_dir ≡ false)
    × (is_empty conf.bin_dir ≡ false)
    × (no_entries conf.system_namespaces ≡ false)
    × (is_empty conf.multus_namespace ≡ false)

-- With a cluster network the delegates are not loaded yet; without one each of them is.
abbrev pub HasDelegates : {P : Type 0} → List (Option Members) → NetConf P → Type 0
HasDelegates raws conf =
    ((is_empty conf.cluster_network ≡ false) × (conf.delegates ≡ []))
    ⊎ ((is_empty conf.cluster_network ≡ true)
        × (length conf.delegates ≡ length raws)
        × IsMastered conf.delegates)

pub set_master-IsMastered :
    (ds : List Delegate) {new : List Delegate}
    → All IsPlain ds
    → set_master ds ≡ ok new
    → (length new ≡ length ds) × IsMastered new
unfolding set_master
set_master-IsMastered [] plain h = cc
set_master-IsMastered (d ∷ ds) plain h =
    subst (λ new. (length new ≡ length (d ∷ ds)) × IsMastered new) (ok-injective h)
      (refl, (refl, plain.1))

module _ {P : Type 0} (decoder : Decoder P) where
  or_default-filled :
      (default value : Text)
      → is_empty default ≡ false
      → is_empty (or_default default value) ≡ false
  or_default-filled default value h = ground arith

  entries-filled :
      (entries : List Text) (n : Text)
      → no_entries (if no_entries entries then n ∷ [] else entries) ≡ false
  entries-filled entries n = ground arith

  with_defaults-IsComplete : (conf : NetConf P) → IsComplete (with_defaults conf)
  unfolding with_defaults
  with_defaults-IsComplete conf = (
    or_default-filled _ conf.cni_dir refl,
    or_default-filled _ conf.conf_dir refl,
    or_default-filled _ conf.bin_dir refl,
    entries-filled conf.system_namespaces _,
    or_default-filled _ conf.multus_namespace refl,
  )

  pub load_delegate_net_conf-IsPlain :
      (bytes : Text) (net : Option NetworkSelectionElement) (id : Text) {d : Delegate}
      → load_delegate_net_conf decoder bytes net id ≡ ok d
      → IsPlain d
  unfolding load_delegate_net_conf
  load_delegate_net_conf-IsPlain bytes net id h =
      let (conf, decoded, h1) = >>=-eq-ok (or_fail _ (decoder.decode_conf bytes)) _ h in
      let (out, injected, h2) = >>=-eq-ok (load_contents decoder conf bytes id) _ h1 in
      subst IsPlain (ok-injective h2) refl

  load_raw_delegates-IsPlain :
      (raws : List (Option Members)) {ds : List Delegate}
      → load_raw_delegates decoder raws ≡ ok ds
      → (length ds ≡ length raws) × All IsPlain ds
  unfolding load_raw_delegates
  load_raw_delegates-IsPlain [] h =
      subst (λ ds. (length ds ≡ 0) × All IsPlain ds) (ok-injective h) (refl, tt)
  load_raw_delegates-IsPlain (raw ∷ raws) h =
      let (bytes, printed, h1) = >>=-eq-ok (marshal decoder (raw_value raw)) _ h in
      let (d, loaded, h2) = >>=-eq-ok (load_delegate_net_conf decoder bytes none []) _ h1 in
      let (rest, others, h3) = >>=-eq-ok (load_raw_delegates decoder raws) _ h2 in
      let (same, plain) = load_raw_delegates-IsPlain raws others in
      let both : length (d ∷ rest) ≡ length (raw ∷ raws) = omega (arith, same) in
      subst (λ ds. (length ds ≡ length (raw ∷ raws)) × All IsPlain ds) (ok-injective h3)
        (both, (load_delegate_net_conf-IsPlain bytes none [] loaded, plain))

  -- Without a cluster network the raw delegates are loaded.
  load_delegates-loop :
      (conf : NetConf P) {new : NetConf P}
      → is_empty conf.cluster_network ≡ true
      → load_delegates decoder conf ≡ ok new
      → (load_raw_delegates decoder conf.raw_delegates >>= λ loaded.
          set_master (conf.delegates ++ loaded) >>= λ ds.
          ok (record conf { raw_delegates = []; delegates = ds }))
        ≡ ok new
  unfolding load_delegates
  load_delegates-loop conf no_cluster h = ground arith

  load_delegates-HasDelegates :
      (conf : NetConf P) {new : NetConf P}
      → conf.delegates ≡ []
      → IsComplete conf
      → load_delegates decoder conf ≡ ok new
      → IsComplete new × HasDelegates conf.raw_delegates new
  unfolding load_delegates
  load_delegates-HasDelegates conf {new} fresh complete h =
      elim (Bool-cases (is_empty conf.cluster_network)) [
        | inr cluster ↦
            let same = ok-injective (rw cluster at h) in
            subst (λ new. IsComplete new × HasDelegates conf.raw_delegates new) same
              (complete, inl (cluster, fresh))
        | inl none' ↦
            let h0 = load_delegates-loop conf none' h in
            let (loaded, raws, h1) =
              >>=-eq-ok (load_raw_delegates decoder conf.raw_delegates) _ h0 in
            let (mastered, first, h2) = >>=-eq-ok (set_master (conf.delegates ++ loaded)) _ h1 in
            let (same, plain) = load_raw_delegates-IsPlain conf.raw_delegates raws in
            let (kept, has_master) =
              set_master-IsMastered loaded plain
                (subst (λ ds. set_master (ds ++ loaded) ≡ ok mastered) fresh first) in
            subst (λ new. IsComplete new × HasDelegates conf.raw_delegates new) (ok-injective h2)
              (complete, inr (none', kept ∙ same, has_master))
      ]

  load_prev_result-keeps :
      (conf : NetConf P) {new : NetConf P}
      → load_prev_result decoder conf ≡ ok new
      → (new.raw_delegates ≡ conf.raw_delegates) × (new.delegates ≡ conf.delegates)
  unfolding load_prev_result
  load_prev_result-keeps conf h = ground arith

  -- The decoder leaves the field of the delegates out. Then a configuration that LoadNetConf
  -- answers with has directories, system namespaces and a multus namespace that are not empty;
  -- with a cluster network it has no delegates yet, and without one it has a delegate for each raw
  -- delegate, at least one, the first of them and no other one being the master plugin.
  pub load_net_conf-IsComplete :
      IsFresh decoder
      → (bytes : Text) (conf : NetConf P) → load_net_conf decoder bytes ≡ ok conf
      → (decoded : NetConf P) × (decoder.decode_net_conf bytes ≡ some decoded)
        × IsComplete conf
        × HasDelegates decoded.raw_delegates conf
  unfolding load_net_conf with_defaults
  load_net_conf-IsComplete is_fresh bytes conf h =
      let (decoded, read, h1) = >>=-eq-ok (or_fail _ (decoder.decode_net_conf bytes)) _ h in
      let (prev, converted, h2) = >>=-eq-ok (load_prev_result decoder decoded) _ h1 in
      let h3 =
        >>-eq-ok
          (guard (not (no_entries prev.raw_delegates && is_empty prev.cluster_network))
            no_delegates)
          (load_delegates decoder (with_defaults prev)) h2 in
      let (same_raws, same_delegates) = load_prev_result-keeps decoded converted in
      let decodes = or_fail-ok _ _ read in
      let (complete, has) =
        load_delegates-HasDelegates (with_defaults prev)
          (same_delegates ∙ is_fresh bytes decoded decodes) (with_defaults-IsComplete prev) h3 in
      (decoded, decodes, complete, subst (λ raws. HasDelegates raws conf) same_raws has)
