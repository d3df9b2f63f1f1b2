-- ===== src/Controller.antt =====
-- multus-controller/controller.go: which fixed addresses and which leases it removes from etcd.
pub mod Waiting
use multus_ext_cni.Prelude.{
  ℕ, ◌+◌, ◌-◌, Bool, true, false, not, ◌&&◌, ◌||◌, ◌==◌, List, [], ◌∷◌, ◌++◌, Option, none, some,
  ltb, leb, if◌then◌else◌, any, Text, codes, text_eq, split, trim,
}
use multus_ext_cni.Ipam.Lease.Fixed.{Entry}

-- `strings.Trim(s, " \r\n\t")`
abbrev pub trim_blank : Text → Text
trim_blank = trim (λ c. c == b' ' || c == b'\r' || c == b'\n' || c == b'\t')

-- IPAMParseFixInfo of multus-ipam/backend/etcdv3cli/cli.go: the namespace and the name of a pod.
unfoldable pub parse_fix_info : Text → Text × Text
parse_fix_info info = elim (split b'/' (trim_blank info)) [
  | [] ↦ (codes "waitToDel", codes "waitToDel")
  | ◌∷◌ a [] ↦ (codes "waitToDel", codes "waitToDel")
  | ◌∷◌ a (b ∷ more) ↦ (a, b)
]

-- handleNodeDelEvent: the keys whose value is the name of the node.
unfoldable pub node_keys : Text → List Entry → List Text
node_keys id [] = []
node_keys id (e ∷ es) =
    let rest = node_keys id es in
    if text_eq (trim_blank e.value) (trim_blank id) then e.key ∷ rest else rest

-- waitDelFixIPs: since when a key waits to be deleted.
abbrev pub Waits : Type 0
Waits = List (Text × ℕ)

unfoldable pub since : Text → Waits → Option ℕ
since k [] = none
since k ((key, t) ∷ waits) = if text_eq key k then some t else since k waits

abbrev pub among : Text → List Text → Bool
among k keys = any (λ x. text_eq x k) keys

-- The entries of a map whose keys pass a test: deletions while it is walked.
unfoldable pub retain : (Text → Bool) → Waits → Waits
retain p [] = []
retain p ((key, t) ∷ waits) = let rest = retain p waits in if p key then (key, t) ∷ rest else rest

-- The state of the loop of CheckFixIP: the keys to delete, the keys without a pod, and those that wait.
pub record Check : Type 0 where
  pub doomed : List Text
  pub orphans : List Text
  pub waits : Waits

-- `exists` is whether the API server returns a pod; `now` is the time of the check, `delay` is
-- delWaitTime.
module _ (exists : Text → Text → Bool) (now delay : ℕ) where
  -- An entry without a pod
  unfoldable pub orphan : Text → Check → Check
  unfolding since
  orphan key c =
      let c' : Check = record c { orphans = key ∷ c.orphans } in
      elim (since key c.waits) [
        | some t ↦ if ltb delay (now - t) then record c' { doomed = c.doomed ++ (key ∷ []) } else c'
        | none ↦ record c' { waits = (key, now) ∷ c.waits }
      ]

  -- The first loop of CheckFixIP.
  unfoldable pub check_entries : List Entry → Check → Check
  unfolding orphan parse_fix_info
  check_entries [] c = c
  check_entries (e ∷ es) c =
      let (ns, name) = parse_fix_info e.value in
      check_entries es (if exists ns name then c else orphan e.key c)

  -- CheckFixIP: the keys that it deletes from etcd, and the keys that wait afterwards.
  unfoldable pub check_fix_ip : List Entry → Waits → List Text × Waits
  unfolding check_entries retain
  check_fix_ip entries waits =
      let c = check_entries entries (record { doomed = []; orphans = []; waits = waits }) in
      (c.doomed, retain (λ k. not (among k c.doomed)) (retain (λ k. among k c.orphans) c.waits))
