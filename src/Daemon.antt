-- ===== src/Daemon.antt =====
-- multus-daemon/daemon.go: the forwarding entries of the VXLAN interfaces, as the keys of etcd come and go.
pub mod Forwarded
use multus_ext_cni.Prelude.{
  ℕ, zero, suc, Bool, true, false, not, ◌||◌, List, [], ◌∷◌, any, Option, none, some, map,
  if◌then◌else◌, Text, text_eq, is_empty,
}
use multus_ext_cni.Vxlan.{parse_vxlan}

-- netlink.LinkByName: no link, one that is no VXLAN, or a VXLAN with its index and source address
pub data Device : Type 0 where
  missing not_vxlan : Device
  vxlan : ℕ → Text → Device

-- Netlink and etcd: the link of a name, the keys of the records, and the forwarding entries. There are
-- no keys without a client (`none`), nor where the call of etcd fails (`some none`). `W` is the state of the kernel; the links stay the same during a call.
pub record Kernel (W : Type 0) : Type 0 where
  pub link_by_name : Text → Device
  pub record_keys : Option (Option (List Text))
  pub add_fdb : ℕ → Text → W → Bool × W
  pub del_fdb : ℕ → Text → W → Bool × W

-- multusd: `buf` are the names that wait for their interface.
pub record Multusd (W : Type 0) : Type 0 where
  pub buf : List Text
  pub world : W

abbrev pub waits_for : Text → List Text → Bool
waits_for name buf = any (λ x. text_eq x name) buf

unfoldable pub without : Text → List Text → List Text
without name [] = []
without name (x ∷ buf) = let rest = without name buf in if text_eq x name then rest else x ∷ rest

-- The events of a watch
pub data Event : Type 0 where
  put_key delete_key : Text → Event

module _ {W : Type 0} (kernel : Kernel W) where
  -- The loop of procHistoryRecord: `add` is watchedAddSubnet, whose error is dropped.
  unfoldable pub proc_records :
      (Text → Text → Multusd W → Option (Bool × Multusd W))
      → Text
      → List Text
      → Multusd W
      → Option (Multusd W)
  proc_records add vx [] s = some s
  proc_records add vx (key ∷ keys) s =
      let (name, src) = parse_vxlan key in
      if is_empty vx || text_eq vx name
      then elim (add name src s) [ none ↦ none | some (_, s1) ↦ proc_records add vx keys s1 ]
      else proc_records add vx keys s

  -- procHistoryRecord: `none` also where there is no client, since it reads a field of what New answers
  -- before it looks at the error, and panics.
  unfoldable pub proc_history_record :
      (Text → Text → Multusd W → Option (Bool × Multusd W))
      → Text
      → Multusd W
      → Option (Bool × Multusd W)
  unfolding proc_records
  proc_history_record add vx s = elim kernel.record_keys [
    | none ↦ none
    | some none ↦ some (false, s)
    | some (some keys) ↦ elim (proc_records add vx keys s) [
      | none ↦ none
      | some s1 ↦ some (true, s1)
    ]
  ]

  -- The entry of an interface for the address of another node; its own is left out.
  unfoldable pub forward : (ℕ → Text → W → Bool × W) → Device → Text → Multusd W → Bool × Multusd W
  forward call missing src s = (true, s)
  forward call not_vxlan src s = (false, s)
  forward call (vxlan index self) src s =
      let (done, w1) = call index src s.world in
      if text_eq self src then (true, s) else (done, record s { world = w1 })

  -- watchedAddSubnet; `none` where the fuel, which bounds the calls of procHistoryRecord in it, runs out,
  -- and where procHistoryRecord panics.
  unfoldable pub watched_add_subnet : ℕ → Text → Text → Multusd W → Option (Bool × Multusd W)
  unfolding proc_history_record without forward
  watched_add_subnet zero name src s = none
  watched_add_subnet (suc fuel) name src s =
      let again =
        proc_history_record (watched_add_subnet fuel) name
          (record s { buf = without name s.buf }) in
      let forwarded = some (forward kernel.add_fdb (kernel.link_by_name name) src s) in
      let waiting : List Text = if waits_for name s.buf then s.buf else name ∷ s.buf in
      elim (kernel.link_by_name name) [
        | missing ↦ some (true, record s { buf = waiting })
        | not_vxlan ↦ if waits_for name s.buf then again else forwarded
        | vxlan _ _ ↦ if waits_for name s.buf then again else forwarded
      ]

  -- watchedDelSubnet
  unfoldable pub watched_del_subnet : Text → Text → Multusd W → Bool × Multusd W
  unfolding forward
  watched_del_subnet name src s = forward kernel.del_fdb (kernel.link_by_name name) src s

  -- The events of a watch, in order
  unfoldable pub watching : ℕ → List Event → Multusd W → Option (Multusd W)
  unfolding watched_add_subnet watched_del_subnet
  watching fuel [] s = some s
  watching fuel (put_key key ∷ events) s =
      let (name, src) = parse_vxlan key in
      elim (watched_add_subnet fuel name src s) [
        | none ↦ none
        | some (_, s1) ↦ watching fuel events s1
      ]
  watching fuel (delete_key key ∷ events) s =
      let (name, src) = parse_vxlan key in watching fuel events (watched_del_subnet name src s).1
