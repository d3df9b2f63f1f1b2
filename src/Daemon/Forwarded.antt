-- ===== src/Daemon/Forwarded.antt =====
-- watchedAddSubnet (multus-daemon/daemon.go) ends, and forwards to every other node of an interface.
use multus_ext_cni.Prelude.{
  ℕ, suc, ◌≡◌, inl, inr, refl, ◌∙◌, ap, subst, Bool, true, false, List, [], ◌∷◌, Option, some,
  if◌then◌else◌, Text, text_eq, text_eq_iff, is_empty, arith, Bool-cases,
}
use multus_ext_cni.Vxlan.{parse_vxlan}
use multus_ext_cni.Daemon.{
  Device, missing, not_vxlan, vxlan, Kernel, Multusd, waits_for, without, proc_records,
  proc_history_record, forward, watched_add_subnet,
}

waits_for-without : (name : Text) (buf : List Text) → waits_for name (without name buf) ≡ false
unfolding without
waits_for-without name [] = refl
waits_for-without name (x ∷ buf) = ground (arith, waits_for-without name buf)

module _ {W : Type 0} (kernel : Kernel W) where
  -- The records of an interface are forwarded one after the other, its own left out.
  abbrev pub forward_each : Text → List Text → Multusd W → Multusd W
  forward_each name [] s = s
  forward_each name (key ∷ keys) s = forward_each name keys (
      if text_eq name (parse_vxlan key).0
      then (forward kernel kernel.add_fdb (kernel.link_by_name name) (parse_vxlan key).1 s).1
      else s)

  forward-buf :
      (call : ℕ → Text → W → Bool × W) (d : Device) (src : Text) (s : Multusd W)
      → (forward kernel call d src s).1.buf ≡ s.buf
  unfolding forward
  forward-buf call missing src s = refl
  forward-buf call not_vxlan src s = refl
  forward-buf call (vxlan i self) src s = elim (Bool-cases (text_eq self src)) [
    | inl own ↦ rw (own, forward) refl
    | inr other ↦ rw (other, forward) refl
  ]

  -- A name that does not wait, of an interface that is there
  forwards_on :
      (fuel : ℕ) (name src : Text) (s : Multusd W) (d : Device)
      → kernel.link_by_name name ≡ d
      → ((kernel.link_by_name name ≡ missing) → ⊥)
      → waits_for name s.buf ≡ false
      → watched_add_subnet kernel (suc fuel) name src s
        ≡ some (forward kernel kernel.add_fdb d src s)
  unfolding watched_add_subnet
  forwards_on fuel name src s missing e there fresh = absurd (there e)
  forwards_on fuel name src s not_vxlan e there fresh = ground (arith, e, fresh)
  forwards_on fuel name src s (vxlan i self) e there fresh = ground (arith, e, fresh)

  proc_records-each :
      (fuel : ℕ) (name : Text) (keys : List Text) (s : Multusd W)
      → is_empty name ≡ false
      → ((kernel.link_by_name name ≡ missing) → ⊥)
      → waits_for name s.buf ≡ false
      → proc_records kernel (watched_add_subnet kernel (suc fuel)) name keys s
        ≡ some (forward_each name keys s)
  unfolding proc_records
  proc_records-each fuel name [] s named there fresh = refl
  proc_records-each fuel name (key ∷ keys) s named there fresh =
      let src = (parse_vxlan key).1 in
      let s1 = (forward kernel kernel.add_fdb (kernel.link_by_name name) src s).1 in
      elim (Bool-cases (text_eq name (parse_vxlan key).0)) [
        | inl same ↦
            let one =
              subst
                (λ n.
                  watched_add_subnet kernel (suc fuel) n src s
                  ≡ some (forward kernel kernel.add_fdb (kernel.link_by_name name) src s))
                ((text_eq_iff name (parse_vxlan key).0).0 same)
                (forwards_on fuel name src s (kernel.link_by_name name) refl there fresh) in
            rw (named, same, one)
              (proc_records-each fuel name keys s1 named there (
                ap (waits_for name) (forward-buf kernel.add_fdb (kernel.link_by_name name) src s)
                ∙ fresh))
        | inr other ↦ rw (named, other) (proc_records-each fuel name keys s named there fresh)
      ]

  waits-again :
      (fuel : ℕ) (name src : Text) (index : ℕ) (self : Text) (s : Multusd W)
      → kernel.link_by_name name ≡ vxlan index self
      → waits_for name s.buf ≡ true
      → watched_add_subnet kernel (suc fuel) name src s
        ≡ proc_history_record kernel
            (watched_add_subnet kernel fuel)
            name
            (record s { buf = without name s.buf })
  unfolding watched_add_subnet
  waits-again fuel name src index self s link waits = ground (arith, link, waits)

  history-each :
      (add : Text → Text → Multusd W → Option (Bool × Multusd W)) (name : Text) (keys : List Text)
      (s t : Multusd W)
      → kernel.record_keys ≡ some (some keys)
      → proc_records kernel add name keys s ≡ some t
      → proc_history_record kernel add name s ≡ some (true, t)
  unfolding proc_history_record
  history-each add name keys s t read each = rw (read, each, proc_history_record) refl

  -- An interface that is a VXLAN, and whose name waits and is not empty; etcd has records. Then
  -- watchedAddSubnet returns after one call of procHistoryRecord; the name does not wait any more,
  -- and the addresses of the records of the interface but its own have been forwarded in order.
  pub watched_add_subnet-forwards :
      (fuel : ℕ) (name src : Text) (index : ℕ) (self : Text) (keys : List Text) (s : Multusd W)
      → is_empty name ≡ false
      → kernel.link_by_name name ≡ vxlan index self
      → kernel.record_keys ≡ some (some keys)
      → waits_for name s.buf ≡ true
      → watched_add_subnet kernel (suc (suc fuel)) name src s
        ≡ some (true, forward_each name keys (record s { buf = without name s.buf }))
  watched_add_subnet-forwards fuel name src index self keys s named link read waits =
      let s1 : Multusd W = record s { buf = without name s.buf } in
      waits-again (suc fuel) name src index self s link waits
      ∙ history-each (watched_add_subnet kernel (suc fuel)) name keys s1 (forward_each name keys s1)
          read
          (proc_records-each fuel name keys s1 named (λ gone. absurd (cc (link, gone)))
            (waits_for-without name s.buf))
