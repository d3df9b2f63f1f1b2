-- ===== src/Ipam/Lease/Fixed.antt =====
-- IPAMApplyFixIP of multus-ipam/backend/etcdv3cli/cli.go: an address that a pod keeps, from the keys
-- of the fixed addresses of the network in etcd, which come in ascending order.
pub mod Free
use multus_ext_cni.Prelude.{
  ℕ, zero, suc, ◌+◌, ◌-◌, ◌*◌, ◌%◌, ◌/◌, Bool, true, false, not, ◌&&◌, ◌||◌, List, [], ◌∷◌, ◌++◌,
  Option, none, some, ltb, leb, ◌==◌, if◌then◌else◌, Text, text_eq, get_elem?, length, is_empty,
}
use multus_ext_cni.Net.{Ip, IpNet}
use multus_ext_cni.Net.IpPackage.{IpPackage}
use multus_ext_cni.Ipam.Range.{Range, is_less, is_greater}
use multus_ext_cni.Ipam.Lease.{IpAddr, add32, base, first_free_ip}

-- A key and its value in etcd.
pub record Entry : Type 0 where
  pub key : Text
  pub value : Text

-- What the loop reads of an entry: its address as a number, whether that is outside the range,
-- whether the value is the pod's own.
pub record Slot : Type 0 where
  pub key : Text
  pub number : ℕ
  pub outside : Bool
  pub mine : Bool

-- The pod has an address, or these are free.
pub data Scan : Type 0 where
  has : ℕ → Scan
  free : List ℕ → Scan

-- `for i := first; i < first + count; i++`
abbrev pub count_up : ℕ → ℕ → List ℕ
count_up first zero = []
count_up first (suc n) = first ∷ count_up (first + 1) n

abbrev pub put_before : List ℕ → Scan → Scan
put_before l (has n) = has n
put_before l (free ns) = free (l ++ ns)

-- The loops over the keys and, behind them, up to the end of the range. An address 0 that is found
-- counts as none: the loop ends there, and the addresses behind are free.
unfoldable pub scan : ℕ → List Slot → ℕ → Scan
scan ripe [] last = free (count_up last (add32 ripe 1 - last))
scan ripe (s ∷ slots) last =
    let skipped = scan ripe slots last in
    let behind = scan ripe slots (add32 s.number 1) in
    if s.outside
    then skipped
    else if s.mine
    then (if s.number == 0 then free (count_up last (add32 ripe 1 - last)) else has s.number)
    else put_before (count_up last (s.number - last)) behind

-- The keys that the loop deletes: the pod's own outside the range, before its own inside.
unfoldable pub stale : List Slot → List Text
stale [] = []
stale (s ∷ slots) =
    let rest = stale slots in
    if s.outside then (if s.mine then s.key ∷ rest else rest) else if s.mine then [] else rest

-- What IPAMApplyFixIP comes to: no address is free, or this one is written to etcd. The choice of
-- rand.Intn is `pick`.
unfoldable pub choose : (ℕ → ℕ) → ℕ → List Slot → ℕ → Option ℕ
unfolding scan
choose pick ripe slots rips = elim (scan ripe slots rips) [
  | has n ↦ some n
  | free [] ↦ none
  | free (n ∷ ns) ↦ get_elem? (n ∷ ns) (pick (length (n ∷ ns)))
]

module _ (ipaddr : IpAddr) (p : IpPackage) where
  unfoldable pub slot : Range → Text → Entry → Slot
  unfolding base
  slot r fix_info entry =
      let fix = ipaddr.str_to_uint32 (base entry.key) in
      let addr = ipaddr.uint32_to_ip4 fix in
      record {
        key = entry.key;
        number = fix;
        outside = is_greater (p.cmp r.range_start addr) || is_less (p.cmp r.range_end addr);
        mine = text_eq entry.value fix_info;
      }

  unfoldable pub slots_of : Range → Text → List Entry → List Slot
  unfolding slot
  slots_of r fix_info [] = []
  slots_of r fix_info (e ∷ es) = slot r fix_info e ∷ slots_of r fix_info es

  -- IPAMApplyFixIP: the keys that are deleted, and the address.
  unfoldable pub apply_fix_ip : (ℕ → ℕ) → List Entry → Range → Text → List Text × Option IpNet
  unfolding slots_of stale choose first_free_ip
  apply_fix_ip pick entries r fix_info =
      let slots = slots_of r fix_info entries in
      (
        stale slots,
        elim (choose pick (ipaddr.ip4_to_uint32 r.range_end) slots (first_free_ip ipaddr r)) [
          | none ↦ none
          | some n ↦ some (record { ip = ipaddr.uint32_to_ip4 n; mask = r.subnet.mask })
        ],
      )
