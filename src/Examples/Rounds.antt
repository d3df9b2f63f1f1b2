-- ===== src/Examples/Rounds.antt =====
-- The theorem on allocateIP, on a store with two places.
use multus_ext_cni.Prelude.{
  ℕ, ◌+◌, Bool, true, Result, arith, ◌≡◌, refl, sym, ap, subst, false, true, List, [], ◌∷◌, none,
  some, some-injective, Text, codes, ok, err,
}
use multus_ext_cni.Net.{Ip, to4, equal, is_nil, net_contains}
use multus_ext_cni.Ipam.Range
use multus_ext_cni.Ipam.Range.{SimpleRange}
use multus_ext_cni.Ipam.Store.{Store, StoreContract, StoreError}
use multus_ext_cni.Ipam.Iter.{returned, next}
use multus_ext_cni.Ipam.Address.{no_addresses}
use multus_ext_cni.Ipam.Allocator.{itoa}
use multus_ext_cni.Ipam.Command.{
  Host, alloc_failed, sub_ifname, form_range_sets, try_get, allocate_ip,
}
use multus_ext_cni.Ipam.Command.Granted.{Keeps}
use multus_ext_cni.Ipam.Command.Outcome.{Allocated, Ends, allocate_ip-Allocated}
use multus_ext_cni.Examples.Addresses.{ip_package, net_text, v4}
use multus_ext_cni.Ipam.Disk.{Dir, reserve, find_by_id}
use multus_ext_cni.Examples.Allocation.{empty, id, eth0}
use multus_ext_cni.Examples.Ranges.{ten, first}
use multus_ext_cni.Examples.Networks.{configured}

-- Whether 10.0.0.2 and 10.0.0.3 are taken; every other address is.
abbrev Places : Type 0
Places = Bool × Bool

abbrev taken_at : Bool → Bool → Places → Bool
taken_at true _ s = s.0
taken_at false true s = s.1
taken_at false false s = true

abbrev mark_at : Bool → Places → Places
mark_at true s = (true, s.1)
mark_at false s = (s.0, true)

abbrev is_taken : Ip → Places → Bool
is_taken ip s = taken_at (equal ip (v4 (ten + 2))) (equal ip (v4 (ten + 3))) s

abbrev reserve_at : Bool → Bool → Places → Result StoreError Bool × Places
reserve_at true _ s = (ok false, s)
reserve_at false second s = (ok true, mark_at second s)

abbrev places : Store Places
places = record {
  reserve = λ id ifname ip range_id s. reserve_at (is_taken ip s) (equal ip (v4 (ten + 2))) s;
  last_reserved_ip = λ range_id s. [];
  release_by_id = λ id ifname s. (ok tt, (s.0, false));
  get_by_id = λ id ifname s. [];
}

refuses : (t x : Bool) (s s' : Places) → reserve_at t x s ≡ (ok false, s') → (s' ≡ s) × (t ≡ true)
refuses true x s s' e = (sym (ap (λ r. r.1) e), refl)
refuses false x s s' e = absurd (ground arith)

grants :
    (x y : Bool) (s s' : Places)
    → reserve_at (taken_at x y s) x s ≡ (ok true, s')
    → (¬ (taken_at x y s ≡ true)) × (taken_at x y s' ≡ true)
grants true y (true, b) s' e = absurd (ground arith)
grants true y (false, b) s' e = ((λ h. cc), ground arith)
grants false true (a, true) s' e = absurd (ground arith)
grants false true (a, false) s' e = ((λ h. cc), ground arith)
grants false false s s' e = absurd (ground arith)

mark_keeps : (x y z : Bool) (s : Places) → taken_at x y s ≡ true → taken_at x y (mark_at z s) ≡ true
mark_keeps true y true s h = refl
mark_keeps true y false s h = h
mark_keeps false true true s h = h
mark_keeps false true false s h = refl
mark_keeps false false true s h = refl
mark_keeps false false false s h = refl

reserve_keeps :
    (x y t z : Bool) (s : Places) → taken_at x y s ≡ true → taken_at x y (reserve_at t z s).1 ≡ true
reserve_keeps x y true z s h = h
reserve_keeps x y false z s h = mark_keeps x y z s h

abbrev contract : StoreContract places
contract = record {
  Taken = λ s ip. is_taken ip s ≡ true;
  refused =
      λ id ifname ip range_id s s' e. refuses (is_taken ip s) (equal ip (v4 (ten + 2))) s s' e;
  granted = λ id ifname ip range_id s s' e.
      grants (equal ip (v4 (ten + 2))) (equal ip (v4 (ten + 3))) s s' e;
}

abbrev lease : SimpleRange
lease = record { range_start = v4 (ten + 1); range_end = v4 (ten + 3) }

abbrev host : Host Places
host = record {
  load_cache = λ s. some (lease ∷ []);
  append_cache = λ sr s. s;
  delete_cache = λ sr s. s;
  release_ip = λ ip s. s;
  get_by_id = λ id ifname s. [];
  find_by_id = λ id ifname s. false;
  apply_ip_range = λ name r unit s. (some lease, s);
  apply_fix_ip = λ name r info s. (none, s);
}

keeps : Keeps places host contract.Taken
keeps = record {
  reserve_keeps = λ id ifname ip range_id s a h.
      reserve_keeps (equal a (v4 (ten + 2))) (equal a (v4 (ten + 3))) (is_taken ip s)
        (equal ip (v4 (ten + 2))) s h;
  append_keeps = λ sr s a h. h;
  apply_keeps = λ name r unit s a h. h;
}

first-Ends : Ends ip_package places contract host keeps 4 configured [] [] (first ∷ [])
unfolding try_get next equal multus_ext_cni.Prelude.text_eq multus_ext_cni.Net.Number.increment
    multus_ext_cni.Ipam.Address.canonicalize_ip to4
first-Ends name (true, true) = (_, refl)
first-Ends name (true, false) = (_, refl)
first-Ends name (false, true) = (_, refl)
first-Ends name (false, false) = (_, refl)

is_formed :
    form_range_sets ip_package places host configured.ranges (false, false)
    ≡ some ((first ∷ []) ∷ [] ∷ [], (false, false))
unfolding form_range_sets Range.contains multus_ext_cni.Ipam.Address.canonicalize_ip to4
    net_contains multus_ext_cni.Net.Number.value
is_formed = refl

-- A cached range of the first subnet is used, and deleted for the second subnet. The second place tells
-- of the deletion.
abbrev counting : Host Places
counting = record host { delete_cache = λ sr s. (s.0, true) }

is_deleted :
    form_range_sets ip_package places counting configured.ranges (false, false)
    ≡ some ((first ∷ []) ∷ [] ∷ [], (false, true))
unfolding form_range_sets Range.contains multus_ext_cni.Ipam.Address.canonicalize_ip to4
    net_contains multus_ext_cni.Net.Number.value
is_deleted = refl

-- The second reservation fails with a single place; the first one is released.
one_place :
    allocate_ip ip_package places host 4 configured [] [] (true, false)
    ≡ returned (err (alloc_failed no_addresses), (true, false))
unfolding allocate_ip Range.contains multus_ext_cni.Ipam.Address.canonicalize_ip to4 net_contains
    multus_ext_cni.Net.Number.value next equal multus_ext_cni.Prelude.text_eq
    multus_ext_cni.Net.Number.increment
one_place = refl

allocate_ip-Allocated_example :
    Allocated ip_package places contract host keeps 4 configured [] [] 2
      (false, false)
      (allocate_ip ip_package places host 4 configured [] [] (false, false))
allocate_ip-Allocated_example =
    allocate_ip-Allocated ip_package places contract host keeps 4 configured [] [] first refl
      (λ s sr a.
        subst
          (λ x.
            Ends ip_package places contract host keeps 4 configured [] []
              (record first { range_start = x.range_start; range_end = x.range_end } ∷ []))
          (some-injective a) first-Ends)
      (false, false) (first ∷ []) ([] ∷ []) (false, false) is_formed first-Ends

-- CHECK asks for the name of the interface, under which ADD has reserved nothing: it does not find the
-- address that allocateIP has reserved.
abbrev added : Dir
added = (reserve net_text id (sub_ifname eth0 0) (v4 (ten + 3)) (codes "0") empty).1

not_found : find_by_id net_text id eth0 added ≡ false
unfolding find_by_id reserve multus_ext_cni.Ipam.Disk.Files.lookup
    multus_ext_cni.Ipam.Disk.Files.write_file multus_ext_cni.Prelude.text_eq
    multus_ext_cni.Ipam.Address.canonicalize_ip to4 multus_ext_cni.Prelude.trim_space itoa
not_found = refl

found_by_number : find_by_id net_text id (sub_ifname eth0 0) added ≡ true
unfolding find_by_id reserve multus_ext_cni.Ipam.Disk.Files.lookup
    multus_ext_cni.Ipam.Disk.Files.write_file multus_ext_cni.Prelude.text_eq
    multus_ext_cni.Ipam.Address.canonicalize_ip to4 multus_ext_cni.Prelude.trim_space itoa
found_by_number = refl
