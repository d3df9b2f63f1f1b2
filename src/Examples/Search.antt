-- ===== src/Examples/Search.antt =====
-- The theorems on the search of the allocator, at the runs of Allocation.
use multus_ext_cni.Prelude.{◌+◌, ◌≡◌, sym, ◌∙◌, ap, subst, [], ◌∷◌, arith, true, codes, any, ◌⊎◌}
use multus_ext_cni.Net.{equal}
use multus_ext_cni.Net.Number.{value}
use multus_ext_cni.Ipam.Range
use multus_ext_cni.Ipam.Iter.Round.{first_round}
use multus_ext_cni.Ipam.Iter.Resume.{resumed_round}
use multus_ext_cni.Ipam.Iter.Span.{Stands}
use multus_ext_cni.Ipam.Iter.Offers.{CoversAll, Covers}
use multus_ext_cni.Ipam.Allocator.Order.{Tries, get-eq-first_free, get-eq-resumed}
use multus_ext_cni.Ipam.Allocator.Outcome.{
  Allocates, IsTaken, get_sound, get_sound_resumed, get-exhausted, get-exhausted_resumed,
}
use multus_ext_cni.Ipam.Disk.{disk_store, last_reserved_ip}
use multus_ext_cni.Ipam.Disk.Contract.{disk_contract, HasFile}
use multus_ext_cni.Examples.Addresses.{ip_package, ip_laws, net_text}
use multus_ext_cni.Examples.Ranges.{
  first, second, set, ten, v4-Stands, first-IsRange, second-IsRange, low, high, total-set,
}
use multus_ext_cni.Examples.Allocation.{
  empty, one, full, full_resumed, empty', one', id, eth0, conf, empty-New, one-New, full-New,
  full_resumed-New, last-empty, last-one, last-full, last-full_resumed, first-contains, get-empty,
  get-one, get-full, get-full_resumed,
}

-- The last address of `one`, and of `full_resumed`, stands in the first range.
Stands-one : Stands 4 (last_reserved_ip net_text (codes "0") one) (ten + 2)
Stands-one = subst (λ a. Stands 4 a (ten + 2)) (sym last-one) (v4-Stands (ten + 2) (omega arith))

Stands-full_resumed : Stands 4 (last_reserved_ip net_text (codes "0") full_resumed) (ten + 2)
Stands-full_resumed =
    subst (λ a. Stands 4 a (ten + 2)) (sym last-full_resumed) (v4-Stands (ten + 2) (omega arith))

contains-one : Range.contains ip_package first (last_reserved_ip net_text (codes "0") one) ≡ true
contains-one = ap (Range.contains ip_package first) last-one ∙ first-contains

contains-full_resumed :
    Range.contains ip_package first (last_reserved_ip net_text (codes "0") full_resumed) ≡ true
contains-full_resumed = ap (Range.contains ip_package first) last-full_resumed ∙ first-contains

get-eq-first_free_example :
    Tries ip_package ip_laws
      (disk_store net_text)
      4
      (codes "0")
      id
      eth0
      empty
      20
      set
      (first_round ip_package set)
get-eq-first_free_example =
    get-eq-first_free ip_package ip_laws (disk_store net_text) 4 (codes "0") id eth0 empty 20 first
      (second ∷ []) first-IsRange (second-IsRange, tt) empty-New (ground (arith, last-empty))
      total-set

get-eq-resumed_example :
    Tries ip_package ip_laws (disk_store net_text) 4 (codes "0") id eth0 one 20 set (
      resumed_round ip_package [] first
        (second ∷ [])
        (last_reserved_ip net_text (codes "0") one)
        (ten + 2))
get-eq-resumed_example =
    get-eq-resumed ip_package ip_laws (disk_store net_text) 4 (codes "0") id eth0 one 20 []
      (second ∷ []) first (ten + 2) tt first-IsRange (second-IsRange, tt) one-New Stands-one low
      high tt contains-one total-set

get_sound_example :
    Allocates ip_package ip_laws
      (disk_store net_text)
      (disk_contract net_text)
      4
      (codes "0")
      id
      eth0
      empty
      set
      (conf (ten + 2))
      empty'
get_sound_example =
    get_sound ip_package ip_laws (disk_store net_text) (disk_contract net_text) 4 (codes "0") id
      eth0 empty 20 first (second ∷ []) (conf (ten + 2)) empty' first-IsRange (second-IsRange, tt)
      empty-New (ground (arith, last-empty)) total-set get-empty

get_sound_resumed_example :
    Allocates ip_package ip_laws
      (disk_store net_text)
      (disk_contract net_text)
      4
      (codes "0")
      id
      eth0
      one
      set
      (conf (ten + 3))
      one'
get_sound_resumed_example =
    get_sound_resumed ip_package ip_laws (disk_store net_text) (disk_contract net_text) 4
      (codes "0") id eth0 one 20 [] (second ∷ []) first (ten + 2) (conf (ten + 3)) one' tt
      first-IsRange (second-IsRange, tt) one-New Stands-one low high tt contains-one total-set
      get-one

get-exhausted_example :
    (full ≡ full)
    × ((equal first.range_start first.gateway ≡ true)
        ⊎ ((any (λ ip. equal first.range_start ip) first.reserves ≡ true)
            ⊎ HasFile net_text full first.range_start))
    × Covers
        (IsTaken ip_package ip_laws
          (disk_store net_text)
          (disk_contract net_text)
          4
          (codes "0")
          id
          eth0
          full)
        4
        first
        (value first.range_start + 1)
        (value first.range_end)
    × CoversAll
        (IsTaken ip_package ip_laws
          (disk_store net_text)
          (disk_contract net_text)
          4
          (codes "0")
          id
          eth0
          full)
        4
        (second ∷ [])
get-exhausted_example =
    get-exhausted ip_package ip_laws (disk_store net_text) (disk_contract net_text) 4 (codes "0") id
      eth0 full 20 first (second ∷ []) full first-IsRange (second-IsRange, tt) full-New
      (ground (arith, last-full)) total-set get-full

get-exhausted_resumed_example :
    (full_resumed ≡ full_resumed)
    × CoversAll
        (IsTaken ip_package ip_laws
          (disk_store net_text)
          (disk_contract net_text)
          4
          (codes "0")
          id
          eth0
          full_resumed)
        4
        set
get-exhausted_resumed_example =
    get-exhausted_resumed ip_package ip_laws (disk_store net_text) (disk_contract net_text) 4
      (codes "0") id eth0 full_resumed 20 [] (second ∷ []) first (ten + 2) full_resumed tt
      first-IsRange (second-IsRange, tt) full_resumed-New Stands-full_resumed low high tt
      contains-full_resumed total-set get-full_resumed
