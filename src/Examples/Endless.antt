-- ===== src/Examples/Endless.antt =====
-- The theorem on endless searches, on a directory in which every address of the set but the gateways is
-- taken, and the end of the first range was reserved last.
use multus_ext_cni.Prelude.{
  ℕ, zero, suc, ◌+◌, ◌<◌, ◌≤◌, ◌≡◌, ◌⊎◌, inl, inr, refl, sym, ◌∙◌, ap, subst, false, true, [], ◌∷◌,
  some, ok, arith, codes, some-injective, Bool-cases, ◌==◌, Text, has_prefix, trim_space, text_eq,
}
use multus_ext_cni.Net.{Ip, equal, to4, net_contains}
use multus_ext_cni.Net.Number.{value, value-injective}
use multus_ext_cni.Net.NetText.{NetText}
use multus_ext_cni.Ipam.Address.{canonicalize_ip}
use multus_ext_cni.Ipam.Range
use multus_ext_cni.Ipam.Range.{Range}
use multus_ext_cni.Ipam.Iter.{out_of_fuel}
use multus_ext_cni.Ipam.Iter.Span.{Stands, equal-Stands}
use multus_ext_cni.Ipam.Allocator.{get}
use multus_ext_cni.Ipam.Allocator.Endless.{RefusesAll, get-endless}
use multus_ext_cni.Ipam.Disk.{Dir, disk_store, reserve, get_by_id, last_reserved_ip}
use multus_ext_cni.Ipam.Disk.Files.{lookup}
use multus_ext_cni.Examples.Addresses.{
  v4, v4-IsCanonical, value-v4, ip_package, ip_laws, net_text, net_text_laws,
}
use multus_ext_cni.Examples.Ranges.{
  first, second, set, ten, v4-Stands, first-IsRange, second-IsRange,
}
use multus_ext_cni.Examples.Allocation.{New, key, holding, all_taken, id, eth0}

abbrev full_end : Dir
full_end = holding (ten + 3) all_taken

end-inside : Range.contains ip_package first (v4 (ten + 3)) ≡ true
unfolding Range.contains canonicalize_ip to4 net_contains value
end-inside = refl

full_end-New : New full_end
unfolding get_by_id has_prefix trim_space text_eq canonicalize_ip to4
full_end-New = refl

last-full_end : last_reserved_ip net_text (codes "0") full_end ≡ v4 (ten + 3)
unfolding last_reserved_ip text_eq lookup canonicalize_ip to4
last-full_end = refl

-- A file of the address makes Reserve refuse it.
refuses :
    (t : NetText) (id ifname : Text) (ip : Ip) (range_id : Text) (d : Dir) (c : Text)
    → lookup (t.to_string ip) d.files ≡ some c
    → reserve t id ifname ip range_id d ≡ (ok false, d)
unfolding reserve
refuses t id ifname ip range_id d c there = rw (there, reserve) refl

-- An address with a number whose file is there is refused.
refused :
    (n : ℕ) (a : Ip) (c : Text)
    → n < 4294967296
    → lookup (net_text.to_string (v4 n)) full_end.files ≡ some c
    → Stands 4 a n
    → reserve net_text id eth0 a (codes "0") full_end ≡ (ok false, full_end)
refused n a c small there stands =
    let canonical = v4-IsCanonical n small in
    let same : stands.form ≡ v4 n =
      value-injective stands.form (v4 n) stands.has_form.bytes canonical.bytes stands.form_family
        (stands.number ∙ sym (value-v4 n)) in
    let name : net_text.to_string a ≡ net_text.to_string (v4 n) =
      net_text_laws.to_string_form a stands.form stands.has_form ∙ ap net_text.to_string same in
    refuses net_text id eth0 a (codes "0") full_end c
      (ap (λ x. lookup x full_end.files) name ∙ there)

-- The range from `net + 1` to `net + last`, without its gateway
in_range :
    (net last : ℕ) (a : Ip) (v : ℕ)
    → net + last < 4294967296
    → last ≤ 3
    → ((n : ℕ)
        → (n ≡ net + 2) ⊎ ((n ≡ net + 3) × (3 ≤ last))
        → (c : Text) × (lookup (net_text.to_string (v4 n)) full_end.files ≡ some c))
    → Stands 4 a v
    → value (v4 (net + 1)) ≤ v
    → v ≤ value (v4 (net + last))
    → equal a (v4 (net + 1)) ≡ false
    → reserve net_text id eth0 a (codes "0") full_end ≡ (ok false, full_end)
in_range net last a v small few there stands lo hi other =
    let above : net + 1 ≤ v = omega (arith, value-v4 (net + 1)) in
    let below : v ≤ net + last = omega (arith, value-v4 (net + last)) in
    let no_gateway : (v == net + 1) ≡ false =
      sym (equal-Stands stands (v4-Stands (net + 1) (omega arith))) ∙ other in
    let (c, file) = there v (elim (Bool-cases (v == net + 2)) [
      | inl two ↦ inl (ground arith)
      | inr more ↦ inr (ground arith, ground arith)
    ]) in
    refused v a c (omega arith) file stands

full_end-RefusesAll :
    RefusesAll ip_package ip_laws (disk_store net_text) 4 (codes "0") id eth0 full_end set
unfolding lookup text_eq canonicalize_ip to4
full_end-RefusesAll zero r a v at stands lo hi other =
    subst
      (λ x.
        value x.range_start ≤ v
        → v ≤ value x.range_end
        → equal a x.gateway ≡ false
        → reserve net_text id eth0 a (codes "0") full_end ≡ (ok false, full_end))
      (some-injective at) (in_range ten 3 a v (omega arith) (omega arith) files stands) lo hi other
  where
    files :
        (n : ℕ)
        → (n ≡ ten + 2) ⊎ ((n ≡ ten + 3) × (3 ≤ 3))
        → (c : Text) × (lookup (net_text.to_string (v4 n)) full_end.files ≡ some c)
    files n (inl e) =
        (key (codes "other"), ap (λ x. lookup (net_text.to_string (v4 x)) full_end.files) e)
    files n (inr (e, more)) =
        (key (codes "other"), ap (λ x. lookup (net_text.to_string (v4 x)) full_end.files) e)
full_end-RefusesAll (suc zero) r a v at stands lo hi other =
    subst
      (λ x.
        value x.range_start ≤ v
        → v ≤ value x.range_end
        → equal a x.gateway ≡ false
        → reserve net_text id eth0 a (codes "0") full_end ≡ (ok false, full_end))
      (some-injective at) (in_range (ten + 256) 2 a v (omega arith) (omega arith) files stands) lo
      hi other
  where
    files :
        (n : ℕ)
        → (n ≡ ten + 256 + 2) ⊎ ((n ≡ ten + 256 + 3) × (3 ≤ 2))
        → (c : Text) × (lookup (net_text.to_string (v4 n)) full_end.files ≡ some c)
    files n (inl e) =
        (key (codes "other"), ap (λ x. lookup (net_text.to_string (v4 x)) full_end.files) e)
    files n (inr (e, more)) = absurd (omega arith)
full_end-RefusesAll (suc (suc k)) r a v at stands lo hi other = absurd (cc at)

get-endless_example :
    get ip_package (disk_store net_text) 1000000 set (codes "0") id eth0 [] full_end ≡ out_of_fuel
get-endless_example =
    get-endless ip_package ip_laws (disk_store net_text) 4 (codes "0") id eth0 full_end 1000000 []
      (second ∷ []) first second (first-IsRange, (second-IsRange, tt)) first-IsRange second-IsRange
      refl (inr apart) full_end-New full_end-RefusesAll
      (subst (λ x. Stands 4 x (value first.range_end)) (sym last-full_end) stands) tt
      (ap (Range.contains ip_package first) last-full_end ∙ end-inside)
  where
    apart : value first.range_end < value second.range_start
    apart = omega (arith, value-v4 (ten + 3), value-v4 (ten + 256 + 1))

    stands : Stands 4 (v4 (ten + 3)) (value first.range_end)
    stands =
        subst (Stands 4 (v4 (ten + 3))) (sym (value-v4 (ten + 3)))
          (v4-Stands (ten + 3) (omega arith))
