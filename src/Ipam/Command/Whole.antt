-- ===== src/Ipam/Command/Whole.antt =====
-- cmdAdd, cmdDel and cmdCheck of multus-ipam/main.go from the configuration on, with allocateFixIP.
use multus_ext_cni.Prelude.{
  ℕ, zero, suc, Bool, true, false, ◌||◌, List, [], ◌∷◌, ◌++◌, Option, none, some, map,
  if◌then◌else◌, Text, codes, is_empty, Result, ok, err, trim,
}
use multus_ext_cni.Net.{Ip, net_contains, mask_ip}
use multus_ext_cni.Net.NetText.{is_blank}
use multus_ext_cni.Net.IpPackage.{IpPackage}
use multus_ext_cni.Ipam.Range.{is_same}
use multus_ext_cni.Ipam.RangeSet.{RangeSet}
use multus_ext_cni.Ipam.Store.{Store}
use multus_ext_cni.Ipam.Iter.{Run, returned, panicked}
use multus_ext_cni.Ipam.Allocator.{IpConfig, itoa, release}
use multus_ext_cni.Ipam.Config.{IpamConfig}
use multus_ext_cni.Ipam.Command.{
  Host, IpamError, no_fix_info, fix_failed, release_failed, not_found, rounds, and_then,
  allocate_ip,
}

-- net.IPv4zero
abbrev ipv4_zero : Ip
ipv4_zero = 0 ∷ 0 ∷ 0 ∷ 0 ∷ 0 ∷ 0 ∷ 0 ∷ 0 ∷ 0 ∷ 0 ∷ 0xff ∷ 0xff ∷ 0 ∷ 0 ∷ 0 ∷ 0 ∷ []

-- IPAMGenFixInfo
unfoldable pub gen_fix_info : Text → Text → ℕ → Text
unfolding trim
gen_fix_info ns name n = trim is_blank (ns ++ (codes "/" ++ (name ++ (codes "/" ++ itoa n))))

module _ (p : IpPackage) {S : Type 0} (store : Store S) (host : Host S) where
  module _ (fuel : ℕ) (conf : IpamConfig) where
    -- allocateFixIP
    unfoldable pub fix_rest : ℕ → List IpConfig → ℕ → S → Result IpamError (List IpConfig) × S
    unfolding gen_fix_info mask_ip
    fix_rest zero got k s = (ok got, s)
    fix_rest (suc n) got k s =
        let (applied, s1) =
          host.apply_fix_ip conf.name conf.fix_range (gen_fix_info conf.k8s_ns conf.pod_name k) s in
        elim applied [
          | none ↦ (err fix_failed, s1)
          | some net ↦
              let c : IpConfig = record {
                version = 4;
                address = net;
                gateway = p.next_ip (mask_ip net.ip net.mask);
              } in
              fix_rest n (got ++ (c ∷ [])) (suc k) s1
        ]

    unfoldable pub allocate_fix_ip : S → Result IpamError (List IpConfig) × S
    unfolding fix_rest
    allocate_fix_ip s =
        if is_empty conf.pod_name || is_empty conf.k8s_ns
        then (err no_fix_info, s)
        else fix_rest (rounds conf.num) [] 0 s

    -- The loop of cmdAdd over the addresses that are reserved for a gateway: the first one of the network
    -- is taken, and the others are released. Without an address of the pod the index panics.
    unfoldable pub choose_gateway : List IpConfig → List Ip → Option Ip → S → Run (Option Ip × S)
    unfolding net_contains
    choose_gateway ips [] gw s = returned (gw, s)
    choose_gateway ips (g ∷ gs) gw s =
        let skipped = choose_gateway ips gs gw s in
        let released = choose_gateway ips gs gw (host.release_ip g s) in
        let taken = choose_gateway ips gs (some g) s in
        if is_same (p.cmp g ipv4_zero) then skipped else elim gw [
          | some _ ↦ released
          | none ↦ elim ips [
            | [] ↦ panicked
            | ◌∷◌ c _ ↦ if net_contains c.address g then taken else released
          ]
        ]

    -- A gateway where none is reserved yet: an address of the network, or 0.0.0.0
    unfoldable pub new_gateway : S → Run (Ip × S)
    unfolding allocate_ip
    new_gateway s =
        and_then (allocate_ip p store host fuel conf (codes "gateway") (codes "gateway") s)
          λ ((result, s1) : Result IpamError (List IpConfig) × S). elim result [
            | err e ↦ returned (ipv4_zero, s1)
            | ok [] ↦ panicked
            | ok (c ∷ _) ↦ returned (c.address.ip, s1)
          ]

    abbrev set_gateway : Ip → IpConfig → IpConfig
    set_gateway gw c = record c { gateway = gw }

    unfoldable pub with_gateway : List IpConfig → S → Run (List IpConfig × S)
    unfolding choose_gateway new_gateway
    with_gateway ips s =
        and_then (choose_gateway ips (host.get_by_id (codes "gateway") (codes "gateway") s) none s)
          λ ((found, s1) : Option Ip × S). elim found [
            | some gw ↦ returned (map (set_gateway gw) ips, s1)
            | none ↦
                and_then (new_gateway s1)
                  λ ((gw, s2) : Ip × S). returned (map (set_gateway gw) ips, s2)
          ]

    -- cmdAdd
    unfoldable pub cmd_add : Text → Text → S → Run (Result IpamError (List IpConfig) × S)
    unfolding allocate_ip allocate_fix_ip with_gateway
    cmd_add id ifname s =
        and_then
          (if conf.is_fix_ip
            then returned (allocate_fix_ip s)
            else allocate_ip p store host fuel conf id ifname s)
          λ ((result, s1) : Result IpamError (List IpConfig) × S). elim result [
            | err e ↦ returned (err e, s1)
            | ok ips ↦
                if conf.alloc_gw
                then (and_then (with_gateway ips s1)
                    λ ((gated, s2) : List IpConfig × S). returned (ok gated, s2))
                else returned (ok ips, s1)
          ]

    -- The loop of cmdDel over the range sets; whether a release has failed.
    unfoldable pub release_sets : List RangeSet → Text → Text → S → Bool × S
    unfolding release
    release_sets [] id ifname s = (false, s)
    release_sets (_ ∷ sets) id ifname s =
        let (result, s1) = release p store id ifname s in
        let (failed, s2) = release_sets sets id ifname s1 in
        (elim result [ err _ ↦ true | ok _ ↦ failed ], s2)

    -- cmdDel
    unfoldable pub cmd_del : Text → Text → S → Result IpamError (Unit {0}) × S
    unfolding release_sets
    cmd_del id ifname s =
        let (failed, s1) = release_sets conf.ranges id ifname s in
        if conf.is_fix_ip then (ok tt, s) else (if failed then err release_failed else ok tt, s1)

    -- cmdCheck
    unfoldable pub cmd_check : Text → Text → S → Result IpamError (Unit {0})
    cmd_check id ifname s = if host.find_by_id id ifname s then ok tt else err not_found
