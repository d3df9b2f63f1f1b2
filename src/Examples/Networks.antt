-- ===== src/Examples/Networks.antt =====
-- The theorems on LoadIPAMConfig, at a network with a single range and a range set, and two addresses
-- for a pod.
use multus_ext_cni.Prelude.{
  ◌≡◌, refl, false, true, List, [], ◌∷◌, none, some, Text, codes, split, text_eq, to_lower, ok, err,
  inl, arith, ◌+◌,
}
use multus_ext_cni.Net.{to4, mask_size, equal, mask_ip, net_contains}
use multus_ext_cni.Net.Number.{value}
use multus_ext_cni.Ipam.Address.{canonicalize_ip}
use multus_ext_cni.Ipam.Range
use multus_ext_cni.Ipam.RangeSet
use multus_ext_cni.Ipam.Config.EnvArgs.{pos, panics, Args, atoi, digits, find_num}
use multus_ext_cni.Ipam.Config.{IpamConfig, Loader, load_ipam_config}
use multus_ext_cni.Ipam.Config.Apart.{load_ipam_config-apart}
use multus_ext_cni.Examples.Addresses.{ip_package, v4}
use multus_ext_cni.Examples.Ranges.{ten, first, second}

abbrev ipam : IpamConfig
ipam = record {
  range = some first;
  name = [];
  ranges = (second ∷ []) ∷ [];
  fix_range = none;
  ip_args = [];
  apply_unit = 0;
  alloc_gw = false;
  pod_name = [];
  k8s_ns = [];
  is_fix_ip = false;
  num = pos 0;
}

abbrev args : Text → Args
args num = record {
  ip = v4 (ten + 2);
  pod_namespace = codes "team";
  pod_name = codes "web";
  fix = codes "other,NET";
  num = num;
}

abbrev loader : Text → Loader
loader num = record {
  decode_net = λ t. some (record {
    name = codes "net";
    cni_version = codes "0.3.1";
    ipam = some ipam;
    runtime_ranges = [];
    args_ips = [];
  });
  load_args = λ t. some (args num);
  old_versions = codes "0.1.0" ∷ codes "0.2.0" ∷ [];
}

abbrev pub configured : IpamConfig
configured = record {
  range = none;
  name = codes "net";
  ranges = (first ∷ []) ∷ (second ∷ []) ∷ [];
  fix_range = none;
  ip_args = v4 (ten + 2) ∷ [];
  apply_unit = 4;
  alloc_gw = false;
  pod_name = codes "web";
  k8s_ns = codes "team";
  is_fix_ip = true;
  num = pos 2;
}

is_configured :
    load_ipam_config ip_package (loader (codes "x:1,net:2")) [] (codes "args") ≡ ok configured
unfolding load_ipam_config split text_eq to_lower canonicalize_ip to4 RangeSet.canonicalize
    Range.canonicalize Range.canonicalize_subnet mask_size equal mask_ip Range.canonicalize_gateway
    Range.canonicalize_start Range.contains net_contains value Range.canonicalize_end Range.overlaps
    RangeSet.overlaps atoi digits find_num
is_configured = refl

-- A number without a colon makes the code panic.
no_colon : load_ipam_config ip_package (loader (codes "net")) [] (codes "args") ≡ err panics
unfolding load_ipam_config multus_ext_cni.Prelude.split multus_ext_cni.Prelude.text_eq
    multus_ext_cni.Prelude.to_lower
no_colon = refl

load_ipam_config-apart_example : Range.overlaps ip_package first second ≡ false
load_ipam_config-apart_example =
    load_ipam_config-apart ip_package (loader (codes "x:1,net:2")) [] (codes "args") configured 0 1
      0 0 (first ∷ []) (second ∷ []) first second is_configured refl refl refl refl
      (inl (omega arith))
