-- ===== src/Ipam/Config.antt =====
-- LoadIPAMConfig of multus-ipam/backend/allocator/config.go: the configuration of the IPAM plugin.
pub mod EnvArgs
pub mod Apart
use multus_ext_cni.Prelude.{
  ℕ, zero, suc, ◌+◌, ◌==◌, ltb, Bool, true, false, not, ◌&&◌, ◌||◌, List, [], ◌∷◌, ◌++◌, any,
  Option, none, some, if◌then◌else◌, Text, text_eq, is_empty, Result, ok, err, ◌>>=◌, ◌>>◌, guard,
}
use multus_ext_cni.Net.{Ip, is_nil, to4}
use multus_ext_cni.Net.IpPackage.{IpPackage}
use multus_ext_cni.Ipam.Address.{AllocError, canonicalize_ip}
use multus_ext_cni.Ipam.Range
use multus_ext_cni.Ipam.Range.{Range}
use multus_ext_cni.Ipam.RangeSet
use multus_ext_cni.Ipam.RangeSet.{RangeSet}
use EnvArgs.{
  ℤ, pos, ConfigError, bad_json, no_ipam, bad_args, bad_ip, no_ranges, bad_set, too_many,
  sets_overlap, bad_fix_range, Args, apply_fix, apply_num,
}

-- IPAMConfig, without what is passed on as it is: type, directories, routes and logging. `range` is
-- the embedded Range.
pub record IpamConfig : Type 0 where
  pub range : Option Range
  pub name : Text
  pub ranges : List RangeSet
  pub fix_range : Option Range
  pub ip_args : List Ip
  pub apply_unit : ℕ
  pub alloc_gw : Bool
  pub pod_name : Text
  pub k8s_ns : Text
  pub is_fix_ip : Bool
  pub num : ℤ

-- Net, with the addresses of its args, none where they are nil
pub record Net : Type 0 where
  pub name : Text
  pub cni_version : Text
  pub ipam : Option IpamConfig
  pub runtime_ranges : List RangeSet
  pub args_ips : List Ip

-- json.Unmarshal, types.LoadArgs of the CNI library, and its versions up to 0.2.0.
pub record Loader : Type 0 where
  pub decode_net : Text → Option Net
  pub load_args : Text → Option Args
  pub old_versions : List Text

abbrev pub default_apply_unit : ℕ
default_apply_unit = 4

-- The arguments of the environment, in the configuration of network `name`.
unfoldable pub with_args : Text → Args → IpamConfig → Result ConfigError IpamConfig
unfolding apply_fix apply_num
with_args name args c = do
  num ← apply_num name args.num c.num
  ok (record c {
    ip_args = if is_nil args.ip then c.ip_args else args.ip ∷ [];
    pod_name = if is_empty args.pod_name then c.pod_name else args.pod_name;
    k8s_ns = if is_empty args.pod_namespace then c.k8s_ns else args.pod_namespace;
    is_fix_ip = apply_fix name args.fix || c.is_fix_ip;
    num = num;
  })

unfoldable pub canonicalize_all : List Ip → Result ConfigError (List Ip)
canonicalize_all [] = ok []
canonicalize_all (ip ∷ ips) = elim (canonicalize_ip ip) [
  | err e ↦ err bad_ip
  | ok c ↦ canonicalize_all ips >>= λ cs. ok (c ∷ cs)
]

-- A single range is prepended to the range sets, and then the sets of the runtime configuration.
unfoldable pub all_ranges : Net → IpamConfig → List RangeSet
all_ranges n c = n.runtime_ranges ++ elim c.range [
  | none ↦ c.ranges
  | some r ↦ if is_nil r.subnet.ip then c.ranges else (r ∷ []) ∷ c.ranges
]

-- How many sets begin with an IPv4 address
abbrev pub is_v4_set : RangeSet → Bool
is_v4_set [] = false
is_v4_set (r ∷ rs) = not (is_nil (to4 r.range_start))

unfoldable pub count_sets : Bool → List RangeSet → ℕ
count_sets v4 [] = 0
count_sets v4 (s ∷ ss) =
    let rest = count_sets v4 ss in
    if is_v4_set s then (if v4 then suc rest else rest) else if v4 then rest else suc rest

abbrev num_or_one : ℤ → ℤ
num_or_one (pos zero) = pos 1
num_or_one n = n

module _ (p : IpPackage) where
  unfoldable pub canonicalize_sets : List RangeSet → Result ConfigError (List RangeSet)
  canonicalize_sets [] = ok []
  canonicalize_sets (s ∷ ss) = elim (RangeSet.canonicalize p s) [
    | err e ↦ err (bad_set e)
    | ok c ↦ canonicalize_sets ss >>= λ cs. ok (c ∷ cs)
  ]

  -- Does a set overlap a later one?
  unfoldable pub any_sets_overlap : List RangeSet → Bool
  any_sets_overlap [] = false
  any_sets_overlap (s ∷ ss) = any (λ s2. RangeSet.overlaps p s s2) ss || any_sets_overlap ss

  -- The range sets: canonical, few enough for an old version of CNI, and apart.
  unfoldable pub check_ranges : Loader → Net → List RangeSet → Result ConfigError (List RangeSet)
  unfolding canonicalize_sets any_sets_overlap count_sets
  check_ranges loader n [] = err no_ranges
  check_ranges loader n (s ∷ ss) = do
    sets ← canonicalize_sets (s ∷ ss)
    guard
        (not (
          (ltb 1 (count_sets true sets) || ltb 1 (count_sets false sets))
          && any (λ v. text_eq n.cni_version v) loader.old_versions))
        too_many
    guard (not (any_sets_overlap sets)) sets_overlap
    ok sets

  unfoldable pub check_fix_range : Option Range → Result ConfigError (Option Range)
  check_fix_range none = ok none
  check_fix_range (some r) = elim (Range.canonicalize p r) [
    | err e ↦ err (bad_fix_range e)
    | ok c ↦ ok (some c)
  ]

  -- LoadIPAMConfig, from the decoded configuration on
  unfoldable pub check_config : Loader → Net → IpamConfig → Result ConfigError IpamConfig
  unfolding canonicalize_all all_ranges check_ranges check_fix_range
  check_config loader n c = do
    ip_args ← canonicalize_all (c.ip_args ++ n.args_ips)
    ranges ← check_ranges loader n (all_ranges n c)
    fix_range ← check_fix_range c.fix_range
    ok (record c {
      range = none;
      name = n.name;
      ranges = ranges;
      fix_range = fix_range;
      ip_args = ip_args;
      apply_unit = if c.apply_unit == 0 then default_apply_unit else c.apply_unit;
      num = num_or_one c.num;
    })

  -- LoadIPAMConfig
  unfoldable pub load_ipam_config : Loader → Text → Text → Result ConfigError IpamConfig
  unfolding with_args check_config
  load_ipam_config loader bytes env_args = elim (loader.decode_net bytes) [
    | none ↦ err bad_json
    | some n ↦ elim n.ipam [
      | none ↦ err no_ipam
      | some c ↦
          if is_empty env_args then check_config loader n c else elim (loader.load_args env_args) [
            | none ↦ err bad_args
            | some args ↦ with_args n.name args c >>= check_config loader n
          ]
    ]
  ]
