-- ===== src/Ipam/Address.antt =====
-- canonicalizeIP of multus-ipam/backend/allocator/range.go, the errors of the package, and what a
-- canonical address is.
pub mod Laws
use multus_ext_cni.Prelude.{
  ℕ, ◌<◌, ◌≡◌, Bool, true, false, not, if◌then◌else◌, Result, ok, err, Text, All, length,
}
use multus_ext_cni.Net.{Ip, is_nil, to4, to16}
use multus_ext_cni.Net.Number.{AreBytes}

-- The errors of the allocator package, by the message that the code formats.
pub data AllocError : Type 0 where
  not_v4_nor_v6 too_small version_mismatch host_bits_set : AllocError
  start_outside end_outside empty_set mixed_families ranges_overlap : AllocError
  not_in_set is_gateway is_reserved not_available duplicate_allocation : AllocError
  no_addresses store_failed : AllocError

unfoldable pub canonicalize_ip : Ip → Result AllocError Ip
canonicalize_ip ip =
    if not (is_nil (to4 ip))
    then ok (to4 ip)
    else if not (is_nil (to16 ip))
    then ok (to16 ip)
    else err not_v4_nor_v6

-- `c` is the canonical form of the address `a`.
pub record HasForm (a c : Ip) : Type 0 where
  pub form : canonicalize_ip a ≡ ok c
  pub bytes : AreBytes c

abbrev pub IsCanonical : Ip → Type 0
IsCanonical c = HasForm c c
