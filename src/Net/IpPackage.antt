-- ===== src/Net/IpPackage.antt =====
-- Package ip of the containernetworking plugins (pkg/ip), which is not part of this repository: its
-- two functions that the program calls, and what they are documented to do on addresses.
use multus_ext_cni.Prelude.{◌+◌, ◌≡◌, Ordering, compare, length}
use multus_ext_cni.Net.{Ip}
use multus_ext_cni.Net.Number.{value}
use multus_ext_cni.Ipam.Address.{HasForm, IsCanonical}

-- `cmp a b` is `lt`, `eq` or `gt` where Cmp returns -1, 0 or 1.
pub record IpPackage : Type 0 where
  pub cmp : Ip → Ip → Ordering
  pub next_ip : Ip → Ip

-- Cmp compares two addresses by the usual ordering; NextIP returns the address incremented by 1.
pub record IpLaws (p : IpPackage) : Type 0 where
  pub cmp_form :
      (a b c d : Ip)
      → HasForm a c
      → HasForm b d
      → length c ≡ length d
      → p.cmp a b ≡ compare (value c) (value d)
  pub next_form :
      (a c e : Ip)
      → HasForm a c
      → IsCanonical e
      → length e ≡ length c
      → value e ≡ value c + 1
      → HasForm (p.next_ip a) e
