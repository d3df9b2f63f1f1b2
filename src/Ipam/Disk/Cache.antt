-- ===== src/Ipam/Disk/Cache.antt =====
-- The cache of leased ranges in the directory of a network (multus-ipam/backend/disk/backend.go):
-- LoadCache, FlashCache, AppendCache and DeleteCache, on the text of the cache file.
pub mod RoundTrip
use multus_ext_cni.Prelude.{
  ℕ, Bool, true, false, not, ◌==◌, List, [], ◌∷◌, ◌++◌, Option, none, some, if◌then◌else◌, any,
  Text, codes, trim_right, split, Result, ok, err,
}
use multus_ext_cni.Net.{Ip}
use multus_ext_cni.Net.IpPackage.{IpPackage}
use multus_ext_cni.Net.NetText.{NetText, is_blank}
use multus_ext_cni.Ipam.Address.{canonicalize_ip}
use multus_ext_cni.Ipam.Lease.{IpAddr}
use multus_ext_cni.Ipam.Range.{SimpleRange}
use multus_ext_cni.Ipam.SimpleRange

-- The lines that end with a line feed: ReadString gives up at the rest.
abbrev pub without_last : List Text → List Text
without_last [] = []
without_last (l ∷ []) = []
without_last (l ∷ m ∷ ls) = l ∷ without_last (m ∷ ls)

module _ (t : NetText) where
  open t use {to_string, parse}

  -- A line of the cache; `none` is the panic on a line without a dash.
  unfoldable pub parse_line : Text → Option SimpleRange
  parse_line line = elim (split b'-' (trim_right is_blank line)) [
    | [] ↦ none
    | ◌∷◌ a [] ↦ none
    | ◌∷◌ a (b ∷ more) ↦ some (record { range_start = parse a; range_end = parse b })
  ]

  unfoldable pub parse_lines : List Text → Option (List SimpleRange)
  unfolding parse_line
  parse_lines [] = some []
  parse_lines (l ∷ ls) =
      let rest = parse_lines ls in
      elim (parse_line l) [
        | none ↦ none
        | some r ↦ elim rest [ none ↦ none | some rs ↦ some (r ∷ rs) ]
      ]

  -- (*Store).LoadCache, on the content of the cache file if there is one
  unfoldable pub load_cache : Option Text → Option (List SimpleRange)
  unfolding parse_lines
  load_cache none = some []
  load_cache (some content) = parse_lines (without_last (split b'\n' content))

  -- The content that FlashCache writes where every write succeeds. It ignores the errors of
  -- Canonicalize.
  unfoldable pub flash_cache : IpAddr → List SimpleRange → Text
  unfolding SimpleRange.canonicalize
  flash_cache ipaddr [] = []
  flash_cache ipaddr (r ∷ rs) =
      let c = SimpleRange.canonicalize ipaddr r in
      (to_string c.range_start ++ b'-' ∷ to_string c.range_end) ++ b'\n' ∷ flash_cache ipaddr rs

  module _ (p : IpPackage) where
    -- (*Store).AppendCache on what the cache holds: `none` is its error.
    unfoldable pub append_cache : List SimpleRange → SimpleRange → Option (List SimpleRange)
    append_cache caches sr =
        if any (λ csr. SimpleRange.overlaps p csr sr) caches
        then none
        else some (caches ++ (sr ∷ []))

    -- (*Store).DeleteCache on what the cache holds: the first range that overlaps goes.
    unfoldable pub delete_cache : List SimpleRange → SimpleRange → List SimpleRange
    delete_cache [] sr = []
    delete_cache (csr ∷ caches) sr =
        let rest = delete_cache caches sr in
        if SimpleRange.overlaps p csr sr then caches else csr ∷ rest
