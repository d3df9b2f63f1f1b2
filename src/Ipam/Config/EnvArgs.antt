-- ===== src/Ipam/Config/EnvArgs.antt =====
-- The arguments of the environment that LoadIPAMConfig (multus-ipam/backend/allocator/config.go) reads,
-- and strconv.Atoi.
use multus_ext_cni.Prelude.{
  ℕ, zero, suc, ◌+◌, ◌-◌, ◌*◌, ◌^◌, ◌==◌, ltb, leb, Bool, not, ◌&&◌, ◌||◌, List, [], ◌∷◌, any,
  Option, none, some, if◌then◌else◌, Text, text_eq, is_empty, split, to_lower, Result, ok, err,
}
use multus_ext_cni.Net.{Ip}
use multus_ext_cni.Ipam.Address.{AllocError}

-- `negsuc n` is `-(n + 1)`.
pub data ℤ : Type 0 where
  pos : ℕ → ℤ
  negsuc : ℕ → ℤ

-- The errors of LoadIPAMConfig. The last one is no error: the code panics.
pub data ConfigError : Type 0 where
  bad_json no_ipam bad_args bad_ip no_ranges too_many sets_overlap : ConfigError
  bad_set bad_fix_range : AllocError → ConfigError
  panics : ConfigError

-- IPAMEnvArgs
pub record Args : Type 0 where
  pub ip : Ip
  pub pod_namespace : Text
  pub pod_name : Text
  pub fix : Text
  pub num : Text

-- The number of one or more digits
unfoldable pub digits : ℕ → Text → Option ℕ
digits n [] = some n
digits n (c ∷ t) =
    let rest = digits (n * 10 + (c - b'0')) t in if leb b'0' c && leb c b'9' then rest else none

abbrev some_digits : Text → Option ℕ
unfolding digits
some_digits [] = none
some_digits (c ∷ t) = digits 0 (c ∷ t)

abbrev to_negative : ℕ → ℤ
to_negative zero = pos 0
to_negative (suc n) = negsuc n

-- strconv.Atoi, on an int of 64 bits; `none` is its error.
unfoldable pub atoi : Text → Option ℤ
unfolding digits
atoi [] = none
atoi (c ∷ t) =
    let unsigned : Text = if c == b'-' || c == b'+' then t else c ∷ t in
    elim (some_digits unsigned) [
      | none ↦ none
      | some n ↦
          if c == b'-'
          then (if leb n (2 ^ 63) then some (to_negative n) else none)
          else if ltb n (2 ^ 63)
          then some (pos n)
          else none
    ]

-- Is the network among the names of a list?
unfoldable pub apply_fix : Text → Text → Bool
apply_fix name fix =
    not (is_empty fix) && any (λ t. text_eq (to_lower t) (to_lower name)) (split b',' fix)

-- The loop over the parts `<network>:<number>`: the first one of the network counts, and is 1 where it
-- is no number. Without a colon the index panics.
unfoldable pub find_num : Text → List Text → ℤ → Result ConfigError ℤ
unfolding atoi
find_num name [] num = ok num
find_num name (t ∷ ts) num =
    let rest = find_num name ts num in
    elim (split b':' t) [
      | [] ↦ rest
      | ◌∷◌ key [] ↦ if text_eq (to_lower key) (to_lower name) then err panics else rest
      | ◌∷◌ key (value ∷ more) ↦
          if text_eq (to_lower key) (to_lower name)
          then ok (elim (atoi value) [ none ↦ pos 1 | some n ↦ n ])
          else rest
    ]

unfoldable pub apply_num : Text → Text → ℤ → Result ConfigError ℤ
unfolding find_num
apply_num name nums num = if is_empty nums then ok num else find_num name (split b',' nums) num
