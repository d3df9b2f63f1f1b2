-- ===== src/Net.antt =====
-- Go's package net, as far as the program uses it: addresses (net.IP), masks and networks
-- (net.IPNet). An address is its byte slice; `nil` is the empty slice. A byte is below 256.
pub mod Number
pub mod IpPackage
pub mod NetText
use Prim.Native.Nat.{bit_and}
use multus_ext_cni.Prelude.{
  ℕ, zero, suc, ◌+◌, ◌-◌, ◌*◌, ◌≡◌, Bool, true, false, not, ◌&&◌, ◌||◌, List, [], ◌∷◌, ◌++◌, Option,
  none, some, ltb, leb, ◌==◌, if◌then◌else◌, length, take, drop, all, Text, text_eq,
}

abbrev pub Ip : Type 0
Ip = Text

-- net.IPNet, and the types.IPNet of the CNI library, which is a copy of it.
pub record IpNet : Type 0 where
  pub ip : Ip
  pub mask : Text

abbrev pub is_nil : Ip → Bool
is_nil [] = true
is_nil (_ ∷ _) = false

abbrev pub v4_in_v6_prefix : Text
v4_in_v6_prefix = 0 ∷ 0 ∷ 0 ∷ 0 ∷ 0 ∷ 0 ∷ 0 ∷ 0 ∷ 0 ∷ 0 ∷ 0xff ∷ 0xff ∷ []

-- (IP).To4
unfoldable pub to4 : Ip → Ip
to4 ip =
    if length ip == 4
    then ip
    else if length ip == 16 && text_eq (take 12 ip) v4_in_v6_prefix
    then drop 12 ip
    else []

-- (IP).To16
unfoldable pub to16 : Ip → Ip
to16 ip = if length ip == 4 then v4_in_v6_prefix ++ ip else if length ip == 16 then ip else []

-- (IP).Equal: an IPv4 address and its IPv4-in-IPv6 form are equal.
unfoldable pub equal : Ip → Ip → Bool
equal a b =
    if length a == length b
    then text_eq a b
    else if length a == 4 && length b == 16
    then text_eq (take 12 b) v4_in_v6_prefix && text_eq a (drop 12 b)
    else if length a == 16 && length b == 4
    then text_eq (take 12 a) v4_in_v6_prefix && text_eq (drop 12 a) b
    else false

abbrev and_bytes : Text → Text → Text
and_bytes [] _ = []
and_bytes (a ∷ as') [] = []
and_bytes (a ∷ as') (m ∷ ms) = bit_and a m ∷ and_bytes as' ms

-- The last bytes of a mask or an address whose first twelve bytes are `prefix`.
abbrev shorten : Text → Text → ℕ → Text
shorten prefix x other =
    if length x == 16 && other == 4 && text_eq (take 12 x) prefix then drop 12 x else x

abbrev all_ff : Text
all_ff = 0xff ∷ 0xff ∷ 0xff ∷ 0xff ∷ 0xff ∷ 0xff ∷ 0xff ∷ 0xff ∷ 0xff ∷ 0xff ∷ 0xff ∷ 0xff ∷ []

-- (IP).Mask
unfoldable pub mask_ip : Ip → Text → Ip
unfolding text_eq
mask_ip ip mask =
    let m = shorten all_ff mask (length ip) in
    let a = shorten v4_in_v6_prefix ip (length m) in
    if length a == length m then and_bytes a m else []

-- The number of leading one bits of a byte, where only zero bits follow them.
unfoldable pub byte_ones : ℕ → Option ℕ
byte_ones b =
    if b == 0
    then some 0
    else if b == 128
    then some 1
    else if b == 192
    then some 2
    else if b == 224
    then some 3
    else if b == 240
    then some 4
    else if b == 248
    then some 5
    else if b == 252
    then some 6
    else if b == 254
    then some 7
    else if b == 255
    then some 8
    else none

-- simpleMaskLength: `none` is -1.
unfoldable pub mask_ones : Text → Option ℕ
unfolding byte_ones
mask_ones [] = some 0
mask_ones (b ∷ rest) =
    let more = mask_ones rest in
    if b == 0xff then elim more [ none ↦ none | some n ↦ some (8 + n) ] else elim (byte_ones b) [
      | none ↦ none
      | some n ↦ if all (λ x. x == 0) rest then some n else none
    ]

-- (IPMask).Size: ones and length in bits.
unfoldable pub mask_size : Text → ℕ × ℕ
unfolding mask_ones
mask_size m = elim (mask_ones m) [ none ↦ (0, 0) | some n ↦ (n, length m * 8) ]

-- networkNumberAndMask: the address of a network in its short form, and the mask for it.
unfoldable pub network_number : IpNet → Ip
unfolding to4
network_number n = if is_nil (to4 n.ip) then (if length n.ip == 16 then n.ip else []) else to4 n.ip

unfoldable pub network_mask : IpNet → Option Text
unfolding network_number
network_mask n =
    let short = length (network_number n) in
    if short == 0
    then none
    else if length n.mask == 4
    then (if short == 4 then some n.mask else none)
    else if length n.mask == 16
    then some (if short == 4 then drop 12 n.mask else n.mask)
    else none

-- `nn[i]&m[i] != ip[i]&m[i]` for no i
abbrev agree : Text → Text → Text → Bool
agree [] _ _ = true
agree (a ∷ as') [] _ = true
agree (a ∷ as') (b ∷ bs) [] = true
agree (a ∷ as') (b ∷ bs) (m ∷ ms) = bit_and a m == bit_and b m && agree as' bs ms

-- (*IPNet).Contains
unfoldable pub net_contains : IpNet → Ip → Bool
unfolding to4 network_number network_mask
net_contains n ip =
    let x = if is_nil (to4 ip) then ip else to4 ip in
    elim (network_mask n) [
      | none ↦ is_nil x
      | some m ↦ length x == length (network_number n) && agree (network_number n) x m
    ]
