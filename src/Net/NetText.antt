-- ===== src/Net/NetText.antt =====
-- (IP).String and net.ParseIP as a parameter: the text forms of addresses, of which the program uses
-- only that parsing undoes printing and that an address has no separator in it.
use multus_ext_cni.Prelude.{ℕ, ◌==◌, ◌||◌, Bool, any, ◌≡◌, false, Text, has_char, codes, ◌++◌, []}
use multus_ext_cni.Net.{Ip}
use multus_ext_cni.Ipam.Address.{HasForm}

pub record NetText : Type 0 where
  pub to_string : Ip → Text
  pub parse : Text → Ip

-- The characters of `"\n\r\t "`
abbrev pub is_blank : ℕ → Bool
is_blank c = c == b'\n' || c == b'\r' || c == b'\t' || c == b' '

-- The name of the file that keeps the last address of a range, without the number of the range.
abbrev pub last_ip_file_prefix : Text
last_ip_file_prefix = codes "last_reserved_ip."

-- ParseIP returns an address equal to the one that String printed, and nil for a text that is no
-- address. Equal addresses are printed alike, with digits, letters, dots and colons.
pub record NetTextLaws (t : NetText) : Type 0 where
  pub parse_to_string : (a c : Ip) → HasForm a c → HasForm (t.parse (t.to_string a)) c
  pub to_string_form : (a c : Ip) → HasForm a c → t.to_string a ≡ t.to_string c
  pub parse_last : (id : Text) → t.parse (last_ip_file_prefix ++ id) ≡ []
  pub no_dash : (a c : Ip) → HasForm a c → has_char b'-' (t.to_string a) ≡ false
  pub no_newline : (a c : Ip) → HasForm a c → has_char b'\n' (t.to_string a) ≡ false
  pub no_blank : (a c : Ip) → HasForm a c → any is_blank (t.to_string a) ≡ false
