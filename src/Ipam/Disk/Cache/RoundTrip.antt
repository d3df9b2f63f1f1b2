-- ===== src/Ipam/Disk/Cache/RoundTrip.antt =====
-- LoadCache on what FlashCache writes (multus-ipam/backend/disk/backend.go).
use multus_ext_cni.Prelude.{
  ℕ, subst, map, ok, err, if◌then◌else◌, true, Bool, false, ◌≡◌, ◌∙◌, refl, sym, ap, ◌||◌, List, [],
  ◌∷◌, ◌++◌, some, any, Text, trim_right, split, split-part, split-append, has_char, arith, All,
}
use multus_ext_cni.Net.NetText.{NetText, NetTextLaws, is_blank}
use multus_ext_cni.Ipam.Address.{HasForm, IsCanonical}
use multus_ext_cni.Ipam.Address.Laws.{form-IsCanonical}
use multus_ext_cni.Ipam.Lease.{IpAddr}
use multus_ext_cni.Ipam.Range.{SimpleRange}
use multus_ext_cni.Ipam.SimpleRange
use multus_ext_cni.Ipam.SimpleRange.{form_of}
use multus_ext_cni.Net.{Ip}
use multus_ext_cni.Ipam.Disk.Cache.{without_last, parse_line, parse_lines, load_cache, flash_cache}

trim_right-id : (s : Text) → any is_blank s ≡ false → trim_right is_blank s ≡ s
unfolding trim_right
trim_right-id [] h = refl
trim_right-id (c ∷ s) h = ground (arith, trim_right-id s)

any-append : (q : ℕ → Bool) (s t : Text) → any q (s ++ t) ≡ (any q s || any q t)
any-append q [] t = refl
any-append q (c ∷ s) t = ground (arith, any-append q s t)

has_char-append : (x : ℕ) (s t : Text) → has_char x (s ++ t) ≡ (has_char x s || has_char x t)
unfolding has_char
has_char-append x [] t = refl
has_char-append x (c ∷ s) t = ground (arith, has_char-append x s t)

-- A text has a first part.
split-cons : (sep : ℕ) (s : Text) → (m : Text) × (ls : List Text) × (split sep s ≡ m ∷ ls)
unfolding split
split-cons sep [] = ([], [], refl)
split-cons sep (c ∷ s) = cons (split sep (c ∷ s)) refl
  where
    cons :
        (l : List Text)
        → split sep (c ∷ s) ≡ l
        → (m : Text) × (ls : List Text) × (split sep (c ∷ s) ≡ m ∷ ls)
    cons [] e = absurd (ground (arith, e))
    cons (m ∷ ls) e = (m, ls, e)

-- Both ends of a range in canonical form.
abbrev pub AreCanonical : SimpleRange → Type 0
AreCanonical r = IsCanonical r.range_start × IsCanonical r.range_end

-- The ends of a range are addresses.
abbrev pub HasEnds : SimpleRange → Type 0
HasEnds r = ((a : Ip) × HasForm r.range_start a) × ((b : Ip) × HasForm r.range_end b)

-- The ranges are the same, up to the forms of their addresses.
abbrev pub AreForms : List SimpleRange → List SimpleRange → Type 0
AreForms [] [] = Unit
AreForms [] (r ∷ rs) = ⊥
AreForms (q ∷ qs) [] = ⊥
AreForms (q ∷ qs) (r ∷ rs) =
    HasForm q.range_start r.range_start × HasForm q.range_end r.range_end × AreForms qs rs

module _ (t : NetText) (laws : NetTextLaws t) where
  open t use {to_string, parse}

  abbrev line : SimpleRange → Text
  line r = to_string r.range_start ++ b'-' ∷ to_string r.range_end

  abbrev parsed : SimpleRange → SimpleRange
  parsed r = record {
    range_start = parse (to_string r.range_start);
    range_end = parse (to_string r.range_end);
  }

  parse_line-line : (r : SimpleRange) → AreCanonical r → parse_line t (line r) ≡ some (parsed r)
  unfolding parse_line
  parse_line-line r (a, b) =
      let a_dash = laws.no_dash r.range_start r.range_start a in
      let b_dash = laws.no_dash r.range_end r.range_end b in
      let plain : any is_blank (line r) ≡ false = ground (
        arith,
        any-append is_blank (to_string r.range_start) (b'-' ∷ to_string r.range_end),
        laws.no_blank r.range_start r.range_start a,
        laws.no_blank r.range_end r.range_end b,
      ) in
      ground (
        arith,
        trim_right-id (line r) plain,
        split-append b'-' (to_string r.range_start) (to_string r.range_end) a_dash,
        split-part b'-' (to_string r.range_end) b_dash,
      )

  line-no_newline : (r : SimpleRange) → AreCanonical r → has_char b'\n' (line r) ≡ false
  unfolding has_char
  line-no_newline r (a, b) = ground (
    arith,
    has_char-append b'\n' (to_string r.range_start) (b'-' ∷ to_string r.range_end),
    laws.no_newline r.range_start r.range_start a,
    laws.no_newline r.range_end r.range_end b,
  )

  parse_nil : parse_lines t (without_last (split b'\n' [])) ≡ some []
  unfolding parse_lines split
  parse_nil = refl

  without_last-cons :
      (l : Text) (sep : ℕ) (s : Text)
      → without_last (l ∷ split sep s) ≡ l ∷ without_last (split sep s)
  unfolding split
  without_last-cons l sep [] = refl
  without_last-cons l sep (c ∷ s) =
      let (m, ls, e) = split-cons sep (c ∷ s) in
      ap (λ x. without_last (l ∷ x)) e ∙ sym (ap (λ x. l ∷ without_last x) e)

  parse_lines-cons :
      (r : SimpleRange)
      → AreCanonical r
      → (ls : List Text) (qs : List SimpleRange) → parse_lines t ls ≡ some qs
      → parse_lines t (line r ∷ ls) ≡ some (parsed r ∷ qs)
  unfolding parse_lines
  parse_lines-cons r own ls qs rest = ground (arith, parse_line-line r own, rest)

  module _ (ipaddr : IpAddr) where
    open ipaddr use {ip4_to_uint32, uint32_to_ip4}

    form-HasForm : (a c : Ip) → HasForm a c → HasForm (form_of a) (form_of a)
    form-HasForm a c is =
        subst (λ x. HasForm x x) (sym (ap (λ r. elim r [ ok c ↦ c | err e ↦ a ]) is.form))
          (form-IsCanonical is)

    either-HasForm :
        {a b : Ip} (left : Bool)
        → ((c : Ip) × HasForm a c)
        → ((c : Ip) × HasForm b c)
        → (c : Ip) × HasForm (if left then a else b) c
    either-HasForm true is_a is_b = is_a
    either-HasForm false is_a is_b = is_b

    round_end-HasForm :
        ((n : ℕ) → (c : Ip) × HasForm (uint32_to_ip4 n) c)
        → (r : SimpleRange) → HasEnds r
        → (c : Ip) × HasForm (SimpleRange.round_end ipaddr r) c
    unfolding SimpleRange.round_end
    round_end-HasForm numbered r (start, end) = either-HasForm _ end (numbered _)

    canonicalize-AreCanonical :
        ((n : ℕ) → (c : Ip) × HasForm (uint32_to_ip4 n) c)
        → (r : SimpleRange) → HasEnds r
        → AreCanonical (SimpleRange.canonicalize ipaddr r)
    unfolding SimpleRange.canonicalize
    canonicalize-AreCanonical numbered r ((a, is), end) =
        let (c, ended) =
          round_end-HasForm numbered (record r { range_start = a })
            ((a, form-IsCanonical is), end) in
        subst AreCanonical
          (sym (
            ap
              (λ x. elim x [
                | err e ↦ r
                | ok start ↦ record {
                  range_start = start;
                  range_end =
                      form_of (SimpleRange.round_end ipaddr (record r { range_start = start }));
                }
              ])
              is.form))
          (form-IsCanonical is, form-HasForm _ c ended)

    lines-flash :
        ((n : ℕ) → (c : Ip) × HasForm (uint32_to_ip4 n) c)
        → (rs : List SimpleRange) → All HasEnds rs
        → (qs : List SimpleRange) × (parse_lines t
              (without_last (split b'\n' (flash_cache t ipaddr rs)))
            ≡ some qs)
          × AreForms qs (map (SimpleRange.canonicalize ipaddr) rs)
    unfolding parse_lines flash_cache
    lines-flash numbered [] all = ([], parse_nil, tt)
    lines-flash numbered (r ∷ rs) (own, all) =
        let c = SimpleRange.canonicalize ipaddr r in
        let is : AreCanonical c = canonicalize-AreCanonical numbered r own in
        let (qs, rest, forms) = lines-flash numbered rs all in
        let e = split-append b'\n' (line c) (flash_cache t ipaddr rs) (line-no_newline c is) in
        (
          parsed c ∷ qs,
          ap (λ ls. parse_lines t (without_last ls)) e
              ∙ ap (parse_lines t) (without_last-cons (line c) b'\n' (flash_cache t ipaddr rs))
              ∙ parse_lines-cons c is (without_last (split b'\n' (flash_cache t ipaddr rs))) qs
                  rest,
          (
            laws.parse_to_string c.range_start c.range_start is.0,
            laws.parse_to_string c.range_end c.range_end is.1,
            forms,
          ),
        )

    -- LoadCache on the file that FlashCache writes for ranges whose ends are addresses, where
    -- Uint32ToIP4 gives addresses, returns, without a panic, as many ranges in the same order,
    -- with ends of the same canonical forms as Canonicalize makes of the ranges.
    pub load-flash :
        ((n : ℕ) → (c : Ip) × HasForm (uint32_to_ip4 n) c)
        → (rs : List SimpleRange) → All HasEnds rs
        → (qs : List SimpleRange) × (load_cache t (some (flash_cache t ipaddr rs)) ≡ some qs)
          × AreForms qs (map (SimpleRange.canonicalize ipaddr) rs)
    unfolding load_cache
    load-flash numbered rs all = lines-flash numbered rs all
