-- ===== src/Ipam/Range/Canonical.antt =====
-- Canonicalize of a range (multus-ipam/backend/allocator/range.go) with a start and an end that are given.
use multus_ext_cni.Prelude.{
  ◌≤◌, ◌≡◌, sym, ◌∙◌, ap, subst, true, not, ◌==◌, ltb, ◌+◌, length, arith, ok, >>=-eq-ok,
  Bool-cases, Result-cases, inl, inr,
}
use multus_ext_cni.Net.{Ip, is_nil, equal, mask_ip, mask_size}
use multus_ext_cni.Net.Number.{value}
use multus_ext_cni.Net.IpPackage.{IpPackage, IpLaws}
use multus_ext_cni.Ipam.Address.{canonicalize_ip, HasForm}
use multus_ext_cni.Ipam.Address.Laws.{HasForm-nonempty, form-IsCanonical}
use multus_ext_cni.Ipam.Range.{
  Range, contains, contains_form, canonicalize, canonicalize_subnet, canonicalize_gateway,
  canonicalize_start, canonicalize_end,
}

module _ (p : IpPackage) where
  -- The first two steps keep the start and the end.
  subnet-keeps :
      (r a : Range)
      → canonicalize_subnet p r ≡ ok a
      → (a.range_start ≡ r.range_start) × (a.range_end ≡ r.range_end)
  unfolding canonicalize_subnet
  subnet-keeps r a e = elim (Result-cases (canonicalize_ip r.subnet.ip)) [
    | inr (x, bad) ↦ absurd (ground arith)
    | inl (ip, form) ↦
        elim (Bool-cases
          (not (ltb (mask_size r.subnet.mask).1 ((mask_size r.subnet.mask).0 + 2)))) [
            | inr small ↦ absurd (ground arith)
            | inl wide ↦ elim (Bool-cases (length ip == length r.subnet.mask)) [
              | inr mixed ↦ absurd (ground arith)
              | inl alike ↦ elim (Bool-cases (equal ip (mask_ip ip r.subnet.mask))) [
                | inr host ↦ absurd (ground arith)
                | inl network ↦ (ground arith, ground arith)
              ]
            ]
          ]
  ]

  gateway-keeps :
      (a b : Range)
      → canonicalize_gateway p a ≡ ok b
      → (b.range_start ≡ a.range_start) × (b.range_end ≡ a.range_end)
  unfolding canonicalize_gateway
  gateway-keeps a b e = elim (Bool-cases (is_nil a.gateway)) [
    | inl none' ↦ (ground arith, ground arith)
    | inr given ↦ elim (Result-cases (canonicalize_ip a.gateway)) [
      | inl (g, form) ↦ (ground arith, ground arith)
      | inr (x, bad) ↦ absurd (ground arith)
    ]
  ]

  start-given :
      (b c : Range) (s : Ip)
      → HasForm b.range_start s
      → canonicalize_start p b ≡ ok c
      → (c ≡ record b { range_start = s }) × (contains p c s ≡ true)
  unfolding canonicalize_start
  start-given b c s form e =
      let given = HasForm-nonempty form in
      let found = form.form in
      let b' : Range = record b { range_start = s } in
      elim (Bool-cases (contains p b' s)) [
        | inr out ↦ absurd (ground arith)
        | inl inside ↦
            let same : c ≡ b' = ground arith in
            (same, subst (λ x. contains p x s ≡ true) (sym same) inside)
      ]

  end-given :
      (b c : Range) (s : Ip)
      → HasForm b.range_end s
      → canonicalize_end p b ≡ ok c
      → (c ≡ record b { range_end = s }) × (contains p c s ≡ true)
  unfolding canonicalize_end
  end-given b c s form e =
      let given = HasForm-nonempty form in
      let found = form.form in
      let b' : Range = record b { range_end = s } in
      elim (Bool-cases (contains p b' s)) [
        | inr out ↦ absurd (ground arith)
        | inl inside ↦
            let same : c ≡ b' = ground arith in
            (same, subst (λ x. contains p x s ≡ true) (sym same) inside)
      ]

module _ (p : IpPackage) (laws : IpLaws p) where
  -- What a range contains is not below its start.
  contains-bounds :
      (c : Range) (x s : Ip)
      → HasForm x x
      → HasForm c.range_start s
      → contains p c x ≡ true
      → (length x ≡ length c.subnet.ip) × (length s ≡ length x → value s ≤ value x)
  unfolding contains contains_form
  contains-bounds c x s form start inside =
      let found = form.form in
      let given = HasForm-nonempty start in
      (ground arith, λ l. ground (arith, laws.cmp_form x c.range_start x s form start (sym l), l))

  -- A range whose start and end are given, with the canonical forms `s` and `e`, and which
  -- Canonicalize accepts: afterwards its start is `s` and its end is `e`, they are of one family,
  -- the number of `s` is at most that of `e`, and the range contains `e`.
  pub canonicalize-ordered :
      (r c : Range) (s e : Ip)
      → HasForm r.range_start s
      → HasForm r.range_end e
      → canonicalize p r ≡ ok c
      → (c.range_start ≡ s)
        × (c.range_end ≡ e)
        × (length s ≡ length e)
        × (value s ≤ value e)
        × (contains p c e ≡ true)
  unfolding canonicalize
  canonicalize-ordered r c s e start end done =
      let (a, at, rest) = >>=-eq-ok (canonicalize_subnet p r) _ done in
      let (b, bt, rest') = >>=-eq-ok (canonicalize_gateway p a) _ rest in
      let (d, dt, last) = >>=-eq-ok (canonicalize_start p b) _ rest' in
      let (a_start, a_end) = subnet-keeps p r a at in
      let (b_start, b_end) = gateway-keeps p a b bt in
      let start' : HasForm b.range_start s =
        subst (λ x. HasForm x s) (sym (b_start ∙ a_start)) start in
      let (d_is, d_contains) = start-given p b d s start' dt in
      let d_end : d.range_end ≡ r.range_end = ap (λ x. x.range_end) d_is ∙ b_end ∙ a_end in
      let end' : HasForm d.range_end e = subst (λ x. HasForm x e) (sym d_end) end in
      let (c_is, c_contains) = end-given p d c e end' last in
      let c_start : c.range_start ≡ s =
        ap (λ x. x.range_start) c_is ∙ ap (λ x. x.range_start) d_is in
      let c_start' : HasForm c.range_start s =
        subst (λ x. HasForm x s) (sym c_start) (form-IsCanonical start) in
      let d_start : HasForm d.range_start s =
        subst (λ x. HasForm x s) (sym (ap (λ x. x.range_start) d_is)) (form-IsCanonical start) in
      let (e_length, bound) = contains-bounds c e s (form-IsCanonical end) c_start' c_contains in
      let (s_length, self) = contains-bounds d s s (form-IsCanonical start) d_start d_contains in
      let subnets : length c.subnet.ip ≡ length d.subnet.ip = ap (λ x. length x.subnet.ip) c_is in
      let lengths : length s ≡ length e = s_length ∙ sym subnets ∙ sym e_length in
      (c_start, ap (λ x. x.range_end) c_is, lengths, bound lengths, c_contains)
