-- ===== src/Ipam/Disk/Keys.antt =====
-- Reserve, GetByID and ReleaseByID of the disk store (multus-ipam/backend/disk/backend.go) together:
-- the key in the file of an address.
use multus_ext_cni.Prelude.{
  ◌≡◌, refl, sym, ◌∙◌, ap, true, false, List, [], ◌∷◌, ◌++◌, some, if◌then◌else◌, Text, text_eq,
  text_eq_iff, text_eq_refl, arith, ok, inl, inr, Bool-cases, ◌⊎◌, All, trim_space, has_prefix,
  has_prefix_self, append_assoc, has_prefix-append, any,
}
use multus_ext_cni.Net.{Ip, is_nil}
use multus_ext_cni.Net.NetText.{NetText, NetTextLaws}
use multus_ext_cni.Ipam.Address.{HasForm, IsCanonical}
use multus_ext_cni.Ipam.Address.Laws.{HasForm-nonempty}
use multus_ext_cni.Ipam.Disk.Files.{File, lookup, write_file, lookup-write}
use multus_ext_cni.Ipam.Disk.{
  Dir, reserve, last_ip_file, key_of, line_break, get_by_id, collect, release_by_id, release_by_key,
  release_walk,
}
use multus_ext_cni.Ipam.Disk.Contract.{reserve-granted}

-- `x` is an element of the list.
abbrev pub Among : List Ip → Ip → Type 0
Among [] a = ⊥
Among (x ∷ l) a = (x ≡ a) ⊎ Among l a

module _ (t : NetText) (laws : NetTextLaws t) where
  open t use {to_string, parse}

  -- The name of an address is not the name of the file of a last address.
  name-new :
      (ip : Ip) (range_id : Text)
      → IsCanonical ip
      → text_eq (last_ip_file range_id) (to_string ip) ≡ false
  name-new ip range_id c = elim (Bool-cases (text_eq (last_ip_file range_id) (to_string ip))) [
    | inr e ↦ e
    | inl e ↦
        let same : parse (last_ip_file range_id) ≡ parse (to_string ip) =
          ap parse ((text_eq_iff (last_ip_file range_id) (to_string ip)).0 e) in
        absurd (
          ground (
            arith,
            same,
            laws.parse_last range_id,
            HasForm-nonempty (laws.parse_to_string ip ip c),
          ))
  ]

  collect-Among :
      (key old : Text) (fs : List File) (n : Text)
      → trim_space key ≡ key
      → lookup n fs ≡ some key
      → is_nil (parse n) ≡ false
      → Among (collect t key old fs) (parse n)
  unfolding collect lookup
  collect-Among key old [] n plain there nonempty = absurd (ground arith)
  collect-Among key old (f ∷ fs) n plain there nonempty =
      let rest = collect-Among key old fs n plain in
      elim (Bool-cases (text_eq f.name n)) [
        | inr other ↦ ground (arith, rest (ground arith) nonempty)
        | inl here ↦
            let same : parse f.name ≡ parse n = ap parse ((text_eq_iff f.name n).0 here) in
            let text : f.content ≡ key = ground arith in
            let begins : has_prefix (trim_space f.content) key ≡ true =
              ap (λ x. has_prefix x key) (ap trim_space text ∙ plain) ∙ has_prefix_self key in
            ground (arith, same, begins)
      ]

  -- After a Reserve of a canonical address that succeeds, GetByID with the same id and interface
  -- finds the address: one with the same canonical form is among its answers. The key of the
  -- container must not begin or end with white space.
  pub reserve-get_by_id :
      (id ifname : Text) (ip : Ip) (range_id : Text) (d d' : Dir)
      → IsCanonical ip
      → trim_space (key_of id ifname) ≡ key_of id ifname
      → reserve t id ifname ip range_id d ≡ (ok true, d')
      → (a : Ip) × HasForm a ip × Among (get_by_id t id ifname d') a
  unfolding get_by_id
  reserve-get_by_id id ifname ip range_id d d' c plain e =
      let (free, files) = reserve-granted t id ifname ip range_id d d' e in
      let parsed = laws.parse_to_string ip ip c in
      let there : lookup (to_string ip) d'.files ≡ some (key_of id ifname) = rw files (
        ground (
          arith,
          name-new ip range_id c,
          lookup-write (last_ip_file range_id) (to_string ip) (to_string ip)
              (write_file (to_string ip) (key_of id ifname) (write_file (to_string ip) [] d.files)),
          lookup-write (to_string ip) (to_string ip) (key_of id ifname)
              (write_file (to_string ip) [] d.files),
          text_eq_refl (to_string ip),
        )) in
      (
        parse (to_string ip),
        parsed,
        collect-Among (key_of id ifname) (trim_space id) d'.files (to_string ip) plain there
            (HasForm-nonempty parsed),
      )

  -- What a release without failures leaves of the files.
  abbrev pub strip : Text → List File → List File
  strip key [] = []
  strip key (f ∷ fs) =
      let rest = strip key fs in if has_prefix (trim_space f.content) key then rest else f ∷ rest

  release_walk-strip :
      (key : Text) (fs : List File)
      → (release_walk t key fs []
          ≡ (any (λ f. has_prefix (trim_space f.content) key) fs, strip key fs, []))
  unfolding release_walk
  release_walk-strip key [] = refl
  release_walk-strip key (f ∷ fs) = ground (arith, release_walk-strip key fs)

  -- Without the key, and without the bare id, nothing is collected.
  collect-strip :
      (key old : Text) (fs : List File)
      → All (λ f. text_eq (trim_space f.content) old ≡ false) fs
      → collect t key old (strip key fs) ≡ []
  unfolding collect
  collect-strip key old [] none' = refl
  collect-strip key old (f ∷ fs) none' = ground (arith, collect-strip key old fs none'.1)

  collect-strip_id :
      (id rest : Text) (fs : List File) → collect t (id ++ rest) id (strip id fs) ≡ []
  unfolding collect
  collect-strip_id id rest [] = refl
  collect-strip_id id rest (f ∷ fs) = ground (
    arith,
    collect-strip_id id rest fs,
    has_prefix-append (trim_space f.content) id rest,
    text_eq_iff (trim_space f.content) id,
    has_prefix_self id,
  )

  lookup-strip :
      (key n content : Text) (fs : List File)
      → lookup n fs ≡ some content
      → has_prefix (trim_space content) key ≡ false
      → lookup n (strip key fs) ≡ some content
  unfolding lookup
  lookup-strip key n content [] there other = there
  lookup-strip key n content (f ∷ fs) there other = ground (arith, lookup-strip key n content fs)

  -- A longer key is no longer collected either.
  collect-strip_longer :
      (key more old : Text) (fs : List File)
      → All (λ f. text_eq (trim_space f.content) old ≡ false) fs
      → collect t (key ++ more) old (strip key fs) ≡ []
  unfolding collect
  collect-strip_longer key more old [] none' = refl
  collect-strip_longer key more old (f ∷ fs) none' = ground (
    arith,
    collect-strip_longer key more old fs none'.1,
    has_prefix-append (trim_space f.content) key more,
  )

  key_of-append : (id ifname more : Text) → key_of id ifname ++ more ≡ key_of id (ifname ++ more)
  key_of-append id ifname more = append_assoc (trim_space id) (line_break ++ ifname) more

  strip-none :
      (key : Text) (fs : List File)
      → any (λ f. has_prefix (trim_space f.content) key) fs ≡ false
      → strip key fs ≡ fs
  strip-none key [] none' = refl
  strip-none key (f ∷ fs) none' = ground (arith, strip-none key fs)

  -- What ReleaseByID leaves: the files without the key, or without the id where no file had the key.
  release_by_id-strip :
      (id ifname : Text) (fs : List File)
      → let d : Dir = record { files = fs; faults = [] } in
        let d' : Dir = (release_by_id t id ifname d).1 in
        (d'.files ≡ strip (key_of id ifname) fs) ⊎ (d'.files ≡ strip (trim_space id) fs)
  unfolding release_by_id release_by_key
  release_by_id-strip id ifname fs =
      elim (Bool-cases (any (λ f. has_prefix (trim_space f.content) (key_of id ifname)) fs)) [
        | inl hit ↦ inl (ground (arith, release_walk-strip (key_of id ifname) fs))
        | inr miss ↦ inr (
            ground (
              arith,
              release_walk-strip (key_of id ifname) fs,
              release_walk-strip (trim_space id) fs,
              strip-none (key_of id ifname) fs miss,
            ))
      ]

  -- ReleaseByID on a directory where no call fails and no file holds the bare id: afterwards
  -- GetByID finds no address for that id and interface, and none for an interface whose name only
  -- begins with the name of that interface.
  pub release_by_id-get_by_id :
      (id ifname more : Text) (fs : List File)
      → let d : Dir = record { files = fs; faults = [] } in
        All (λ f. text_eq (trim_space f.content) (trim_space id) ≡ false) fs
        → get_by_id t id (ifname ++ more) (release_by_id t id ifname d).1 ≡ []
  unfolding get_by_id
  release_by_id-get_by_id id ifname more fs none' = elim (release_by_id-strip id ifname fs) [
    | inl e ↦
        ap (collect t (key_of id (ifname ++ more)) (trim_space id)) e
        ∙ ap (λ k. collect t k (trim_space id) (strip (key_of id ifname) fs))
            (sym (key_of-append id ifname more))
        ∙ collect-strip_longer (key_of id ifname) more (trim_space id) fs none'
    | inr e ↦
        ap (collect t (key_of id (ifname ++ more)) (trim_space id)) e
        ∙ collect-strip_id (trim_space id) (line_break ++ (ifname ++ more)) fs
  ]

  -- ReleaseByID on a directory where no call fails keeps, with its content, every file whose
  -- content does not begin with the id.
  release_by_id-keeps :
      (id ifname n content : Text) (fs : List File)
      → let d : Dir = record { files = fs; faults = [] } in
        lookup n fs ≡ some content
        → has_prefix (trim_space content) (trim_space id) ≡ false
        → lookup n (release_by_id t id ifname d).1.files ≡ some content
  release_by_id-keeps id ifname n content fs there other = elim (release_by_id-strip id ifname fs) [
    | inl e ↦
        ap (lookup n) e
        ∙ lookup-strip (key_of id ifname) n content fs there (
            ground (
              arith,
              other,
              has_prefix-append (trim_space content) (trim_space id) (line_break ++ ifname),
            ))
    | inr e ↦ ap (lookup n) e ∙ lookup-strip (trim_space id) n content fs there other
  ]
