-- ===== src/Kube/Chosen.antt =====
-- Which file getCNIConfigFromFile (k8sclient/k8sclient.go) takes.
use multus_ext_cni.Prelude.{
  ◌≡◌, ◌∙◌, refl, ap, true, false, List, [], ◌∷◌, ◌++◌, none, some, Text, codes, has_suffix, ok,
  arith, Bool-cases, Option-cases, Result-cases, inl, inr, All,
}
use multus_ext_cni.Kube.Cluster.{ConfListFile, ConfFile, Cluster}
use multus_ext_cni.Kube.Sources.{is_wanted, read_conf_file, search_files, get_cni_config_from_file}

module _ {P : Type 0} (cluster : Cluster P) where
  -- A file as its loader has it: its name and its bytes. A file of one plugin needs a type where its
  -- name is the one that is looked for.
  pub data HasContents (file name bytes : Text) : Type 0 where
    from_list :
        (l : ConfListFile)
        → has_suffix file (codes ".conflist") ≡ true
        → cluster.conf_list_from_file file ≡ some l
        → l.name ≡ name
        → l.bytes ≡ bytes
        → HasContents file name bytes
    from_conf :
        (c : ConfFile)
        → has_suffix file (codes ".conflist") ≡ false
        → cluster.conf_from_file file ≡ some c
        → c.name ≡ name
        → c.bytes ≡ bytes
        → HasContents file name bytes

  -- A file of another name
  abbrev pub IsSkipped : Text → Text → Type 0
  IsSkipped name file =
      (found bytes : Text) × HasContents file found bytes × (is_wanted found name ≡ false)

  -- The first of the files whose name is the one that is looked for, or the first one of all where
  -- none is looked for.
  abbrev pub IsChosen : Text → List Text → Text → Type 0
  IsChosen name files bytes =
      (before : List Text) × (file : Text) × (after : List Text) × (files ≡ before ++ file ∷ after)
      × All (IsSkipped name) before
      × ((found : Text) × HasContents file found bytes × (is_wanted found name ≡ true))

  read_conf_file-some :
      (name file : Text) {bytes : Text}
      → read_conf_file cluster name file ≡ ok (some bytes)
      → (found : Text) × HasContents file found bytes × (is_wanted found name ≡ true)
  unfolding read_conf_file
  read_conf_file-some name file {bytes} h =
      elim (Bool-cases (has_suffix file (codes ".conflist"))) [
        | inl list ↦ elim (Option-cases (cluster.conf_list_from_file file)) [
          | inl bad ↦ ground arith
          | inr (l, loaded) ↦ (l.name, from_list l list loaded refl (ground arith), ground arith)
        ]
        | inr single ↦ elim (Option-cases (cluster.conf_from_file file)) [
          | inl bad ↦ ground arith
          | inr (c, loaded) ↦ (c.name, from_conf c single loaded refl (ground arith), ground arith)
        ]
      ]

  read_conf_file-none :
      (name file : Text) → read_conf_file cluster name file ≡ ok none → IsSkipped name file
  unfolding read_conf_file
  read_conf_file-none name file h = elim (Bool-cases (has_suffix file (codes ".conflist"))) [
    | inl list ↦ elim (Option-cases (cluster.conf_list_from_file file)) [
      | inl bad ↦ ground arith
      | inr (l, loaded) ↦ (l.name, l.bytes, from_list l list loaded refl refl, ground arith)
    ]
    | inr single ↦ elim (Option-cases (cluster.conf_from_file file)) [
      | inl bad ↦ ground arith
      | inr (c, loaded) ↦ (c.name, c.bytes, from_conf c single loaded refl refl, ground arith)
    ]
  ]

  search_files-IsChosen :
      (name : Text) (files : List Text) {bytes : Text}
      → search_files cluster name files ≡ ok bytes
      → IsChosen name files bytes
  unfolding search_files
  search_files-IsChosen name [] h = cc
  search_files-IsChosen name (file ∷ files) {bytes} h =
      elim (Result-cases (read_conf_file cluster name file)) [
        | inr (e, bad) ↦ ground arith
        | inl (some found, is) ↦
            let same : found ≡ bytes = ground arith in
            let chosen = read_conf_file-some name file (is ∙ ap (λ b. ok (some b)) same) in
            ([], file, files, refl, tt, chosen)
        | inl (none, is) ↦
            let (before, next, after, apart, skipped, chosen) =
              search_files-IsChosen name files (ground arith) in
            (
              file ∷ before,
              next,
              after,
              ap (◌∷◌ file) apart,
              (read_conf_file-none name file is, skipped),
              chosen,
            )
      ]

  -- Where getCNIConfigFromFile succeeds, it answers with the bytes of a file of the directory
  -- whose name is the one that is looked for, or of any file where none is looked for; and every
  -- file before it has been loaded and has another name.
  pub get_cni_config_from_file-IsChosen :
      (name conf_dir bytes : Text)
      → get_cni_config_from_file cluster name conf_dir ≡ ok bytes
      → (files : List Text) × (cluster.conf_files conf_dir
            (codes ".conf" ∷ codes ".json" ∷ codes ".conflist" ∷ [])
          ≡ some files)
        × IsChosen name files bytes
  unfolding get_cni_config_from_file
  get_cni_config_from_file-IsChosen name conf_dir bytes h =
      elim (Option-cases
        (cluster.conf_files conf_dir (codes ".conf" ∷ codes ".json" ∷ codes ".conflist" ∷ []))) [
          | inl none' ↦ ground arith
          | inr ([], listed) ↦ ground arith
          | inr (file ∷ files, listed) ↦
              (file ∷ files, listed, search_files-IsChosen name (file ∷ files) (ground arith))
        ]
