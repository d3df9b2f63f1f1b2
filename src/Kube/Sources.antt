-- ===== src/Kube/Sources.antt =====
-- Where the configuration of a network comes from: getCNIConfigFromFile, getCNIConfigFromSpec and
-- cniConfigFromNetworkResource of k8sclient/k8sclient.go.
use multus_ext_cni.Prelude.{
  Bool, true, false, not, ◌||◌, List, [], ◌∷◌, Option, none, some, Text, codes, text_eq, is_empty,
  if◌then◌else◌, has_suffix, Result, ok, err,
}
use multus_ext_cni.Conf.Json.{Json, string, object, lookup, set}
use multus_ext_cni.Conf.Delegates.{unmarshal_map, marshal}
use multus_ext_cni.Kube.Cluster.{
  KubeError, no_files, bad_file, no_file_type, no_such_network, bad_spec, panics_here, lift_conf,
  NetworkAttachmentDefinition, Cluster,
}

-- Not the empty string, as a value in an `interface{}`
abbrev pub is_named : Option Json → Bool
is_named none = false
is_named (some (string [])) = false
is_named (some _) = true

-- `conf.Name == name || name == ""`
abbrev pub is_wanted : Text → Text → Bool
is_wanted found name = text_eq found name || is_empty name

module _ {P : Type 0} (cluster : Cluster P) where
  -- One round of the loop over the files: `none` goes on with the next one.
  unfoldable pub read_conf_file : Text → Text → Result KubeError (Option Text)
  unfolding has_suffix text_eq
  read_conf_file name file =
      if has_suffix file (codes ".conflist")
      then elim (cluster.conf_list_from_file file) [
        | none ↦ err bad_file
        | some l ↦ ok (if is_wanted l.name name then some l.bytes else none)
      ]
      else elim (cluster.conf_from_file file) [
        | none ↦ err bad_file
        | some c ↦
            if not (is_wanted c.name name)
            then ok none
            else if is_empty c.type_name
            then err no_file_type
            else ok (some c.bytes)
      ]

  unfoldable pub search_files : Text → List Text → Result KubeError Text
  unfolding read_conf_file
  search_files name [] = err no_such_network
  search_files name (file ∷ files) =
      let rest = search_files name files in
      elim (read_conf_file name file) [
        | err e ↦ err e
        | ok (some bytes) ↦ ok bytes
        | ok none ↦ rest
      ]

  -- getCNIConfigFromFile
  unfoldable pub get_cni_config_from_file : Text → Text → Result KubeError Text
  unfolding search_files
  get_cni_config_from_file name conf_dir =
      elim (cluster.conf_files conf_dir (codes ".conf" ∷ codes ".json" ∷ codes ".conflist" ∷ [])) [
        | none ↦ err no_files
        | some [] ↦ err no_files
        | some (file ∷ files) ↦ search_files name (file ∷ files)
      ]

  -- getCNIConfigFromSpec; null leaves the map nil, and an assignment to it panics.
  unfoldable pub get_cni_config_from_spec : Text → Text → Result KubeError Text
  unfolding unmarshal_map lookup set marshal
  get_cni_config_from_spec config_data net_name = elim (unmarshal_map cluster.decoder config_data) [
    | err e ↦ err bad_spec
    | ok none ↦ err panics_here
    | ok (some m) ↦
        if is_named (lookup (codes "name") m)
        then ok config_data
        else lift_conf (marshal cluster.decoder (object (set (codes "name") (string net_name) m)))
  ]

  -- cniConfigFromNetworkResource
  unfoldable pub cni_config_from_network_resource :
      NetworkAttachmentDefinition → Text → Result KubeError Text
  unfolding get_cni_config_from_file get_cni_config_from_spec
  cni_config_from_network_resource resource conf_dir =
      if is_empty resource.config
      then get_cni_config_from_file resource.name conf_dir
      else get_cni_config_from_spec resource.config resource.name
