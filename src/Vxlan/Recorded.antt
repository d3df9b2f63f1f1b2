-- ===== src/Vxlan/Recorded.antt =====
-- The record of an interface (multus-vxlan/backend/etcdv3cli/cli.go) is in etcd or in the cache, from
-- RecVxlan on.
use multus_ext_cni.Prelude.{
  ◌≡◌, ◌≢◌, ◌⊎◌, inl, inr, refl, sym, ◌∙◌, ap, subst, Bool, true, false, List, [], ◌∷◌, Option,
  none, some, Text, text_eq, text_eq_iff, text_eq_refl, trim, Result, ok, err, arith, Bool-cases,
  Option-cases,
}
use multus_ext_cni.Net.NetText.{is_blank}
use multus_ext_cni.Ipam.Disk.Files.{File, lookup, write_file, lookup-write}
use multus_ext_cni.Etcd.{EtcdClient, EtcdError, key_exists, trans_put_key}
use multus_ext_cni.Etcd.Laws.{EtcdLaws, trans_put_key-keeps, trans_put_key-there}
use multus_ext_cni.Vxlan.{Cache, Node, vxlan_key, cache_rec, says_exists, keep_record, rec_vxlan}

-- The file of an interface has the address.
abbrev pub IsCached : Text → Text → List File → Type 0
IsCached vxlan src files =
    (content : Text) × (lookup vxlan files ≡ some content) × (trim is_blank content ≡ src)

-- What cacheRec leaves of the files: as they were, or another file of the interface, which is the record
-- where it succeeds.
abbrev Rewrites : Text → Text → List File → Bool → List File → Type 0
Rewrites vxlan src files done after =
    ((done ≡ false) × (after ≡ files))
    ⊎ ((t : Text) × (after ≡ write_file vxlan t files) × ((done ≡ true) → t ≡ src))

cache_rec-faults :
    (vxlan src : Text) (there : Bool) (files : List File) (faults : List Bool) (cut : Option Text)
    → let c =
        cache_rec vxlan src
          (record { is_there = there; files = files; faults = faults; cut = cut }) in
      Rewrites vxlan src files c.0 c.1.files
unfolding cache_rec
cache_rec-faults vxlan src there files [] cut = inr (src, refl, λ e. refl)
cache_rec-faults vxlan src there files (true ∷ _) cut = inl (refl, refl)
cache_rec-faults vxlan src there files (false ∷ []) cut = inr (src, refl, λ e. refl)
cache_rec-faults vxlan src there files (false ∷ true ∷ _) cut = inl (refl, refl)
cache_rec-faults vxlan src there files (false ∷ false ∷ []) cut = inr (src, refl, λ e. refl)
cache_rec-faults vxlan src there files (false ∷ false ∷ true ∷ _) none = inl (refl, refl)
cache_rec-faults vxlan src there files (false ∷ false ∷ true ∷ _) (some t) =
    inr (t, refl, λ e. absurd (cc e))
cache_rec-faults vxlan src there files (false ∷ false ∷ false ∷ _) cut = inr (src, refl, λ e. refl)

cache_rec-files :
    (vxlan src : Text) (c : Cache)
    → Rewrites vxlan src c.files (cache_rec vxlan src c).0 (cache_rec vxlan src c).1.files
cache_rec-files vxlan src c = cache_rec-faults vxlan src c.is_there c.files c.faults c.cut

module _ {W : Type 0} (client : EtcdClient W) (laws : EtcdLaws client) where
  open laws use {Holds, root, node, connect_root, connect_node, connect_keeps}

  -- The record of an interface is in etcd or in the cache.
  abbrev pub IsRecorded : Text → Text → Node W → Type 0
  IsRecorded vxlan src s =
      Holds (vxlan_key root vxlan src) s.etcd ⊎ IsCached vxlan src s.cache.files

  -- A write of a file keeps the record of another interface.
  write-IsCached :
      (v x vxlan src : Text) (files : List File)
      → v ≢ vxlan
      → IsCached vxlan src files
      → IsCached vxlan src (write_file v x files)
  write-IsCached v x vxlan src files other (content, there, same) =
      elim (Bool-cases (text_eq v vxlan)) [
        | inr apart ↦ (content, ground (arith, lookup-write v vxlan x files), same)
        | inl one ↦ absurd (other ((text_eq_iff v vxlan).0 one))
      ]

  -- etcd loses no record.
  pub moved :
      (vxlan src : Text) (w w' : W) (c : Cache)
      → (Holds (vxlan_key root vxlan src) w → Holds (vxlan_key root vxlan src) w')
      → IsRecorded vxlan src (record { etcd = w; cache = c })
      → IsRecorded vxlan src (record { etcd = w'; cache = c })
  moved vxlan src w w' c keeps (inl here) = inl (keeps here)
  moved vxlan src w w' c keeps (inr cached) = inr cached

  keep_record-keeps :
      (key id v x vxlan src : Text) (r : Result EtcdError (Unit {0}) × W) (c : Cache)
      → v ≢ vxlan
      → IsRecorded vxlan src (record { etcd = r.1; cache = c })
      → IsRecorded vxlan src (keep_record client key id v x r c).1
  unfolding keep_record
  keep_record-keeps key id v x vxlan src (ok _, w) c other known = known
  keep_record-keeps key id v x vxlan src (err e, w) c other known =
      elim (Bool-cases (says_exists client key id e)) [
        | inl there ↦ rw (there, keep_record) known
        | inr failed ↦
            rw (failed, keep_record)
              (elim known [
                | inl in_etcd ↦ inl in_etcd
                | inr cached ↦ inr (elim (cache_rec-files v x c) [
                  | inl (bad, same) ↦ subst (IsCached vxlan src) (sym same) cached
                  | inr (t, written, success) ↦
                      subst (IsCached vxlan src) (sym written)
                        (write-IsCached v t vxlan src c.files other cached)
                ])
              ])
      ]

  keep_record-IsRecorded :
      (key id vxlan src : Text) (r : Result EtcdError (Unit {0}) × W) (c : Cache)
      → trim is_blank src ≡ src
      → ((e : EtcdError) → says_exists client key id e ≡ true → e ≡ key_exists)
      → ((r.0 ≡ ok tt) ⊎ (r.0 ≡ err key_exists) → Holds (vxlan_key root vxlan src) r.1)
      → (keep_record client key id vxlan src r c).0 ≡ true
      → IsRecorded vxlan src (keep_record client key id vxlan src r c).1
  unfolding keep_record
  keep_record-IsRecorded key id vxlan src (ok _, w) c plain only there done = inl (there (inl refl))
  keep_record-IsRecorded key id vxlan src (err e, w) c plain only there done =
      elim (Bool-cases (says_exists client key id e)) [
        | inl exists ↦ rw (exists, keep_record) (inl (there (inr (ap err (only e exists)))))
        | inr failed ↦
            rw (failed, keep_record)
              (elim (cache_rec-files vxlan src c) [
                | inl (bad, same) ↦ absurd (ground arith)
                | inr (t, written, success) ↦ inr (
                  t,
                  ap (lookup vxlan) written
                      ∙ ground (arith, lookup-write vxlan vxlan t c.files, text_eq_refl vxlan),
                  ap (trim is_blank) (success (ground arith)) ∙ plain,
                )
              ])
      ]

  pub rec_vxlan-keeps :
      (v x vxlan src : Text) (s : Node W)
      → v ≢ vxlan
      → IsRecorded vxlan src s
      → IsRecorded vxlan src (rec_vxlan client v x s).1
  unfolding rec_vxlan
  rec_vxlan-keeps v x vxlan src s other known = elim (Option-cases (client.connect s.etcd).0) [
    | inl failed ↦
        rw (failed, rec_vxlan)
          (moved vxlan src s.etcd (client.connect s.etcd).1 s.cache
            (connect_keeps (vxlan_key root vxlan src) s.etcd) known)
    | inr ((r, id), made) ↦
        let w1 = (client.connect s.etcd).1 in
        let key = vxlan_key r v x in
        rw (made, rec_vxlan)
          (keep_record-keeps key id v x vxlan src (trans_put_key client true key id true w1) s.cache
            other
            (moved vxlan src s.etcd (trans_put_key client true key id true w1).1 s.cache
              (λ here.
                trans_put_key-keeps client laws key id (vxlan_key root vxlan src) w1
                  (connect_keeps (vxlan_key root vxlan src) s.etcd here))
              known))
  ]

  -- No text of an error on the key of the record has the word `exists`, but that of a key that exists.
  abbrev pub IsTold : Text → Text → Type 0
  IsTold vxlan src =
      (e : EtcdError) → says_exists client (vxlan_key root vxlan src) node e ≡ true → e ≡ key_exists

  pub rec_vxlan-IsRecorded :
      (vxlan src : Text) (s : Node W)
      → trim is_blank src ≡ src
      → IsTold vxlan src
      → (rec_vxlan client vxlan src s).0 ≡ true
      → IsRecorded vxlan src (rec_vxlan client vxlan src s).1
  unfolding rec_vxlan
  rec_vxlan-IsRecorded vxlan src s plain told done = elim (Option-cases (client.connect s.etcd).0) [
    | inl failed ↦ absurd (ground arith)
    | inr ((r, id), made) ↦
        let w1 = (client.connect s.etcd).1 in
        let same = connect_root s.etcd r id made in
        let name = connect_node s.etcd r id made in
        let key = vxlan_key r vxlan src in
        let result = trans_put_key client true key id true w1 in
        rw (made, rec_vxlan)
          (keep_record-IsRecorded key id vxlan src result s.cache plain
            (subst (λ x. (e : EtcdError) → says_exists client key x e ≡ true → e ≡ key_exists)
              (sym name)
              (subst
                (λ x.
                  (e : EtcdError)
                  → says_exists client (vxlan_key x vxlan src) node e ≡ true
                  → e ≡ key_exists)
                (sym same) told))
            (λ there.
              subst (λ x. Holds (vxlan_key x vxlan src) result.1) same
                (trans_put_key-there client laws key id w1 there))
            (ground arith))
  ]
