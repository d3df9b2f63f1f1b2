-- ===== src/Etcd/Laws.antt =====
-- What TransPutKey (etcdv3/etcdv3.go) leaves in etcd.
use multus_ext_cni.Prelude.{
  ◌≡◌, ◌⊎◌, inl, inr, true, false, some, Text, ok, err, arith, Bool-cases, Option-cases,
}
use multus_ext_cni.Etcd.{
  EtcdClient, key_exists, put_checked, with_client, trans_put_key, dir_to_mutex,
}
use multus_ext_cni.Etcd.Paths.{path_base}

-- etcd while no other client deletes keys, and the root and the name that New reads stay the same: no call but Delete loses a key, a key that Get finds is there,
-- and so is one that Put has written.
pub record EtcdLaws {W : Type 0} (client : EtcdClient W) : Type 1 where
  pub Holds : Text → W → Type 0
  pub root : Text
  pub connect_root : (w : W) (r id : Text) → (client.connect w).0 ≡ some (r, id) → r ≡ root
  pub node : Text
  pub connect_node : (w : W) (r id : Text) → (client.connect w).0 ≡ some (r, id) → id ≡ node
  pub connect_keeps : (key : Text) (w : W) → Holds key w → Holds key (client.connect w).1
  pub lock_keeps : (mutex key : Text) (w : W) → Holds key w → Holds key (client.lock mutex w).1
  pub unlock_keeps : (mutex key : Text) (w : W) → Holds key w → Holds key (client.unlock mutex w)
  pub get_keeps : (k key : Text) (w : W) → Holds key w → Holds key (client.has_key k w).1
  pub put_keeps : (k v key : Text) (w : W) → Holds key w → Holds key (client.put k v w).1
  pub get_finds :
      (key : Text) (w : W)
      → (client.has_key key w).0 ≡ some true
      → Holds key (client.has_key key w).1
  pub put_writes :
      (key v : Text) (w : W) → (client.put key v w).0 ≡ true → Holds key (client.put key v w).1

module _ {W : Type 0} (client : EtcdClient W) (laws : EtcdLaws client) where
  open laws use {Holds, lock_keeps, unlock_keeps, get_keeps, put_keeps, get_finds, put_writes}

  put_checked-keeps :
      (k v key : Text) (w : W) → Holds key w → Holds key (put_checked client k v true w).1
  unfolding put_checked
  put_checked-keeps k v key w h = elim (Option-cases (client.has_key k w).0) [
    | inl failed ↦ rw (failed, put_checked) (get_keeps k key w h)
    | inr (true, found) ↦ rw (found, put_checked) (get_keeps k key w h)
    | inr (false, free) ↦
        rw (free, put_checked) (put_keeps k v key (client.has_key k w).1 (get_keeps k key w h))
  ]

  put_checked-there :
      (k v : Text) (w : W)
      → ((put_checked client k v true w).0 ≡ ok tt)
        ⊎ ((put_checked client k v true w).0 ≡ err key_exists)
      → Holds k (put_checked client k v true w).1
  unfolding put_checked
  put_checked-there k v w h = elim (Option-cases (client.has_key k w).0) [
    | inl failed ↦ absurd (ground arith)
    | inr (true, found) ↦ rw (found, put_checked) (get_finds k w found)
    | inr (false, free) ↦ elim (Bool-cases (client.put k v (client.has_key k w).1).0) [
      | inl written ↦ rw (free, put_checked) (put_writes k v (client.has_key k w).1 written)
      | inr lost ↦ absurd (ground arith)
    ]
  ]

  -- TransPutKey loses no key.
  pub trans_put_key-keeps :
      (k v key : Text) (w : W) → Holds key w → Holds key (trans_put_key client true k v true w).1
  unfolding trans_put_key with_client
  trans_put_key-keeps k v key w h =
      let mutex = dir_to_mutex (path_base k) in
      let here = lock_keeps mutex key w h in
      elim (Bool-cases (client.lock mutex w).0) [
        | inr open' ↦ rw (open', trans_put_key, with_client) here
        | inl locked ↦
            rw (locked, trans_put_key, with_client)
              (unlock_keeps mutex key _ (put_checked-keeps k v key (client.lock mutex w).1 here))
      ]

  -- After TransPutKey has written a key or found it there, it is there.
  pub trans_put_key-there :
      (k v : Text) (w : W)
      → ((trans_put_key client true k v true w).0 ≡ ok tt)
        ⊎ ((trans_put_key client true k v true w).0 ≡ err key_exists)
      → Holds k (trans_put_key client true k v true w).1
  unfolding trans_put_key with_client
  trans_put_key-there k v w h =
      let mutex = dir_to_mutex (path_base k) in
      elim (Bool-cases (client.lock mutex w).0) [
        | inr open' ↦ absurd (ground arith)
        | inl locked ↦
            rw (locked, trans_put_key, with_client)
              (unlock_keeps mutex k _
                (put_checked-there k v (client.lock mutex w).1 (ground arith)))
      ]
