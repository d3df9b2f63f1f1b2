-- ===== src/Etcd.antt =====
-- The transactions of etcdv3/etcdv3.go on a key of etcd, under the lock of a directory. `W` is the state of
-- etcd.
pub mod Paths
pub mod Laws
use multus_ext_cni.Prelude.{
  Bool, true, false, not, List, [], ◌∷◌, ◌++◌, Option, none, some, if◌then◌else◌, Text, codes,
  split, trim_right, Result, ok, err,
}
use Paths.{is_slash, join, path_base}

-- The client of etcd: `connect` is New, with the root of the keys and the name of the node; a call that
-- fails answers `false` or `none`. `has_key` is a Get of one key.
pub record EtcdClient (W : Type 0) : Type 0 where
  pub connect : W → Option (Text × Text) × W
  pub lock : Text → W → Bool × W
  pub unlock : Text → W → W
  pub has_key : Text → W → Option Bool × W
  pub put : Text → Text → W → Bool × W
  pub delete : Text → W → Bool × W
  -- the text of the errors of etcd
  pub reason : Text

pub data EtcdError : Type 0 where
  no_client not_locked not_checked key_exists not_written not_deleted : EtcdError
  -- no error: the code calls a method of a nil pointer
  nil_mutex : EtcdError

-- The text of an error of TransPutKey on a key and a value
unfoldable pub error_text : {W : Type 0} → EtcdClient W → Text → Text → EtcdError → Text
error_text client key value no_client = codes "Create etcd client failed, " ++ client.reason
error_text client key value not_locked = codes "get etcd locd failed, " ++ client.reason
error_text client key value not_checked =
    codes "failed to check key " ++ (key ++ (codes ", " ++ client.reason))
error_text client key value key_exists = codes "key " ++ (key ++ codes " exists")
error_text client key value not_written =
    codes "write key " ++ (key ++ (codes " to " ++ (value ++ codes " failed")))
error_text client key value not_deleted = codes "delete key " ++ (key ++ codes " failed")
error_text client key value nil_mutex = []

-- DirToMutex
unfoldable pub mutex_under : Text → List Text → Text
unfolding join
mutex_under mutex [] = mutex
mutex_under mutex (part ∷ parts) = mutex_under (join (mutex ∷ part ∷ [])) parts

unfoldable pub dir_to_mutex : Text → Text
unfolding mutex_under
dir_to_mutex path = elim (split b'/' (trim_right is_slash path)) [
  | [] ↦ []
  | ◌∷◌ part parts ↦ mutex_under (join (part ∷ codes "mutex" ∷ [])) parts
]

module _ {W : Type 0} (client : EtcdClient W) where
  open client use {connect, lock, unlock, has_key, put, delete}

  -- The client that is given, or a new one
  unfoldable pub with_client :
      Bool → (W → Result EtcdError (Unit {0}) × W) → W → Result EtcdError (Unit {0}) × W
  with_client true call w = call w
  with_client false call w =
      let (made, w1) = connect w in elim made [ none ↦ (err no_client, w1) | some _ ↦ call w1 ]

  -- The check that the key is not there, and the write
  unfoldable pub put_checked : Text → Text → Bool → W → Result EtcdError (Unit {0}) × W
  put_checked key value no_exist w =
      let (found, w1) = has_key key w in
      let checked : Option Bool × W = if no_exist then (found, w1) else (some false, w) in
      let (written, w2) = put key value checked.1 in
      elim checked.0 [
        | none ↦ (err not_checked, checked.1)
        | some true ↦ (err key_exists, checked.1)
        | some false ↦ (if written then ok tt else err not_written, w2)
      ]

  -- TransPutKey
  unfoldable pub trans_put_key : Bool → Text → Text → Bool → W → Result EtcdError (Unit {0}) × W
  unfolding with_client put_checked dir_to_mutex path_base
  trans_put_key given key value no_exist = with_client given λ w.
      let mutex = dir_to_mutex (path_base key) in
      let (locked, w1) = lock mutex w in
      let (result, w2) = put_checked key value no_exist w1 in
      if not locked then (err not_locked, w1) else (result, unlock mutex w2)

  -- TransDelKey: without the lock, the deferred Close is that of a nil pointer, after the deletion.
  unfoldable pub trans_del_key : Bool → Text → W → Result EtcdError (Unit {0}) × W
  unfolding with_client dir_to_mutex path_base
  trans_del_key given key = with_client given λ w.
      let mutex = dir_to_mutex (path_base key) in
      let (locked, w1) = lock mutex w in
      let (gone, w2) = delete key w1 in
      if not locked
      then (err nil_mutex, w2)
      else (if gone then ok tt else err not_deleted, unlock mutex w2)

  -- TransDelKeys, up to a panic
  unfoldable pub trans_del_keys : Bool → List Text → W → Bool × W
  unfolding trans_del_key
  trans_del_keys given [] w = (true, w)
  trans_del_keys given (key ∷ keys) w =
      let (result, w1) = trans_del_key given key w in
      let rest = trans_del_keys given keys w1 in
      elim result [ err nil_mutex ↦ (false, w1) | _ ↦ rest ]
