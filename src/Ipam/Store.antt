-- ===== src/Ipam/Store.antt =====
-- The interface backend.Store of multus-ipam/backend/store.go, as the allocator calls it. `S` is the
-- state of the store. Lock and Unlock enclose each call of the allocator, so that no other caller
-- is seen in between: a call is a function on the state.
use multus_ext_cni.Prelude.{◌≡◌, Bool, true, false, ok, List, Text, Result}
use multus_ext_cni.Net.{Ip}

pub data StoreError : Type 0 where
  io_error not_exist : StoreError

pub record Store (S : Type 0) : Type 0 where
  pub reserve : Text → Text → Ip → Text → S → Result StoreError Bool × S
  -- `nil` where the code gets an error, which it only logs
  pub last_reserved_ip : Text → S → Ip
  pub release_by_id : Text → Text → S → Result StoreError (Unit {0}) × S
  pub get_by_id : Text → Text → S → List Ip

-- What a store promises of Reserve: it refuses exactly what is taken, and then changes nothing.
pub record StoreContract {S : Type 0} (store : Store S) : Type 1 where
  pub Taken : S → Ip → Type 0
  pub refused :
      (id ifname : Text) (ip : Ip) (range_id : Text) (s s' : S)
      → store.reserve id ifname ip range_id s ≡ (ok false, s')
      → (s' ≡ s) × Taken s ip
  pub granted :
      (id ifname : Text) (ip : Ip) (range_id : Text) (s s' : S)
      → store.reserve id ifname ip range_id s ≡ (ok true, s')
      → (¬ Taken s ip) × Taken s' ip
