-- ===== src/RocksDb/Store.antt =====
-- What RocksDBCloud uses of `rocksdb::DB`: point reads, writes and deletes, and iteration.
use ycsb_c_cloud.Base.{◌≡◌, ◌≢◌, Option, some, Str, List}

-- The outcome of `Get`: `s.ok()` with the value, `s.IsNotFound()`, or any other status.
pub data Lookup : Type 0 where
  found : Str → Lookup
  not_found failed : Lookup

-- `none` is a write whose status is not ok. `entries_from` is what an iterator visits after `Seek`.
pub record Engine : Type 1 where
  pub State : Type 0
  pub get : State → Str → Lookup
  pub put : State → Str → Str → Option State
  pub delete : State → Str → Option State
  pub entries_from : State → Str → List (Str × Str)

-- A write that reports success is what later reads of its key see, and concerns no other key.
pub record EngineLaws (e : Engine) : Type 0 where
  pub get-put_self :
      (s s' : e.State) (k v : Str) → e.put s k v ≡ some s' → e.get s' k ≡ Lookup.found v
  pub get-put_ne :
      (s s' : e.State) (k j v : Str) → k ≢ j → e.put s k v ≡ some s' → e.get s' j ≡ e.get s j
  pub get-delete_self :
      (s s' : e.State) (k : Str) → e.delete s k ≡ some s' → e.get s' k ≡ Lookup.not_found
  pub get-delete_ne :
      (s s' : e.State) (k j : Str) → k ≢ j → e.delete s k ≡ some s' → e.get s' j ≡ e.get s j
