-- ===== src/LocalDb.antt =====
-- The class RocksDB of db/rocksdb_db.h and db/rocksdb_db.cc, behind its constructor, over a RocksDB
-- that is a parameter.
pub mod Strings
pub mod Serialized
pub mod Deserialized
pub mod Report
pub mod Actions
pub mod Same
mod Runs
use ycsb_c_cloud.Base.{
  ℕ, ◌+◌, ◌%◌, ◌^◌, Bool, true, false, Option, none, some, Str, List, [], ◌∷◌, ltb, if◌then◌else◌,
}
use ycsb_c_cloud.Coding.{Endian}
use ycsb_c_cloud.Numbers.{ℤ, pos, negsuc}
use ycsb_c_cloud.Values.{KvPair}
use ycsb_c_cloud.RocksDb.{Call, returned, exited, ◌>>=◌, of_outcome, k_ok}
use ycsb_c_cloud.RocksDb.Store.{Lookup, Engine}
use ycsb_c_cloud.LocalDb.Strings.{local_serialize_values, local_deserialize_values}

-- `i < len` on int, where `i` counts up from 0.
abbrev pub below_int : ℕ → ℤ → Bool
below_int i (pos n) = ltb i n
below_int i (negsuc n) = false

-- `for (int i = 0; i < len && it->Valid(); i++)`, with what the iterator has left, and `k` and `val`.
unfoldable pub visit_entries : List (Str × Str) → ℕ → ℤ → Str × Str → Str × Str
visit_entries [] i len seen = seen
visit_entries (entry ∷ it) i len seen =
    let rest = visit_entries it (i + 1) len entry in if below_int i len then rest else seen

module _ (e : Engine) where
  open e use {State, get, put, delete, entries_from}

  -- `db_` and `noResult`.
  pub record LocalDb : Type 0 where
    pub db : State
    pub no_result : ℕ

  unfoldable pub local_read :
      Endian
      → LocalDb
      → Str
      → Str
      → Option (List Str)
      → List KvPair
      → Call (ℕ × List KvPair × LocalDb)
  local_read host s table key fields result = elim (get s.db key) [
    | Lookup.found value ↦ do
      kvs ← of_outcome (local_deserialize_values host value result)
      returned (k_ok, kvs, s)
    | Lookup.not_found ↦
        returned (k_ok, result, record s { no_result = (s.no_result + 1) % 2 ^ 32 })
    | Lookup.failed ↦ exited
  ]

  unfoldable pub local_scan :
      LocalDb
      → Str
      → Str
      → ℤ
      → Option (List Str)
      → List (List KvPair)
      → Call (ℕ × List (List KvPair) × LocalDb)
  local_scan s table key len fields result =
      let seen = visit_entries (entries_from s.db key) 0 len ([], []) in returned (k_ok, result, s)

  -- `db_->Put`, and the test of its status.
  unfoldable pub local_insert : Endian → LocalDb → Str → Str → List KvPair → Call (ℕ × LocalDb)
  local_insert host s table key values = do
    value ← of_outcome (local_serialize_values host values)
    elim (put s.db key value) [ some db' ↦ returned (k_ok, record s { db = db' }) | none ↦ exited ]

  unfoldable pub local_update : Endian → LocalDb → Str → Str → List KvPair → Call (ℕ × LocalDb)
  local_update host s table key values = local_insert host s table key values

  unfoldable pub local_delete : LocalDb → Str → Str → Call (ℕ × LocalDb)
  local_delete s table key = elim (delete s.db key) [
    | some db' ↦ returned (k_ok, record s { db = db' })
    | none ↦ exited
  ]
