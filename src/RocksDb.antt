-- ===== src/RocksDb.antt =====
-- The operations of RocksDBCloud in db/rocksdb_cloud_db.cc, which db/rocksdb_db.cc repeats, over a
-- RocksDB that is a parameter.
pub mod Store
pub mod Laws
pub mod Refines
pub mod Latency
pub mod Report
pub mod Memory
mod Runs
use ycsb_c_cloud.Base.{
  ℕ, zero, suc, ◌+◌, ◌%◌, ◌^◌, Option, none, some, Str, List, [], ◌∷◌, if◌then◌else◌,
}
use ycsb_c_cloud.Coding.{Endian}
use ycsb_c_cloud.Values
use ycsb_c_cloud.Values.{KvPair, Outcome, serialize_values, deserialize_values}
use ycsb_c_cloud.RocksDb.Store.{Lookup, Engine}

-- What a call comes to: it returns, it ends the process by `exit(0)`, it reads past a buffer, or
-- the model is out of fuel.
pub data Call {ℓ} (A : Type ℓ) : Type ℓ where
  returned : A → Call A
  exited overrun stuck : Call A

infixl 5 ◌>>=◌
abbrev pub ◌>>=◌ {ℓ κ} : {A : Type ℓ} {B : Type κ} → Call A → (A → Call B) → Call B
returned a >>= f = f a
exited >>= f = exited
overrun >>= f = overrun
stuck >>= f = stuck

abbrev pub of_outcome {ℓ} : {A : Type ℓ} → Outcome A → Call A
of_outcome (Outcome.done a) = returned a
of_outcome Outcome.overrun = overrun
of_outcome Outcome.stuck = stuck

-- `DB::kOK`
abbrev pub k_ok : ℕ
k_ok = 0

module _ (e : Engine) where
  open e use {State, get, put, delete, entries_from}

  -- The members that the operations change: the database and the `unsigned` count of misses.
  pub record Db : Type 0 where
    pub engine : State
    pub no_result : ℕ

  -- The status code, what `result` holds at the end, and the object.
  unfoldable pub read :
      Endian → Db → Str → Str → Option (List Str) → List KvPair → Call (ℕ × List KvPair × Db)
  read host db table key fields result = elim (get db.engine key) [
    | Lookup.found value ↦ do
      kvs ← of_outcome (deserialize_values host value result)
      returned (k_ok, kvs, db)
    | Lookup.not_found ↦
        returned (k_ok, result, record db { no_result = (db.no_result + 1) % 2 ^ 32 })
    | Lookup.failed ↦ exited
  ]

  -- The local strings `k` and `val` after the loop, which nothing reads.
  scan_loop : ℕ → List (Str × Str) → Str × Str → Str × Str
  scan_loop zero it seen = seen
  scan_loop (suc n) [] seen = seen
  scan_loop (suc n) (entry ∷ it) seen = scan_loop n it entry

  -- `len` is the bound of the loop; a negative `int` bounds it like 0.
  unfoldable pub scan :
      Db
      → Str
      → Str
      → ℕ
      → Option (List Str)
      → List (List KvPair)
      → Call (ℕ × List (List KvPair) × Db)
  unfolding scan_loop
  scan db table key len fields result =
      let seen = scan_loop len (entries_from db.engine key) ([], []) in returned (k_ok, result, db)

  unfoldable pub insert : Endian → Db → Str → Str → List KvPair → Call (ℕ × Db)
  insert host db table key values = elim (put db.engine key (serialize_values host values)) [
    | some engine' ↦ returned (k_ok, record db { engine = engine' })
    | none ↦ exited
  ]

  unfoldable pub update : Endian → Db → Str → Str → List KvPair → Call (ℕ × Db)
  unfolding insert
  update host db table key values = insert host db table key values

  unfoldable pub remove : Db → Str → Str → Call (ℕ × Db)
  remove db table key = elim (delete db.engine key) [
    | some engine' ↦ returned (k_ok, record db { engine = engine' })
    | none ↦ exited
  ]
