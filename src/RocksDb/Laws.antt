-- ===== src/RocksDb/Laws.antt =====
-- Pairs of operations of db/rocksdb_cloud_db.cc: a read behind a write or a delete.
use ycsb_c_cloud.Base.{
  ℕ, ◌+◌, ◌%◌, ◌^◌, ◌<◌, ◌≡◌, ◌≢◌, sym, ap, ◌∙◌, ◌⊎◌, inl, inr, Option-cases, arith, Option, Str,
  List, [], ◌++◌, length, append-nil,
}
use ycsb_c_cloud.Coding.{Endian}
use ycsb_c_cloud.Values.{KvPair, Outcome, serialize_values, deserialize_values}
use ycsb_c_cloud.Values.RoundTrip.{deserialize-serialize}
use ycsb_c_cloud.RocksDb.Store.{Lookup, Engine, EngineLaws}
use ycsb_c_cloud.RocksDb.{returned, exited, k_ok, Db, read, insert, update, remove}

-- The record fits: fewer than 2 ^ 32 pairs, in fewer than 2 ^ 64 - 1 bytes.
pub record Fits (host : Endian) (values : List KvPair) : Type 0 where
  pub few : length values < 2 ^ 32
  pub short : length (serialize_values host values) + 1 < 2 ^ 64

module _ (e : Engine) (laws : EngineLaws e) (host : Endian) where
  -- A key whose stored string is a serialized record is read as that record.
  pub read_found :
      (db : Db e) (table key : Str) (fields : Option (List Str)) (result values : List KvPair)
      → Fits host values
      → e.get db.engine key ≡ Lookup.found (serialize_values host values)
      → read e host db table key fields result ≡ returned (k_ok, result ++ values, db)
  unfolding read
  read_found db table key fields result values fits h = rw (h, read, decoded)
    where
      decoded :
          deserialize_values host (serialize_values host values) result
          ≡ Outcome.done (result ++ values)
      decoded =
          ap (λ s. deserialize_values host s result)
            (sym (append-nil (serialize_values host values)))
          ∙ deserialize-serialize host values result []
              (rw (append-nil (serialize_values host values)) fits.short) fits.few

  -- A successful Insert or Update stores the serialized record at its key and leaves the other
  -- keys and the count of misses alone, for any table name.
  pub insert_stores :
      (db db' : Db e) (table key : Str) (values : List KvPair) (status : ℕ)
      → insert e host db table key values ≡ returned (status, db')
      → (status ≡ k_ok)
        × (e.get db'.engine key ≡ Lookup.found (serialize_values host values))
        × ((j : Str) → key ≢ j → e.get db'.engine j ≡ e.get db.engine j)
        × (db'.no_result ≡ db.no_result)
  unfolding insert
  insert_stores db db' table key values status h =
      elim (Option-cases (e.put db.engine key (serialize_values host values))) [
        | inl failed ↦ ground (arith, h, failed)
        | inr (engine', ok) ↦
            let same : returned (k_ok, record db { engine = engine' }) ≡ returned (status, db') =
              rw (ok, insert) at h in
            let e_status : k_ok ≡ status = cc in
            let e_db : record db { engine = engine' } ≡ db' = cc in
            (
              sym e_status,
              rw (← e_db) (laws.get-put_self db.engine engine' key _ ok),
              λ j ne. rw (← e_db) (laws.get-put_ne db.engine engine' key j _ ne ok),
              rw (← e_db),
            )
      ]

  pub insert_cases :
      (db : Db e) (table key : Str) (values : List KvPair)
      → (insert e host db table key values ≡ exited)
        ⊎ ((db' : Db e) × (insert e host db table key values ≡ returned (k_ok, db')))
  unfolding insert
  insert_cases db table key values =
      elim (Option-cases (e.put db.engine key (serialize_values host values))) [
        | inl failed ↦ inl (rw (failed, insert))
        | inr (engine', ok) ↦ inr (record db { engine = engine' }, rw (ok, insert))
      ]

  pub remove_cases :
      (db : Db e) (table key : Str)
      → (remove e db table key ≡ exited)
        ⊎ ((db' : Db e) × (remove e db table key ≡ returned (k_ok, db')))
  unfolding remove
  remove_cases db table key = elim (Option-cases (e.delete db.engine key)) [
    | inl failed ↦ inl (rw (failed, remove))
    | inr (engine', ok) ↦ inr (record db { engine = engine' }, rw (ok, remove))
  ]

  -- A successful Delete empties its key and leaves the other keys alone.
  pub remove_stores :
      (db db' : Db e) (table key : Str) (status : ℕ)
      → remove e db table key ≡ returned (status, db')
      → (status ≡ k_ok)
        × (e.get db'.engine key ≡ Lookup.not_found)
        × ((j : Str) → key ≢ j → e.get db'.engine j ≡ e.get db.engine j)
        × (db'.no_result ≡ db.no_result)
  unfolding remove
  remove_stores db db' table key status h = elim (Option-cases (e.delete db.engine key)) [
    | inl failed ↦ ground (arith, h, failed)
    | inr (engine', ok) ↦
        let same : returned (k_ok, record db { engine = engine' }) ≡ returned (status, db') =
          rw (ok, remove) at h in
        let e_status : k_ok ≡ status = cc in
        let e_db : record db { engine = engine' } ≡ db' = cc in
        (
          sym e_status,
          rw (← e_db) (laws.get-delete_self db.engine engine' key ok),
          λ j ne. rw (← e_db) (laws.get-delete_ne db.engine engine' key j ne ok),
          rw (← e_db),
        )
  ]

  -- After an Insert that returns, a Read of the same key returns kOK and adds exactly the inserted
  -- pairs to its result, whatever the table names and the field list are, if the record has fewer
  -- than 2 ^ 32 pairs in fewer than 2 ^ 64 - 1 bytes.
  read-insert :
      (db db' : Db e) (table table' key : Str) (fields : Option (List Str))
      (result values : List KvPair) (status : ℕ)
      → Fits host values
      → insert e host db table key values ≡ returned (status, db')
      → read e host db' table' key fields result ≡ returned (k_ok, result ++ values, db')
  read-insert db db' table table' key fields result values status fits h =
      read_found db' table' key fields result values fits
        (insert_stores db db' table key values status h).1

  -- An Update that returns replaces the record: a Read of the key then finds the updated pairs and
  -- nothing of the record that an Insert had stored there before.
  read-update :
      (db db' db'' : Db e) (table key : Str) (fields : Option (List Str)) (old new : List KvPair)
      (status status' : ℕ)
      → Fits host new
      → insert e host db table key old ≡ returned (status, db')
      → update e host db' table key new ≡ returned (status', db'')
      → read e host db'' table key fields [] ≡ returned (k_ok, new, db'')
  unfolding update
  read-update db db' db'' table key fields old new status status' fits h h' =
      read-insert db' db'' table table key fields [] new status' fits h'

  -- After a Delete that returns, a Read of the key still returns kOK, leaves its result alone and
  -- adds one to the `unsigned` count of misses.
  pub read-remove :
      (db db' : Db e) (table key : Str) (fields : Option (List Str)) (result : List KvPair)
      (status : ℕ)
      → remove e db table key ≡ returned (status, db')
      → read e host db' table key fields result
        ≡ returned (k_ok, result, record db' { no_result = (db.no_result + 1) % 2 ^ 32 })
  read-remove db db' table key fields result status h =
      let (ok, gone, rest, same) = remove_stores db db' table key status h in
      rw (← same) (unfold read in rw (gone, read))
