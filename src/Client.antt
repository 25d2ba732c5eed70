-- ===== src/Client.antt =====
-- Client of core/client.h, over a workload and a database with the operations of core/db.h. The
-- times that the clock shows are arguments.
pub mod Ready
pub mod Serving
pub mod Started
pub mod Counts
pub mod Asked
pub mod Clock
pub mod Samples
mod Runs
use ycsb_c_cloud.Base.{
  ℕ, ◌+◌, ◌-◌, ◌%◌, ◌^◌, Bool, true, false, Option, none, some, Str, List, [], ◌∷◌, ◌++◌, codes,
  ltb, if◌then◌else◌, ◌==◌,
}
use ycsb_c_cloud.Values.{KvPair}
use ycsb_c_cloud.Generators.Doubles.{Doubles}
use ycsb_c_cloud.Generators.Uniform.{UniformEngine}
use ycsb_c_cloud.Workload.{
  Run, returned, failed, thrown, spinning, ◌>>=◌, Operation, insert, read, update, scan,
  readmodifywrite, Randoms, CoreWorkload, next_sequence_key, next_transaction_key, next_operation,
  next_field_name, next_scan_length, build_values, build_update,
}
use ycsb_c_cloud.Numbers.{ℤ, pos, negsuc, to_string}

-- The class DB: a status, what the call leaves in its result, and the database afterwards. Init and
-- Close are called by each thread.
pub record Database : Type 1 where
  pub Db : Type 0
  pub read_record : Db → Str → Str → Option (List Str) → List KvPair → Run (ℤ × List KvPair × Db)
  pub scan_records :
      Db
      → Str
      → Str
      → ℤ
      → Option (List Str)
      → List (List KvPair)
      → Run (ℤ × List (List KvPair) × Db)
  pub update_record : Db → Str → Str → List KvPair → Run (ℤ × Db)
  pub insert_record : Db → Str → Str → List KvPair → Run (ℤ × Db)
  pub record_time : Db → ℕ → ℕ → Db
  pub init_thread : Db → Db
  pub close_thread : Db → Db
  pub latency_hiccup : Db → ℕ → Db

-- `status == DB::kOK` and `status >= 0`
abbrev pub is_ok : ℤ → Bool
is_ok (pos n) = n == 0
is_ok (negsuc n) = false

abbrev pub is_status : ℤ → Bool
is_status (pos n) = true
is_status (negsuc n) = false

-- The conversion of size_t to int.
unfoldable pub int_of : ℕ → ℤ
int_of n = let m = n % 2 ^ 32 in if ltb m (2 ^ 31) then pos m else negsuc (2 ^ 32 - 1 - m)

-- The number of an operation in `enum Operation`.
abbrev pub index_of : Operation → ℕ
index_of insert = 0
index_of read = 1
index_of update = 2
index_of scan = 3
index_of readmodifywrite = 4

-- The argument of RecordTime in DoTransaction.
unfoldable pub time_kind : Operation → ℕ
time_kind insert = 1
time_kind read = 2
time_kind update = 3
time_kind scan = 4
time_kind readmodifywrite = 5

-- The arrays `ops_cnt` and `ops_time`, and `+=` on uint64_t at an operation.
abbrev pub Tally : Type 0
Tally = Operation → ℕ

unfoldable pub add_at : Tally → Operation → ℕ → Tally
add_at tally op n other =
    if index_of op == index_of other then (tally other + n) % 2 ^ 64 else tally other

module _ (d : Doubles) (e : UniformEngine) (r : Randoms d) where
  -- The list of fields to read, or NULL.
  unfoldable pub asked_fields : CoreWorkload d e r → Run (Option (List Str) × CoreWorkload d e r)
  asked_fields w = if w.read_all_fields then returned (none, w) else (do
    (name, w') ← next_field_name d e r w
    returned (some ((codes "field" ++ name) ∷ []), w'))

  unfoldable pub written_values : CoreWorkload d e r → Run (List KvPair × CoreWorkload d e r)
  written_values w = if w.write_all_fields then build_values d e r [] w else build_update d e r [] w

module _ (d : Doubles) (e : UniformEngine) (r : Randoms d) (database : Database) where
  open database use {Db, read_record, scan_records, update_record, insert_record, record_time}

  -- A client with what it shares with the others: the workload, the database, the two arrays and
  -- `uniform_insert_counter`.
  pub record Client : Type 0 where
    pub db : Db
    pub workload : CoreWorkload d e r
    pub ops_cnt : Tally
    pub ops_time : Tally
    pub uniform_insert_counter : ℕ

  unfoldable pub do_insert : Client → Run (Bool × Client)
  do_insert c =
      let (key, w) = next_sequence_key d e r c.workload in
      do
        (pairs, w') ← build_values d e r [] w
        (status, db) ← insert_record c.db w'.table_name key pairs
        returned (is_ok status, record c { db = db; workload = w' })

  unfoldable pub transaction_read : ℕ → Client → Run (ℤ × Client)
  transaction_read fuel c = do
    (key, w) ← next_transaction_key d e r fuel c.workload
    (fields, w') ← asked_fields d e r w
    (status, result, db) ← read_record c.db w'.table_name key fields []
    returned (status, record c { db = db; workload = w' })

  unfoldable pub transaction_read_modify_write : ℕ → Client → Run (ℤ × Client)
  transaction_read_modify_write fuel c = do
    (key, w) ← next_transaction_key d e r fuel c.workload
    (fields, w') ← asked_fields d e r w
    (ignored, result, db) ← read_record c.db w'.table_name key fields []
    (values, w'') ← written_values d e r w'
    (status, db') ← update_record db w''.table_name key values
    returned (status, record c { db = db'; workload = w'' })

  unfoldable pub transaction_scan : ℕ → Client → Run (ℤ × Client)
  transaction_scan fuel c = do
    (key, w) ← next_transaction_key d e r fuel c.workload
    (len, w') ← next_scan_length d e r w
    (fields, w'') ← asked_fields d e r w'
    (status, result, db) ← scan_records c.db w''.table_name key (int_of len) fields []
    returned (status, record c { db = db; workload = w'' })

  unfoldable pub transaction_update : ℕ → Client → Run (ℤ × Client)
  transaction_update fuel c = do
    (key, w) ← next_transaction_key d e r fuel c.workload
    (values, w') ← written_values d e r w
    (status, db) ← update_record c.db w'.table_name key values
    returned (status, record c { db = db; workload = w' })

  -- The branch that is taken: the code behind it is never reached.
  unfoldable pub transaction_insert : Client → Run (ℤ × Client)
  transaction_insert c =
      let key = codes "user" ++ to_string c.uniform_insert_counter in
      do
        (values, w) ← build_values d e r [] c.workload
        (status, db) ← insert_record c.db w.table_name key values
        returned (
          status,
          record c {
            db = db;
            workload = w;
            uniform_insert_counter = (c.uniform_insert_counter + 1) % 2 ^ 64;
          },
        )

  unfoldable pub perform : ℕ → Operation → Client → Run (ℤ × Client)
  perform fuel insert c = transaction_insert c
  perform fuel read c = transaction_read fuel c
  perform fuel update c = transaction_update fuel c
  perform fuel scan c = transaction_scan fuel c
  perform fuel readmodifywrite c = transaction_read_modify_write fuel c

  -- What every case of the switch does when its transaction has ended.
  unfoldable pub timed : Operation → ℕ → Client → Client
  timed op op_time c = record c {
    db = record_time c.db (time_kind op) op_time;
    ops_cnt = add_at c.ops_cnt op 1;
    ops_time = add_at c.ops_time op op_time;
  }

  -- `assert(status >= 0)`
  abbrev checked : ℤ → Client → Run (Bool × Client)
  checked status c = if is_status status then returned (is_ok status, c) else failed

  -- The two times are those at the start and after the transaction.
  unfoldable pub do_transaction : ℕ → ℕ → ℕ → Client → Run (Bool × Client)
  do_transaction fuel start_time end_time c = do
    (op, w) ← next_operation d e r c.workload
    (status, c') ← perform fuel op (record c { workload = w })
    checked status (timed op ((end_time + 2 ^ 64 - start_time) % 2 ^ 64) c')
