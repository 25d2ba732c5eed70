-- ===== src/Client/Serving.antt =====
-- What a client needs of a database: the interface of core/db.h between the two.
use ycsb_c_cloud.Base.{ℕ, ◌≡◌, Option, Str, List, []}
use ycsb_c_cloud.Values.{KvPair}
use ycsb_c_cloud.Generators.Doubles.{Doubles}
use ycsb_c_cloud.Workload.{returned}
use ycsb_c_cloud.Numbers.{ℤ, pos}
use ycsb_c_cloud.Client.{Database}
use ycsb_c_cloud.Client.Ready.{Limits, IsKey, IsWritten}

module _ (database : Database) where
  -- The calls for keys of records and for values that a workload writes return, with a status of which
  -- `IsStatus` holds, from and to states of which `Good` holds.
  pub record IsServing {d : Doubles} (m : Limits d) (Good : database.Db → Type 0)
      (IsStatus : ℕ → Type 0) : Type 0 where
    pub reads :
        (s : database.Db) (table key : Str) (fields : Option (List Str))
        → Good s
        → IsKey m key
        → (status : ℕ) × (out : List KvPair) × (s' : database.Db) × (database.read_record s table
              key fields []
            ≡ returned (pos status, out, s'))
          × IsStatus status
          × Good s'
    pub scans :
        (s : database.Db) (table key : Str) (len : ℤ) (fields : Option (List Str))
        → Good s
        → IsKey m key
        → (status : ℕ) × (out : List (List KvPair)) × (s' : database.Db) × (database.scan_records s
              table key len fields []
            ≡ returned (pos status, out, s'))
          × IsStatus status
          × Good s'
    pub updates :
        (s : database.Db) (table key : Str) (values : List KvPair)
        → Good s
        → IsKey m key
        → IsWritten m values
        → (status : ℕ) × (s' : database.Db) × (database.update_record s table key values
            ≡ returned (pos status, s'))
          × IsStatus status
          × Good s'
    pub inserts :
        (s : database.Db) (table key : Str) (values : List KvPair)
        → Good s
        → IsWritten m values
        → (status : ℕ) × (s' : database.Db) × (database.insert_record s table key values
            ≡ returned (pos status, s'))
          × IsStatus status
          × Good s'
    pub times : (s : database.Db) (kind time : ℕ) → Good s → Good (database.record_time s kind time)

  -- Beginning and ending a thread, and a report of the latencies, keep `Good`.
  pub record IsThreaded (Good : database.Db → Type 0) : Type 0 where
    pub begins : (s : database.Db) → Good s → Good (database.init_thread s)
    pub ends : (s : database.Db) → Good s → Good (database.close_thread s)
    pub reports : (s : database.Db) (iops : ℕ) → Good s → Good (database.latency_hiccup s iops)
