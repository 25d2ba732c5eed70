-- ===== src/Backend.antt =====
-- RocksDBCloud as the database of the client: the operations of RocksDb with the latencies.
pub mod Stored
pub mod Served
mod Runs
use ycsb_c_cloud.Base.{ℕ}
use ycsb_c_cloud.Coding.{Endian}
use ycsb_c_cloud.Numbers.{ℤ, pos, negsuc}
use ycsb_c_cloud.RocksDb as Cloud
use ycsb_c_cloud.RocksDb.{Call, k_ok}
use ycsb_c_cloud.RocksDb.Store.{Engine}
use ycsb_c_cloud.RocksDb.Latency.{Histograms, Latencies, record_time, latency_hiccup}
use ycsb_c_cloud.Workload as Steps
use ycsb_c_cloud.Workload.{Run, ◌>>=◌}
use ycsb_c_cloud.Client.{Database}

abbrev pub run_of {ℓ} : {A : Type ℓ} → Call A → Run A
run_of (Call.returned a) = Steps.returned a
run_of Call.exited = Steps.exited
run_of Call.overrun = Steps.overrun
run_of Call.stuck = Steps.spinning

-- The bound of a loop that counts up to an int.
abbrev pub bound_of : ℤ → ℕ
bound_of (pos n) = n
bound_of (negsuc n) = 0

module _ (e : Engine) (host : Endian) (h : Histograms) where
  pub record CloudState : Type 0 where
    pub db : Cloud.Db e
    pub latencies : Latencies h

  -- The operations that the client uses. RocksDBCloud has no Init and no Close of its own.
  abbrev pub cloud_database : Database
  cloud_database = record {
    Db = CloudState;
    read_record = λ s table key fields result. do
      (status, kvs, db) ← run_of (Cloud.read e host s.db table key fields result)
      Steps.returned (pos status, kvs, record s { db = db });
    scan_records = λ s table key len fields result. do
      (status, kvs, db) ← run_of (Cloud.scan e s.db table key (bound_of len) fields result)
      Steps.returned (pos status, kvs, record s { db = db });
    update_record = λ s table key values. do
      (status, db) ← run_of (Cloud.update e host s.db table key values)
      Steps.returned (pos status, record s { db = db });
    insert_record = λ s table key values. do
      (status, db) ← run_of (Cloud.insert e host s.db table key values)
      Steps.returned (pos status, record s { db = db });
    record_time = λ s kind time. record s { latencies = record_time h s.latencies kind time };
    init_thread = λ s. s;
    close_thread = λ s. s;
    latency_hiccup = λ s iops. record s { latencies = latency_hiccup h s.latencies iops };
  }
