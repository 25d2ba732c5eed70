-- ===== src/LocalDb/Actions.antt =====
-- Calls of db/rocksdb_db.cc and of db/rocksdb_cloud_db.cc, one after the other.
use ycsb_c_cloud.Base.{ℕ, ◌^◌, ◌<◌, Option, Str, List, [], ◌∷◌, length}
use ycsb_c_cloud.Coding.{Endian}
use ycsb_c_cloud.Numbers.{ℤ}
use ycsb_c_cloud.Values.{KvPair}
use ycsb_c_cloud.RocksDb as Cloud
use ycsb_c_cloud.RocksDb.{Call, returned, exited, overrun, stuck, ◌>>=◌, of_outcome}
use ycsb_c_cloud.RocksDb.Store.{Engine}
use ycsb_c_cloud.RocksDb.Latency.{Histograms, Latencies, record_time, latency_hiccup}
use ycsb_c_cloud.RocksDb.Report.{Readings, Hiccup, StatsTable, hiccup_line, print_stats}
use ycsb_c_cloud.Backend.{bound_of}
use ycsb_c_cloud.LocalDb.{LocalDb, local_read, local_scan, local_insert, local_update, local_delete}
use ycsb_c_cloud.LocalDb.Report.{
  Kind, LocalLatencies, local_record_time, local_latency_hiccup, local_print_stats,
}

-- A call of one of the operations, and what is seen of it: a status with what stands in the result, a
-- line of the file of hiccups, or the statistics.
pub data Action : Type 0 where
  reads : Str → Str → Option (List Str) → List KvPair → Action
  scans : Str → Str → ℤ → Option (List Str) → List (List KvPair) → Action
  inserts updates : Str → Str → List KvPair → Action
  deletes : Str → Str → Action
  times : ℕ → ℕ → Action
  reports : ℕ → Action
  prints : Str → Action

pub data Answer (Mean : Type 0) : Type 0 where
  answered : ℕ → Answer Mean
  found_pairs : ℕ → List KvPair → Answer Mean
  found_rows : ℕ → List (List KvPair) → Answer Mean
  nothing : Answer Mean
  hiccup_printed : Hiccup Mean → Answer Mean
  stats_printed : StatsTable Mean → Answer Mean

-- Records have fewer than 2 ^ 32 pairs.
abbrev pub IsFew : Action → Type 0
IsFew (inserts table key values) = length values < 2 ^ 32
IsFew (updates table key values) = length values < 2 ^ 32
IsFew _ = Unit

module _ (e : Engine) (host : Endian) (h : Histograms) (readings : Readings h) where
  -- The two objects.
  abbrev pub Local : Type 0
  Local = LocalDb e × LocalLatencies h

  abbrev pub Clouded : Type 0
  Clouded = Cloud.Db e × Latencies h

  abbrev pub local_act : Action → Local → Call (Answer readings.Mean × Local)
  local_act (reads table key fields result) (s, l) = do
    (code, out, s') ← local_read e host s table key fields result
    returned (found_pairs code out, (s', l))
  local_act (scans table key len fields result) (s, l) = do
    (code, out, s') ← local_scan e s table key len fields result
    returned (found_rows code out, (s', l))
  local_act (inserts table key values) (s, l) = do
    (code, s') ← local_insert e host s table key values
    returned (answered code, (s', l))
  local_act (updates table key values) (s, l) = do
    (code, s') ← local_update e host s table key values
    returned (answered code, (s', l))
  local_act (deletes table key) (s, l) = do
    (code, s') ← local_delete e s table key
    returned (answered code, (s', l))
  local_act (times op time) (s, l) = returned (nothing, (s, local_record_time h l op time))
  local_act (reports iops) (s, l) =
      let (printed, l') = local_latency_hiccup h readings l iops in
      returned (hiccup_printed printed, (s, l'))
  local_act (prints stats) (s, l) =
      returned (stats_printed (local_print_stats h readings s.no_result l stats), (s, l))

  abbrev pub cloud_act : Action → Clouded → Call (Answer readings.Mean × Clouded)
  cloud_act (reads table key fields result) (s, l) = do
    (code, out, s') ← Cloud.read e host s table key fields result
    returned (found_pairs code out, (s', l))
  cloud_act (scans table key len fields result) (s, l) = do
    (code, out, s') ← Cloud.scan e s table key (bound_of len) fields result
    returned (found_rows code out, (s', l))
  cloud_act (inserts table key values) (s, l) = do
    (code, s') ← Cloud.insert e host s table key values
    returned (answered code, (s', l))
  cloud_act (updates table key values) (s, l) = do
    (code, s') ← Cloud.update e host s table key values
    returned (answered code, (s', l))
  cloud_act (deletes table key) (s, l) = do
    (code, s') ← Cloud.remove e s table key
    returned (answered code, (s', l))
  cloud_act (times op time) (s, l) = returned (nothing, (s, record_time h l op time))
  cloud_act (reports iops) (s, l) =
      returned (hiccup_printed (hiccup_line e h readings l), (s, latency_hiccup h l iops))
  cloud_act (prints stats) (s, l) =
      returned (stats_printed (print_stats e h readings s l stats), (s, l))

  -- One call after the other, until one does not return.
  abbrev pub local_acts : List Action → Local → Call (List (Answer readings.Mean) × Local)
  local_acts [] s = returned ([], s)
  local_acts (action ∷ actions) s = do
    (answer, s') ← local_act action s
    (answers, s'') ← local_acts actions s'
    returned (answer ∷ answers, s'')

  abbrev pub cloud_acts : List Action → Clouded → Call (List (Answer readings.Mean) × Clouded)
  cloud_acts [] s = returned ([], s)
  cloud_acts (action ∷ actions) s = do
    (answer, s') ← cloud_act action s
    (answers, s'') ← cloud_acts actions s'
    returned (answer ∷ answers, s'')

  -- The object of the other class with the same members.
  abbrev pub latencies_of : LocalLatencies h → Latencies h
  latencies_of l = record {
    hdr = l.hdr Kind.all;
    hdr_last_1s = l.hdr Kind.last_1s;
    hdr_get = l.hdr Kind.get;
    hdr_put = l.hdr Kind.put;
    hdr_update = l.hdr Kind.update;
    hdr_scan = l.hdr Kind.scan;
    hdr_rmw = l.hdr Kind.rmw;
    qps = l.qps;
    printed = l.printed;
  }

  abbrev pub cloud_of : Local → Clouded
  cloud_of (s, l) = (record { engine = s.db; no_result = s.no_result }, latencies_of l)

  abbrev pub in_cloud : {A : Type 0} → Call (A × Local) → Call (A × Clouded)
  in_cloud c = c >>= λ (a, s). returned (a, cloud_of s)
