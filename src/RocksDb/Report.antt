-- ===== src/RocksDb/Report.antt =====
-- What PrintStats and latency_hiccup of db/rocksdb_cloud_db.cc print.
use ycsb_c_cloud.Base.{ℕ, Bool, not, List, [], ◌∷◌, Str, ◌==◌}
use ycsb_c_cloud.RocksDb.{Db}
use ycsb_c_cloud.RocksDb.Store.{Engine}
use ycsb_c_cloud.RocksDb.Latency.{Histograms, Latencies}

-- What is read from a histogram of HdrHistogram: `hdr_mean`, `hdr_value_at_percentile` at so many
-- hundredths of a percent, and the int that `hdr_percentiles_print` returns.
pub record Readings (h : Histograms) : Type 1 where
  pub Mean : Type 0
  pub mean : h.Histogram → Mean
  pub value_at_percentile : h.Histogram → ℕ → ℕ
  pub percentiles_print : h.Histogram → ℕ

-- A line of the file of hiccups.
pub record Hiccup (Mean : Type 0) : Type 0 where
  pub mean : Mean
  pub at_95 : ℕ
  pub at_99 : ℕ
  pub at_9999 : ℕ
  pub qps : ℕ

-- The count of misses, the property of RocksDB, the lines of the table, and whether the file of
-- percentiles could not be written.
pub record StatsTable (Mean : Type 0) : Type 0 where
  pub missed : ℕ
  pub stats : Str
  pub means : List Mean
  pub at_95 : List ℕ
  pub at_99 : List ℕ
  pub at_9999 : List ℕ
  pub print_failed : Bool

module _ (e : Engine) (h : Histograms) (readings : Readings h) where
  open readings use {Mean, mean, value_at_percentile, percentiles_print}

  unfoldable pub hiccup_line : Latencies h → Hiccup Mean
  hiccup_line l = record {
    mean = mean l.hdr_last_1s;
    at_95 = value_at_percentile l.hdr_last_1s 9500;
    at_99 = value_at_percentile l.hdr_last_1s 9900;
    at_9999 = value_at_percentile l.hdr_last_1s 9999;
    qps = l.qps;
  }

  -- A line of the table: ALL, GET, PUT, UPD, SCAN and RMW.
  abbrev pub percentile_line : Latencies h → ℕ → List ℕ
  percentile_line l percentile =
      value_at_percentile l.hdr percentile
      ∷ value_at_percentile l.hdr_get percentile
      ∷ value_at_percentile l.hdr_put percentile
      ∷ value_at_percentile l.hdr_update percentile
      ∷ value_at_percentile l.hdr_scan percentile
      ∷ value_at_percentile l.hdr_rmw percentile
      ∷ []

  -- `stats` is what `GetProperty("rocksdb.stats")` writes.
  unfoldable pub print_stats : Db e → Latencies h → Str → StatsTable Mean
  print_stats db l stats = record {
    missed = db.no_result;
    stats = stats;
    means =
        mean l.hdr
        ∷ mean l.hdr_get
        ∷ mean l.hdr_put
        ∷ mean l.hdr_update
        ∷ mean l.hdr_scan
        ∷ mean l.hdr_rmw
        ∷ [];
    at_95 = percentile_line l 9500;
    at_99 = percentile_line l 9900;
    at_9999 = percentile_line l 9999;
    print_failed = not (percentiles_print l.hdr == 0);
  }
