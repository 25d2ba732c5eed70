-- ===== src/RocksDb/Latency/Counters.antt =====
-- Histograms that meet the assumptions on HdrHistogram.
use ycsb_c_cloud.Base.{ℕ, ◌+◌, refl, []}
use ycsb_c_cloud.RocksDb.Latency.{Histograms, HistogramLaws, Latencies}

-- A histogram that keeps no more than its count.
abbrev pub counters : Histograms
counters = record {
  Histogram = ℕ;
  record_value = λ s v. s + 1;
  reset = λ s. 0;
  total_count = λ s. s;
}

pub counters_laws : HistogramLaws counters
counters_laws = record { count_value = λ s v fits. refl; count_reset = λ s. refl }

abbrev pub no_latencies : Latencies counters
no_latencies = record {
  hdr = 0;
  hdr_last_1s = 0;
  hdr_get = 0;
  hdr_put = 0;
  hdr_update = 0;
  hdr_scan = 0;
  hdr_rmw = 0;
  qps = 0;
  printed = [];
}
