-- ===== src/RocksDb/Latency.antt =====
-- RecordTime and latency_hiccup of db/rocksdb_cloud_db.cc: the latency histograms and the count of
-- operations since the last report. The histograms of HdrHistogram are a parameter.
pub mod Counts
pub mod Counters
mod Runs
use ycsb_c_cloud.Base.{
  ℕ, ◌+◌, ◌%◌, ◌^◌, ◌<◌, ◌≡◌, Bool, List, [], ◌∷◌, ◌++◌, Str, codes, ltb, ◌==◌, if◌then◌else◌,
}

-- What is used of `struct hdr_histogram`: recording a value, `hdr_reset`, and the counts.
pub record Histograms : Type 1 where
  pub Histogram : Type 0
  pub record_value : Histogram → ℕ → Histogram
  pub reset : Histogram → Histogram
  pub total_count : Histogram → ℕ

-- The bound of every histogram in `hdr_init`, an hour in microseconds.
abbrev pub highest_trackable : ℕ
highest_trackable = 3600000000

-- A value in range counts once, and a reset forgets every value.
pub record HistogramLaws (h : Histograms) : Type 0 where
  pub count_value :
      (s : h.Histogram) (v : ℕ)
      → v < highest_trackable + 1
      → h.total_count (h.record_value s v) ≡ h.total_count s + 1
  pub count_reset : (s : h.Histogram) → h.total_count (h.reset s) ≡ 0

module _ (h : Histograms) where
  open h use {Histogram, record_value, reset}

  -- The members that hold latencies, `qps` as the bits of a 64-bit integer, and the lines written
  -- to `cout`.
  pub record Latencies : Type 0 where
    pub hdr : Histogram
    pub hdr_last_1s : Histogram
    pub hdr_get : Histogram
    pub hdr_put : Histogram
    pub hdr_update : Histogram
    pub hdr_scan : Histogram
    pub hdr_rmw : Histogram
    pub qps : ℕ
    pub printed : List Str

  -- The chain of tests on `op`.
  unfoldable pub record_op : Latencies → ℕ → ℕ → Latencies
  record_op l op time =
      if op == 1
      then record l { hdr_put = record_value l.hdr_put time }
      else if op == 2
      then record l { hdr_get = record_value l.hdr_get time }
      else if op == 3
      then record l { hdr_update = record_value l.hdr_update time }
      else if op == 4
      then record l { hdr_scan = record_value l.hdr_scan time }
      else if op == 5
      then record l { hdr_rmw = record_value l.hdr_rmw time }
      else record l { printed = l.printed ++ codes "record time err with op error" ∷ [] }

  unfoldable pub record_time : Latencies → ℕ → ℕ → Latencies
  unfolding record_op
  record_time l op time =
      let warned =
        if ltb highest_trackable time
        then record l { printed = l.printed ++ codes "too large tx_xtime" ∷ [] }
        else l in
      record_op
        (record warned {
          qps = (warned.qps + 1) % 2 ^ 64;
          hdr = record_value warned.hdr time;
          hdr_last_1s = record_value warned.hdr_last_1s time;
        })
        op time

  -- The report is printed from the old members; its argument `iops` is not used.
  unfoldable pub latency_hiccup : Latencies → ℕ → Latencies
  latency_hiccup l iops = record l { hdr_last_1s = reset l.hdr_last_1s; qps = 0 }
