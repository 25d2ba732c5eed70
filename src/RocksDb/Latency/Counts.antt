-- ===== src/RocksDb/Latency/Counts.antt =====
-- RecordTime and latency_hiccup of db/rocksdb_cloud_db.cc: what the histograms count.
use ycsb_c_cloud.Base.{ℕ, ◌+◌, ◌%◌, ◌^◌, ◌≤◌, ◌≡◌, arith, List, [], ◌∷◌, All}
use ycsb_c_cloud.RocksDb.Latency.{
  Histograms, HistogramLaws, highest_trackable, Latencies, record_time, latency_hiccup,
}

module _ (h : Histograms) where
  open h use {total_count}

  pub record IsCounted (l : Latencies h) : Type 0 where
    pub split :
        total_count l.hdr
        ≡ total_count l.hdr_get
          + total_count l.hdr_put
          + total_count l.hdr_update
          + total_count l.hdr_scan
          + total_count l.hdr_rmw
    pub last : l.qps ≡ total_count l.hdr_last_1s % 2 ^ 64

-- What the members of a client do: an operation of a known kind within the hour, or a report.
pub data Event : Type 0 where
  timed : ℕ → ℕ → Event
  hiccup : ℕ → Event

abbrev pub InRange : Event → Type 0
InRange (timed op time) = (1 ≤ op) × (op ≤ 5) × (time ≤ highest_trackable)
InRange (hiccup iops) = Unit

abbrev pub happen : (h : Histograms) → Latencies h → Event → Latencies h
happen h l (timed op time) = record_time h l op time
happen h l (hiccup iops) = latency_hiccup h l iops

abbrev pub happen_all : (h : Histograms) → Latencies h → List Event → Latencies h
happen_all h l [] = l
happen_all h l (ev ∷ evs) = happen_all h (happen h l ev) evs

module _ (h : Histograms) (laws : HistogramLaws h) where
  record_time-IsCounted :
      (l : Latencies h) (op time : ℕ)
      → 1 ≤ op
      → op ≤ 5
      → time ≤ highest_trackable
      → IsCounted h l
      → IsCounted h (record_time h l op time)
  unfolding record_time
  record_time-IsCounted l op time lo hi fits c = ground (
    arith,
    laws.count_value l.hdr time,
    laws.count_value l.hdr_last_1s time,
    laws.count_value l.hdr_get time,
    laws.count_value l.hdr_put time,
    laws.count_value l.hdr_update time,
    laws.count_value l.hdr_scan time,
    laws.count_value l.hdr_rmw time,
  )

  latency_hiccup-IsCounted :
      (l : Latencies h) (iops : ℕ) → IsCounted h l → IsCounted h (latency_hiccup h l iops)
  unfolding latency_hiccup
  latency_hiccup-IsCounted l iops c = ground (arith, laws.count_reset l.hdr_last_1s)

  -- Whatever operations are timed, each of kind 1 to 5 and within an hour, and whatever reports
  -- come between, the histogram of all operations counts what the five histograms by kind count
  -- together, and `qps` is the count of the histogram of the time since the last report, modulo
  -- 2 ^ 64, if that held at the start.
  pub happen_all-IsCounted :
      (l : Latencies h) (evs : List Event)
      → All InRange evs
      → IsCounted h l
      → IsCounted h (happen_all h l evs)
  happen_all-IsCounted l [] ok c = c
  happen_all-IsCounted l (timed op time ∷ evs) ((lo, hi, fits), ok) c =
      happen_all-IsCounted (record_time h l op time) evs ok
        (record_time-IsCounted l op time lo hi fits c)
  happen_all-IsCounted l (hiccup iops ∷ evs) (range, ok) c =
      happen_all-IsCounted (latency_hiccup h l iops) evs ok (latency_hiccup-IsCounted l iops c)
