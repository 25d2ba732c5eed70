-- ===== src/RocksDb/Latency/Runs.antt =====
-- The theorem on latencies at a concrete run.
use ycsb_c_cloud.Base.{refl, arith, List, [], ◌∷◌}
use ycsb_c_cloud.RocksDb.Latency.Counters.{counters, counters_laws, no_latencies}
use ycsb_c_cloud.RocksDb.Latency.Counts.{
  IsCounted, Event, timed, hiccup, happen_all, happen_all-IsCounted,
}

abbrev run : List Event
run = timed 2 150 ∷ timed 1 90 ∷ hiccup 2 ∷ timed 5 3600000000 ∷ []

happen_all-IsCounted_example : IsCounted counters (happen_all counters no_latencies run)
happen_all-IsCounted_example =
    happen_all-IsCounted counters counters_laws no_latencies run (omega arith)
      (record { split = refl; last = refl })
