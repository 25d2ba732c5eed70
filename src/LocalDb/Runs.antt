-- ===== src/LocalDb/Runs.antt =====
-- Calls of the class RocksDB at concrete inputs.
use ycsb_c_cloud.Base.{ℕ, ◌≡◌, refl, arith, none, List, [], ◌∷◌, codes}
use ycsb_c_cloud.Coding.{little}
use ycsb_c_cloud.Numbers.{pos}
use ycsb_c_cloud.RocksDb.Store.{Lookup}
use ycsb_c_cloud.RocksDb.Memory.{memory}
use ycsb_c_cloud.RocksDb.Latency.Counters.{counters}
use ycsb_c_cloud.RocksDb.Report.{Readings}
use ycsb_c_cloud.LocalDb.{visit_entries}
use ycsb_c_cloud.LocalDb.Actions.{
  Action, reads, scans, inserts, deletes, times, reports, prints, Local, local_acts, cloud_acts,
  cloud_of, in_cloud,
}
use ycsb_c_cloud.LocalDb.Same.{local_acts-same}

-- Every reading of a histogram is its count.
abbrev count_readings : Readings counters
count_readings = record {
  Mean = ℕ;
  mean = λ s. s;
  value_at_percentile = λ s percentile. s;
  percentiles_print = λ s. 0;
}

abbrev nothing_stored : Local memory little counters count_readings
nothing_stored = (
  record { db = λ k. Lookup.not_found; no_result = 0 },
  record { hdr = λ kind. 0; qps = 0; printed = [] },
)

abbrev some_actions : List Action
some_actions =
    inserts (codes "usertable") (codes "user1") ((codes "field0", codes "abc") ∷ [])
    ∷ times 1 250
    ∷ reads (codes "usertable") (codes "user1") none []
    ∷ scans (codes "usertable") (codes "user1") (pos 3) none []
    ∷ deletes (codes "usertable") (codes "user1")
    ∷ reads (codes "usertable") (codes "user1") none []
    ∷ times 9 4000000000
    ∷ reports 2
    ∷ prints (codes "stats")
    ∷ []

-- A scan of at most two records stops at the third.
visit_two :
    visit_entries (([], []) ∷ (1 ∷ [], 2 ∷ []) ∷ (3 ∷ [], []) ∷ []) 0 (pos 2) ([], [])
    ≡ (1 ∷ [], 2 ∷ [])
unfolding visit_entries
visit_two = refl

local_acts-same_example :
    in_cloud memory little counters count_readings
      (local_acts memory little counters count_readings some_actions nothing_stored)
    ≡ cloud_acts memory little counters count_readings some_actions
        (cloud_of memory little counters count_readings nothing_stored)
local_acts-same_example =
    local_acts-same memory little counters count_readings some_actions nothing_stored
      (omega arith, (_, (_, (_, (_, (_, (_, (_, (_, _)))))))))
