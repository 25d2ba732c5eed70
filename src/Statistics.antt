-- ===== src/Statistics.antt =====
-- The threads print_my_status and printRocksDBStats of db/rocksdb_cloud_db.cc, with print_summary.
-- What a round reads is its argument, and what it prints is a value, before numbers become text. The
-- statistics object of RocksDB is a parameter.
pub mod Printed
pub mod Sums
pub mod Totals
pub mod Gone
mod Runs
use ycsb_c_cloud.Base.{
  ℕ, zero, suc, ◌+◌, ◌-◌, ◌%◌, ◌^◌, Bool, true, false, Option, none, some, Str, List, [], ◌∷◌, ◌++◌,
  map, codes, if◌then◌else◌,
}
use ycsb_c_cloud.Proc.{
  NetMap, DiskStats, Reading, done, thrown, overrun, get_net_stats, get_disk_stats,
}
use ycsb_c_cloud.Proc.Bandwidth.{NetDiff, net_diffs, disk_diff}

pub data Ticker : Type 0 where
  bytes_read bytes_written number_keys_written number_keys_read : Ticker
  number_db_seek_found number_db_next_found number_db_prev_found iter_bytes_read : Ticker
  memtable_hit memtable_miss get_hit_l0 get_hit_l1 get_hit_l2 get_hit_l3 get_hit_l4_and_up : Ticker
  block_cache_data_hit block_cache_data_miss : Ticker
  bloom_filter_useful bloom_filter_full_positive bloom_filter_full_true_positive : Ticker

pub data HistogramName : Type 0 where
  db_get db_write db_seek sst_read_micros compaction_time : HistogramName

pub record RocksdbStatistics : Type 0 where
  pub get_ticker_count : Ticker → ℕ
  pub get_histogram_string : HistogramName → Str
  pub text : Str

-- The tickers of which the thread keeps the value of its last round.
pub record Amounts : Type 0 where
  pub bytes_read : ℕ
  pub bytes_write : ℕ
  pub number_keys_write : ℕ
  pub number_keys_read : ℕ
  pub number_db_seek : ℕ
  pub number_db_next : ℕ
  pub number_db_prev : ℕ
  pub iter_bytes_read : ℕ

abbrev pub to_uint64 : ℕ → ℕ
to_uint64 n = n % 2 ^ 64

unfoldable pub amounts_of : RocksdbStatistics → Amounts
amounts_of s = record {
  bytes_read = to_uint64 (s.get_ticker_count bytes_read);
  bytes_write = to_uint64 (s.get_ticker_count bytes_written);
  number_keys_write = to_uint64 (s.get_ticker_count number_keys_written);
  number_keys_read = to_uint64 (s.get_ticker_count number_keys_read);
  number_db_seek = to_uint64 (s.get_ticker_count number_db_seek_found);
  number_db_next = to_uint64 (s.get_ticker_count number_db_next_found);
  number_db_prev = to_uint64 (s.get_ticker_count number_db_prev_found);
  iter_bytes_read = to_uint64 (s.get_ticker_count iter_bytes_read);
}

-- Subtraction of two numbers below 2 ^ 64, as uint64_t.
abbrev pub sub_uint64 : ℕ → ℕ → ℕ
sub_uint64 a b = (a + (2 ^ 64 - b)) % 2 ^ 64

unfoldable pub deltas : Amounts → Amounts → Amounts
deltas now snap = record {
  bytes_read = sub_uint64 now.bytes_read snap.bytes_read;
  bytes_write = sub_uint64 now.bytes_write snap.bytes_write;
  number_keys_write = sub_uint64 now.number_keys_write snap.number_keys_write;
  number_keys_read = sub_uint64 now.number_keys_read snap.number_keys_read;
  number_db_seek = sub_uint64 now.number_db_seek snap.number_db_seek;
  number_db_next = sub_uint64 now.number_db_next snap.number_db_next;
  number_db_prev = sub_uint64 now.number_db_prev snap.number_db_prev;
  iter_bytes_read = sub_uint64 now.iter_bytes_read snap.iter_bytes_read;
}

-- The variables of the namespace.
pub record Globals : Type 0 where
  pub total_time : ℕ
  pub snaps : Amounts

abbrev pub interval_seconds : ℕ
interval_seconds = 1

-- What print_summary writes.
pub record Summary : Type 0 where
  pub run_time : ℕ
  pub amounts : Amounts
  pub level_hits : List ℕ
  pub histograms : List Str
  pub text : Str

unfoldable pub print_summary : RocksdbStatistics → Globals → Summary
print_summary s g = record {
  run_time = g.total_time;
  amounts = amounts_of s;
  level_hits =
      map (λ t. to_uint64 (s.get_ticker_count t))
        (memtable_hit ∷ memtable_miss ∷ get_hit_l0 ∷ get_hit_l1 ∷ get_hit_l2 ∷ get_hit_l3
          ∷ get_hit_l4_and_up ∷ []);
  histograms =
      map s.get_histogram_string
        (db_get ∷ db_write ∷ db_seek ∷ sst_read_micros ∷ compaction_time ∷ []);
  text = s.text;
}

-- What one round of print_my_status writes.
pub record Report : Type 0 where
  pub net : List NetDiff
  pub disk : DiskStats
  pub amounts : Amounts
  pub interval : Amounts
  pub data_block_hit : ℕ
  pub data_block_miss : ℕ
  pub useful : ℕ
  pub positive : ℕ
  pub true_positive : ℕ
  pub false_positive : ℕ
  pub blob_stats : Str

-- What one round finds: the files of /proc before and behind the pause, the flag `done`, and RocksDB.
pub record Second : Type 0 where
  pub net_dev1 : Option Str
  pub diskstats1 : Option Str
  pub done : Bool
  pub net_dev2 : Option Str
  pub diskstats2 : Option Str
  pub statistics : RocksdbStatistics
  pub blob_stats : Str

unfoldable pub report_of : Second → Amounts → List NetDiff → Report
report_of r snap net =
    let count : Ticker → ℕ = λ t. to_uint64 (r.statistics.get_ticker_count t) in
    record {
      net = net;
      disk = disk_diff (get_disk_stats r.diskstats1) (get_disk_stats r.diskstats2);
      amounts = amounts_of r.statistics;
      interval = deltas (amounts_of r.statistics) snap;
      data_block_hit = count block_cache_data_hit;
      data_block_miss = count block_cache_data_miss;
      useful = count bloom_filter_useful;
      positive = count bloom_filter_full_positive;
      true_positive = count bloom_filter_full_true_positive;
      false_positive =
          sub_uint64 (count bloom_filter_full_positive) (count bloom_filter_full_true_positive);
      blob_stats = r.blob_stats;
    }

-- `lost`: an exception or a read past a vector, inside the thread.
pub data Round : Type 0 where
  reported : Globals → Report → Round
  summarized : Globals → Summary → Round
  lost : Round

abbrev pub tick : Globals → Globals
tick g = record { total_time = to_uint64 (g.total_time + interval_seconds); snaps = g.snaps }

-- The second half of a round, behind the test of `done`.
unfoldable pub measure : Globals → Second → NetMap → Round
measure g r stats1 = elim (get_net_stats r.net_dev2) [
  | done stats2 ↦ elim (net_diffs stats1 stats2) [
    | done net ↦
        reported (record { total_time = g.total_time; snaps = amounts_of r.statistics })
          (report_of r g.snaps net)
    | thrown ↦ lost
    | overrun ↦ lost
  ]
  | thrown ↦ lost
  | overrun ↦ lost
]

unfoldable pub status_round : Globals → Second → Round
status_round g r = elim (get_net_stats r.net_dev1) [
  | done stats1 ↦
      if r.done
      then summarized (tick g) (print_summary r.statistics (tick g))
      else measure (tick g) r stats1
  | thrown ↦ lost
  | overrun ↦ lost
]

-- The thread after some rounds: still in its loop, behind it, or gone with the process.
pub data Thread : Type 0 where
  looping : Globals → List Report → Thread
  returned : Globals → List Report → Option Summary → Thread
  crashed : Thread

abbrev pub with_report : Report → Thread → Thread
with_report report (looping g reports) = looping g (report ∷ reports)
with_report report (returned g reports summary) = returned g (report ∷ reports) summary
with_report report crashed = crashed

unfoldable pub status_loop : Globals → List Second → Thread
status_loop g [] = looping g []
status_loop g (r ∷ rs) = elim (status_round g r) [
  | reported g' report ↦ with_report report (status_loop g' rs)
  | summarized g' summary ↦ returned g' [] (some summary)
  | lost ↦ crashed
]

-- `opens` tells whether the output file opens.
unfoldable pub print_my_status : Bool → Globals → List Second → Thread
print_my_status opens g rs = if opens then status_loop g rs else returned g [] none

abbrev pub no_amounts : Amounts
no_amounts = record {
  bytes_read = 0;
  bytes_write = 0;
  number_keys_write = 0;
  number_keys_read = 0;
  number_db_seek = 0;
  number_db_next = 0;
  number_db_prev = 0;
  iter_bytes_read = 0;
}

abbrev pub start_globals : Globals
start_globals = record { total_time = 0; snaps = no_amounts }
