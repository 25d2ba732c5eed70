-- ===== src/Statistics/Printed.antt =====
-- The thread printRocksDBStats of db/rocksdb_cloud_db.cc, and the bytes that it prints.
use ycsb_c_cloud.Base.{Bool, true, false, ◌||◌, Str, List, [], ◌∷◌, ◌++◌, codes, if◌then◌else◌}

-- What a round finds behind its pause: the flag `done`, whether anyone has set the flag `finish`
-- since the last round, and two properties of RocksDB.
pub record Interval : Type 0 where
  pub done : Bool
  pub finish_set : Bool
  pub stats : Str
  pub block_cache_entry_stats : Str

abbrev pub line : Str → Str
line s = s ++ (10 ∷ [])

abbrev pub waiting_line : Str
waiting_line = line (codes "write finished, wait compaction finished")

unfoldable pub waiting_part : Bool → Str
waiting_part finish = if finish then waiting_line else []

unfoldable pub interval_text : Bool → Interval → Str
interval_text finish i =
    waiting_part finish
    ++ line (codes ">>>>>>>>>>>>>>>>>>>>>>>>>>>>>>>")
    ++ line i.stats
    ++ line i.block_cache_entry_stats
    ++ line (codes "<<<<<<<<<<<<<<<<<<<<<<<<<<<<<<<")

-- Whether the thread has returned, the flag `finish`, and the text.
pub record Printing : Type 0 where
  pub ended : Bool
  pub finish : Bool
  pub output : Str

unfoldable pub print_loop : Bool → List Interval → Printing
print_loop finish [] = record { ended = false; finish = finish; output = [] }
print_loop finish (i ∷ is) =
    let now = finish || i.finish_set in
    let rest = print_loop false is in
    if i.done then record { ended = true; finish = now; output = [] } else record {
      ended = rest.ended;
      finish = rest.finish;
      output = interval_text now i ++ rest.output;
    }

unfoldable pub print_rocksdb_stats : Bool → Bool → List Interval → Printing
print_rocksdb_stats opens finish is =
    if opens then print_loop finish is else record { ended = true; finish = finish; output = [] }
