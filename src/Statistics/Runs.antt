-- ===== src/Statistics/Runs.antt =====
-- Runs of the statistics threads at concrete inputs.
use ycsb_c_cloud.Base.{
  ℕ, ◌≡◌, refl, Bool, true, false, none, some, Str, List, [], ◌∷◌, ◌++◌, codes, length, str_eq,
}
use ycsb_c_cloud.Properties.{is_space, skip_spaces}
use ycsb_c_cloud.Numbers.{pos, read_signed, read_number, drop_number, extract, stoll}
use ycsb_c_cloud.CommandLine.{str_start_with}
use ycsb_c_cloud.Proc.{
  getlines, words, NetMap, done, get_net_stats, net_lines, net_line, net_fields, without_colon,
  put_stats, find_stats,
}
use ycsb_c_cloud.Proc.Bandwidth.{occurs}
use ycsb_c_cloud.Statistics.{
  RocksdbStatistics, no_amounts, Globals, Second, print_my_status, print_summary, Report, returned,
  crashed, start_globals,
}
use ycsb_c_cloud.Statistics.Sums.{total, newest}
use ycsb_c_cloud.Statistics.Totals.{IsReadable, print_my_status-totals}
use ycsb_c_cloud.Statistics.Gone.{IsGone, print_my_status-gone}
use ycsb_c_cloud.Statistics.Printed.{
  Interval, print_rocksdb_stats, print_loop, interval_text, waiting_part, line, waiting_line,
}

-- Every ticker has the same count.
abbrev counting : ℕ → RocksdbStatistics
counting n = record {
  get_ticker_count = λ t. n;
  get_histogram_string = λ h. [];
  text = codes "text";
}

abbrev titles : Str
titles = codes "Inter-| Receive" ++ 10 ∷ (codes " face |bytes" ++ 10 ∷ [])

abbrev ens5_at : Str → Str
ens5_at bytes = titles ++ codes "ens5: " ++ bytes ++ codes " 0 0 0 0 0 0 0 2"

abbrev second : Bool → ℕ → Second
second stop n = record {
  net_dev1 = some (ens5_at (codes "1"));
  diskstats1 = none;
  done = stop;
  net_dev2 = some (ens5_at (codes "7"));
  diskstats2 = none;
  statistics = counting n;
  blob_stats = [];
}

abbrev ens5_map : ℕ → NetMap
ens5_map bytes = (codes "ens5", record { rx_bytes = pos bytes; tx_bytes = pos 2 }) ∷ []

first_reading : get_net_stats (some (ens5_at (codes "1"))) ≡ done (ens5_map 1)
unfolding get_net_stats net_lines getlines net_line words is_space net_fields stoll extract
    read_signed skip_spaces read_number put_stats without_colon drop_number
first_reading = refl

second_reading : get_net_stats (some (ens5_at (codes "7"))) ≡ done (ens5_map 7)
unfolding get_net_stats net_lines getlines net_line words is_space net_fields stoll extract
    read_signed skip_spaces read_number put_stats without_colon drop_number
second_reading = refl

second-IsReadable : (n : ℕ) → IsReadable (second false n)
unfolding find_stats str_eq
second-IsReadable n = record {
  stats1 = ens5_map 1;
  stats2 = ens5_map 7;
  reads1 = first_reading;
  reads2 = second_reading;
  stays = (λ ens5. (record { rx_bytes = pos 7; tx_bytes = pos 2 }, refl), _);
}

print_my_status-totals_example :
    let rs = second false 5 ∷ second false 12 ∷ [] in
    let g : Globals = record { total_time = 3; snaps = newest no_amounts rs } in
    (reports : List Report) × (print_my_status true start_globals (rs ++ second true 20 ∷ [])
      ≡ returned g reports (some (print_summary (counting 20) g)))
    × (length reports ≡ 2)
    × (total reports ≡ newest no_amounts rs)
print_my_status-totals_example =
    print_my_status-totals (second false 5 ∷ second false 12 ∷ []) (second true 20) (ens5_map 1)
      (second-IsReadable 5, (second-IsReadable 12, _)) (refl, (refl, _)) first_reading refl

abbrev gone_second : Second
gone_second = record {
  net_dev1 = some (ens5_at (codes "1"));
  diskstats1 = none;
  done = false;
  net_dev2 = none;
  diskstats2 = none;
  statistics = counting 9;
  blob_stats = [];
}

gone_second-IsGone : IsGone gone_second
unfolding get_net_stats net_lines find_stats str_eq occurs str_start_with
gone_second-IsGone = record {
  stats1 = ens5_map 1;
  stats2 = [];
  reads1 = first_reading;
  reads2 = refl;
  going = refl;
  iface = codes "ens5";
  stats = record { rx_bytes = pos 1; tx_bytes = pos 2 };
  known = refl;
  ens5 = refl;
  gone = refl;
}

print_my_status-gone_example :
    print_my_status true start_globals (second false 5 ∷ gone_second ∷ second true 6 ∷ []) ≡ crashed
print_my_status-gone_example =
    print_my_status-gone (second false 5 ∷ []) gone_second (second true 6 ∷ [])
      (second-IsReadable 5, _) (refl, _) gone_second-IsGone

abbrev interval : Bool → Interval
interval stop = record {
  done = stop;
  finish_set = true;
  stats = codes "s";
  block_cache_entry_stats = codes "c";
}

prints_once :
    (print_rocksdb_stats true false (interval false ∷ interval true ∷ [])).output
    ≡ waiting_line
      ++ line (codes ">>>>>>>>>>>>>>>>>>>>>>>>>>>>>>>")
      ++ line (codes "s")
      ++ line (codes "c")
      ++ line (codes "<<<<<<<<<<<<<<<<<<<<<<<<<<<<<<<")
unfolding print_rocksdb_stats print_loop interval_text waiting_part
prints_once = refl
