-- ===== src/Proc/Log.antt =====
-- calculateBandwidth of lib/perf_disk_net_bw.h: the rounds of its endless loop, and the file that it
-- appends to, whose lines stand here before their numbers become text. What a round finds in /proc
-- is its argument. The counters are not negative, so no difference leaves the range of long long; its
-- product with 512 may, which the language leaves undefined, and wraps here.
use ycsb_c_cloud.Base.{
  ℕ, ◌+◌, ◌-◌, ◌*◌, ◌%◌, ◌^◌, ltb, Bool, true, false, Option, none, some, Str, List, [], ◌∷◌, ◌++◌,
  if◌then◌else◌,
}
use ycsb_c_cloud.Generators.Doubles.{Doubles}
use ycsb_c_cloud.Numbers.{ℤ, pos, negsuc, ◌-ℤ◌}
use ycsb_c_cloud.Proc.{
  NetStats, NetMap, DiskStats, Reading, done, thrown, overrun, find_stats, get_net_stats,
  get_disk_stats, disk_name,
}
use ycsb_c_cloud.Proc.Bandwidth.{is_measured, disk_diff}

-- The files /proc/net/dev and /proc/diskstats before the sleep and behind it.
pub record Round : Type 0 where
  pub net1 : Option Str
  pub disk1 : Option Str
  pub net2 : Option Str
  pub disk2 : Option Str

pub data Line (Double : Type 0) : Type 0 where
  interface_line device_line : Str → Double → Double → Line Double

-- The function returns only where the file does not open. `waiting` is the loop behind the rounds
-- that are given.
pub data Ending : Type 0 where
  not_opened waiting ended_thrown ended_overrun : Ending

-- A long long of 64 bits.
abbrev pub signed : ℕ → ℤ
signed m = if ltb m (2 ^ 63) then pos m else negsuc (2 ^ 64 - 1 - m)

-- `readDiff * 512`
abbrev pub times_sector : ℤ → ℤ
times_sector (pos n) = signed (n * 512 % 2 ^ 64)
times_sector (negsuc n) = signed ((2 ^ 64 - (n + 1) * 512 % 2 ^ 64) % 2 ^ 64)

module _ (d : Doubles) (of_ℤ : ℤ → d.Double) where
  open d use {Double, div, of_ℕ, decimal}

  -- Divided by `static_cast<double>(intervalSeconds)`, by 1024.0 and by 1024.
  abbrev pub net_rate : ℤ → ℤ → Double
  net_rate interval diff = div (div (div (of_ℤ diff) (of_ℤ interval)) (decimal 10240 1)) (of_ℕ 1024)

  -- The same with 1024.0 twice.
  abbrev pub disk_rate : ℤ → ℤ → Double
  disk_rate interval diff =
      div (div (div (of_ℤ (times_sector diff)) (of_ℤ interval)) (decimal 10240 1)) (decimal 10240 1)

  abbrev pub line_of : ℤ → Str → NetStats → NetStats → Line Double
  line_of interval iface after before =
      interface_line iface (net_rate interval (after.rx_bytes -ℤ before.rx_bytes))
        (net_rate interval (after.tx_bytes -ℤ before.tx_bytes))

  -- The lines that are written, and whether `at` threw behind them.
  abbrev behind : Line Double → List (Line Double) × Bool → List (Line Double) × Bool
  behind line (lines, threw) = (line ∷ lines, threw)

  abbrev at_line :
      ℤ → Str → NetStats → Option NetStats → List (Line Double) × Bool → List (Line Double) × Bool
  at_line interval iface before none rest = ([], true)
  at_line interval iface before (some after) rest =
      behind (line_of interval iface after before) rest

  unfoldable pub net_loop : ℤ → NetMap → NetMap → List (Line Double) × Bool
  net_loop interval [] net_stats2 = ([], false)
  net_loop interval ((iface, stats) ∷ net_stats1) net_stats2 =
      let rest = net_loop interval net_stats1 net_stats2 in
      if is_measured iface
      then at_line interval iface stats (find_stats net_stats2 iface) rest
      else rest

  unfoldable pub disk_bandwidth : ℤ → DiskStats → DiskStats → Line Double
  disk_bandwidth interval disk_stats1 disk_stats2 =
      let diff = disk_diff disk_stats1 disk_stats2 in
      device_line disk_name (disk_rate interval diff.sectors_read)
        (disk_rate interval diff.sectors_written)

  -- What a round writes, and how it ends.
  abbrev written : List (Line Double) × Bool → Line Double → List (Line Double) × Ending
  written (lines, true) device = (lines, ended_thrown)
  written (lines, false) device = (lines ++ device ∷ [], waiting)

  abbrev behind_sleep : ℤ → NetMap → Reading NetMap → Line Double → List (Line Double) × Ending
  behind_sleep interval net_stats1 thrown device = ([], ended_thrown)
  behind_sleep interval net_stats1 overrun device = ([], ended_overrun)
  behind_sleep interval net_stats1 (done net_stats2) device =
      written (net_loop interval net_stats1 net_stats2) device

  abbrev before_sleep : ℤ → Reading NetMap → Round → List (Line Double) × Ending
  before_sleep interval thrown r = ([], ended_thrown)
  before_sleep interval overrun r = ([], ended_overrun)
  before_sleep interval (done net_stats1) r =
      behind_sleep interval net_stats1 (get_net_stats r.net2)
        (disk_bandwidth interval (get_disk_stats r.disk1) (get_disk_stats r.disk2))

  unfoldable pub bandwidth_round : ℤ → Round → List (Line Double) × Ending
  bandwidth_round interval r = before_sleep interval (get_net_stats r.net1) r

  abbrev append_round :
      List (Line Double) × Ending → List (Line Double) × Ending → List (Line Double) × Ending
  append_round (lines, waiting) (more, ending) = (lines ++ more, ending)
  append_round (lines, ended_thrown) rest = (lines, ended_thrown)
  append_round (lines, ended_overrun) rest = (lines, ended_overrun)
  append_round (lines, not_opened) rest = (lines, not_opened)

  unfoldable pub bandwidth_rounds : ℤ → List Round → List (Line Double) × Ending
  bandwidth_rounds interval [] = ([], waiting)
  bandwidth_rounds interval (r ∷ rounds) =
      append_round (bandwidth_round interval r) (bandwidth_rounds interval rounds)

  -- `none` is a file that does not open. `std::ios_base::app` keeps what is there.
  unfoldable pub calculate_bandwidth :
      ℤ → Option (List (Line Double)) → List Round → List (Line Double) × Ending
  calculate_bandwidth interval none rounds = ([], not_opened)
  calculate_bandwidth interval (some out_file) rounds =
      append_round (out_file, waiting) (bandwidth_rounds interval rounds)
