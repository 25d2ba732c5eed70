-- ===== src/Proc.antt =====
-- The counters of lib/perf_disk_net_bw.h, which it reads from files of /proc. A file is its text, or
-- `none` if it does not open.
pub mod Disk
pub mod Devices
pub mod Bandwidth
pub mod Log
pub mod Written
mod Runs
use ycsb_c_cloud.Base.{
  ℕ, zero, suc, ◌+◌, ◌-◌, ◌≤◌, ◌^◌, Bool, true, false, ◌||◌, Option, none, some, Str, List, [], ◌∷◌,
  codes, str_eq, ◌==◌, ltb, leb, if◌then◌else◌, drop, get_elem?, ◌>>=◌,
}
use ycsb_c_cloud.Properties.{is_space, skip_spaces, extend, str_lt}
use ycsb_c_cloud.Numbers.{ℤ, pos, negsuc, extract, stoll}

-- The lines for which `std::getline` succeeds: nothing behind a last newline is one.
unfoldable pub getlines : Str → List Str
getlines [] = []
getlines (c ∷ s) = let rest = getlines s in if c == 10 then [] ∷ rest else extend c rest

abbrev pub lines_of_file : Option Str → List Str
lines_of_file none = []
lines_of_file (some text) = getlines text

abbrev pub starts_with_space : Str → Bool
starts_with_space [] = true
starts_with_space (c ∷ s) = is_space c

-- The words for which `>>` succeeds, up to the end of the line.
unfoldable pub words : Str → List Str
words [] = []
words (c ∷ s) =
    let rest = words s in
    if is_space c then rest else if starts_with_space s then (c ∷ []) ∷ rest else extend c rest

pub record NetStats : Type 0 where
  pub rx_bytes : ℤ
  pub tx_bytes : ℤ

-- `std::map<std::string, NetStats>`, its entries in the order of the keys.
abbrev pub NetMap : Type 0
NetMap = List (Str × NetStats)

unfoldable pub put_stats : NetMap → Str → NetStats → NetMap
put_stats [] iface stats = (iface, stats) ∷ []
put_stats ((k, v) ∷ m) iface stats =
    let rest = put_stats m iface stats in
    if str_eq k iface
    then (iface, stats) ∷ m
    else if str_lt iface k
    then (iface, stats) ∷ (k, v) ∷ m
    else (k, v) ∷ rest

unfoldable pub find_stats : NetMap → Str → Option NetStats
find_stats [] iface = none
find_stats ((k, v) ∷ m) iface =
    let rest = find_stats m iface in if str_eq k iface then some v else rest

-- `if (iface.back() == ':') iface.pop_back()`
unfoldable pub without_colon : Str → Str
without_colon [] = []
without_colon (c ∷ []) = if c == b':' then [] else c ∷ []
without_colon (c ∷ d ∷ s) = c ∷ without_colon (d ∷ s)

-- An exception, such as that of std::stoll or of `at`, or a read past the end of a vector.
pub data Reading {ℓ} (A : Type ℓ) : Type ℓ where
  done : A → Reading A
  thrown overrun : Reading A

abbrev indexed {ℓ κ} : {A : Type ℓ} {B : Type κ} → Option A → (A → Reading B) → Reading B
indexed none f = overrun
indexed (some a) f = f a

abbrev parsed {ℓ κ} : {A : Type ℓ} {B : Type κ} → Option A → (A → Reading B) → Reading B
parsed none f = thrown
parsed (some a) f = f a

-- The fields of a line behind the name of its interface.
unfoldable pub net_fields : NetMap → Str → List Str → Reading NetMap
net_fields stats iface fields = indexed (get_elem? fields 0) λ rx_field.
    parsed (stoll rx_field) λ rx_bytes. indexed (get_elem? fields 8) λ tx_field.
      parsed (stoll tx_field) λ tx_bytes.
        done (put_stats stats iface (record { rx_bytes = rx_bytes; tx_bytes = tx_bytes }))

unfoldable pub net_line : NetMap → List Str → Reading NetMap
net_line stats [] = net_fields stats [] []
net_line stats (iface ∷ fields) = net_fields stats (without_colon iface) fields

unfoldable pub net_lines : NetMap → List Str → Reading NetMap
net_lines stats [] = done stats
net_lines stats (line ∷ lines) = elim (net_line stats (words line)) [
  | done stats' ↦ net_lines stats' lines
  | thrown ↦ thrown
  | overrun ↦ overrun
]

-- The first two lines are the titles.
unfoldable pub get_net_stats : Option Str → Reading NetMap
get_net_stats file = net_lines [] (drop 2 (lines_of_file file))

abbrev pub disk_name : Str
disk_name = codes "nvme1n1"

pub record DiskStats : Type 0 where
  pub sectors_read : ℤ
  pub sectors_written : ℤ

-- `iss >> disk_name`
unfoldable pub take_word : Str → Str
take_word [] = []
take_word (c ∷ s) = let rest = c ∷ take_word s in if is_space c then [] else rest

unfoldable pub drop_word : Str → Str
drop_word [] = []
drop_word (c ∷ s) = let rest = drop_word s in if is_space c then c ∷ s else rest

abbrev nonempty_word : Str → Option (Str × Str)
nonempty_word [] = none
nonempty_word (c ∷ s) = some (take_word (c ∷ s), drop_word (c ∷ s))

unfoldable pub extract_word : Str → Option (Str × Str)
extract_word s = nonempty_word (skip_spaces s)

-- The chain of `>>` into two numbers of type int, a string, and eight of type long. `none` is a
-- stream that failed.
unfoldable pub disk_line : Str → Option (Str × DiskStats)
disk_line line = do
  (major, s1) ← extract (2 ^ 31) line
  (minor, s2) ← extract (2 ^ 31) s1
  (name, s3) ← extract_word s2
  (reads_completed, s4) ← extract (2 ^ 63) s3
  (reads_merged, s5) ← extract (2 ^ 63) s4
  (sectors_read, s6) ← extract (2 ^ 63) s5
  (time_reading, s7) ← extract (2 ^ 63) s6
  (writes_completed, s8) ← extract (2 ^ 63) s7
  (writes_merged, s9) ← extract (2 ^ 63) s8
  (sectors_written, s10) ← extract (2 ^ 63) s9
  (time_writing, s11) ← extract (2 ^ 63) s10
  some (name, record { sectors_read = sectors_read; sectors_written = sectors_written })

abbrev pub no_sectors : DiskStats
no_sectors = record { sectors_read = pos 0; sectors_written = pos 0 }

-- A line that does not parse, or is about another disk, is passed over.
abbrev on_line : Option (Str × DiskStats) → DiskStats → DiskStats
on_line none rest = rest
on_line (some (name, stats)) rest = if str_eq name disk_name then stats else rest

unfoldable pub disk_lines : List Str → DiskStats
disk_lines [] = no_sectors
disk_lines (line ∷ lines) = on_line (disk_line line) (disk_lines lines)

unfoldable pub get_disk_stats : Option Str → DiskStats
get_disk_stats file = disk_lines (lines_of_file file)
