-- ===== src/Proc/Disk.antt =====
-- get_disk_stats of lib/perf_disk_net_bw.h on a file that is written disk by disk.
use ycsb_c_cloud.Base.{
  ℕ, zero, suc, ap, ◌∙◌, ◌^◌, ◌<◌, ◌≤◌, ◌≡◌, ◌≢◌, refl, arith, false, some, Str, List, [], ◌∷◌,
  ◌++◌, str_eq, if◌then◌else◌, All, All-append,
}
use ycsb_c_cloud.Properties.{is_space, skip_spaces}
use ycsb_c_cloud.Properties.Loading.{Lacks}
use ycsb_c_cloud.Numbers.{pos, to_string, extract, read_signed}
use ycsb_c_cloud.Numbers.Decimal.{starts_with_digit}
use ycsb_c_cloud.Numbers.Extract.{extract-to_string, extract-digits, to_string-Lacks}
use ycsb_c_cloud.Proc.{
  getlines, take_word, drop_word, extract_word, DiskStats, disk_name, disk_line, no_sectors,
  disk_lines, get_disk_stats,
}

-- What stands in the file about a disk, whose first two columns are padded; `more` is what follows the columns that are read.
pub record Disk : Type 0 where
  pub major_pad : ℕ
  pub major : ℕ
  pub minor_pad : ℕ
  pub minor : ℕ
  pub name : Str
  pub reads_completed : ℕ
  pub reads_merged : ℕ
  pub sectors_read : ℕ
  pub time_reading : ℕ
  pub writes_completed : ℕ
  pub writes_merged : ℕ
  pub sectors_written : ℕ
  pub time_writing : ℕ
  pub more : Str

-- The numbers fit their types, the name is a word, and the rest begins with no digit and stays on
-- the line.
pub record IsDisk (d : Disk) : Type 0 where
  pub major_int : d.major < 2 ^ 31
  pub minor_int : d.minor < 2 ^ 31
  pub name_word : All (λ c. is_space c ≡ false) d.name × (d.name ≢ [])
  pub reads : (d.reads_completed < 2 ^ 63) × (d.reads_merged < 2 ^ 63)
  pub read : (d.sectors_read < 2 ^ 63) × (d.time_reading < 2 ^ 63)
  pub writes : (d.writes_completed < 2 ^ 63) × (d.writes_merged < 2 ^ 63)
  pub written : (d.sectors_written < 2 ^ 63) × (d.time_writing < 2 ^ 63)
  pub more_end : (starts_with_digit d.more ≡ false) × Lacks 10 d.more

abbrev pub column : ℕ → Str → Str
column n rest = 32 ∷ (to_string n ++ rest)

abbrev counters : Disk → Str
counters d = column d.reads_completed (
    column d.reads_merged (
      column d.sectors_read (
        column d.time_reading (
          column d.writes_completed
            (column d.writes_merged (column d.sectors_written (column d.time_writing d.more)))))))

abbrev pub spaces : ℕ → Str → Str
spaces zero s = s
spaces (suc k) s = 32 ∷ spaces k s

-- The major number may begin the line, and one space at least stands before the minor number.
abbrev pub line_of : Disk → Str
line_of d = spaces d.major_pad (
    to_string d.major
    ++ spaces (suc d.minor_pad) (to_string d.minor ++ 32 ∷ (d.name ++ counters d)))

skip_spaces-spaces : (k : ℕ) (s : Str) → skip_spaces (spaces k s) ≡ skip_spaces s
unfolding skip_spaces is_space
skip_spaces-spaces zero s = refl
skip_spaces-spaces (suc k) s = skip_spaces-spaces k s

extract-padded :
    (k n limit : ℕ) (rest : Str)
    → n < limit
    → limit ≤ 2 ^ 64
    → starts_with_digit rest ≡ false
    → extract limit (spaces k (to_string n ++ rest)) ≡ some (pos n, rest)
unfolding extract
extract-padded k n limit rest h bound stop =
    ap (λ s. read_signed limit s) (skip_spaces-spaces k (to_string n ++ rest))
    ∙ extract-digits n limit rest h bound stop

pub spaces-Lacks : (k : ℕ) (s : Str) → Lacks 10 s → Lacks 10 (spaces k s)
spaces-Lacks zero s h = h
spaces-Lacks (suc k) s h = (refl, spaces-Lacks k s h)

abbrev pub file_of : List Disk → Str
file_of [] = []
file_of (d ∷ disks) = line_of d ++ 10 ∷ file_of disks

abbrev pub stats_of : Disk → DiskStats
stats_of d = record { sectors_read = pos d.sectors_read; sectors_written = pos d.sectors_written }

-- The counters of the first disk of the name.
abbrev pub first_stats : List Disk → DiskStats
first_stats [] = no_sectors
first_stats (d ∷ disks) =
    let rest = first_stats disks in if str_eq d.name disk_name then stats_of d else rest

take_word-word :
    (name rest : Str) → All (λ c. is_space c ≡ false) name → take_word (name ++ 32 ∷ rest) ≡ name
unfolding take_word is_space
take_word-word [] rest h = refl
take_word-word (c ∷ name) rest (h, hs) = rw (h, take_word-word name rest hs) refl

drop_word-word :
    (name rest : Str)
    → All (λ c. is_space c ≡ false) name
    → drop_word (name ++ 32 ∷ rest) ≡ 32 ∷ rest
unfolding drop_word is_space
drop_word-word [] rest h = refl
drop_word-word (c ∷ name) rest (h, hs) = rw (h, drop_word-word name rest hs) refl

extract_word-word :
    (name rest : Str)
    → All (λ c. is_space c ≡ false) name
    → name ≢ []
    → extract_word (32 ∷ (name ++ 32 ∷ rest)) ≡ some (name, 32 ∷ rest)
unfolding extract_word skip_spaces is_space
extract_word-word [] rest h filled = absurd (filled refl)
extract_word-word (c ∷ name) rest h filled =
    rw (h.0, take_word-word (c ∷ name) rest h, drop_word-word (c ∷ name) rest h) refl

disk_line-line_of : (d : Disk) → IsDisk d → disk_line (line_of d) ≡ some (d.name, stats_of d)
unfolding disk_line
disk_line-line_of d h =
    rw
      (
        extract-padded d.major_pad d.major (2 ^ 31) _ h.major_int (omega arith) refl,
        extract-padded (suc d.minor_pad) d.minor (2 ^ 31) _ h.minor_int (omega arith) refl,
        extract_word-word d.name _ h.name_word.0 h.name_word.1,
        extract-to_string d.reads_completed (2 ^ 63) _ h.reads.0 (omega arith) refl,
        extract-to_string d.reads_merged (2 ^ 63) _ h.reads.1 (omega arith) refl,
        extract-to_string d.sectors_read (2 ^ 63) _ h.read.0 (omega arith) refl,
        extract-to_string d.time_reading (2 ^ 63) _ h.read.1 (omega arith) refl,
        extract-to_string d.writes_completed (2 ^ 63) _ h.writes.0 (omega arith) refl,
        extract-to_string d.writes_merged (2 ^ 63) _ h.writes.1 (omega arith) refl,
        extract-to_string d.sectors_written (2 ^ 63) _ h.written.0 (omega arith) refl,
        extract-to_string d.time_writing (2 ^ 63) d.more h.written.1 (omega arith) h.more_end.0,
      )
      refl

pub word-Lacks : (name : Str) → All (λ c. is_space c ≡ false) name → Lacks 10 name
unfolding is_space
word-Lacks [] h = _
word-Lacks (c ∷ name) (h, hs) = (ground arith, word-Lacks name hs)

pub column-Lacks : (n : ℕ) (rest : Str) → Lacks 10 rest → Lacks 10 (column n rest)
column-Lacks n rest h = (refl, All-append _ (to_string n) rest (to_string-Lacks n) h)

counters-Lacks : (d : Disk) → IsDisk d → Lacks 10 (counters d)
counters-Lacks d h = column-Lacks d.reads_completed _ (
    column-Lacks d.reads_merged _ (
      column-Lacks d.sectors_read _ (
        column-Lacks d.time_reading _ (
          column-Lacks d.writes_completed _ (
            column-Lacks d.writes_merged _
              (column-Lacks d.sectors_written _ (column-Lacks d.time_writing _ h.more_end.1)))))))

line_of-Lacks : (d : Disk) → IsDisk d → Lacks 10 (line_of d)
line_of-Lacks d h = spaces-Lacks d.major_pad _ (
    All-append _ (to_string d.major) _ (to_string-Lacks d.major) (
      spaces-Lacks (suc d.minor_pad) _ (
        All-append _ (to_string d.minor) _ (to_string-Lacks d.minor) (
          refl,
          All-append _ d.name (counters d) (word-Lacks d.name h.name_word.0) (counters-Lacks d h),
        ))))

pub getlines-line :
    (line rest : Str) → Lacks 10 line → getlines (line ++ 10 ∷ rest) ≡ line ∷ getlines rest
unfolding getlines
getlines-line [] rest h = refl
getlines-line (c ∷ line) rest (h, hs) = rw (h, getlines-line line rest hs) refl

disk_lines-nil : disk_lines (getlines []) ≡ no_sectors
unfolding disk_lines getlines
disk_lines-nil = refl

disk_lines-file_of :
    (disks : List Disk)
    → All IsDisk disks
    → disk_lines (getlines (file_of disks)) ≡ first_stats disks
unfolding disk_lines
disk_lines-file_of [] h = disk_lines-nil
disk_lines-file_of (d ∷ disks) (h, hs) =
    rw
      (
        getlines-line (line_of d) (file_of disks) (line_of-Lacks d h),
        disk_lines,
        disk_line-line_of d h,
        disk_lines-file_of disks hs,
      )
      refl

-- Where the file has a line for each disk, the first two columns padded with spaces and the others
-- behind one space, with the numbers in their types, a word for the name and anything that begins with
-- no digit behind the columns that are read, get_disk_stats returns the sectors read and written of
-- the first disk that is called nvme1n1, or zeros if there is none.
pub get_disk_stats-file_of :
    (disks : List Disk)
    → All IsDisk disks
    → get_disk_stats (some (file_of disks)) ≡ first_stats disks
unfolding get_disk_stats
get_disk_stats-file_of disks h = disk_lines-file_of disks h
