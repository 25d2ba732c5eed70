-- ===== src/Proc/Devices.antt =====
-- getNetStats of lib/perf_disk_net_bw.h on a file that is written device by device.
use ycsb_c_cloud.Base.{
  ℕ, zero, suc, ◌^◌, ◌<◌, ◌≡◌, ◌≢◌, refl, ap, ◌∙◌, true, false, some, Str, List, [], ◌∷◌, ◌++◌,
  codes, map, All, All-append, get_elem?,
}
use ycsb_c_cloud.Properties.{is_space, extend}
use ycsb_c_cloud.Properties.Loading.{Lacks}
use ycsb_c_cloud.Numbers.{pos, to_string}
use ycsb_c_cloud.Numbers.Decimal.{starts_with_digit, to_string-digit}
use ycsb_c_cloud.Numbers.Extract.{stoll-to_string, to_string-IsWord, to_string-Lacks}
use ycsb_c_cloud.Proc.{
  getlines, starts_with_space, words, NetMap, put_stats, without_colon, done, net_fields, net_line,
  net_lines, get_net_stats,
}
use ycsb_c_cloud.Proc.Disk.{spaces, spaces-Lacks, getlines-line, word-Lacks}

-- A network device with the columns behind its name, of which the first and the ninth are read. The
-- line is indented, and a column is a number with the spaces it is padded with.
pub record Device : Type 0 where
  pub name : Str
  pub indent : ℕ
  pub columns : List (ℕ × ℕ)
  pub received : ℕ
  pub sent : ℕ

abbrev pub numbers_of : List (ℕ × ℕ) → List ℕ
numbers_of [] = []
numbers_of ((pad, n) ∷ ns) = n ∷ numbers_of ns

pub record IsDevice (d : Device) : Type 0 where
  pub name_word : All (λ c. is_space c ≡ false) d.name
  pub received_first :
      (get_elem? (numbers_of d.columns) 0 ≡ some d.received) × (d.received < 2 ^ 63)
  pub sent_ninth : (get_elem? (numbers_of d.columns) 8 ≡ some d.sent) × (d.sent < 2 ^ 63)

abbrev pub columns_of : List (ℕ × ℕ) → Str
columns_of [] = []
columns_of ((pad, n) ∷ ns) = spaces (suc pad) (to_string n ++ columns_of ns)

abbrev pub device_line : Device → Str
device_line d = spaces d.indent ((d.name ++ codes ":") ++ columns_of d.columns)

abbrev pub devices_file : List Device → Str
devices_file [] = []
devices_file (d ∷ ds) = device_line d ++ 10 ∷ devices_file ds

abbrev pub put_all : NetMap → List Device → NetMap
put_all m [] = m
put_all m (d ∷ ds) =
    put_all (put_stats m d.name (record { rx_bytes = pos d.received; tx_bytes = pos d.sent })) ds

words-next :
    (c : ℕ) (s : Str)
    → is_space c ≡ false
    → starts_with_space s ≡ false
    → words (c ∷ s) ≡ extend c (words s)
unfolding words
words-next c s h hs = rw (h, hs) refl

words-word :
    (word rest : Str)
    → All (λ c. is_space c ≡ false) word
    → word ≢ []
    → starts_with_space rest ≡ true
    → words (word ++ rest) ≡ word ∷ words rest
unfolding words
words-word [] rest h filled stop = absurd (filled refl)
words-word (c ∷ []) rest (h, hs) filled stop = rw (h, stop) refl
words-word (c ∷ b ∷ word) rest (h, hs) filled stop =
    words-next c (b ∷ (word ++ rest)) h hs.0
    ∙ ap (extend c) (words-word (b ∷ word) rest hs (λ e. cc) stop)

columns_of-space : (ns : List (ℕ × ℕ)) → starts_with_space (columns_of ns) ≡ true
unfolding is_space
columns_of-space [] = refl
columns_of-space ((pad, n) ∷ ns) = refl

to_string-filled : (n : ℕ) → to_string n ≢ []
to_string-filled n same =
    let digit : starts_with_digit (to_string n) ≡ true = to_string-digit n in cc

words-spaces : (k : ℕ) (s : Str) → words (spaces k s) ≡ words s
unfolding words is_space
words-spaces zero s = refl
words-spaces (suc k) s = words-spaces k s

words-columns_of : (ns : List (ℕ × ℕ)) → words (columns_of ns) ≡ map to_string (numbers_of ns)
unfolding words
words-columns_of [] = refl
words-columns_of ((pad, n) ∷ ns) =
    words-spaces (suc pad) (to_string n ++ columns_of ns)
    ∙ words-word (to_string n) (columns_of ns) (to_string-IsWord n) (to_string-filled n)
        (columns_of-space ns)
    ∙ ap (λ rest. to_string n ∷ rest) (words-columns_of ns)

get_elem?-map :
    (ns : List ℕ) (i n : ℕ)
    → get_elem? ns i ≡ some n
    → get_elem? (map to_string ns) i ≡ some (to_string n)
get_elem?-map [] i n h = cc
get_elem?-map (m ∷ ns) zero n h = let same : m ≡ n = cc in cc
get_elem?-map (m ∷ ns) (suc i) n h = get_elem?-map ns i n h

without_colon-colon : (name : Str) → without_colon (name ++ codes ":") ≡ name
unfolding without_colon
without_colon-colon [] = refl
without_colon-colon (c ∷ []) = refl
without_colon-colon (c ∷ d ∷ name) = ap (λ rest. c ∷ rest) (without_colon-colon (d ∷ name))

colon-IsWord :
    (name : Str)
    → All (λ c. is_space c ≡ false) name
    → All (λ c. is_space c ≡ false) (name ++ codes ":")
unfolding is_space
colon-IsWord name h = All-append _ name (codes ":") h (refl, _)

colon-filled : (name : Str) → name ++ codes ":" ≢ []
colon-filled [] same = cc
colon-filled (c ∷ name) same = cc

words-device_line :
    (d : Device)
    → IsDevice d
    → words (device_line d) ≡ (d.name ++ codes ":") ∷ map to_string (numbers_of d.columns)
words-device_line d h =
    words-spaces d.indent _
    ∙ words-word (d.name ++ codes ":") (columns_of d.columns) (colon-IsWord d.name h.name_word)
        (colon-filled d.name) (columns_of-space d.columns)
    ∙ ap (λ rest. (d.name ++ codes ":") ∷ rest) (words-columns_of d.columns)

net_line-device :
    (m : NetMap) (d : Device)
    → IsDevice d
    → net_line m (words (device_line d))
      ≡ done (put_stats m d.name (record { rx_bytes = pos d.received; tx_bytes = pos d.sent }))
unfolding net_line net_fields
net_line-device m d h =
    rw
      (
        words-device_line d h,
        net_line,
        without_colon-colon d.name,
        get_elem?-map (numbers_of d.columns) 0 d.received h.received_first.0,
        stoll-to_string d.received h.received_first.1,
        get_elem?-map (numbers_of d.columns) 8 d.sent h.sent_ninth.0,
        stoll-to_string d.sent h.sent_ninth.1,
      )
      refl

columns_of-Lacks : (ns : List (ℕ × ℕ)) → Lacks 10 (columns_of ns)
columns_of-Lacks [] = _
columns_of-Lacks ((pad, n) ∷ ns) =
    spaces-Lacks (suc pad) _
      (All-append _ (to_string n) (columns_of ns) (to_string-Lacks n) (columns_of-Lacks ns))

device_line-Lacks : (d : Device) → IsDevice d → Lacks 10 (device_line d)
device_line-Lacks d h = spaces-Lacks d.indent _ (
    All-append _ (d.name ++ codes ":") (columns_of d.columns)
      (word-Lacks (d.name ++ codes ":") (colon-IsWord d.name h.name_word))
      (columns_of-Lacks d.columns))

net_lines-devices :
    (m : NetMap) (ds : List Device)
    → All IsDevice ds
    → net_lines m (getlines (devices_file ds)) ≡ done (put_all m ds)
unfolding net_lines getlines
net_lines-devices m [] h = refl
net_lines-devices m (d ∷ ds) (h, hs) =
    rw
      (
        getlines-line (device_line d) (devices_file ds) (device_line-Lacks d h),
        net_lines,
        net_line-device m d h,
      )
      (net_lines-devices (put_stats m d.name _) ds hs)

-- Behind two title lines, where the file has an indented line for each device, with its name, a colon,
-- and, each behind spaces, columns of which the first and the ninth fit long long, getNetStats throws
-- nothing and returns the bytes received and sent of each device, the last line of a name counting.
pub get_net_stats-devices :
    (title names : Str) (ds : List Device)
    → Lacks 10 title
    → Lacks 10 names
    → All IsDevice ds
    → get_net_stats (some (title ++ 10 ∷ (names ++ 10 ∷ devices_file ds))) ≡ done (put_all [] ds)
unfolding get_net_stats
get_net_stats-devices title names ds ht hn h =
    rw
      (
        getlines-line title (names ++ 10 ∷ devices_file ds) ht,
        getlines-line names (devices_file ds) hn,
      )
      (net_lines-devices [] ds h)
