-- ===== src/Proc/Bandwidth.antt =====
-- One round of calculateBandwidth of lib/perf_disk_net_bw.h: the differences of two readings, before
-- they are divided by the interval and printed.
use ycsb_c_cloud.Base.{
  ℕ, suc, Bool, true, false, Option, none, some, Str, List, [], ◌∷◌, codes, if◌then◌else◌, ◌≡◌,
  refl, ◌∙◌, All, length, Bool-cases, str_eq, str_eq_iff, inl, inr, ap,
}
use ycsb_c_cloud.Numbers.{ℤ, ◌-ℤ◌}
use ycsb_c_cloud.CommandLine.{str_start_with}
use ycsb_c_cloud.Proc.{NetStats, NetMap, find_stats, DiskStats, Reading, done, thrown, overrun}

-- `str.find(part) != std::string::npos`
unfoldable pub occurs : Str → Str → Bool
occurs part [] = str_start_with [] part
occurs part (c ∷ s) =
    let later = occurs part s in if str_start_with (c ∷ s) part then true else later

abbrev pub is_measured : Str → Bool
is_measured iface = occurs (codes "ens5") iface

pub record NetDiff : Type 0 where
  pub iface : Str
  pub rx_diff : ℤ
  pub tx_diff : ℤ

abbrev diff_of : Str → NetStats → NetStats → NetDiff
diff_of iface before after = record {
  iface = iface;
  rx_diff = after.rx_bytes -ℤ before.rx_bytes;
  tx_diff = after.tx_bytes -ℤ before.tx_bytes;
}

abbrev put_diff : NetDiff → Reading (List NetDiff) → Reading (List NetDiff)
put_diff diff (done rest) = done (diff ∷ rest)
put_diff diff thrown = thrown
put_diff diff overrun = overrun

-- `net_stats2.at(iface)` throws where the device is gone.
abbrev at_stats : Str → NetStats → Option NetStats → Reading (List NetDiff) → Reading (List NetDiff)
at_stats iface before none rest = thrown
at_stats iface before (some after) rest = put_diff (diff_of iface before after) rest

unfoldable pub net_diffs : NetMap → NetMap → Reading (List NetDiff)
net_diffs [] after = done []
net_diffs ((iface, stats) ∷ before) after =
    let rest = net_diffs before after in
    if is_measured iface then at_stats iface stats (find_stats after iface) rest else rest

unfoldable pub disk_diff : DiskStats → DiskStats → DiskStats
disk_diff before after = record {
  sectors_read = after.sectors_read -ℤ before.sectors_read;
  sectors_written = after.sectors_written -ℤ before.sectors_written;
}

-- No measured device of the first map is missing in the second.
abbrev pub Stays : NetMap → NetMap → Type 0
Stays before after =
    All
      (λ entry.
        is_measured entry.0 ≡ true → (stats : NetStats) × (find_stats after entry.0 ≡ some stats))
      before

abbrev pub measured : NetMap → ℕ
measured [] = 0
measured ((iface, stats) ∷ before) =
    let rest = measured before in if is_measured iface then suc rest else rest

pub net_diffs-done :
    (before after : NetMap)
    → Stays before after
    → (diffs : List NetDiff) × (net_diffs before after ≡ done diffs)
      × (length diffs ≡ measured before)
unfolding net_diffs
net_diffs-done [] after h = ([], refl, refl)
net_diffs-done ((iface, stats) ∷ before) after (h, hs) =
    let (diffs, rest, count) = net_diffs-done before after hs in
    elim (Bool-cases (is_measured iface)) [
      | inl yes_measured ↦
          let (stats', found) = h yes_measured in
          (
            diff_of iface stats stats' ∷ diffs,
            rw (yes_measured, found, rest) refl,
            rw (yes_measured) (ap suc count),
          )
      | inr not_measured ↦ (diffs, rw (not_measured) rest, rw (not_measured) count)
    ]

thrown-later :
    (k : Str) (stats : NetStats) (found : Option NetStats) → at_stats k stats found thrown ≡ thrown
thrown-later k stats none = refl
thrown-later k stats (some after) = refl

find_stats-skip :
    (k iface : Str) (v : NetStats) (m : NetMap)
    → str_eq k iface ≡ false
    → find_stats m iface ≡ find_stats ((k, v) ∷ m) iface
unfolding find_stats
find_stats-skip k iface v m other = rw (other) refl

pub net_diffs-gone :
    (before after : NetMap) (iface : Str) (stats : NetStats)
    → find_stats before iface ≡ some stats
    → is_measured iface ≡ true
    → find_stats after iface ≡ none
    → net_diffs before after ≡ thrown
unfolding net_diffs find_stats
net_diffs-gone [] after iface stats known ens5 gone = cc
net_diffs-gone ((k, v) ∷ before) after iface stats known ens5 gone =
    elim (Bool-cases (str_eq k iface)) [
      | inl same ↦ rw ((str_eq_iff k iface).0 same, ens5, gone) refl
      | inr other ↦
          let later =
            net_diffs-gone before after iface stats (find_stats-skip k iface v before other ∙ known)
              ens5 gone in
          elim (Bool-cases (is_measured k)) [
            | inl yes_measured ↦ rw (yes_measured, later) (thrown-later k v (find_stats after k))
            | inr not_measured ↦ rw (not_measured) later
          ]
    ]
