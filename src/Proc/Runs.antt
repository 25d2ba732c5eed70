-- ===== src/Proc/Runs.antt =====
-- Runs of the readers of /proc at concrete inputs.
use ycsb_c_cloud.Base.{ℕ, ◌≡◌, refl, some, [], ◌∷◌, codes, str_eq}
use ycsb_c_cloud.Properties.{is_space, skip_spaces, str_lt}
use ycsb_c_cloud.Numbers.{
  ℤ, pos, negsuc, ◌-ℤ◌, extract, read_signed, read_number, drop_number, stoll,
}
use ycsb_c_cloud.CommandLine.{str_start_with}
use ycsb_c_cloud.Workload.Samples.{whole}
use ycsb_c_cloud.Proc.{
  getlines, words, get_disk_stats, disk_lines, disk_line, extract_word, take_word, drop_word,
  thrown, overrun, get_net_stats, net_lines, net_line, net_fields, without_colon, NetMap, put_stats,
  find_stats,
}
use ycsb_c_cloud.Proc.Bandwidth.{occurs, disk_diff}
use ycsb_c_cloud.Proc.Disk.{Disk}
use ycsb_c_cloud.Proc.Devices.{Device}
use ycsb_c_cloud.Proc.Log.{interface_line, device_line, disk_bandwidth}
use ycsb_c_cloud.Proc.Written.{Moment, all_lines}

abbrev pos_part : ℤ → ℕ
pos_part (pos n) = n
pos_part (negsuc n) = 0

abbrev nvme : Disk
nvme = record {
  major_pad = 1;
  major = 259;
  minor_pad = 6;
  minor = 0;
  name = codes "nvme1n1";
  reads_completed = 10;
  reads_merged = 0;
  sectors_read = 80;
  time_reading = 3;
  writes_completed = 4;
  writes_merged = 1;
  sectors_written = 32;
  time_writing = 2;
  more = codes " 0 7 7";
}

abbrev lo : Device
lo = record {
  name = codes "lo";
  indent = 4;
  columns = (6, 5) ∷ (6, 0) ∷ (3, 0) ∷ (3, 0) ∷ (3, 0) ∷ (4, 0) ∷ (9, 0) ∷ (8, 0) ∷ (6, 6) ∷ [];
  received = 5;
  sent = 6;
}

abbrev ens5 : ℕ → Device
ens5 bytes = record {
  name = codes "ens5";
  indent = 2;
  columns = (0, bytes) ∷ (6, 0) ∷ (3, 0) ∷ (3, 0) ∷ (3, 0) ∷ (4, 0) ∷ (9, 0) ∷ (8, 0) ∷ (6, 2) ∷ [];
  received = bytes;
  sent = 2;
}

abbrev moment : ℕ → Moment
moment bytes = record { devices = lo ∷ ens5 bytes ∷ []; disks = nvme ∷ [] }

abbrev net_map : ℕ → NetMap
net_map bytes =
    (codes "ens5", record { rx_bytes = pos bytes; tx_bytes = pos 2 })
    ∷ (codes "lo", record { rx_bytes = pos 5; tx_bytes = pos 6 })
    ∷ []

-- A line for ens5, none for lo, and one for the disk, whose counters stand still.
ens5_lines :
    all_lines whole pos_part (pos 1) ((moment 1, moment 7) ∷ [])
    ≡ interface_line (codes "ens5") 6 0 ∷ device_line (codes "nvme1n1") 0 0 ∷ []
unfolding put_stats str_eq str_lt occurs str_start_with find_stats disk_bandwidth disk_diff ◌-ℤ◌
ens5_lines = refl

-- The columns of the kernel are padded, and a line of few fields is read past its end.
padded :
    get_disk_stats (some (codes " 259       0 nvme1n1 1 2 3 4 5 6 7 8 9"))
    ≡ record { sectors_read = pos 3; sectors_written = pos 7 }
unfolding get_disk_stats disk_lines disk_line getlines extract read_signed read_number drop_number
    skip_spaces is_space extract_word take_word drop_word str_eq
padded = refl

short_line : get_net_stats (some (10 ∷ 10 ∷ codes "eth0: 1 2")) ≡ overrun
unfolding get_net_stats net_lines net_line net_fields getlines words is_space without_colon stoll
    extract read_signed read_number drop_number skip_spaces
short_line = refl

no_number : get_net_stats (some (10 ∷ 10 ∷ codes "eth0: x")) ≡ thrown
unfolding get_net_stats net_lines net_line net_fields getlines words is_space without_colon stoll
    extract read_signed skip_spaces
no_number = refl
