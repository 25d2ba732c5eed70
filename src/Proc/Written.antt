-- ===== src/Proc/Written.antt =====
-- calculateBandwidth of lib/perf_disk_net_bw.h on files of /proc that are written device by device
-- and disk by disk.
use ycsb_c_cloud.Base.{
  ◌+◌, ◌*◌, ◌^◌, ◌<◌, codes, Option, none, some, Str, List, [], ◌∷◌, ◌++◌, map, if◌then◌else◌, All,
}
use ycsb_c_cloud.Generators.Doubles.{Doubles}
use ycsb_c_cloud.Numbers.{ℤ, pos, negsuc, ◌-ℤ◌}
use ycsb_c_cloud.Proc.{NetStats, NetMap, DiskStats, find_stats}
use ycsb_c_cloud.Proc.Bandwidth.{is_measured, Stays}
use ycsb_c_cloud.Proc.Devices.{Device, IsDevice, devices_file, put_all}
use ycsb_c_cloud.Proc.Disk.{Disk, IsDisk, file_of, first_stats}
use ycsb_c_cloud.Proc.Log.{Round, Line, device_line, line_of}

-- What the machine has when a file is read.
pub record Moment : Type 0 where
  pub devices : List Device
  pub disks : List Disk

abbrev pub net_of : Moment → NetMap
net_of m = put_all [] m.devices

-- Fewer than 2 ^ 54 sectors, so that their bytes fit long long.
abbrev pub HasFew : Disk → Type 0
HasFew disk = (disk.sectors_read < 2 ^ 54) × (disk.sectors_written < 2 ^ 54)

pub record IsMoment (m : Moment) : Type 0 where
  pub each_device : All IsDevice m.devices
  pub each_disk : All IsDisk m.disks
  pub few_sectors : All HasFew m.disks

-- No measured device is gone behind the sleep.
pub record IsSteady (sample : Moment × Moment) : Type 0 where
  pub first : IsMoment sample.0
  pub second : IsMoment sample.1
  pub stays : Stays (net_of sample.0) (net_of sample.1)

-- Behind two title lines, a line for each device.
abbrev pub net_file : Str → Str → Moment → Str
net_file title names m = title ++ 10 ∷ (names ++ 10 ∷ devices_file m.devices)

abbrev pub round_of : Str → Str → Moment × Moment → Round
round_of title names (m1, m2) = record {
  net1 = some (net_file title names m1);
  disk1 = some (file_of m1.disks);
  net2 = some (net_file title names m2);
  disk2 = some (file_of m2.disks);
}

abbrev pub measured_only : NetMap → NetMap
measured_only [] = []
measured_only ((iface, stats) ∷ m) =
    let rest = measured_only m in if is_measured iface then (iface, stats) ∷ rest else rest

abbrev pub or_same : NetStats → Option NetStats → NetStats
or_same stats none = stats
or_same stats (some after) = after

-- 512 times a number of sectors.
abbrev pub bytes_of : ℤ → ℤ
bytes_of (pos n) = pos (n * 512)
bytes_of (negsuc n) = negsuc (n * 512 + 511)

module _ (d : Doubles) (of_ℤ : ℤ → d.Double) where
  abbrev pub rate_line : ℤ → NetMap → Str × NetStats → Line d.Double
  rate_line interval after (iface, stats) =
      line_of d of_ℤ interval iface (or_same stats (find_stats after iface)) stats

  abbrev byte_rate : ℤ → ℤ → d.Double
  byte_rate interval diff =
      d.div (d.div (d.div (of_ℤ (bytes_of diff)) (of_ℤ interval)) (d.decimal 10240 1))
        (d.decimal 10240 1)

  -- The line of the disk, with the bytes of the differences of its sectors.
  abbrev pub disk_line_of : ℤ → DiskStats → DiskStats → Line d.Double
  disk_line_of interval before after =
      device_line (codes "nvme1n1") (byte_rate interval (after.sectors_read -ℤ before.sectors_read))
        (byte_rate interval (after.sectors_written -ℤ before.sectors_written))

  -- A line for each measured device of the first moment, and one for the disk.
  abbrev pub sample_lines : ℤ → Moment × Moment → List (Line d.Double)
  sample_lines interval (m1, m2) =
      map (rate_line interval (net_of m2)) (measured_only (net_of m1))
      ++ disk_line_of interval (first_stats m1.disks) (first_stats m2.disks) ∷ []

  abbrev pub all_lines : ℤ → List (Moment × Moment) → List (Line d.Double)
  all_lines interval [] = []
  all_lines interval (sample ∷ samples) = sample_lines interval sample ++ all_lines interval samples
