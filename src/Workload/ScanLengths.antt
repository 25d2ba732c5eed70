-- ===== src/Workload/ScanLengths.antt =====
-- Scan lengths by the zipfian distribution, in core/core_workload.cc.
use ycsb_c_cloud.Base.{◌^◌, ◌<◌, ◌≡◌, refl, arith, codes, str_eq}
use ycsb_c_cloud.Generators.Doubles.{Doubles}
use ycsb_c_cloud.Generators.Uniform.{UniformEngine}
use ycsb_c_cloud.Generators.Zipfian.Draws.{new_zipfian_single}
use ycsb_c_cloud.Workload.{failed, Randoms}
use ycsb_c_cloud.Numbers.{ℤ, pos, negsuc, to_u64}
use ycsb_c_cloud.Workload.Setup.{Conversions, scan_len_chooser_of}

to_u64-lt : (n : ℤ) → to_u64 n < 2 ^ 64
unfolding to_u64
to_u64-lt (pos n) = omega arith
to_u64-lt (negsuc n) = omega arith

module _ (d : Doubles) (e : UniformEngine) (r : Randoms d) (c : Conversions d) where
  -- With the zipfian distribution of scan lengths, Init fails the assertion of the constructor of
  -- ZipfianGenerator when it makes the chooser of scan lengths, for every maximal scan length.
  pub scan_len_chooser_of-failed :
      (n : ℤ) (s : r.Source) → scan_len_chooser_of d e r c (codes "zipfian") n s ≡ failed
  unfolding scan_len_chooser_of str_eq
  scan_len_chooser_of-failed n s =
      rw (new_zipfian_single d (to_u64 n) (d.decimal 99 2) (r.random_double s).0 (to_u64-lt n)) refl
