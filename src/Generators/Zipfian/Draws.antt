-- ===== src/Generators/Zipfian/Draws.antt =====
-- The one-item range of ZipfianGenerator of core/zipfian_generator.h.
use ycsb_c_cloud.Base.{ℕ, ◌≡◌, arith, none}
use ycsb_c_cloud.Coding.{IsU64}
use ycsb_c_cloud.Generators.Doubles.{Doubles}
use ycsb_c_cloud.Generators.Zipfian.{new_zipfian}

module _ (d : Doubles) where
  open d use {Double}

  -- The constructor of a ZipfianGenerator over a single item, from `m` to `m`, fails its assertion
  -- for every `m` that a uint64_t holds.
  pub new_zipfian_single : (m : ℕ) (theta u : Double) → IsU64 m → new_zipfian d m m theta u ≡ none
  unfolding new_zipfian
  new_zipfian_single m theta u h = ground arith
