-- ===== src/Generators/Scrambled.antt =====
-- ScrambledZipfianGenerator of core/scrambled_zipfian_generator.h and SkewedLatestGenerator of
-- core/skewed_latest_generator.h, over the arithmetic of `double`.
pub mod Range
use ycsb_c_cloud.Base.{ℕ, ◌+◌, ◌-◌, ◌%◌, ◌^◌, Option, none, some}
use ycsb_c_cloud.Generators.Doubles.{Doubles}
use ycsb_c_cloud.Generators.Hash.{fnv_hash64}
use ycsb_c_cloud.Generators.Counter as Counter
use ycsb_c_cloud.Generators.Counter.{CounterGenerator}
use ycsb_c_cloud.Generators.Zipfian
use ycsb_c_cloud.Generators.Zipfian.{
  ZipfianGenerator, new_zipfian, new_zipfian_items, next_of, ◌>>=◌,
}

module _ (d : Doubles) where
  open d use {Double, decimal}

  pub record ScrambledZipfianGenerator : Type 0 where
    pub base : ℕ
    pub num_items : ℕ
    pub generator : ZipfianGenerator d

  unfoldable pub new_scrambled : ℕ → ℕ → Double → Double → Option ScrambledZipfianGenerator
  new_scrambled min max zipfian_const u = do
    g ← new_zipfian d min max zipfian_const u
    some (record { base = min; num_items = (max + 2 ^ 64 - min + 1) % 2 ^ 64; generator = g })

  -- `ScrambledZipfianGenerator(uint64_t num_items)`, with the default `zipfian_const`.
  unfoldable pub new_scrambled_items : ℕ → Double → Option ScrambledZipfianGenerator
  unfolding new_scrambled
  new_scrambled_items num_items u =
      new_scrambled 0 ((num_items + 2 ^ 64 - 1) % 2 ^ 64) (decimal 99 2) u

  unfoldable pub scramble : ScrambledZipfianGenerator → ℕ → ℕ
  scramble g value = (g.base + fnv_hash64 value % g.num_items) % 2 ^ 64

  unfoldable pub next_scrambled :
      ScrambledZipfianGenerator → Double → Option (ℕ × ScrambledZipfianGenerator)
  next_scrambled g u = do
    (value, z) ← Zipfian.next d g.generator u
    some (scramble g value, record g { generator = z })

  unfoldable pub last_scrambled : ScrambledZipfianGenerator → ℕ
  last_scrambled g = scramble g (Zipfian.last d g.generator)

  -- The counter `basis_` is shared with its owner, so it is an argument of each operation.
  pub record SkewedLatestGenerator : Type 0 where
    pub zipfian : ZipfianGenerator d
    pub last_latest : ℕ

  unfoldable pub next_latest :
      CounterGenerator → SkewedLatestGenerator → Double → Option (ℕ × SkewedLatestGenerator)
  next_latest basis g u =
      let max = Counter.last basis in
      do
        (value, z) ← next_of d g.zipfian max u
        let drawn = (max + 2 ^ 64 - value) % 2 ^ 64
        some (drawn, record g { zipfian = z; last_latest = drawn })

  -- The constructor draws twice: `u` in the constructor of `zipfian_`, and `u'` in its own Next.
  unfoldable pub new_latest : CounterGenerator → Double → Double → Option SkewedLatestGenerator
  new_latest basis u u' = do
    z ← new_zipfian_items d (Counter.last basis) u
    (drawn, g) ← next_latest basis (record { zipfian = z; last_latest = 0 }) u'
    some g
