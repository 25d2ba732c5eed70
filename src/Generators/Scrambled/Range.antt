-- ===== src/Generators/Scrambled/Range.antt =====
-- The range of core/scrambled_zipfian_generator.h.
use ycsb_c_cloud.Base.{
  ℕ, ◌+◌, ◌-◌, ◌%◌, ◌^◌, ◌≤◌, ◌<◌, ◌≡◌, refl, ap, ◌∙◌, arith, none, some, true, Option-cases, inl,
  inr,
}
use ycsb_c_cloud.Generators.Doubles.{Doubles}
use ycsb_c_cloud.Generators.Hash.{fnv_hash64}
use ycsb_c_cloud.Generators.Zipfian
use ycsb_c_cloud.Generators.Zipfian.{ZipfianGenerator, new_zipfian, in_range, ◌>>=◌}
use ycsb_c_cloud.Generators.Zipfian.Zeta.{new_zipfian-IsExact, next_of-last}
use ycsb_c_cloud.Generators.Scrambled.{
  ScrambledZipfianGenerator, new_scrambled, scramble, next_scrambled, last_scrambled,
}

in_range-bounds : (n : ℕ) → in_range n ≡ true → 2 ≤ n
in_range-bounds n h = ground arith

module _ (d : Doubles) where
  open d use {Double}

  -- The range is not empty, and does not pass the largest uint64_t.
  pub record IsRange (g : ScrambledZipfianGenerator d) (min max : ℕ) : Type 0 where
    pub base : g.base ≡ min
    pub num_items : g.num_items ≡ max - min + 1
    pub ordered : min ≤ max
    pub fits : max < 2 ^ 64

  pub scramble_range :
      (g : ScrambledZipfianGenerator d) (min max value : ℕ)
      → IsRange g min max
      → (min ≤ scramble d g value) × (scramble d g value ≤ max)
  unfolding scramble
  scramble_range g min max value r = rw (r.base, r.num_items) (bounds (fnv_hash64 value))
    where
      bounds :
          (h : ℕ)
          → (min ≤ (min + h % (max - min + 1)) % 2 ^ 64)
            × ((min + h % (max - min + 1)) % 2 ^ 64 ≤ max)
      bounds h =
          let below : h % (max - min + 1) < max - min + 1 = omega arith in
          (omega (arith, r.ordered, r.fits), omega (arith, r.ordered, r.fits))

  pub new_scrambled-IsRange :
      (min max : ℕ) (c u : Double) (g : ScrambledZipfianGenerator d)
      → min ≤ max
      → max < 2 ^ 64
      → new_scrambled d min max c u ≡ some g
      → IsRange g min max
  unfolding new_scrambled
  new_scrambled-IsRange min max c u g ordered fits h = elim (new_zipfian-IsExact d min max c u) [
    | inl (out, no_) ↦ cc (h, no_)
    | inr (ok, z, built, exact) ↦
        let same : some
              (record { base = min; num_items = (max + 2 ^ 64 - min + 1) % 2 ^ 64; generator = z })
            ≡ some g =
          rw (built, new_scrambled) at h in
        let e : record { base = min; num_items = (max + 2 ^ 64 - min + 1) % 2 ^ 64; generator = z }
            ≡ g =
          cc in
        rw (← e) (record {
          base = refl;
          num_items = omega (arith, in_range-bounds ((max + 2 ^ 64 - min + 1) % 2 ^ 64) ok);
          ordered = ordered;
          fits = fits;
        })
  ]

  -- A value that Next draws lies in the range, `Last` then returns it again, and the range stays.
  pub next_scrambled-IsRange :
      (g g' : ScrambledZipfianGenerator d) (min max v : ℕ) (u : Double)
      → IsRange g min max
      → next_scrambled d g u ≡ some (v, g')
      → (min ≤ v) × (v ≤ max) × (last_scrambled d g' ≡ v) × IsRange g' min max
  unfolding next_scrambled last_scrambled scramble
  next_scrambled-IsRange g g' min max v u r h = elim (Option-cases (Zipfian.next d g.generator u)) [
    | inl no_ ↦ let gone : none ≡ some (v, g') = rw (no_, next_scrambled) at h in cc
    | inr ((value, z), ok) ↦
        let same : some (scramble d g value, record g { generator = z }) ≡ some (v, g') =
          rw (ok, next_scrambled) at h in
        let e_v : scramble d g value ≡ v = cc in
        let e_g : record g { generator = z } ≡ g' = cc in
        let (lo, hi) = scramble_range g min max value r in
        (
          rw (← e_v) lo,
          rw (← e_v) hi,
          rw (← e_g) (
              ap (scramble d g) (
                next_of-last d g.generator z g.generator.num_items value u
                  (unfold Zipfian.next in ok))
              ∙ e_v),
          rw (← e_g) (record {
            base = r.base;
            num_items = r.num_items;
            ordered = r.ordered;
            fits = r.fits;
          }),
        )
  ]
