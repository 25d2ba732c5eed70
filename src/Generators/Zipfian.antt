-- ===== src/Generators/Zipfian.antt =====
-- ZipfianGenerator of core/zipfian_generator.h, over the arithmetic of `double`. A failed `assert`
-- is `none`, and the number that `utils::RandomDouble` draws is an argument.
pub mod Zeta
pub mod Draws
use ycsb_c_cloud.Base.{
  ℕ, zero, suc, ◌+◌, ◌-◌, ◌/◌, ◌%◌, ◌^◌, Bool, ◌&&◌, Option, none, some, ltb, leb, if◌then◌else◌,
}
use mathlib.Core.Option
pub use ycsb_c_cloud.Base.{◌>>=◌}
use ycsb_c_cloud.Generators.Doubles.{Doubles}

-- `UINT64_MAX >> 24`
abbrev pub k_max_num_items : ℕ
k_max_num_items = (2 ^ 64 - 1) / 2 ^ 24

-- `assert(num >= 2 && num < kMaxNumItems)`
abbrev pub in_range : ℕ → Bool
in_range num = leb 2 num && ltb num k_max_num_items

module _ (d : Doubles) where
  open d use {Double, lt, add, sub, mul, div, pow, of_ℕ, decimal, to_u64}

  pub record ZipfianGenerator : Type 0 where
    pub num_items : ℕ
    pub base : ℕ
    pub theta : Double
    pub zeta_n : Double
    pub eta : Double
    pub alpha : Double
    pub zeta_2 : Double
    pub n_for_zeta : ℕ
    pub last_value : ℕ

  -- The rounds left, the counter, `theta` and the sum. The counter stays below `kMaxNumItems`.
  zeta_loop : ℕ → ℕ → Double → Double → Double
  zeta_loop zero i theta zeta = zeta
  zeta_loop (suc n) i theta zeta =
      zeta_loop n (i + 1) theta (add zeta (div (of_ℕ 1) (pow (of_ℕ i) theta)))

  -- `for (uint64_t i = last_num + 1; i <= cur_num; ++i)`
  unfoldable pub zeta : ℕ → ℕ → Double → Double → Double
  unfolding zeta_loop
  zeta last_num cur_num theta last_zeta =
      zeta_loop (cur_num - last_num) (last_num + 1) theta last_zeta

  unfoldable pub raise_zeta : ZipfianGenerator → ℕ → Option ZipfianGenerator
  raise_zeta g num =
      if leb g.n_for_zeta num
      then some (record g { zeta_n = zeta g.n_for_zeta num g.theta g.zeta_n; n_for_zeta = num })
      else none

  unfoldable pub eta_of : ZipfianGenerator → Double
  eta_of g =
      div (sub (of_ℕ 1) (pow (div (decimal 20 1) (of_ℕ g.num_items)) (sub (of_ℕ 1) g.theta)))
        (sub (of_ℕ 1) (div g.zeta_2 g.zeta_n))

  abbrev set_eta : ZipfianGenerator → ZipfianGenerator
  set_eta g = record g { eta = eta_of g }

  -- `if (num > n_for_zeta_)`: zeta_n and eta are computed again.
  unfoldable pub refresh : ZipfianGenerator → ℕ → Option ZipfianGenerator
  refresh g num = if ltb g.n_for_zeta num then Option.map set_eta (raise_zeta g num) else some g

  -- The three returns of Next, from the random number `u`.
  unfoldable pub draw : ZipfianGenerator → ℕ → Double → ℕ
  draw g num u =
      let uz = mul u g.zeta_n in
      if lt uz (decimal 10 1)
      then 0
      else if lt uz (add (decimal 10 1) (pow (decimal 5 1) g.theta))
      then 1
      else to_u64 (
          add (of_ℕ g.base) (mul (of_ℕ num) (pow (add (sub (mul g.eta u) g.eta) (of_ℕ 1)) g.alpha)))

  unfoldable pub next_of : ZipfianGenerator → ℕ → Double → Option (ℕ × ZipfianGenerator)
  next_of g num u =
      if in_range num
      then (do g' ← refresh g num; some (draw g' num u, record g' { last_value = draw g' num u }))
      else none

  unfoldable pub next : ZipfianGenerator → Double → Option (ℕ × ZipfianGenerator)
  next g u = next_of g g.num_items u

  unfoldable pub last : ZipfianGenerator → ℕ
  last g = g.last_value

  -- The members as the constructor sets them up to RaiseZeta. The members that have no value yet
  -- are given `last_value` 0 and `eta` 0.
  abbrev before_zeta : ℕ → ℕ → Double → ZipfianGenerator
  before_zeta min max theta = record {
    num_items = (max + 2 ^ 64 - min + 1) % 2 ^ 64;
    base = min;
    theta = theta;
    zeta_n = of_ℕ 0;
    eta = of_ℕ 0;
    alpha = div (decimal 10 1) (sub (decimal 10 1) theta);
    zeta_2 = zeta 0 2 theta (of_ℕ 0);
    n_for_zeta = 0;
    last_value = 0;
  }

  unfoldable pub new_zipfian : ℕ → ℕ → Double → Double → Option ZipfianGenerator
  new_zipfian min max theta u =
      let g = before_zeta min max theta in
      if in_range g.num_items
      then (do g' ← raise_zeta g g.num_items; (value, g'') ← next (set_eta g') u; some g'')
      else none

  -- `ZipfianGenerator(uint64_t num_items)`
  unfoldable pub new_zipfian_items : ℕ → Double → Option ZipfianGenerator
  new_zipfian_items num_items u = new_zipfian 0 ((num_items + 2 ^ 64 - 1) % 2 ^ 64) (decimal 99 2) u
