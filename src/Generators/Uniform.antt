-- ===== src/Generators/Uniform.antt =====
-- UniformGenerator of core/uniform_generator.h. The engine with its distribution is a parameter.
use ycsb_c_cloud.Base.{ℕ, ◌≤◌}

-- `std::mt19937_64` under a `std::uniform_int_distribution`: the engine's state, a draw from a
-- range, and that the draw lies in the range where that is not empty.
pub record UniformEngine : Type 1 where
  pub Engine : Type 0
  pub fresh : Engine
  pub draw : Engine → ℕ → ℕ → ℕ × Engine
  pub draw_range :
      (s : Engine) (min max : ℕ)
      → min ≤ max
      → (min ≤ (draw s min max).0) × ((draw s min max).0 ≤ max)

module _ (e : UniformEngine) where
  open e use {Engine, fresh, draw}

  pub record UniformGenerator : Type 0 where
    pub generator : Engine
    pub min : ℕ
    pub max : ℕ
    pub last_int : ℕ

  unfoldable pub next : UniformGenerator → ℕ × UniformGenerator
  next g =
      let (value, engine) = draw g.generator g.min g.max in
      (value, record g { generator = engine; last_int = value })

  unfoldable pub last : UniformGenerator → ℕ
  last g = g.last_int

  -- The constructor draws once.
  unfoldable pub new_uniform : ℕ → ℕ → UniformGenerator
  unfolding next
  new_uniform min max = (next (record { generator = fresh; min = min; max = max; last_int = 0 })).1
