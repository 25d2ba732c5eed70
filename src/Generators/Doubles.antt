-- ===== src/Generators/Doubles.antt =====
-- The arithmetic of `double` that the generators use, with no law: its rounding is the machine's.
use ycsb_c_cloud.Base.{ℕ, Bool}

-- `of_ℕ` converts an unsigned integer, `to_u64` converts back, and `decimal m k` is the literal
-- that is written with the digits of `m`, the last `k` of them behind the point.
pub record Doubles : Type 1 where
  pub Double : Type 0
  pub lt : Double → Double → Bool
  pub add : Double → Double → Double
  pub sub : Double → Double → Double
  pub mul : Double → Double → Double
  pub div : Double → Double → Double
  pub pow : Double → Double → Double
  pub of_ℕ : ℕ → Double
  pub decimal : ℕ → ℕ → Double
  pub to_u64 : Double → ℕ
