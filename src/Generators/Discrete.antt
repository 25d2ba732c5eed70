-- ===== src/Generators/Discrete.antt =====
-- DiscreteGenerator of core/discrete_generator.h, over the arithmetic of `double`. A failed
-- `assert` is `none`, and the number that `utils::RandomDouble` draws is an argument.
use ycsb_c_cloud.Base.{Option, none, some, List, [], ◌∷◌, ◌++◌, if◌then◌else◌}
use ycsb_c_cloud.Generators.Doubles.{Doubles}

module _ (d : Doubles) (Value : Type 0) where
  open d use {Double, lt, add, sub, div, of_ℕ}

  -- `last_` has no value before the first AddValue.
  pub record DiscreteGenerator : Type 0 where
    pub values : List (Value × Double)
    pub sum : Double
    pub last : Option Value

  abbrev pub new_discrete : DiscreteGenerator
  new_discrete = record { values = []; sum = of_ℕ 0; last = none }

  abbrev first_last : List (Value × Double) → Value → Option Value → Option Value
  first_last [] value last = some value
  first_last (p ∷ ps) value last = last

  unfoldable pub add_value : DiscreteGenerator → Value → Double → DiscreteGenerator
  add_value g value weight = record {
    values = g.values ++ (value, weight) ∷ [];
    sum = add g.sum weight;
    last = first_last g.values value g.last;
  }

  -- The loop of Next: the first value whose share the number falls into.
  unfoldable pub pick : List (Value × Double) → Double → Double → Option Value
  pick [] sum chooser = none
  pick ((value, weight) ∷ rest) sum chooser =
      let later = pick rest sum (sub chooser (div weight sum)) in
      if lt chooser (div weight sum) then some value else later

  unfoldable pub next : DiscreteGenerator → Double → Option (Value × DiscreteGenerator)
  next g chooser = elim (pick g.values g.sum chooser) [
    | none ↦ none
    | some value ↦ some (value, record g { last = some value })
  ]
