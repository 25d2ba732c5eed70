-- ===== src/Generators/Counter.antt =====
-- CounterGenerator of core/counter_generator.h and ConstGenerator of core/const_generator.h.
pub mod Threads
use ycsb_c_cloud.Base.{ℕ, ◌+◌, ◌-◌, ◌%◌, ◌^◌}

-- `std::atomic<uint64_t> counter_`
pub record CounterGenerator : Type 0 where
  pub counter : ℕ

abbrev pub new_counter : ℕ → CounterGenerator
new_counter start = record { counter = start }

-- `counter_.fetch_add(1)`: the value before, and the generator after.
unfoldable pub next : CounterGenerator → ℕ × CounterGenerator
next g = (g.counter, record g { counter = (g.counter + 1) % 2 ^ 64 })

-- `counter_.load() - 1` on uint64_t.
unfoldable pub last : CounterGenerator → ℕ
last g = (g.counter + 2 ^ 64 - 1) % 2 ^ 64

unfoldable pub set : CounterGenerator → ℕ → CounterGenerator
set g start = record g { counter = start }

pub record ConstGenerator : Type 0 where
  pub constant : ℕ

unfoldable pub next_const : ConstGenerator → ℕ × ConstGenerator
next_const g = (g.constant, g)

unfoldable pub last_const : ConstGenerator → ℕ
last_const g = g.constant
