-- ===== src/Workload/Turns.antt =====
-- The loop of NextTransactionKey at a concrete input: the first draw is above Last.
use ycsb_c_cloud.Base.{
  ℕ, ◌+◌, ◌<◌, ◌≡◌, refl, arith, true, none, some, [], codes, if◌then◌else◌, ◌==◌, get_elem?, ◌↔◌,
}
use ycsb_c_cloud.Generators.Uniform.{UniformEngine, next}
use ycsb_c_cloud.Generators.Counter.{last}
use ycsb_c_cloud.Numbers.{pos, to_string}
use ycsb_c_cloud.Workload.{
  returned, Chooser, constant, uniform, CoreWorkload, build_key_name, next_chooser, draw_key,
  choose_key, next_transaction_key,
}
use ycsb_c_cloud.Workload.Keys.{load_keys}
use ycsb_c_cloud.Workload.Choice.{Chooses, next_transaction_key-Chooses}
use ycsb_c_cloud.Workload.Samples.{whole, repeated, ordered}

-- An engine that draws the greatest number first, and then the least.
abbrev turning : UniformEngine
turning = record {
  Engine = ℕ;
  fresh = 0;
  draw = λ s min max. (if s == 0 then max else min, s + 1);
  draw_range = λ s min max h. ground arith;
}

abbrev any_length : Chooser whole turning repeated
any_length = constant (record { constant = 3 })

abbrev turned : ℕ → ℕ → CoreWorkload whole turning repeated
turned state last_int = record {
  table_name = ordered.table_name;
  field_count = pos 2;
  read_all_fields = true;
  write_all_fields = true;
  field_len_generator = any_length;
  key_generator = record { counter = 0 };
  op_chooser = record { values = []; sum = 0; last = none };
  key_chooser = uniform (record { generator = state; min = 1; max = 4; last_int = last_int });
  field_chooser = any_length;
  scan_len_chooser = any_length;
  insert_key_sequence = record { counter = 3 };
  ordered_inserts = true;
  record_count = 3;
  source = 7;
}

second_draw :
    next_transaction_key whole turning repeated 2 (turned 0 0)
    ≡ returned (codes "user1", turned 2 1)
unfolding next_transaction_key choose_key draw_key next_chooser next last build_key_name to_string
second_draw = refl

next_transaction_key-Chooses_example :
    (next_transaction_key whole turning repeated 2 (turned 0 0)
      ≡ returned (codes "user1", turned 2 1))
    ↔ ((rounds key : ℕ) × (rounds < 2)
        × Chooses (turned 0 0) rounds key (turned 2 1)
        × (codes "user1" ≡ build_key_name true key)
        × (get_elem? (load_keys 3 (turned 0 0)) key ≡ some (codes "user1")))
next_transaction_key-Chooses_example =
    next_transaction_key-Chooses 2 3 (turned 0 0) (turned 0 0) refl (omega arith) (omega arith) refl
      refl (codes "user1") (turned 2 1)
