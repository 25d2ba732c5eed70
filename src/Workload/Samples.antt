-- ===== src/Workload/Samples.antt =====
-- Arithmetic, engines and workloads for the runs.
use ycsb_c_cloud.Base.{ℕ, ◌+◌, ◌-◌, arith, true, false, none, some, [], ◌∷◌, codes, ltb}
use ycsb_c_cloud.Generators.Doubles.{Doubles}
use ycsb_c_cloud.Generators.Uniform.{UniformEngine}
use ycsb_c_cloud.Workload.{Randoms, Chooser, constant, uniform, CoreWorkload, Operation}
use ycsb_c_cloud.Workload.Setup.{Conversions}
use ycsb_c_cloud.Numbers.{pos}

abbrev pub whole : Doubles
whole = record {
  Double = ℕ;
  lt = ltb;
  add = λ a b. a + b;
  sub = λ a b. a - b;
  mul = λ a b. a;
  div = λ a b. a;
  pow = λ a b. a;
  of_ℕ = λ a. a;
  decimal = λ m k. m;
  to_u64 = λ a. a;
}

-- An engine that draws the least number, and sources that repeat one number.
abbrev pub least : UniformEngine
least = record {
  Engine = ℕ;
  fresh = 0;
  draw = λ s min max. (min, s);
  draw_range = λ s min max h. (omega arith, h);
}

abbrev pub repeated : Randoms whole
repeated = record { Source = ℕ; random_double = λ s. (s, s); rand = λ s. (s, s) }

-- Sources of which the doubles are zero.
abbrev pub zeros : Randoms whole
zeros = record { Source = ℕ; random_double = λ s. (0, s); rand = λ s. (s, s) }

abbrev pub field_lengths : Chooser whole least repeated
field_lengths = constant (record { constant = 100 })

-- A workload of two fields with keys in order.
abbrev pub ordered : CoreWorkload whole least repeated
ordered = record {
  table_name = codes "usertable";
  field_count = pos 2;
  read_all_fields = true;
  write_all_fields = true;
  field_len_generator = constant (record { constant = 3 });
  key_generator = record { counter = 8 };
  op_chooser = record { values = []; sum = 0; last = none };
  key_chooser = field_lengths;
  field_chooser = field_lengths;
  scan_len_chooser = field_lengths;
  insert_key_sequence = record { counter = 3 };
  ordered_inserts = true;
  record_count = 3;
  source = 7;
}

-- Keys from three records, and updates only.
abbrev pub busy : CoreWorkload whole least repeated
busy = record ordered {
  read_all_fields = false;
  key_chooser = uniform (record { generator = 0; min = 0; max = 2; last_int = 0 });
  op_chooser = record { values = (Operation.update, 5) ∷ []; sum = 5; last = none };
  source = 4;
}

abbrev pub ones : Conversions whole
ones = record { stod = λ s. some 1; of_int = λ n. 1; to_int = λ n. pos n }
