-- ===== src/Workload/Setup.antt =====
-- `Init` and `GetFieldLenGenerator` of core/core_workload.cc, on a new CoreWorkload.
use ycsb_c_cloud.Base.{
  zero, suc, ◌+◌, ◌-◌, ◌%◌, ◌^◌, not, Option, none, some, Str, [], codes, str_eq, if◌then◌else◌,
}
use ycsb_c_cloud.Properties.{Properties, get_property, str_to_bool}
use ycsb_c_cloud.Generators.Doubles.{Doubles}
use ycsb_c_cloud.Generators.Counter.{CounterGenerator, new_counter, set}
use ycsb_c_cloud.Generators.Zipfian.{new_zipfian}
use ycsb_c_cloud.Generators.Scrambled.{new_scrambled_items, new_latest}
use ycsb_c_cloud.Generators.Uniform.{UniformEngine, new_uniform}
use ycsb_c_cloud.Generators.Discrete.{DiscreteGenerator, new_discrete, add_value}
use ycsb_c_cloud.Workload.{
  Run, returned, thrown, ◌>>=◌, asserted, Operation, Randoms, Chooser, constant, uniform, zipfian,
  scrambled, latest, CoreWorkload,
}
use ycsb_c_cloud.Numbers.{ℤ, pos, negsuc, to_u64, stoi}
use ycsb_c_cloud.Workload.Options.{
  tablename_property, tablename_default, field_count_property, field_count_default,
  field_length_distribution_property, field_length_distribution_default, field_length_property,
  field_length_default, read_all_fields_property, read_all_fields_default,
  write_all_fields_property, write_all_fields_default, read_proportion_property,
  read_proportion_default, update_proportion_property, update_proportion_default,
  insert_proportion_property, insert_proportion_default, scan_proportion_property,
  scan_proportion_default, readmodifywrite_proportion_property, readmodifywrite_proportion_default,
  request_distribution_property, request_distribution_default, max_scan_length_property,
  max_scan_length_default, scan_length_distribution_property, scan_length_distribution_default,
  insert_order_property, insert_order_default, insert_start_property, insert_start_default,
  record_count_property, operation_count_property,
}

-- `std::stod`, where `none` is an exception, and the conversions between int and double.
pub record Conversions (d : Doubles) : Type 0 where
  pub stod : Str → Option d.Double
  pub of_int : ℤ → d.Double
  pub to_int : d.Double → ℤ

abbrev pub parsed {ℓ} : {A : Type ℓ} → Option A → Run A
parsed none = thrown
parsed (some a) = returned a

-- `n - 1` on int; the least int has no predecessor and is not met here.
abbrev pub minus_one : ℤ → ℤ
minus_one (pos zero) = negsuc 0
minus_one (pos (suc n)) = pos n
minus_one (negsuc n) = negsuc (n + 1)

module _ (d : Doubles) (e : UniformEngine) (r : Randoms d) (c : Conversions d) where
  open d use {Double, lt, mul, of_ℕ, decimal}
  open r use {Source, random_double}
  open c use {stod, of_int, to_int}

  unfoldable pub get_field_len_generator : Properties → Source → Run (Chooser d e r × Source)
  get_field_len_generator p s = do
    let field_len_dist =
        get_property p field_length_distribution_property field_length_distribution_default
    field_len ← parsed (stoi (get_property p field_length_property field_length_default))
    let (u, s') = random_double s
    if str_eq field_len_dist (codes "constant")
        then returned (constant (record { constant = to_u64 field_len }), s)
        else if str_eq field_len_dist (codes "uniform")
        then returned (uniform (new_uniform e 1 (to_u64 field_len)), s)
        else if str_eq field_len_dist (codes "zipfian")
        then (do
          g ← asserted (new_zipfian d 1 (to_u64 field_len) (decimal 99 2) u)
          returned (zipfian g, s'))
        else thrown

  -- `key_chooser_`, by the name of the distribution. The counter is `insert_key_sequence_`, which
  -- counts the records here.
  unfoldable pub key_chooser_of :
      Properties → Str → CounterGenerator → Double → Source → Run (Chooser d e r × Source)
  key_chooser_of p request_dist basis insert_proportion s =
      let (u, s') = random_double s in
      let (u', s'') = random_double s' in
      if str_eq request_dist (codes "uniform")
      then returned (uniform (new_uniform e 0 ((basis.counter + 2 ^ 64 - 1) % 2 ^ 64)), s)
      else if str_eq request_dist (codes "zipfian")
      then (do
        op_count ← parsed (stoi (get_property p operation_count_property []))
        let new_keys = to_int (mul (mul (of_int op_count) insert_proportion) (of_ℕ 2))
        g ← asserted (new_scrambled_items d ((basis.counter + to_u64 new_keys) % 2 ^ 64) u)
        returned (scrambled g, s'))
      else if str_eq request_dist (codes "latest")
      then (do g ← asserted (new_latest d basis u u'); returned (latest g, s''))
      else thrown

  unfoldable pub scan_len_chooser_of : Str → ℤ → Source → Run (Chooser d e r × Source)
  scan_len_chooser_of scan_len_dist max_scan_len s =
      let (u, s') = random_double s in
      if str_eq scan_len_dist (codes "uniform")
      then returned (uniform (new_uniform e (to_u64 max_scan_len) (to_u64 max_scan_len)), s)
      else if str_eq scan_len_dist (codes "zipfian")
      then (do
        g ← asserted (new_zipfian d (to_u64 max_scan_len) (to_u64 max_scan_len) (decimal 99 2) u)
        returned (zipfian g, s'))
      else thrown

  -- `if (weight > 0) op_chooser_.AddValue(op, weight)`
  abbrev add_if : Operation → Double → DiscreteGenerator d Operation → DiscreteGenerator d Operation
  add_if op weight g = if lt (of_ℕ 0) weight then add_value d Operation g op weight else g

  unfoldable pub op_chooser_of :
      Double → Double → Double → Double → Double → DiscreteGenerator d Operation
  op_chooser_of read update insert scan readmodifywrite =
      add_if Operation.readmodifywrite readmodifywrite (
        add_if Operation.scan scan (
          add_if Operation.insert insert (
            add_if Operation.update update
              (add_if Operation.read read (new_discrete d Operation)))))

  unfoldable pub init : Properties → Source → Run (CoreWorkload d e r)
  init p s = do
    let table_name = get_property p tablename_property tablename_default
    field_count ← parsed (stoi (get_property p field_count_property field_count_default))
    (field_len_generator, s) ← get_field_len_generator p s
    read_proportion ←
        parsed (stod (get_property p read_proportion_property read_proportion_default))
    update_proportion ←
        parsed (stod (get_property p update_proportion_property update_proportion_default))
    insert_proportion ←
        parsed (stod (get_property p insert_proportion_property insert_proportion_default))
    scan_proportion ←
        parsed (stod (get_property p scan_proportion_property scan_proportion_default))
    readmodifywrite_proportion ← parsed (
        stod
          (get_property p readmodifywrite_proportion_property readmodifywrite_proportion_default))
    record_count ← parsed (stoi (get_property p record_count_property []))
    let request_dist = get_property p request_distribution_property request_distribution_default
    max_scan_len ← parsed (stoi (get_property p max_scan_length_property max_scan_length_default))
    let scan_len_dist =
        get_property p scan_length_distribution_property scan_length_distribution_default
    insert_start ← parsed (stoi (get_property p insert_start_property insert_start_default))
    read_all_fields ←
        parsed (str_to_bool (get_property p read_all_fields_property read_all_fields_default))
    write_all_fields ←
        parsed (str_to_bool (get_property p write_all_fields_property write_all_fields_default))
    let ordered_inserts =
        not (str_eq (get_property p insert_order_property insert_order_default) (codes "hashed"))
    let op_chooser =
        op_chooser_of read_proportion update_proportion insert_proportion scan_proportion
          readmodifywrite_proportion
    let insert_key_sequence = set (new_counter 3) (to_u64 record_count)
    (key_chooser, s) ← key_chooser_of p request_dist insert_key_sequence insert_proportion s
    (scan_len_chooser, s) ← scan_len_chooser_of scan_len_dist max_scan_len s
    returned (record {
      table_name = table_name;
      field_count = field_count;
      read_all_fields = read_all_fields;
      write_all_fields = write_all_fields;
      field_len_generator = field_len_generator;
      key_generator = new_counter (to_u64 insert_start);
      op_chooser = op_chooser;
      key_chooser = key_chooser;
      field_chooser = uniform (new_uniform e 0 (to_u64 (minus_one field_count)));
      scan_len_chooser = scan_len_chooser;
      insert_key_sequence = insert_key_sequence;
      ordered_inserts = ordered_inserts;
      record_count = to_u64 record_count;
      source = s;
    })
