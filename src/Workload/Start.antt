-- ===== src/Workload/Start.antt =====
-- What `Init` of core/core_workload.cc sets up for uniformly distributed requests.
use ycsb_c_cloud.Base.{
  ℕ, suc, ◌+◌, ◌-◌, ◌%◌, ◌^◌, ◌<◌, ◌≡◌, refl, arith, Bool, not, some, Str, List, [], codes, str_eq,
  All, length, get_elem?,
}
use ycsb_c_cloud.Properties.{Properties, get_property, str_to_bool}
use ycsb_c_cloud.Generators.Doubles.{Doubles}
use ycsb_c_cloud.Generators.Counter.{set}
use ycsb_c_cloud.Generators.Uniform as Uniform
use ycsb_c_cloud.Generators.Uniform.{UniformEngine, new_uniform}
use ycsb_c_cloud.Workload.{returned, Randoms, Chooser, uniform, CoreWorkload}
use ycsb_c_cloud.Numbers.{ℤ, pos, to_u64, stoi}
use ycsb_c_cloud.Workload.Options.{
  tablename_property, tablename_default, field_count_property, field_count_default,
  read_all_fields_property, read_all_fields_default, write_all_fields_property,
  write_all_fields_default, read_proportion_property, read_proportion_default,
  update_proportion_property, update_proportion_default, insert_proportion_property,
  insert_proportion_default, scan_proportion_property, scan_proportion_default,
  readmodifywrite_proportion_property, readmodifywrite_proportion_default,
  request_distribution_property, request_distribution_default, max_scan_length_property,
  max_scan_length_default, scan_length_distribution_property, scan_length_distribution_default,
  insert_order_property, insert_order_default, insert_start_property, insert_start_default,
  record_count_property,
}
use ycsb_c_cloud.Workload.Setup.{
  Conversions, op_chooser_of, minus_one, get_field_len_generator, key_chooser_of,
  scan_len_chooser_of, init,
}
use ycsb_c_cloud.Workload.Keys.{IsUniform, load_keys, ask_keys, ask_keys-loaded}

module _ (d : Doubles) (e : UniformEngine) (r : Randoms d) (c : Conversions d) where
  -- Properties with which Init meets no exception, for `n` records, uniform requests, and keys from
  -- 0 on.
  pub record AsksUniform (p : Properties) (n : ℕ) (s : r.Source) : Type 0 where
    pub field_count : ℤ
    pub field_count_read :
        stoi (get_property p field_count_property field_count_default) ≡ some field_count
    pub lengths : Chooser d e r × r.Source
    pub lengths_built : get_field_len_generator d e r c p s ≡ returned lengths
    pub read : d.Double
    pub read_read :
        c.stod (get_property p read_proportion_property read_proportion_default) ≡ some read
    pub update : d.Double
    pub update_read :
        c.stod (get_property p update_proportion_property update_proportion_default) ≡ some update
    pub insert : d.Double
    pub insert_read :
        c.stod (get_property p insert_proportion_property insert_proportion_default) ≡ some insert
    pub scan : d.Double
    pub scan_read :
        c.stod (get_property p scan_proportion_property scan_proportion_default) ≡ some scan
    pub modify : d.Double
    pub modify_read :
        c.stod
          (get_property p readmodifywrite_proportion_property readmodifywrite_proportion_default)
        ≡ some modify
    pub records_read : stoi (get_property p record_count_property []) ≡ some (pos n)
    pub records : (0 < n) × (n < 2 ^ 31)
    pub requests :
        get_property p request_distribution_property request_distribution_default ≡ codes "uniform"
    pub max_scan_len : ℤ
    pub max_scan_len_read :
        stoi (get_property p max_scan_length_property max_scan_length_default) ≡ some max_scan_len
    pub scans : Chooser d e r × r.Source
    pub scans_built :
        scan_len_chooser_of d e r c
          (get_property p scan_length_distribution_property scan_length_distribution_default)
          max_scan_len
          lengths.1
        ≡ returned scans
    pub start_read : stoi (get_property p insert_start_property insert_start_default) ≡ some (pos 0)
    pub read_all : Bool
    pub read_all_read :
        str_to_bool (get_property p read_all_fields_property read_all_fields_default)
        ≡ some read_all
    pub write_all : Bool
    pub write_all_read :
        str_to_bool (get_property p write_all_fields_property write_all_fields_default)
        ≡ some write_all

  -- What Init then returns.
  abbrev pub started :
      (p : Properties) (n : ℕ) (s : r.Source) → AsksUniform p n s → CoreWorkload d e r
  started p n s h = record {
    table_name = get_property p tablename_property tablename_default;
    field_count = h.field_count;
    read_all_fields = h.read_all;
    write_all_fields = h.write_all;
    field_len_generator = h.lengths.0;
    key_generator = record { counter = 0 };
    op_chooser = op_chooser_of d e r c h.read h.update h.insert h.scan h.modify;
    key_chooser = uniform (new_uniform e 0 ((n % 2 ^ 64 + 2 ^ 64 - 1) % 2 ^ 64));
    field_chooser = uniform (new_uniform e 0 (to_u64 (minus_one h.field_count)));
    scan_len_chooser = h.scans.0;
    insert_key_sequence = record { counter = n % 2 ^ 64 };
    ordered_inserts =
        not (str_eq (get_property p insert_order_property insert_order_default) (codes "hashed"));
    record_count = n % 2 ^ 64;
    source = h.scans.1;
  }

  pub init-started :
      (p : Properties) (n : ℕ) (s : r.Source) (h : AsksUniform p n s)
      → init d e r c p s ≡ returned (started p n s h)
  unfolding init key_chooser_of op_chooser_of str_eq to_u64 set new_uniform Uniform.next
  init-started p n s h =
      rw
        (
          h.field_count_read, h.lengths_built, h.read_read, h.update_read, h.insert_read,
          h.scan_read, h.modify_read, h.records_read, h.max_scan_len_read, h.start_read,
          h.read_all_read, h.write_all_read, h.requests, h.scans_built,
        )
        refl

  -- Init returns a workload whose keys are drawn uniformly from the records.
  pub started-IsUniform :
      (p : Properties) (n : ℕ) (s : r.Source) (h : AsksUniform p n s)
      → IsUniform (started p n s h) n
  unfolding new_uniform Uniform.next
  started-IsUniform p n s h = record {
    generator = new_uniform e 0 ((n % 2 ^ 64 + 2 ^ 64 - 1) % 2 ^ 64);
    chooser = refl;
    range = (refl, omega (arith, h.records.0, h.records.1));
    counted = omega (arith, h.records.1);
  }

  -- If Init reads both workloads from properties that ask for uniform requests, `n` records and keys
  -- from 0 on, then Init returns both times, any number of calls of NextTransactionKey on the one
  -- return in the first round of their loop, and each key is one of the `n` keys that NextSequenceKey
  -- of the other returns.
  pub ask_keys-init :
      (p : Properties) (n : ℕ) (s s0 : r.Source)
      → AsksUniform p n s
      → AsksUniform p n s0
      → (k fuel : ℕ)
      → (w w0 w' : CoreWorkload d e r) × (keys : List Str) × (init d e r c p s ≡ returned w)
        × (init d e r c p s0 ≡ returned w0)
        × (ask_keys k (suc fuel) w ≡ returned (keys, w'))
        × (length keys ≡ k)
        × All (λ key. (i : ℕ) × (get_elem? (load_keys n w0) i ≡ some key)) keys
  ask_keys-init p n s s0 h h0 k fuel =
      let (keys, w', asked, count, all) =
        ask_keys-loaded k fuel n (started p n s h) (started p n s0 h0) (started-IsUniform p n s h)
          h.records.0 (omega (arith, h.records.1)) refl refl in
      (
        started p n s h,
        started p n s0 h0,
        w',
        keys,
        init-started p n s h,
        init-started p n s0 h0,
        asked,
        count,
        all,
      )
