-- ===== src/Workload/Runs.antt =====
-- Runs of the workload over whole numbers, and the theorems at concrete inputs.
use ycsb_c_cloud.Base.{
  ℕ, ◌≡◌, ◌≢◌, refl, arith, true, false, some, Str, List, [], ◌∷◌, ◌++◌, codes, All, length,
  get_elem?, map, str_eq,
}
use ycsb_c_cloud.Values.{KvPair}
use ycsb_c_cloud.Properties.{
  Properties, get_property, find, skip_spaces, is_space, str_to_bool, to_lower,
}
use ycsb_c_cloud.Generators.Counter.{next}
use ycsb_c_cloud.Workload.{
  returned, failed, Chooser, CoreWorkload, next_sequence_key, build_key_name, build_values,
}
use ycsb_c_cloud.Numbers.{
  pos, rounds_of, stoi, read_signed, extract, read_number, to_string, to_u64,
}
use ycsb_c_cloud.Workload.Setup.{init, get_field_len_generator, scan_len_chooser_of}
use ycsb_c_cloud.Workload.Keys.{load_keys, ask_keys, load_keys-distinct}
use ycsb_c_cloud.Workload.Start.{AsksUniform, ask_keys-init}
use ycsb_c_cloud.Workload.ScanLengths.{scan_len_chooser_of-failed}
use ycsb_c_cloud.Workload.Samples.{whole, least, repeated, field_lengths, ordered, ones}
use ycsb_c_cloud.Workload.Fields.{Draws, AreSized, after_fields, field_names, build_values-names}

abbrev three_records : Properties
three_records = (codes "recordcount", codes "3") ∷ []

three_records-AsksUniform : AsksUniform whole least repeated ones three_records 3 7
unfolding get_property find str_eq stoi read_signed extract skip_spaces is_space read_number
    str_to_bool to_lower get_field_len_generator scan_len_chooser_of to_u64
three_records-AsksUniform = record {
  field_count = pos 10;
  field_count_read = refl;
  lengths = (field_lengths, 7);
  lengths_built = refl;
  read = 1;
  read_read = refl;
  update = 1;
  update_read = refl;
  insert = 1;
  insert_read = refl;
  scan = 1;
  scan_read = refl;
  modify = 1;
  modify_read = refl;
  records_read = refl;
  records = (omega arith, omega arith);
  requests = refl;
  max_scan_len = pos 1000;
  max_scan_len_read = refl;
  scans = (_, 7);
  scans_built = refl;
  start_read = refl;
  read_all = true;
  read_all_read = refl;
  write_all = false;
  write_all_read = refl;
}

ask_keys-init_example :
    (w w0 w' : CoreWorkload whole least repeated) × (keys : List Str) × (init whole least repeated
        ones three_records 7
      ≡ returned w)
    × (init whole least repeated ones three_records 7 ≡ returned w0)
    × (ask_keys 2 5 w ≡ returned (keys, w'))
    × (length keys ≡ 2)
    × All (λ key. (i : ℕ) × (get_elem? (load_keys 3 w0) i ≡ some key)) keys
ask_keys-init_example =
    ask_keys-init whole least repeated ones three_records 3 7 7 three_records-AsksUniform
      three_records-AsksUniform 2 4

loaded_keys : load_keys 3 ordered ≡ codes "user8" ∷ codes "user9" ∷ codes "user10" ∷ []
unfolding next_sequence_key next build_key_name to_string
loaded_keys = refl

load_keys-distinct_example : get_elem? (load_keys 3 ordered) 0 ≢ get_elem? (load_keys 3 ordered) 2
load_keys-distinct_example =
    load_keys-distinct 3 8 0 2 ordered refl refl (omega arith) (omega arith) (omega arith)

build_values-names_example :
    (pairs : List KvPair) × (g : Chooser whole least repeated) × (s : ℕ) × (build_values whole least
        repeated [] ordered
      ≡ returned ([] ++ pairs, after_fields ordered g s))
    × (map (λ pair. pair.0) pairs ≡ field_names (rounds_of (pos 2)) 0)
    × AreSized 3 3 pairs
    × Draws 3 3 g
build_values-names_example = build_values-names 3 3 [] ordered (omega arith, omega arith)

scan_len_chooser_of-failed_example :
    scan_len_chooser_of whole least repeated ones (codes "zipfian") (pos 1000) 7 ≡ failed
scan_len_chooser_of-failed_example =
    scan_len_chooser_of-failed whole least repeated ones (pos 1000) 7
