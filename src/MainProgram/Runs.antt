-- ===== src/MainProgram/Runs.antt =====
-- Runs of main at concrete inputs.
use ycsb_c_cloud.Base.{
  ℕ, ◌+◌, ◌<◌, ◌≤◌, ◌≡◌, refl, arith, true, false, some, none, [], ◌∷◌, codes, str_eq,
}
use ycsb_c_cloud.Properties.{
  Properties, set_property, str_lt, get_property, find, skip_spaces, is_space, str_to_bool,
  to_lower,
}
use ycsb_c_cloud.Numbers.{pos, stoi, read_signed, extract, read_number, to_u64}
use ycsb_c_cloud.Workload.{returned, thrown}
use ycsb_c_cloud.Workload.Samples.{whole, least, repeated, field_lengths, ones}
use ycsb_c_cloud.Workload.Setup.{get_field_len_generator, scan_len_chooser_of}
use ycsb_c_cloud.Workload.Start.{AsksUniform}
use ycsb_c_cloud.Client.{Database}
use ycsb_c_cloud.CommandLine.{create_db, init_properties}
use ycsb_c_cloud.Delegate.{Clock, begins, ends, rounds, share_of}
use ycsb_c_cloud.Delegate.Load.{IsAccepting}
use ycsb_c_cloud.Delegate.Interleaved.{turns}
use ycsb_c_cloud.Client.Ready.{Limits}
use ycsb_c_cloud.Client.Samples.{busy_limits}
use ycsb_c_cloud.MainProgram.{Process, World, compacting, main, main_with, print_info, end_main}
use ycsb_c_cloud.MainProgram.Loading.{AsksLoad, IsLoadable, main-loads}

abbrev counted : Database
counted = record {
  Db = ℕ;
  read_record = λ s table key fields result. returned (pos 0, result, s);
  scan_records = λ s table key len fields result. returned (pos 0, result, s);
  update_record = λ s table key values. returned (pos 0, s);
  insert_record = λ s table key values. returned (pos 0, s + 1);
  record_time = λ s kind time. s;
  init_thread = λ s. s;
  close_thread = λ s. s;
  latency_hiccup = λ s iops. s;
}

abbrev loaded_limits : Limits whole
loaded_limits = record busy_limits { low = 100; high = 100; ordered = false; fields = pos 10 }

counted-IsAccepting : IsAccepting counted loaded_limits (λ k s. s ≡ k)
counted-IsAccepting = record {
  inserts = λ k s table values good fit. (s + 1, refl, omega (arith, good));
  begins = λ k s good. good;
  ends = λ k s good. good;
}

abbrev asked : Properties
asked =
    (codes "dbname", codes "rocksdb-cloud")
    ∷ (codes "dbpath", [])
    ∷ (codes "dbwaitforbalance", codes "false")
    ∷ (codes "load", codes "true")
    ∷ (codes "recordcount", codes "3")
    ∷ (codes "threadcount", codes "2")
    ∷ []

asked-AsksLoad : AsksLoad asked 2 false
unfolding get_property find str_eq stoi read_signed extract skip_spaces is_space read_number
    str_to_bool to_lower create_db
asked-AsksLoad = record {
  path = [];
  created = refl;
  load = refl;
  run = refl;
  threads = refl;
  wait_text = codes "false";
  wait_found = refl;
  no_wait = refl;
  dbname = codes "rocksdb-cloud";
  dbname_found = refl;
  dbpath = [];
  dbpath_found = refl;
  count_text = codes "3";
  count_found = refl;
}

abbrev process : Process whole least repeated ones counted
process = record {
  db = 0;
  ops_cnt = λ op. 0;
  ops_time = λ op. 0;
  uniform_insert_counter = 1000000;
  statics = record { tiktok_start = 0; tiktoks = 0; iops = 0 };
}

asked_lengths :
    (h : AsksUniform whole least repeated ones asked 3 7) × IsLoadable whole least repeated ones
      counted loaded_limits
      (λ k s. s ≡ k)
      asked
      3
      7
      h
      process
unfolding get_property find str_eq stoi read_signed extract skip_spaces is_space read_number
    str_to_bool to_lower get_field_len_generator scan_len_chooser_of to_u64
asked_lengths = (
  record {
    field_count = pos 10;
    field_count_read = refl;
    lengths = (field_lengths, 7);
    lengths_built = refl;
    read = 1;
    read_read = refl;
    update = 1;
    update_read = refl;
    insert = 1;
    insert_read = refl;
    scan = 1;
    scan_read = refl;
    modify = 1;
    modify_read = refl;
    records_read = refl;
    records = (omega arith, omega arith);
    requests = refl;
    max_scan_len = pos 1000;
    max_scan_len_read = refl;
    scans = (_, 7);
    scans_built = refl;
    start_read = refl;
    read_all = true;
    read_all_read = refl;
    write_all = false;
    write_all_read = refl;
  },
  record { lengths = (omega arith, omega arith); order = refl; count = refl; good = refl },
)

abbrev clock : Clock
clock = record { start_time = 0; end_time = 0; now = 0; restart = 0 }

-- One round for each of two threads, of three records.
abbrev world : World whole least repeated ones counted
world = record {
  load_source = 7;
  run_source = 7;
  load_events = begins 1 ∷ rounds 1 clock ∷ begins 0 ∷ rounds 0 clock ∷ ends 0 ∷ ends 1 ∷ [];
  run_events = [];
  balanced = [];
}

one_turn : (t : ℕ) → t < 2 → share_of (pos 3) 2 ≤ turns t world.load_events
unfolding share_of
one_turn t below = ground arith

main-loads_example :
    main whole least repeated ones counted 1 world asked process (λ path. process)
    ≡ returned (compacting (record { loaded = some 2; performed = none; sleep_time = 0 }))
main-loads_example =
    main-loads whole least repeated ones counted loaded_limits (λ k s. s ≡ k) counted-IsAccepting 1
      2 3 asked world process (λ path. process) asked-AsksLoad asked_lengths.0 asked_lengths.1
      (omega arith, (omega arith, (omega arith, (omega arith, (omega arith, (omega arith, _))))))
      one_turn

-- With the default database no thread for statistics is started, and main joins both.
default_database :
    main whole least repeated ones counted 1 world (init_properties []) process (λ path. process)
    ≡ thrown
unfolding main main_with end_main print_info create_db find init_properties set_property str_eq
    str_lt str_to_bool get_property to_lower stoi extract read_signed skip_spaces is_space
    read_number
default_database = refl
