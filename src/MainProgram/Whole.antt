-- ===== src/MainProgram/Whole.antt =====
-- A run of main with RocksDBCloud at a concrete input, loading and then performing transactions.
use ycsb_c_cloud.Base.{ℕ, ◌<◌, ◌≤◌, ◌≡◌, refl, arith, true, false, some, [], ◌∷◌, codes, str_eq}
use ycsb_c_cloud.Coding.{little}
use ycsb_c_cloud.Properties.{
  Properties, get_property, find, skip_spaces, is_space, str_to_bool, to_lower,
}
use ycsb_c_cloud.Numbers.{pos, stoi, read_signed, extract, read_number, to_u64}
use ycsb_c_cloud.Generators.Discrete.{pick, add_value}
use ycsb_c_cloud.RocksDb.Store.{Lookup}
use ycsb_c_cloud.RocksDb.Memory.{memory, memory_laws, write_at}
use ycsb_c_cloud.RocksDb.Latency.Counters.{counters, no_latencies}
use ycsb_c_cloud.Workload.{returned, Operation, Chooser, constant}
use ycsb_c_cloud.Workload.Options.{record_count_property, operation_count_property}
use ycsb_c_cloud.Workload.Samples.{whole, least, zeros, ones}
use ycsb_c_cloud.Workload.Fields.{Draws}
use ycsb_c_cloud.Generators.Uniform.{new_uniform, next}
use ycsb_c_cloud.Workload.Setup.{get_field_len_generator, scan_len_chooser_of, op_chooser_of}
use ycsb_c_cloud.Workload.Start.{AsksUniform}
use ycsb_c_cloud.Client.Ready.{Limits}
use ycsb_c_cloud.Client.Started.{limits_of}
use ycsb_c_cloud.CommandLine.{create_db}
use ycsb_c_cloud.Delegate.{Clock, begins, ends, rounds, share_of}
use ycsb_c_cloud.Delegate.Interleaved.{turns}
use ycsb_c_cloud.Delegate.Transactions.{IsDecided}
use ycsb_c_cloud.Backend.{cloud_database}
use ycsb_c_cloud.Backend.Served.{IsRoomy, IsFull}
use ycsb_c_cloud.MainProgram.{Process, World, compacting, phase, main}
use ycsb_c_cloud.MainProgram.Loading.{AsksLoad}
use ycsb_c_cloud.MainProgram.Running.{AsksTransactions}
use ycsb_c_cloud.MainProgram.Cloud.{main-finds}

-- Two records and five transactions, for two threads.
abbrev both_asked : Properties
both_asked =
    (codes "dbname", codes "rocksdb-cloud")
    ∷ (codes "dbpath", [])
    ∷ (codes "dbwaitforbalance", codes "false")
    ∷ (codes "load", codes "true")
    ∷ (codes "operationcount", codes "5")
    ∷ (codes "recordcount", codes "2")
    ∷ (codes "run", codes "true")
    ∷ (codes "threadcount", codes "2")
    ∷ []

both_asked-AsksLoad : AsksLoad both_asked 2 true
unfolding get_property find str_eq stoi read_signed extract skip_spaces is_space read_number
    str_to_bool to_lower create_db
both_asked-AsksLoad = record {
  path = [];
  created = refl;
  load = refl;
  run = refl;
  threads = refl;
  wait_text = codes "false";
  wait_found = refl;
  no_wait = refl;
  dbname = codes "rocksdb-cloud";
  dbname_found = refl;
  dbpath = [];
  dbpath_found = refl;
  count_text = codes "2";
  count_found = refl;
}

both_asked-AsksTransactions : AsksTransactions both_asked 5
unfolding find str_eq stoi read_signed extract skip_spaces is_space read_number
both_asked-AsksTransactions = record { text = codes "5"; found = refl; is_read = refl }

abbrev always : Chooser whole least zeros
always = constant (record { constant = 100 })

abbrev limits : AsksUniform whole least zeros ones both_asked 2 7 → Limits whole
limits h = limits_of whole least zeros ones both_asked 2 7 h 100 100 1000 1000

both_asked_uniform :
    (h : AsksUniform whole least zeros ones both_asked 2 7) × Draws 100 100 h.lengths.0
    × Draws 1000 1000 h.scans.0
    × IsDecided whole zeros (limits h)
    × IsRoomy (limits h)
unfolding get_property find str_eq stoi read_signed extract skip_spaces is_space read_number
    str_to_bool to_lower get_field_len_generator scan_len_chooser_of to_u64 new_uniform next
    op_chooser_of add_value pick
both_asked_uniform = (
  record {
    field_count = pos 10;
    field_count_read = refl;
    lengths = (always, 7);
    lengths_built = refl;
    read = 1;
    read_read = refl;
    update = 1;
    update_read = refl;
    insert = 1;
    insert_read = refl;
    scan = 1;
    scan_read = refl;
    modify = 1;
    modify_read = refl;
    records_read = refl;
    records = (omega arith, omega arith);
    requests = refl;
    max_scan_len = pos 1000;
    max_scan_len_read = refl;
    scans = (_, 7);
    scans_built = refl;
    start_read = refl;
    read_all = true;
    read_all_read = refl;
    write_all = false;
    write_all_read = refl;
  },
  (omega arith, omega arith),
  (omega arith, omega arith, omega arith),
  λ source. (Operation.read, refl),
  record { few = omega arith; short = omega arith },
)

abbrev clock : Clock
clock = record { start_time = 3; end_time = 8; now = 1500000; restart = 1500001 }

abbrev world : World whole least zeros ones (cloud_database memory little counters)
world = record {
  load_source = 7;
  run_source = 7;
  load_events = begins 0 ∷ begins 1 ∷ rounds 1 clock ∷ rounds 0 clock ∷ ends 0 ∷ ends 1 ∷ [];
  run_events =
      begins 1
      ∷ rounds 1 clock
      ∷ begins 0
      ∷ rounds 0 clock
      ∷ rounds 0 clock
      ∷ rounds 1 clock
      ∷ ends 0
      ∷ [];
  balanced = [];
}

abbrev process : Process whole least zeros ones (cloud_database memory little counters)
process = record {
  db = record {
    db = record { engine = λ k. Lookup.not_found; no_result = 0 };
    latencies = no_latencies;
  };
  ops_cnt = λ op. 0;
  ops_time = λ op. 0;
  uniform_insert_counter = 1000000;
  statics = record { tiktok_start = 0; tiktoks = 0; iops = 0 };
}

load_turns : (u : ℕ) → u < 2 → share_of (pos 2) 2 ≤ turns u world.load_events
unfolding share_of
load_turns u below = ground arith

run_turns : (u : ℕ) → u < 2 → share_of (pos 5) 2 ≤ turns u world.run_events
unfolding share_of
run_turns u below = ground arith

main-finds_example :
    (p p' : Process whole least zeros ones (cloud_database memory little counters)) × (main whole
        least zeros ones
        (cloud_database memory little counters)
        1
        world
        both_asked
        process
        (λ path. process)
      ≡ returned (compacting (record { loaded = some 2; performed = some 4; sleep_time = 0 })))
    × (phase whole least zeros ones
          (cloud_database memory little counters)
          1
          true
          record_count_property
          both_asked
          (pos 2)
          7
          world.load_events
          process
        ≡ returned (some 2, p))
    × (phase whole least zeros ones
          (cloud_database memory little counters)
          1
          false
          operation_count_property
          both_asked
          (pos 2)
          7
          world.run_events
          p
        ≡ returned (some 4, p'))
    × IsFull (limits both_asked_uniform.0) memory little counters 0 p'.db
main-finds_example =
    main-finds whole least zeros ones memory memory_laws little counters
      (λ state k v. (write_at state k (Lookup.found v), refl)) 0 2 2 5 100 100 1000 1000 both_asked
      world process (λ path. process) both_asked-AsksLoad both_asked_uniform.0 both_asked_uniform.0
      both_asked_uniform.3 both_asked_uniform.4 both_asked-AsksTransactions both_asked_uniform.1
      both_asked_uniform.1 both_asked_uniform.2 (omega arith)
      (omega arith, (omega arith, (omega arith, (omega arith, (omega arith, (omega arith, _))))))
      load_turns
      (
        omega arith,
        (omega arith, (omega arith, (omega arith, (omega arith, (omega arith, (omega arith, _)))))),
      )
      run_turns
