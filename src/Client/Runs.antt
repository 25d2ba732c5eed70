-- ===== src/Client/Runs.antt =====
-- Runs of the client at concrete inputs.
use ycsb_c_cloud.Base.{ℕ, ◌+◌, ◌-◌, ◌%◌, ◌^◌, ◌<◌, ◌≡◌, ◌≢◌, refl, arith, some, Str, [], ◌∷◌, All}
use ycsb_c_cloud.Generators.Discrete.{next}
use ycsb_c_cloud.Workload.{returned, Operation, update, CoreWorkload}
use ycsb_c_cloud.Numbers.{pos}
use ycsb_c_cloud.Workload.Fields.{field_names}
use ycsb_c_cloud.Workload.Samples.{whole, least, repeated, busy}
use ycsb_c_cloud.Client.{Database, Client, add_at, do_transaction, asked_fields, is_ok}
use ycsb_c_cloud.Client.Ready.{IsReady}
use ycsb_c_cloud.Client.Serving.{IsServing}
use ycsb_c_cloud.Client.Samples.{busy_limits}
use ycsb_c_cloud.Client.Counts.{do_transaction-counts}
use ycsb_c_cloud.Timers.{Timeval, get_now_micros}
use ycsb_c_cloud.Client.Clock.{do_transaction-elapsed}
use ycsb_c_cloud.Client.Asked.{asked_fields-unwritten}

-- A database that counts its calls.
abbrev counting : Database
counting = record {
  Db = ℕ;
  read_record = λ s table key fields result. returned (pos 1, result, s + 1);
  scan_records = λ s table key len fields result. returned (pos 0, result, s + 1);
  update_record = λ s table key values. returned (pos 0, s + 1);
  insert_record = λ s table key values. returned (pos 0, s + 1);
  record_time = λ s kind time. s;
  init_thread = λ s. s;
  close_thread = λ s. s;
  latency_hiccup = λ s iops. s;
}

counting-IsServing : IsServing counting busy_limits (λ s. Unit) (λ status. status < 2)
counting-IsServing = record {
  reads = λ s table key fields good is_key. (1, [], s + 1, refl, omega arith, tt);
  scans = λ s table key len fields good is_key. (0, [], s + 1, refl, omega arith, tt);
  updates = λ s table key values good is_key fit. (0, s + 1, refl, omega arith, tt);
  inserts = λ s table key values good fit. (0, s + 1, refl, omega arith, tt);
  times = λ s kind time good. tt;
}

busy-IsReady : IsReady busy_limits busy
busy-IsReady = record {
  keys = record {
    generator = record { generator = 0; min = 0; max = 2; last_int = 0 };
    chooser = refl;
    range = (refl, refl);
    counted = refl;
  };
  lengths = (omega arith, omega arith);
  fields = (omega arith, omega arith);
  scans = (omega arith, omega arith);
  order = refl;
  count = refl;
  operations = refl;
  total = refl;
}

abbrev client : Client whole least repeated counting
client = record {
  db = 0;
  workload = busy;
  ops_cnt = λ op. 6;
  ops_time = λ op. 8;
  uniform_insert_counter = 1000000;
}

chosen_update :
    next whole Operation busy.op_chooser 4
    ≡ some (update, record busy.op_chooser { last = some update })
unfolding next ycsb_c_cloud.Generators.Discrete.pick
chosen_update = refl

do_transaction-counts_example :
    (status : ℕ) × (c : Client whole least repeated counting) × (do_transaction whole least repeated
        counting 1 20 25 client
      ≡ returned (is_ok (pos status), c))
    × (status < 2)
    × (c.ops_cnt ≡ add_at (λ op. 6) update 1)
    × (c.ops_time ≡ add_at (λ op. 8) update ((25 + 2 ^ 64 - 20) % 2 ^ 64))
    × IsReady busy_limits c.workload
    × Unit {0}
do_transaction-counts_example =
    do_transaction-counts whole least repeated counting busy_limits (λ s. Unit)
      (λ status. status < 2) counting-IsServing (omega arith) (omega arith) 0 20 25 client update
      (record busy.op_chooser { last = some update }) busy-IsReady tt chosen_update

abbrev before_second : Timeval
before_second = record { tv_sec = 1700000000; tv_usec = 999990 }

abbrev behind_second : Timeval
behind_second = record { tv_sec = 1700000001; tv_usec = 5 }

do_transaction-elapsed_example :
    (status : ℕ) × (c : Client whole least repeated counting) × (do_transaction whole least repeated
        counting 1
        (get_now_micros before_second)
        (get_now_micros behind_second)
        client
      ≡ returned (is_ok (pos status), c))
    × (c.ops_cnt ≡ add_at (λ op. 6) update 1)
    × (c.ops_time ≡ add_at (λ op. 8) update 15)
do_transaction-elapsed_example =
    do_transaction-elapsed whole least repeated counting busy_limits (λ s. Unit)
      (λ status. status < 2) 0 15 before_second behind_second client update
      (record busy.op_chooser { last = some update }) counting-IsServing (omega arith) (omega arith)
      busy-IsReady tt chosen_update refl (omega arith)

asked_fields-unwritten_example :
    (name : Str) × (w : CoreWorkload whole least repeated) × (asked_fields whole least repeated busy
      ≡ returned (some (name ∷ []), w))
    × All (λ written. name ≢ written) (field_names 10 0)
asked_fields-unwritten_example =
    asked_fields-unwritten whole least repeated 100 100 busy (omega arith, omega arith) refl 10
