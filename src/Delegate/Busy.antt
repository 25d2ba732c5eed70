-- ===== src/Delegate/Busy.antt =====
-- Transactions of two threads on BasicDB at a concrete input.
use ycsb_c_cloud.Base.{ℕ, ◌<◌, ◌≤◌, ◌≡◌, refl, arith, true, false, none, List, [], ◌∷◌}
use ycsb_c_cloud.Numbers.{pos}
use ycsb_c_cloud.Generators.Discrete.{pick}
use ycsb_c_cloud.Workload.{returned, Operation, Chooser, constant, uniform, CoreWorkload}
use ycsb_c_cloud.Workload.Samples.{whole, least, zeros, ordered}
use ycsb_c_cloud.Client.Samples.{busy_limits}
use ycsb_c_cloud.BasicDb.{basic_database}
use ycsb_c_cloud.BasicDb.Interface.{basic-IsServing, basic-IsThreaded}
use ycsb_c_cloud.Delegate.{
  new_local, Local, Clock, Shared, System, Event, begins, ends, rounds, delegate_client,
  run_threads, share_of, sum_oks, all_finished,
}
use ycsb_c_cloud.Delegate.Interleaved.{turns}
use ycsb_c_cloud.Delegate.Transactions.{
  IsDecided, IsServed, IsBusy, run_threads-transacts, delegate_client-transacts,
}
use ycsb_c_cloud.Delegate.Progress.{points_below}

abbrev hundred : Chooser whole least zeros
hundred = constant (record { constant = 100 })

-- Keys from three records, and updates only.
abbrev updating : CoreWorkload whole least zeros
updating = record {
  table_name = ordered.table_name;
  field_count = pos 2;
  read_all_fields = false;
  write_all_fields = true;
  field_len_generator = constant (record { constant = 3 });
  key_generator = record { counter = 8 };
  op_chooser = record { values = (Operation.update, 5) ∷ []; sum = 5; last = none };
  key_chooser = uniform (record { generator = 0; min = 0; max = 2; last_int = 0 });
  field_chooser = hundred;
  scan_len_chooser = hundred;
  insert_key_sequence = record { counter = 3 };
  ordered_inserts = true;
  record_count = 3;
  source = 4;
}

updates_only : IsDecided whole zeros busy_limits
unfolding pick
updates_only s = (Operation.update, refl)

abbrev busy_shared : Shared whole least zeros basic_database
busy_shared = record {
  client = record {
    db = [];
    workload = updating;
    ops_cnt = λ op. 0;
    ops_time = λ op. 0;
    uniform_insert_counter = 1000000;
  };
  statics = record { tiktok_start = 0; tiktoks = 0; iops = 0 };
}

busy_shared-IsBusy :
    IsBusy whole least zeros basic_database busy_limits (λ s. Unit {0}) 0 busy_shared
busy_shared-IsBusy = record {
  ready = record {
    keys = record {
      generator = record { generator = 0; min = 0; max = 2; last_int = 0 };
      chooser = refl;
      range = (refl, refl);
      counted = refl;
    };
    lengths = (omega arith, omega arith);
    fields = (omega arith, omega arith);
    scans = (omega arith, omega arith);
    order = refl;
    count = refl;
    operations = refl;
    total = refl;
  };
  good = tt;
  counted = refl;
}

abbrev late : Clock
late = record { start_time = 5; end_time = 9; now = 2000000; restart = 2000001 }

-- Five transactions for two threads, of which one is not performed.
abbrev busy_events : List (Event whole least zeros basic_database)
busy_events =
    begins 1
    ∷ rounds 1 late
    ∷ begins 0
    ∷ rounds 0 late
    ∷ rounds 0 late
    ∷ rounds 1 late
    ∷ ends 0
    ∷ []

busy_turns : (t : ℕ) → t < 2 → share_of (pos 5) 2 ≤ turns t busy_events
unfolding share_of
busy_turns t below = ground arith

run_threads-transacts_example :
    (s : System whole least zeros basic_database) × (run_threads whole least zeros basic_database 1
        false
        (share_of (pos 5) 2)
        busy_events
        (record { locals = λ t. new_local; shared = busy_shared })
      ≡ returned s)
    × (all_finished 2 (share_of (pos 5) 2) s.locals ≡ true)
    × (sum_oks 2 s.locals ≡ 4)
    × IsServed whole least zeros basic_database busy_limits (λ s. Unit {0}) s.shared
run_threads-transacts_example =
    run_threads-transacts whole least zeros basic_database busy_limits (λ s. Unit {0})
      (basic-IsServing busy_limits) basic-IsThreaded updates_only (omega arith) (omega arith) 0 2 5
      busy_events busy_shared (record { ready = busy_shared-IsBusy.ready; good = tt })
      (
        omega arith,
        (omega arith, (omega arith, (omega arith, (omega arith, (omega arith, (omega arith, _)))))),
      )
      busy_turns

-- Rounds 0 and 100 are reported.
delegate_client-transacts_example :
    (l : Local) × (s : Shared whole least zeros basic_database) × (delegate_client whole least zeros
        basic_database 1 false 0
        (λ i. late)
        150
        busy_shared
      ≡ returned (l, s))
    × (l.oks ≡ 150)
    × (l.reported ≡ points_below 150)
    × IsBusy whole least zeros basic_database busy_limits (λ s. Unit {0}) 150 s
delegate_client-transacts_example =
    delegate_client-transacts whole least zeros basic_database busy_limits (λ s. Unit {0})
      (basic-IsServing busy_limits) basic-IsThreaded updates_only (omega arith) (omega arith) 0 0
      (λ i. late) 150 0 busy_shared (omega arith) busy_shared-IsBusy
