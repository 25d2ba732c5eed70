-- ===== src/Delegate/Runs.antt =====
-- Runs of the threads of main at concrete inputs.
use ycsb_c_cloud.Base.{ℕ, ◌+◌, ◌<◌, ◌≤◌, ◌≡◌, refl, arith, true, List, [], ◌∷◌}
use ycsb_c_cloud.Numbers.{pos}
use ycsb_c_cloud.Workload.{returned}
use ycsb_c_cloud.Workload.Samples.{whole, least, repeated, ordered}
use ycsb_c_cloud.Client.{Database}
use ycsb_c_cloud.Delegate.{
  Local, new_local, Clock, Shared, System, Event, begins, ends, rounds, delegate_client,
  run_threads, share_of, sum_oks, all_finished,
}
use ycsb_c_cloud.Delegate.Load.{IsAccepting, IsLoading, delegate_client-loads}
use ycsb_c_cloud.Delegate.Progress.{points_below}
use ycsb_c_cloud.Client.Samples.{busy_limits}
use ycsb_c_cloud.Delegate.Interleaved.{turns}
use ycsb_c_cloud.Delegate.Threads.{run_threads-loads}

-- A database that counts its records.
abbrev stored : Database
stored = record {
  Db = ℕ;
  read_record = λ s table key fields result. returned (pos 0, result, s);
  scan_records = λ s table key len fields result. returned (pos 0, result, s);
  update_record = λ s table key values. returned (pos 0, s);
  insert_record = λ s table key values. returned (pos 0, s + 1);
  record_time = λ s kind time. s;
  init_thread = λ s. s;
  close_thread = λ s. s;
  latency_hiccup = λ s iops. s;
}

-- The number of records is the number of rounds since the key number 8.
abbrev Counts8 : ℕ → ℕ → Type 0
Counts8 k s = s + 8 ≡ k

stored-IsAccepting : IsAccepting stored busy_limits Counts8
stored-IsAccepting = record {
  inserts = λ k s table values good fit. (s + 1, refl, omega (arith, good));
  begins = λ k s good. good;
  ends = λ k s good. good;
}

abbrev shared : Shared whole least repeated stored
shared = record {
  client = record {
    db = 0;
    workload = ordered;
    ops_cnt = λ op. 0;
    ops_time = λ op. 0;
    uniform_insert_counter = 1000000;
  };
  statics = record { tiktok_start = 0; tiktoks = 0; iops = 0 };
}

abbrev clock : Clock
clock = record { start_time = 0; end_time = 0; now = 0; restart = 0 }

shared-IsLoading : IsLoading whole least repeated stored busy_limits Counts8 8 shared
shared-IsLoading = record {
  lengths = (omega arith, omega arith);
  order = refl;
  count = refl;
  at = refl;
  good = refl;
}

delegate_client-loads_example :
    (l : Local) × (s : Shared whole least repeated stored) × (delegate_client whole least repeated
        stored 1 true 0
        (λ i. clock)
        150
        shared
      ≡ returned (l, s))
    × (l.oks ≡ 150)
    × (l.reported ≡ points_below 150)
    × IsLoading whole least repeated stored busy_limits Counts8 158 s
delegate_client-loads_example =
    delegate_client-loads whole least repeated stored busy_limits Counts8 stored-IsAccepting 1 0
      (λ i. clock) 150 8 shared (omega arith) shared-IsLoading

reports :
    points_below 1600 ≡ 1500 ∷ 1000 ∷ 900 ∷ 800 ∷ 700 ∷ 600 ∷ 500 ∷ 400 ∷ 300 ∷ 200 ∷ 100 ∷ 0 ∷ []
reports = refl

-- Two threads share five records, of which one is not loaded.
abbrev events : List (Event whole least repeated stored)
events =
    begins 0
    ∷ rounds 0 clock
    ∷ begins 1
    ∷ rounds 1 clock
    ∷ rounds 1 clock
    ∷ rounds 0 clock
    ∷ ends 1
    ∷ ends 0
    ∷ []

fair : (t : ℕ) → t < 2 → share_of (pos 5) 2 ≤ turns t events
unfolding share_of
fair t below = ground arith

run_threads-loads_example :
    (s : System whole least repeated stored) × (run_threads whole least repeated stored 1 true
        (share_of (pos 5) 2)
        events
        (record { locals = λ t. new_local; shared = shared })
      ≡ returned s)
    × (all_finished 2 (share_of (pos 5) 2) s.locals ≡ true)
    × (sum_oks 2 s.locals ≡ 4)
    × IsLoading whole least repeated stored busy_limits Counts8 12 s.shared
run_threads-loads_example =
    run_threads-loads whole least repeated stored busy_limits Counts8 stored-IsAccepting 1 8 2 5
      events shared shared-IsLoading
      (
        omega arith,
        (
          omega arith,
          (
            omega arith,
            (omega arith, (omega arith, (omega arith, (omega arith, (omega arith, _))))),
          ),
        ),
      )
      fair
