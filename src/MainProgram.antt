-- ===== src/MainProgram.antt =====
-- main of ycsbc.cc behind ParseCommandLine. What the threads do comes as a list of their steps, and the
-- database that CreateDB makes, with its threads for statistics, is a parameter.
pub mod Loading
pub mod Running
pub mod Cloud
mod Runs
mod Whole
use ycsb_c_cloud.Base.{
  ℕ, zero, suc, ◌+◌, Bool, true, false, ◌&&◌, Option, none, some, Str, List, [], ◌∷◌, codes, leb,
  if◌then◌else◌,
}
use ycsb_c_cloud.Properties.{Properties, get_property, find, debug_string, str_to_bool}
use ycsb_c_cloud.Numbers.{ℤ, pos, negsuc, stoi}
use ycsb_c_cloud.Generators.Doubles.{Doubles}
use ycsb_c_cloud.Generators.Uniform.{UniformEngine}
use ycsb_c_cloud.Workload.{Run, returned, failed, thrown, spinning, ◌>>=◌, Randoms, CoreWorkload}
use ycsb_c_cloud.Workload.Options.{record_count_property, operation_count_property}
use ycsb_c_cloud.Workload.Setup.{Conversions, parsed, init}
use ycsb_c_cloud.Client.{Database, Tally}
use ycsb_c_cloud.CommandLine.{Created, basic_db, rocksdb_cloud, null, out_of_range, create_db}
use ycsb_c_cloud.Delegate.{
  Local, new_local, Statics, Shared, Event, run_threads, share_of, sum_oks, all_finished,
}

-- `assert(actual_ops.size() == num_threads)`
unfoldable pub threads_of : ℤ → Run ℕ
threads_of (pos n) = returned n
threads_of (negsuc n) = failed

-- What HaveBalancedDistribution answers, every ten seconds, and how long main sleeps. `spinning`: it
-- has not said yes.
unfoldable pub balance_wait : List Bool → Run ℕ
balance_wait [] = spinning
balance_wait (balanced ∷ later) =
    let rest = (do sleep_time ← balance_wait later; returned (sleep_time + 10)) in
    if balanced then returned 0 else rest

-- The strings that PrintInfo prints, of which the last lists the properties.
unfoldable pub print_info : Properties → Run (Str × Str × Str)
print_info props = do
  dbname ← parsed (find props (codes "dbname"))
  dbpath ← parsed (find props (codes "dbpath"))
  returned (dbname, dbpath, debug_string props)

-- What main has measured when it comes to its last lines.
pub record Measured : Type 0 where
  pub loaded : Option ℕ
  pub performed : Option ℕ
  pub sleep_time : ℕ

-- `exits`: exit(0) for an unknown database. `compacting`: the loop without an end behind a load.
pub data End : Type 0 where
  exits : End
  compacting finished : Measured → End

module _ (d : Doubles) (e : UniformEngine) (r : Randoms d) (c : Conversions d)
    (database : Database) where
  -- The database, and the variables of the program that all threads share.
  pub record Process : Type 0 where
    pub db : database.Db
    pub ops_cnt : Tally
    pub ops_time : Tally
    pub uniform_insert_counter : ℕ
    pub statics : Statics

  -- What comes from outside: the random numbers of the two workloads, the steps of the threads of the
  -- two phases, and what the database says of its balance.
  pub record World : Type 0 where
    pub load_source : r.Source
    pub run_source : r.Source
    pub load_events : List (Event d e r database)
    pub run_events : List (Event d e r database)
    pub balanced : List Bool

  abbrev pub process_of : Shared d e r database → Process
  process_of s = record {
    db = s.client.db;
    ops_cnt = s.client.ops_cnt;
    ops_time = s.client.ops_time;
    uniform_insert_counter = s.client.uniform_insert_counter;
    statics = s.statics;
  }

  abbrev pub shared_of : CoreWorkload d e r → Process → Shared d e r database
  shared_of wl p = record {
    client = record {
      db = p.db;
      workload = wl;
      ops_cnt = p.ops_cnt;
      ops_time = p.ops_time;
      uniform_insert_counter = p.uniform_insert_counter;
    };
    statics = p.statics;
  }

  -- A phase: a new workload, the threads, and the sum of their results. `spinning`: a thread is not
  -- done yet.
  unfoldable pub phase :
      ℕ
      → Bool
      → Str
      → Properties
      → ℤ
      → r.Source
      → List (Event d e r database)
      → Process
      → Run (Option ℕ × Process)
  phase fuel is_loading count_property props num_threads source events p = do
    wl ← init d e r c props source
    text ← parsed (find props count_property)
    total_ops ← parsed (stoi text)
    n ← threads_of num_threads
    s ←
        run_threads d e r database fuel is_loading (share_of total_ops n) events
          (record { locals = λ t. new_local; shared = shared_of wl p })
    if all_finished n (share_of total_ops n) s.locals
        then returned (some (sum_oks n s.locals), process_of s.shared)
        else spinning

  -- The last lines. `join` throws for a thread that was never started.
  unfoldable pub end_main : Bool → Bool → Measured → Run End
  end_main load started measured =
      if load
      then returned (compacting measured)
      else if started
      then returned (finished measured)
      else thrown

  -- `started`: whether the database has started the threads my_stat_thr and rocksdb_stat_thr.
  unfoldable pub main_with : ℕ → World → Properties → Bool → Process → Run End
  main_with fuel world props started p = do
    load ← parsed (str_to_bool (get_property props (codes "load") (codes "false")))
    run ← parsed (str_to_bool (get_property props (codes "run") (codes "false")))
    num_threads ← parsed (stoi (get_property props (codes "threadcount") (codes "1")))
    wait_text ← parsed (find props (codes "dbwaitforbalance"))
    wait_for_balance ← parsed (str_to_bool wait_text)
    info ← print_info props
    (loaded, p') ←
        if load
        then phase fuel true record_count_property props num_threads world.load_source
            world.load_events p
        else returned (none, p)
    (performed, p'') ←
        if run
        then phase fuel false operation_count_property props num_threads world.run_source
            world.run_events p'
        else returned (none, p')
    sleep_time ← if wait_for_balance then balance_wait world.balanced else returned 0
    end_main load started
        (record { loaded = loaded; performed = performed; sleep_time = sleep_time })

  unfoldable pub main : ℕ → World → Properties → Process → (Str → Process) → Run End
  main fuel world props basic cloud = elim (create_db props) [
    | basic_db ↦ main_with fuel world props false basic
    | rocksdb_cloud path ↦ main_with fuel world props true (cloud path)
    | null ↦ returned exits
    | out_of_range ↦ thrown
  ]
