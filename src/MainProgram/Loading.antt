-- ===== src/MainProgram/Loading.antt =====
-- main with `-load true` and the RocksDBCloud database.
use ycsb_c_cloud.Base.{
  ℕ, ◌-◌, ◌%◌, ◌<◌, ◌≤◌, ◌≡◌, refl, ap, ◌∙◌, arith, true, false, none, some, Str, List, [], codes,
  All, Bool, not, str_eq,
}
use mathlib.Core.Path.{subst}
use ycsb_c_cloud.Properties.{Properties, get_property, find, str_to_bool}
use ycsb_c_cloud.Numbers.{pos, stoi}
use ycsb_c_cloud.Generators.Doubles.{Doubles}
use ycsb_c_cloud.Generators.Uniform.{UniformEngine}
use ycsb_c_cloud.Workload.{returned, Randoms}
use ycsb_c_cloud.Workload.Options.{
  record_count_property, insert_order_property, insert_order_default,
}
use ycsb_c_cloud.Workload.Setup.{Conversions}
use ycsb_c_cloud.Workload.Fields.{Draws}
use ycsb_c_cloud.Workload.Start.{AsksUniform, started, init-started}
use ycsb_c_cloud.Client.{Database}
use ycsb_c_cloud.CommandLine.{rocksdb_cloud, create_db}
use ycsb_c_cloud.Delegate.{Event, share_of}
use ycsb_c_cloud.Delegate.Load.{IsAccepting}
use ycsb_c_cloud.Delegate.Interleaved.{turns, IsOf}
use ycsb_c_cloud.Delegate.Threads.{run_threads-loads}
use ycsb_c_cloud.Client.Ready.{Limits}
use ycsb_c_cloud.MainProgram.{
  Process, World, shared_of, process_of, compacting, phase, threads_of, print_info, end_main,
  main_with, main,
}

-- Properties that ask for RocksDBCloud, and `m` threads that load and, where it `runs`, then perform
-- transactions.
pub record AsksLoad (p : Properties) (m : ℕ) (runs : Bool) : Type 0 where
  pub path : Str
  pub created : create_db p ≡ rocksdb_cloud path
  pub load : str_to_bool (get_property p (codes "load") (codes "false")) ≡ some true
  pub run : str_to_bool (get_property p (codes "run") (codes "false")) ≡ some runs
  pub threads : stoi (get_property p (codes "threadcount") (codes "1")) ≡ some (pos m)
  pub wait_text : Str
  pub wait_found : find p (codes "dbwaitforbalance") ≡ some wait_text
  pub no_wait : str_to_bool wait_text ≡ some false
  pub dbname : Str
  pub dbname_found : find p (codes "dbname") ≡ some dbname
  pub dbpath : Str
  pub dbpath_found : find p (codes "dbpath") ≡ some dbpath
  pub count_text : Str
  pub count_found : find p record_count_property ≡ some count_text

pub get_property-found :
    (p : Properties) (key default_value value : Str)
    → find p key ≡ some value
    → value ≡ get_property p key default_value
unfolding get_property
get_property-found p key default_value value found = rw (get_property, found) refl

module _ (d : Doubles) (e : UniformEngine) (r : Randoms d) (c : Conversions d) (database : Database)
    (m : Limits d) (Good : ℕ → database.Db → Type 0) where
  -- Limits that the properties and what the database holds at first meet.
  pub record IsLoadable (props : Properties) (n : ℕ) (source : r.Source)
      (h : AsksUniform d e r c props n source) (p : Process d e r c database) : Type 0 where
    pub lengths : Draws m.low m.high h.lengths.0
    pub order :
        not
          (str_eq (get_property props insert_order_property insert_order_default) (codes "hashed"))
        ≡ m.ordered
    pub count : h.field_count ≡ m.fields
    pub good : Good 0 p.db

  module _ (accepting : IsAccepting database m Good) where
    pub phase-loads :
        (fuel t n : ℕ) (runs : Bool) (props : Properties) (source : r.Source)
        (events : List (Event d e r database)) (p : Process d e r c database)
        (asks : AsksLoad props t runs) (h : AsksUniform d e r c props n source)
        → IsLoadable props n source h p
        → All (IsOf t) events
        → ((u : ℕ) → u < t → share_of (pos n) t ≤ turns u events)
        → (p' : Process d e r c database) × (phase d e r c database fuel true record_count_property
              props
              (pos t)
              source
              events
              p
            ≡ returned (some (n - n % t), p'))
          × Good (n - n % t) p'.db
    unfolding phase threads_of
    phase-loads fuel t n runs props source events p asks h loadable of fair =
        let (s, run, finished, sum, loading) =
          run_threads-loads d e r database m Good accepting fuel 0 t n events
            (shared_of d e r c database (started d e r c props n source h) p)
            (record {
              lengths = loadable.lengths;
              order = loadable.order;
              count = loadable.count;
              at = refl;
              good = loadable.good;
            })
            of fair in
        (
          process_of d e r c database s.shared,
          rw
              (
                init-started d e r c props n source h,
                asks.count_found,
                ap stoi (
                      get_property-found props record_count_property [] asks.count_text
                        asks.count_found)
                    ∙ h.records_read,
                run,
                finished,
                sum,
              )
              refl,
          subst (λ k. Good k s.shared.client.db) (omega arith) loading.good,
        )

    -- Where properties ask for RocksDBCloud, for loading with t threads and nothing else, and for n
    -- records with constant or uniform lengths of fields, where the database takes every whole record,
    -- and each thread comes up for as many rounds as its share at least, in any order: main loads n less
    -- the remainder of its division by t, and then it waits in a loop without an end.
    pub main-loads :
        (fuel t n : ℕ) (props : Properties) (world : World d e r c database)
        (basic : Process d e r c database) (cloud : Str → Process d e r c database)
        (asks : AsksLoad props t false) (h : AsksUniform d e r c props n world.load_source)
        → IsLoadable props n world.load_source h (cloud asks.path)
        → All (IsOf t) world.load_events
        → ((u : ℕ) → u < t → share_of (pos n) t ≤ turns u world.load_events)
        → main d e r c database fuel world props basic cloud
          ≡ returned
              (compacting (record { loaded = some (n - n % t); performed = none; sleep_time = 0 }))
    unfolding main main_with print_info end_main
    main-loads fuel t n props world basic cloud asks h loadable of fair =
        let (p', loaded, _) =
          phase-loads fuel t n false props world.load_source world.load_events (cloud asks.path)
            asks h loadable of fair in
        rw
          (
            main, asks.created, asks.load, asks.run, asks.threads, asks.wait_found, asks.no_wait,
            asks.dbname_found, asks.dbpath_found, loaded,
          )
          refl
