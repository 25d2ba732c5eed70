-- ===== src/MainProgram/Running.antt =====
-- main with `-load true` and `-run true`: the threads that perform transactions behind those that load.
use ycsb_c_cloud.Base.{
  ℕ, suc, ◌-◌, ◌%◌, ◌<◌, ◌≤◌, ◌≡◌, refl, ap, ◌∙◌, arith, true, false, some, Str, List, All,
}
use mathlib.Core.Path.{subst}
use ycsb_c_cloud.Properties.{Properties, find}
use ycsb_c_cloud.Numbers.{pos, stoi}
use ycsb_c_cloud.Generators.Doubles.{Doubles}
use ycsb_c_cloud.Generators.Uniform.{UniformEngine}
use ycsb_c_cloud.Workload.{returned, Randoms}
use ycsb_c_cloud.Workload.Options.{record_count_property, operation_count_property}
use ycsb_c_cloud.Workload.Setup.{Conversions}
use ycsb_c_cloud.Workload.Fields.{Draws}
use ycsb_c_cloud.Workload.Start.{AsksUniform, started, init-started}
use ycsb_c_cloud.Client.{Database}
use ycsb_c_cloud.Client.Serving.{IsServing, IsThreaded}
use ycsb_c_cloud.Client.Started.{limits_of, started-IsReady}
use ycsb_c_cloud.Delegate.{Event, share_of}
use ycsb_c_cloud.Delegate.Interleaved.{turns, IsOf}
use ycsb_c_cloud.Delegate.Load.{IsAccepting}
use ycsb_c_cloud.Delegate.Transactions.{IsDecided, run_threads-transacts}
use ycsb_c_cloud.MainProgram.{
  Process, World, shared_of, process_of, compacting, phase, threads_of, print_info, end_main,
  main_with, main,
}
use ycsb_c_cloud.MainProgram.Loading.{AsksLoad, phase-loads}

-- Properties that ask for `ops` transactions.
pub record AsksTransactions (p : Properties) (ops : ℕ) : Type 0 where
  pub text : Str
  pub found : find p operation_count_property ≡ some text
  pub is_read : stoi text ≡ some (pos ops)

module _ (d : Doubles) (e : UniformEngine) (r : Randoms d) (c : Conversions d) (database : Database)
    (props : Properties) (n : ℕ) (source : r.Source) (h : AsksUniform d e r c props n source)
    (low high shortest longest : ℕ) (Good : database.Db → Type 0)
    (serving : IsServing database
      (limits_of d e r c props n source h low high shortest longest)
      Good
      (λ status. status ≡ 0))
    (threaded : IsThreaded database Good)
    (decided : IsDecided d r (limits_of d e r c props n source h low high shortest longest))
    (lengths : Draws low high h.lengths.0) (scans : Draws shortest longest h.scans.0) where
  phase-transacts :
      (fuel t ops : ℕ) (events : List (Event d e r database)) (p : Process d e r c database)
      → AsksTransactions props ops
      → Good p.db
      → All (IsOf t) events
      → ((u : ℕ) → u < t → share_of (pos ops) t ≤ turns u events)
      → (p' : Process d e r c database) × (phase d e r c database
            (suc fuel)
            false
            operation_count_property
            props
            (pos t)
            source
            events
            p
          ≡ returned (some (ops - ops % t), p'))
        × Good p'.db
  unfolding phase threads_of
  phase-transacts fuel t ops events p asks good of fair =
      let (s, run, finished, sum, served) =
        run_threads-transacts d e r database
          (limits_of d e r c props n source h low high shortest longest) Good serving threaded
          decided h.records.0 (omega (arith, h.records.1)) fuel t ops events
          (shared_of d e r c database (started d e r c props n source h) p)
          (record {
            ready =
                started-IsReady d e r c props n low high shortest longest source h lengths scans;
            good = good;
          })
          of fair in
      (
        process_of d e r c database s.shared,
        rw (init-started d e r c props n source h, asks.found, asks.is_read, run, finished, sum)
            refl,
        served.good,
      )

  -- Where properties ask for RocksDBCloud, for loading with t threads and then transactions, for n
  -- records, of which t is a divisor, with uniform requests and constant or uniform lengths, where the
  -- database takes every whole record and then serves the keys of the records and the values written,
  -- every number drawn decides on an operation, and each thread comes up for as many rounds as its
  -- share at least, in any order: main loads all n records, performs the transactions less the
  -- remainder of their number by t, each with the status kOK, and then
  -- waits in a loop without an end.
  pub main-runs :
      (fuel t ops : ℕ) (world : World d e r c database) (basic : Process d e r c database)
      (cloud : Str → Process d e r c database) (asks : AsksLoad props t true)
      (loading : AsksUniform d e r c props n world.load_source) (Loaded : ℕ → database.Db → Type 0)
      (accepting : IsAccepting database
        (limits_of d e r c props n source h low high shortest longest)
        Loaded)
      → ((s : database.Db) → Loaded n s → Good s)
      → world.run_source ≡ source
      → AsksTransactions props ops
      → Draws low high loading.lengths.0
      → Loaded 0 (cloud asks.path).db
      → n % t ≡ 0
      → All (IsOf t) world.load_events
      → ((u : ℕ) → u < t → share_of (pos n) t ≤ turns u world.load_events)
      → All (IsOf t) world.run_events
      → ((u : ℕ) → u < t → share_of (pos ops) t ≤ turns u world.run_events)
      → (p p' : Process d e r c database) × (main d e r c database
            (suc fuel)
            world
            props
            basic
            cloud
          ≡ returned (
              compacting
                (record { loaded = some n; performed = some (ops - ops % t); sleep_time = 0 })))
        × (phase d e r c database
              (suc fuel)
              true
              record_count_property
              props
              (pos t)
              world.load_source
              world.load_events
              (cloud asks.path)
            ≡ returned (some n, p))
        × (phase d e r c database
              (suc fuel)
              false
              operation_count_property
              props
              (pos t)
              source
              world.run_events
              p
            ≡ returned (some (ops - ops % t), p'))
        × Loaded n p.db
        × Good p'.db
  unfolding main main_with print_info end_main
  main-runs fuel t ops world basic cloud asks loading Loaded accepting ready same counts longs empty
        even of fair of' fair' =
      let fields : loading.field_count ≡ h.field_count =
        cc (loading.field_count_read, h.field_count_read) in
      let all : n - n % t ≡ n = omega (arith, even) in
      let (p, first, stored) =
        phase-loads d e r c database (limits_of d e r c props n source h low high shortest longest)
          Loaded accepting (suc fuel) t n true props world.load_source world.load_events
          (cloud asks.path) asks loading
          (record { lengths = longs; order = refl; count = fields; good = empty }) of fair in
      let first' : phase d e r c database (suc fuel) true record_count_property props (pos t)
            world.load_source world.load_events (cloud asks.path)
          ≡ returned (some n, p) =
        first ∙ ap (λ k. returned (some k, p)) all in
      let stored' = subst (λ k. Loaded k p.db) all stored in
      let (p', second, good) =
        phase-transacts fuel t ops world.run_events p counts (ready p.db stored') of' fair' in
      (
        p,
        p',
        rw
            (
              main, asks.created, asks.load, asks.run, asks.threads, asks.wait_found, asks.no_wait,
              asks.dbname_found, asks.dbpath_found, first', same, second,
            )
            refl,
        first',
        second,
        stored',
        good,
      )
