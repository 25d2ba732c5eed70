-- ===== src/MainProgram/Cloud.antt =====
-- main with RocksDBCloud: what the transactions find behind the load.
use ycsb_c_cloud.Base.{ℕ, suc, ◌-◌, ◌%◌, ◌<◌, ◌≤◌, ◌≡◌, refl, arith, true, false, some, Str, All}
use ycsb_c_cloud.Coding.{Endian}
use ycsb_c_cloud.Properties.{Properties}
use ycsb_c_cloud.Numbers.{pos}
use ycsb_c_cloud.Generators.Doubles.{Doubles}
use ycsb_c_cloud.Generators.Uniform.{UniformEngine}
use ycsb_c_cloud.RocksDb.Store.{Engine, EngineLaws}
use ycsb_c_cloud.RocksDb.Latency.{Histograms}
use ycsb_c_cloud.Workload.{returned, Randoms}
use ycsb_c_cloud.Workload.Options.{record_count_property, operation_count_property}
use ycsb_c_cloud.Workload.Setup.{Conversions}
use ycsb_c_cloud.Workload.Fields.{Draws}
use ycsb_c_cloud.Workload.Start.{AsksUniform}
use ycsb_c_cloud.Client.Started.{limits_of}
use ycsb_c_cloud.Delegate.{share_of}
use ycsb_c_cloud.Delegate.Interleaved.{turns, IsOf}
use ycsb_c_cloud.Delegate.Transactions.{IsDecided}
use ycsb_c_cloud.Backend.{cloud_database}
use ycsb_c_cloud.Backend.Stored.{HasLoaded, cloud-IsAccepting}
use ycsb_c_cloud.Backend.Served.{
  IsRoomy, IsFull, HasLoaded-IsFull, cloud-IsServing, cloud-IsThreaded,
}
use ycsb_c_cloud.MainProgram.{Process, World, compacting, phase, main}
use ycsb_c_cloud.MainProgram.Loading.{AsksLoad}
use ycsb_c_cloud.MainProgram.Running.{AsksTransactions, main-runs}

module _ (d : Doubles) (e : UniformEngine) (r : Randoms d) (c : Conversions d) (engine : Engine)
    (laws : EngineLaws engine) (host : Endian) (h : Histograms)
    (puts : (s : engine.State) (k v : Str)
      → (s' : engine.State) × (engine.put s k v ≡ some s')) where
  -- Where properties ask for RocksDBCloud, for loading with t threads and then transactions, for n
  -- records, of which t is a divisor, with uniform requests and constant or uniform lengths of fields
  -- and scans, so that a serialized record has fewer than 2 ^ 64 - 1 bytes, where no Put of RocksDB
  -- fails, every number drawn decides on an operation, and each thread comes up for as many rounds as
  -- its share at least, in any order: main loads all n records, performs the transactions less the
  -- remainder of their number by t, each with the status kOK, and then waits in a loop without an end.
  -- No read of these has missed: the count of misses is at the end what it was before the load, and
  -- each of the n keys holds a record.
  pub main-finds :
      (fuel t n ops low high shortest longest : ℕ) (props : Properties)
      (world : World d e r c (cloud_database engine host h))
      (basic : Process d e r c (cloud_database engine host h))
      (cloud : Str → Process d e r c (cloud_database engine host h)) (asks : AsksLoad props t true)
      (loading : AsksUniform d e r c props n world.load_source)
      (running : AsksUniform d e r c props n world.run_source)
      → IsDecided d r (limits_of d e r c props n world.run_source running low high shortest longest)
      → IsRoomy (limits_of d e r c props n world.run_source running low high shortest longest)
      → AsksTransactions props ops
      → Draws low high loading.lengths.0
      → Draws low high running.lengths.0
      → Draws shortest longest running.scans.0
      → n % t ≡ 0
      → All (IsOf t) world.load_events
      → ((u : ℕ) → u < t → share_of (pos n) t ≤ turns u world.load_events)
      → All (IsOf t) world.run_events
      → ((u : ℕ) → u < t → share_of (pos ops) t ≤ turns u world.run_events)
      → (p p' : Process d e r c (cloud_database engine host h)) × (main d e r c
            (cloud_database engine host h)
            (suc fuel)
            world
            props
            basic
            cloud
          ≡ returned (
              compacting
                (record { loaded = some n; performed = some (ops - ops % t); sleep_time = 0 })))
        × (phase d e r c
              (cloud_database engine host h)
              (suc fuel)
              true
              record_count_property
              props
              (pos t)
              world.load_source
              world.load_events
              (cloud asks.path)
            ≡ returned (some n, p))
        × (phase d e r c
              (cloud_database engine host h)
              (suc fuel)
              false
              operation_count_property
              props
              (pos t)
              world.run_source
              world.run_events
              p
            ≡ returned (some (ops - ops % t), p'))
        × IsFull
            (limits_of d e r c props n world.run_source running low high shortest longest)
            engine
            host
            h
            (cloud asks.path).db.db.no_result
            p'.db
  main-finds fuel t n ops low high shortest longest props world basic cloud asks loading running
        decided roomy counts longs lengths scans even of fair of' fair' =
      let m = limits_of d e r c props n world.run_source running low high shortest longest in
      let misses : ℕ = (cloud asks.path).db.db.no_result in
      let (p, p', run, first, second, _, full) =
        main-runs d e r c (cloud_database engine host h) props n world.run_source running low high
          shortest longest (IsFull m engine host h misses)
          (cloud-IsServing m roomy engine laws host h puts misses)
          (cloud-IsThreaded m engine host h misses) decided lengths scans fuel t ops world basic
          cloud asks loading (HasLoaded m engine host h 0 misses)
          (cloud-IsAccepting m engine laws host h puts 0 misses)
          (λ s loaded.
            HasLoaded-IsFull m engine host h misses s (omega (arith, running.records.1)) loaded)
          refl counts longs
          (record { stored = λ i above below. absurd (omega arith); missed = refl }) even of fair
          of' fair' in
      (p, p', run, first, second, full)
