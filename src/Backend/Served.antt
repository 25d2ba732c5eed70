-- ===== src/Backend/Served.antt =====
-- Transactions on what a load has left in RocksDB.
use ycsb_c_cloud.Base.{
  ℕ, suc, ◌+◌, ◌*◌, ◌^◌, ◌≤◌, ◌<◌, ◌≡◌, refl, sym, ◌∙◌, arith, some, Str, List, [], ◌∷◌, length,
  All,
}
use native.Mathlib.Nat.{mul-le-mul_right}
use mathlib.Core.Path.{subst}
use ycsb_c_cloud.Coding.{Endian}
use ycsb_c_cloud.Values.{KvPair, serialize_values}
use ycsb_c_cloud.Values.Size.{IsShort, length-serialize_values}
use ycsb_c_cloud.Numbers.{pos, rounds_of}
use ycsb_c_cloud.Generators.Doubles.{Doubles}
use ycsb_c_cloud.RocksDb as Cloud
use ycsb_c_cloud.RocksDb.{k_ok}
use ycsb_c_cloud.RocksDb.Store.{Lookup, Engine, EngineLaws}
use ycsb_c_cloud.RocksDb.Laws.{Fits, read_found}
use ycsb_c_cloud.RocksDb.Latency.{Histograms}
use ycsb_c_cloud.Workload.{returned, build_key_name}
use ycsb_c_cloud.Workload.Fields.{AreSized}
use ycsb_c_cloud.Client.Ready.{Limits, IsWritten}
use ycsb_c_cloud.Client.Serving.{IsServing, IsThreaded}
use ycsb_c_cloud.Backend.{CloudState, cloud_database}
use ycsb_c_cloud.Backend.Stored.{IsStored, insert-IsStored, HasLoaded}

are-IsShort :
    (low high : ℕ) (values : List KvPair)
    → All (λ pair. length pair.0 ≤ 30) values
    → AreSized low high values
    → All (IsShort (30 + high)) values
are-IsShort low high [] names sizes = tt
are-IsShort low high (pair ∷ values) (name, names) (size, sizes) =
    (omega (arith, name, size.1), are-IsShort low high values names sizes)

-- The records that a workload writes fit their serialized form.
pub record IsRoomy {d : Doubles} (m : Limits d) : Type 0 where
  pub few : suc (rounds_of m.fields) < 2 ^ 32
  pub short : suc (rounds_of m.fields) * (16 + (30 + m.high)) + 9 < 2 ^ 64

IsWritten-Fits :
    {d : Doubles} (m : Limits d) (host : Endian) (values : List KvPair)
    → IsRoomy m
    → IsWritten m values
    → Fits host values
IsWritten-Fits m host values roomy (many, names, sizes) =
    let size =
      length-serialize_values host (30 + m.high) values
        (are-IsShort m.low m.high values names sizes) in
    let bound : length values * (16 + (30 + m.high))
        ≤ suc (rounds_of m.fields) * (16 + (30 + m.high)) =
      mul-le-mul_right (16 + (30 + m.high)) many in
    record { few = omega (arith, many, roomy.few); short = omega (arith, size, bound, roomy.short) }

module _ {d : Doubles} (m : Limits d) (engine : Engine) (host : Endian) (h : Histograms) where
  -- Every record is stored, after so many misses.
  pub record IsFull (misses : ℕ) (s : CloudState engine host h) : Type 0 where
    pub stored : (i : ℕ) → i < m.records → IsStored m engine host h s (build_key_name m.ordered i)
    pub missed : s.db.no_result ≡ misses

  -- What the loading of all records leaves.
  pub HasLoaded-IsFull :
      (misses : ℕ) (s : CloudState engine host h)
      → m.records < 2 ^ 64
      → HasLoaded m engine host h 0 misses m.records s
      → IsFull misses s
  HasLoaded-IsFull misses s small loaded = record {
    stored = λ i below.
        subst (λ n. IsStored m engine host h s (build_key_name m.ordered n)) (omega arith)
          (loaded.stored i (omega arith) below);
    missed = loaded.missed;
  }

  pub cloud-IsThreaded : (misses : ℕ) → IsThreaded (cloud_database engine host h) (IsFull misses)
  cloud-IsThreaded misses = record {
    begins = λ s full. full;
    ends = λ s full. full;
    reports = λ s iops full. record { stored = full.stored; missed = full.missed };
  }

module _ {d : Doubles} (m : Limits d) (roomy : IsRoomy m) (engine : Engine)
    (laws : EngineLaws engine) (host : Endian) (h : Histograms)
    (puts : (s : engine.State) (k v : Str)
      → (s' : engine.State) × (engine.put s k v ≡ some s')) where
  insert-IsFull :
      (misses : ℕ) (s : CloudState engine host h) (table key : Str) (values : List KvPair)
      → IsFull m engine host h misses s
      → IsWritten m values
      → (status : ℕ) × (s' : CloudState engine host h) × ((cloud_database engine host
              h).insert_record
            s table key values
          ≡ returned (pos status, s'))
        × (status ≡ 0)
        × IsFull m engine host h misses s'
  insert-IsFull misses s table key values full fit =
      let (s', run, new, kept, same) =
        insert-IsStored m engine laws host h puts s table key values fit in
      (
        0,
        s',
        run,
        refl,
        record {
          stored = λ i below. kept (build_key_name m.ordered i) (full.stored i below);
          missed = same ∙ full.missed;
        },
      )

  pub cloud-IsServing :
      (misses : ℕ)
      → IsServing
          (cloud_database engine host h)
          m
          (IsFull m engine host h misses)
          (λ status. status ≡ 0)
  unfolding Cloud.scan Cloud.update
  cloud-IsServing misses = record {
    reads = λ s table key fields full is_key.
        let (i, below, same) = is_key in
        let (values, at, fit) = full.stored i below in
        let at' =
          subst (λ k. engine.get s.db.engine k ≡ Lookup.found (serialize_values host values))
            (sym same) at in
        let read =
          read_found engine laws host s.db table key fields [] values
            (IsWritten-Fits m host values roomy fit) at' in
        (0, values, s, rw (read) refl, refl, full);
    scans = λ s table key len fields full is_key. (0, [], s, refl, refl, full);
    updates =
        λ s table key values full is_key fit. insert-IsFull misses s table key values full fit;
    inserts = λ s table key values full fit. insert-IsFull misses s table key values full fit;
    times = λ s kind time full. record { stored = full.stored; missed = full.missed };
  }
