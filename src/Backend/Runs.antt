-- ===== src/Backend/Runs.antt =====
-- A load into RocksDBCloud at a concrete input.
use ycsb_c_cloud.Base.{◌≡◌, refl, arith, true, [], ◌∷◌, codes, All}
use ycsb_c_cloud.Numbers.{to_string}
use ycsb_c_cloud.Coding.{little}
use ycsb_c_cloud.RocksDb.Store.{Lookup}
use ycsb_c_cloud.RocksDb.Memory.{memory, memory_laws, write_at}
use ycsb_c_cloud.RocksDb.Latency.Counters.{counters, no_latencies}
use ycsb_c_cloud.Workload.{returned, build_key_name}
use ycsb_c_cloud.Workload.Samples.{whole, least, repeated, ordered}
use ycsb_c_cloud.Delegate.{Local, Clock, Shared, delegate_client}
use ycsb_c_cloud.Client.Samples.{busy_limits}
use ycsb_c_cloud.Backend.{CloudState, cloud_database}
use ycsb_c_cloud.Backend.Stored.{IsStored, sequence_keys, delegate_client-stores}

abbrev none_stored : CloudState memory little counters
none_stored = record {
  db = record { engine = λ k. Lookup.not_found; no_result = 0 };
  latencies = no_latencies;
}

abbrev at_start : Shared whole least repeated (cloud_database memory little counters)
at_start = record {
  client = record {
    db = none_stored;
    workload = ordered;
    ops_cnt = λ op. 0;
    ops_time = λ op. 0;
    uniform_insert_counter = 1000000;
  };
  statics = record { tiktok_start = 0; tiktoks = 0; iops = 0 };
}

abbrev still : Clock
still = record { start_time = 0; end_time = 0; now = 0; restart = 0 }

first_keys : sequence_keys true 8 2 ≡ codes "user8" ∷ codes "user9" ∷ []
unfolding build_key_name to_string
first_keys = refl

delegate_client-stores_example :
    (l : Local) × (s : Shared whole least repeated (cloud_database memory little counters))
    × (delegate_client whole least repeated
          (cloud_database memory little counters)
          1
          true
          0
          (λ i. still)
          2
          at_start
        ≡ returned (l, s))
    × (l.oks ≡ 2)
    × All
        (λ key. IsStored busy_limits memory little counters s.client.db key)
        (sequence_keys true 8 2)
delegate_client-stores_example =
    delegate_client-stores busy_limits memory memory_laws little counters
      (λ state k v. (write_at state k (Lookup.found v), refl)) least repeated 1 0 (λ i. still) 2 8
      at_start ((omega arith, omega arith), refl, refl, refl)
