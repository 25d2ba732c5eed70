-- ===== src/Backend/Stored.antt =====
-- What RocksDB holds behind a load.
use ycsb_c_cloud.Base.{
  ℕ, zero, suc, ◌+◌, ◌%◌, ◌^◌, ◌≤◌, ◌<◌, ◌≡◌, refl, sym, ◌∙◌, arith, Bool, true, some, Str, str_eq,
  str_eq_iff, str_eq_ne, List, [], ◌∷◌, All, Bool-cases, inl, inr, ◌==◌, ==→eq, ==→ne,
}
use mathlib.Core.Path.{subst}
use ycsb_c_cloud.Coding.{Endian}
use ycsb_c_cloud.Values.{KvPair, serialize_values}
use ycsb_c_cloud.Numbers.{pos, rounds_of}
use ycsb_c_cloud.Generators.Doubles.{Doubles}
use ycsb_c_cloud.Generators.Uniform.{UniformEngine}
use ycsb_c_cloud.RocksDb as Cloud
use ycsb_c_cloud.RocksDb.Store.{Lookup, Engine, EngineLaws}
use ycsb_c_cloud.RocksDb.Latency.{Histograms}
use ycsb_c_cloud.Workload.{returned, Randoms, build_key_name}
use ycsb_c_cloud.Workload.Fields.{Draws}
use ycsb_c_cloud.Client.Ready.{Limits, IsWritten, named-short}
use ycsb_c_cloud.Delegate.{Local, Clock, Shared, delegate_client}
use ycsb_c_cloud.Delegate.Load.{IsWhole, IsAccepting, IsLoading, load-IsGoing}
use ycsb_c_cloud.Delegate.Rounds.{delegate_client-goes}
use ycsb_c_cloud.Backend.{CloudState, cloud_database}

-- The keys that NextSequenceKey returns for `n` numbers from `k` on.
abbrev pub sequence_keys : Bool → ℕ → ℕ → List Str
sequence_keys ordered k zero = []
sequence_keys ordered k (suc n) =
    build_key_name ordered (k % 2 ^ 64) ∷ sequence_keys ordered (suc k) n

All-sequence_keys :
    (P : Str → Type 0) (ordered : Bool) (k n : ℕ)
    → ((i : ℕ) → k ≤ i → i < k + n → P (build_key_name ordered (i % 2 ^ 64)))
    → All P (sequence_keys ordered k n)
All-sequence_keys P ordered k zero all = tt
All-sequence_keys P ordered k (suc n) all = (
  all k (omega arith) (omega arith),
  All-sequence_keys P ordered (suc k) n (λ i above below. all i (omega arith) (omega arith)),
)

pub IsWhole-IsWritten :
    {d : Doubles} (m : Limits d) (values : List KvPair) → IsWhole m values → IsWritten m values
IsWhole-IsWritten m values (names, sizes) =
    let (many, short) = named-short (rounds_of m.fields) 0 values names in
    (omega (arith, many), short, sizes)

module _ {d : Doubles} (m : Limits d) (engine : Engine) (host : Endian) (h : Histograms) where
  -- RocksDB holds a serialized record of the workload under the key.
  abbrev pub IsStored : CloudState engine host h → Str → Type 0
  IsStored s key =
      (values : List KvPair) × (engine.get s.db.engine key
        ≡ Lookup.found (serialize_values host values))
      × IsWritten m values

  -- The records from `start` to `k` of the key sequence are stored, after so many misses.
  pub record HasLoaded (start misses k : ℕ) (s : CloudState engine host h) : Type 0 where
    pub stored : (i : ℕ) → start ≤ i → i < k → IsStored s (build_key_name m.ordered (i % 2 ^ 64))
    pub missed : s.db.no_result ≡ misses

  -- Lengths of fields are drawn within the limits, and the key sequence is at `k`.
  abbrev pub IsSequence :
      (e : UniformEngine) (r : Randoms d) → ℕ → Shared d e r (cloud_database engine host h) → Type 0
  IsSequence e r k s =
      Draws m.low m.high s.client.workload.field_len_generator
      × (s.client.workload.ordered_inserts ≡ m.ordered)
      × (s.client.workload.field_count ≡ m.fields)
      × (s.client.workload.key_generator.counter ≡ k % 2 ^ 64)

module _ {d : Doubles} (m : Limits d) (engine : Engine) (laws : EngineLaws engine) (host : Endian)
    (h : Histograms)
    (puts : (s : engine.State) (k v : Str)
      → (s' : engine.State) × (engine.put s k v ≡ some s')) where
  put-IsStored :
      (s : CloudState engine host h) (state' : engine.State) (key : Str) (values : List KvPair)
      → IsWritten m values
      → engine.put s.db.engine key (serialize_values host values) ≡ some state'
      → (j : Str) → IsStored m engine host h s j
      → IsStored m engine host h (record s { db = record s.db { engine = state' } }) j
  put-IsStored s state' key values fit ok j (old, at, fit') = elim (Bool-cases (str_eq key j)) [
    | inl same ↦ (
      values,
      subst (λ k. engine.get state' k ≡ Lookup.found (serialize_values host values))
          ((str_eq_iff key j).0 same) (laws.get-put_self s.db.engine state' key _ ok),
      fit,
    )
    | inr other ↦
        (old, laws.get-put_ne s.db.engine state' key j _ (str_eq_ne key j other) ok ∙ at, fit')
  ]

  -- An insert of a record of the workload succeeds, stores it, keeps what was stored, and leaves the
  -- count of misses alone.
  pub insert-IsStored :
      (s : CloudState engine host h) (table key : Str) (values : List KvPair)
      → IsWritten m values
      → (s' : CloudState engine host h) × ((cloud_database engine host h).insert_record s table key
            values
          ≡ returned (pos 0, s'))
        × IsStored m engine host h s' key
        × ((j : Str) → IsStored m engine host h s j → IsStored m engine host h s' j)
        × (s'.db.no_result ≡ s.db.no_result)
  unfolding Cloud.insert
  insert-IsStored s table key values fit =
      let (state', ok) = puts s.db.engine key (serialize_values host values) in
      (
        record s { db = record s.db { engine = state' } },
        rw (Cloud.insert, ok) refl,
        (values, laws.get-put_self s.db.engine state' key _ ok, fit),
        put-IsStored s state' key values fit ok,
        refl,
      )

  pub cloud-IsAccepting :
      (start misses : ℕ)
      → IsAccepting (cloud_database engine host h) m (HasLoaded m engine host h start misses)
  cloud-IsAccepting start misses = record {
    inserts = λ k s table values good fit.
        let key = build_key_name m.ordered (k % 2 ^ 64) in
        let (s', run, new, kept, same) =
          insert-IsStored s table key values (IsWhole-IsWritten m values fit) in
        (
          s',
          run,
          record {
            stored = λ i above below. elim (Bool-cases (i == k)) [
              | inl at ↦
                  subst (λ n. IsStored m engine host h s' (build_key_name m.ordered (n % 2 ^ 64)))
                    (sym (==→eq i k at)) new
              | inr other ↦
                  kept (build_key_name m.ordered (i % 2 ^ 64))
                    (good.stored i above (omega (arith, below, ==→ne i k other)))
            ];
            missed = same ∙ good.missed;
          },
        );
    begins = λ k s good. good;
    ends = λ k s good. good;
  }

  -- Where the lengths of fields are constant or uniform and no Put of RocksDB fails, DelegateClient
  -- loads into RocksDBCloud as many records as it is asked for. Behind it, RocksDB holds a serialized
  -- record under each of the keys of that many numbers of the key sequence, of at most one pair more
  -- than there are fields, with names of at most 30 bytes and values of lengths within the limits.
  pub delegate_client-stores :
      (e : UniformEngine) (r : Randoms d) (fuel num : ℕ) (clocks : ℕ → Clock) (n k : ℕ)
      (s : Shared d e r (cloud_database engine host h))
      → IsSequence m engine host h e r k s
      → (l : Local) × (s' : Shared d e r (cloud_database engine host h)) × (delegate_client d e r
            (cloud_database engine host h)
            fuel
            true
            num
            clocks
            n
            s
          ≡ returned (l, s'))
        × (l.oks ≡ n)
        × All (λ key. IsStored m engine host h s'.client.db key) (sequence_keys m.ordered k n)
  delegate_client-stores e r fuel num clocks n k s (lengths, order, count, at) =
      let misses : ℕ = s.client.db.db.no_result in
      let Loads =
        IsLoading d e r (cloud_database engine host h) m (HasLoaded m engine host h k misses) in
      let (l, s', run, oks, _, loaded) =
        delegate_client-goes d e r (cloud_database engine host h) fuel true Loads
          (load-IsGoing d e r (cloud_database engine host h) m (HasLoaded m engine host h k misses)
            (cloud-IsAccepting k misses) fuel)
          num clocks n k s
          (record {
            lengths = lengths;
            order = order;
            count = count;
            at = at;
            good = record { stored = λ i above below. absurd (omega arith); missed = refl };
          }) in
      (
        l,
        s',
        run,
        oks,
        All-sequence_keys (λ key. IsStored m engine host h s'.client.db key) m.ordered k n
            loaded.good.stored,
      )
