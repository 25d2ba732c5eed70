-- ===== src/Delegate/Load.antt =====
-- A thread of ycsbc.cc that loads records.
use ycsb_c_cloud.Base.{
  ℕ, suc, ◌+◌, ◌%◌, ◌^◌, ◌≤◌, ◌≡◌, refl, ap, sym, ◌∙◌, arith, true, Str, List, [], map,
}
use mathlib.Core.Path.{subst}
use ycsb_c_cloud.Values.{KvPair}
use ycsb_c_cloud.Numbers.{pos, rounds_of}
use ycsb_c_cloud.Generators.Doubles.{Doubles}
use ycsb_c_cloud.Generators.Uniform.{UniformEngine}
use ycsb_c_cloud.Generators.Counter as Counter
use ycsb_c_cloud.Workload.{returned, Randoms, next_sequence_key, build_key_name}
use ycsb_c_cloud.Workload.Fields.{Draws, AreSized, field_names, after_fields, build_values-names}
use ycsb_c_cloud.Client.{Database, do_insert}
use ycsb_c_cloud.Client.Ready.{Limits}
use ycsb_c_cloud.Delegate.{
  Local, report, end_round, Clock, Shared, load_round, delegate_round, delegate_client,
}
use ycsb_c_cloud.Delegate.Progress.{points_below, report_limit}
use ycsb_c_cloud.Delegate.Rounds.{IsGoing, delegate_client-goes}

-- A whole record: a pair for each field, with a value of a length that is drawn.
abbrev pub IsWhole : {d : Doubles} → Limits d → List KvPair → Type 0
IsWhole m values =
    (map (λ pair. pair.0) values ≡ field_names (rounds_of m.fields) 0)
    × AreSized m.low m.high values

-- A database that takes every whole record at the next key of the sequence, and of which `Good` then
-- holds at the number behind.
pub record IsAccepting (database : Database) {d : Doubles} (m : Limits d)
    (Good : ℕ → database.Db → Type 0) : Type 0 where
  pub inserts :
      (k : ℕ) (s : database.Db) (table : Str) (values : List KvPair)
      → Good k s
      → IsWhole m values
      → (s' : database.Db) × (database.insert_record s table
            (build_key_name m.ordered (k % 2 ^ 64))
            values
          ≡ returned (pos 0, s'))
        × Good (suc k) s'
  pub begins : (k : ℕ) (s : database.Db) → Good k s → Good k (database.init_thread s)
  pub ends : (k : ℕ) (s : database.Db) → Good k s → Good k (database.close_thread s)

module _ (d : Doubles) (e : UniformEngine) (r : Randoms d) (database : Database) (m : Limits d)
    (Good : ℕ → database.Db → Type 0) where
  -- Lengths of fields are drawn within the limits, the key sequence is at `k`, and so is the database.
  pub record IsLoading (k : ℕ) (s : Shared d e r database) : Type 0 where
    pub lengths : Draws m.low m.high s.client.workload.field_len_generator
    pub order : s.client.workload.ordered_inserts ≡ m.ordered
    pub count : s.client.workload.field_count ≡ m.fields
    pub at : s.client.workload.key_generator.counter ≡ k % 2 ^ 64
    pub good : Good k s.client.db

  module _ (accepting : IsAccepting database m Good) where
    load_round-IsLoading :
        (k : ℕ) (l : Local) (s : Shared d e r database)
        → IsLoading k s
        → (s' : Shared d e r database) × (load_round d e r database l s
            ≡ returned (end_round true (report l), s'))
          × IsLoading (suc k) s'
    unfolding load_round do_insert next_sequence_key Counter.next
    load_round-IsLoading k l s h =
        let w = (next_sequence_key d e r s.client.workload).1 in
        let key = (next_sequence_key d e r s.client.workload).0 in
        let (pairs, g, source, built, names, sizes, lengths') =
          build_values-names m.low m.high [] w h.lengths in
        let named : map (λ pair. pair.0) pairs ≡ field_names (rounds_of m.fields) 0 =
          names ∙ ap (λ c. field_names (rounds_of c) 0) h.count in
        let (db, stored, good) =
          accepting.inserts k s.client.db w.table_name pairs h.good (named, sizes) in
        let same : build_key_name m.ordered (k % 2 ^ 64) ≡ key = sym (
          ap (λ o. build_key_name o s.client.workload.key_generator.counter) h.order
          ∙ ap (λ c. build_key_name m.ordered c) h.at) in
        let stored' : database.insert_record s.client.db w.table_name key pairs
            ≡ returned (pos 0, db) =
          subst
            (λ j. database.insert_record s.client.db w.table_name j pairs ≡ returned (pos 0, db))
            same stored in
        (
          record s { client = record s.client { db = db; workload = after_fields w g source } },
          rw (built, stored') refl,
          record {
            lengths = lengths';
            order = h.order;
            count = h.count;
            at = omega (arith, h.at);
            good = good;
          },
        )

    pub load-IsGoing : (fuel : ℕ) → IsGoing d e r database fuel true IsLoading
    unfolding delegate_round
    load-IsGoing fuel = record {
      goes = λ num k clock l s h. load_round-IsLoading k l s h;
      begins = λ k s h. record {
        lengths = h.lengths;
        order = h.order;
        count = h.count;
        at = h.at;
        good = accepting.begins k s.client.db h.good;
      };
      ends = λ k s h. record {
        lengths = h.lengths;
        order = h.order;
        count = h.count;
        at = h.at;
        good = accepting.ends k s.client.db h.good;
      };
    }

    -- Where the lengths of fields are constant or uniform, the database takes every whole record and at
    -- most 2147400000 records are asked for, so that the int next_report_ does not overflow,
    -- DelegateClient returns when it loads: as many inserts have succeeded as it was asked for, the
    -- key sequence has moved on by as many numbers, the database holds what it promises of them, and
    -- it has reported the rounds whose numbers are multiples of 100 below 1000, of 500 below 5000,
    -- and so on up to multiples of 100000 from 500000 on, and no others.
    pub delegate_client-loads :
        (fuel num : ℕ) (clocks : ℕ → Clock) (n k : ℕ) (s : Shared d e r database)
        → n ≤ report_limit
        → IsLoading k s
        → (l : Local) × (s' : Shared d e r database) × (delegate_client d e r database fuel true num
              clocks n s
            ≡ returned (l, s'))
          × (l.oks ≡ n)
          × (l.reported ≡ points_below n)
          × IsLoading (k + n) s'
    delegate_client-loads fuel num clocks n k s low loading =
        let (l, s', run, oks, reports, loading') =
          delegate_client-goes d e r database fuel true IsLoading (load-IsGoing fuel) num clocks n k
            s loading in
        (l, s', run, oks, reports low, loading')
