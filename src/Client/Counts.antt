-- ===== src/Client/Counts.antt =====
-- DoTransaction of core/client.h and what it counts.
use ycsb_c_cloud.Base.{
  ℕ, suc, ◌+◌, ◌-◌, ◌%◌, ◌^◌, ◌<◌, ◌≡◌, refl, ap, none, some, Option-cases, inl, inr, ◌++◌, codes,
}
use ycsb_c_cloud.Generators.Doubles.{Doubles}
use ycsb_c_cloud.Generators.Uniform.{UniformEngine}
use ycsb_c_cloud.Generators.Discrete as Picker
use ycsb_c_cloud.Generators.Discrete.{DiscreteGenerator, pick}
use ycsb_c_cloud.Workload.{
  Run, returned, Operation, insert, read, update, scan, readmodifywrite, Randoms, CoreWorkload,
  next_operation,
}
use ycsb_c_cloud.Numbers.{ℤ, pos, to_string}
use ycsb_c_cloud.Client.{
  Database, Client, add_at, is_ok, int_of, perform, timed, do_transaction, time_kind,
  transaction_read, transaction_read_modify_write, transaction_scan, transaction_update,
  transaction_insert,
}
use ycsb_c_cloud.Client.Ready.{
  Limits, IsReady, choosers-IsReady, next_transaction_key-IsReady, next_scan_length-IsReady,
  build_values-IsReady, asked_fields-IsReady, written_values-IsReady,
}
use ycsb_c_cloud.Client.Serving.{IsServing}

-- Next of a DiscreteGenerator changes nothing but the last value.
next_keeps :
    (d : Doubles) (g g' : DiscreteGenerator d Operation) (u : d.Double) (op : Operation)
    → Picker.next d Operation g u ≡ some (op, g')
    → (g'.values ≡ g.values) × (g'.sum ≡ g.sum)
unfolding Picker.next
next_keeps d g g' u op h = elim (Option-cases (pick d Operation g.values g.sum u)) [
  | inl gone ↦
      let no : none ≡ some (op, g') = rw (Picker.next, gone) at h in let bad : ⊥ = cc in absurd bad
  | inr (value, picked) ↦
      let same : some (value, record g { last = some value }) ≡ some (op, g') =
        rw (Picker.next, picked) at h in
      let g_same : record g { last = some value } ≡ g' = cc in
      (rw (← g_same) refl, rw (← g_same) refl)
]

module _ (d : Doubles) (e : UniformEngine) (r : Randoms d) (database : Database) (m : Limits d)
    (Good : database.Db → Type 0) (IsStatus : ℕ → Type 0)
    (serving : IsServing database m Good IsStatus) (positive : 0 < m.records)
    (small : m.records < 2 ^ 64) where
  open serving use {reads, scans, updates, inserts, times}

  -- A transaction returns, leaves the workload ready and the database good, and does not touch the
  -- arrays.
  abbrev Transacts : Client d e r database → Run (ℤ × Client d e r database) → Type 0
  Transacts c run =
      (status : ℕ) × (c' : Client d e r database) × (run ≡ returned (pos status, c'))
      × IsStatus status
      × IsReady m c'.workload
      × Good c'.db
      × (c'.ops_cnt ≡ c.ops_cnt)
      × (c'.ops_time ≡ c.ops_time)

  transaction_read-IsReady :
      (fuel : ℕ) (c : Client d e r database)
      → IsReady m c.workload
      → Good c.db
      → Transacts c (transaction_read d e r database (suc fuel) c)
  unfolding transaction_read
  transaction_read-IsReady fuel c h good =
      let (key, w, keyed, h1, is_key) =
        next_transaction_key-IsReady fuel m c.workload positive small h in
      let (fields, w', asked, h2, _) = asked_fields-IsReady m w h1 in
      let (status, out, db, got, ok, good') = reads c.db w'.table_name key fields good is_key in
      (
        status,
        record c { db = db; workload = w' },
        rw (keyed, asked, got) refl,
        ok,
        h2,
        good',
        refl,
        refl,
      )

  transaction_scan-IsReady :
      (fuel : ℕ) (c : Client d e r database)
      → IsReady m c.workload
      → Good c.db
      → Transacts c (transaction_scan d e r database (suc fuel) c)
  unfolding transaction_scan
  transaction_scan-IsReady fuel c h good =
      let (key, w, keyed, h1, is_key) =
        next_transaction_key-IsReady fuel m c.workload positive small h in
      let (len, w', measured, h2, _) = next_scan_length-IsReady m w h1 in
      let (fields, w'', asked, h3, _) = asked_fields-IsReady m w' h2 in
      let (status, out, db, scanned, ok, good') =
        scans c.db w''.table_name key (int_of len) fields good is_key in
      (
        status,
        record c { db = db; workload = w'' },
        rw (keyed, measured, asked, scanned) refl,
        ok,
        h3,
        good',
        refl,
        refl,
      )

  transaction_update-IsReady :
      (fuel : ℕ) (c : Client d e r database)
      → IsReady m c.workload
      → Good c.db
      → Transacts c (transaction_update d e r database (suc fuel) c)
  unfolding transaction_update
  transaction_update-IsReady fuel c h good =
      let (key, w, keyed, h1, is_key) =
        next_transaction_key-IsReady fuel m c.workload positive small h in
      let (values, w', written, h2, fit) = written_values-IsReady m w h1 in
      let (status, db, stored, ok, good') = updates c.db w'.table_name key values good is_key fit in
      (
        status,
        record c { db = db; workload = w' },
        rw (keyed, written, stored) refl,
        ok,
        h2,
        good',
        refl,
        refl,
      )

  transaction_read_modify_write-IsReady :
      (fuel : ℕ) (c : Client d e r database)
      → IsReady m c.workload
      → Good c.db
      → Transacts c (transaction_read_modify_write d e r database (suc fuel) c)
  unfolding transaction_read_modify_write
  transaction_read_modify_write-IsReady fuel c h good =
      let (key, w, keyed, h1, is_key) =
        next_transaction_key-IsReady fuel m c.workload positive small h in
      let (fields, w', asked, h2, _) = asked_fields-IsReady m w h1 in
      let (ignored, out, db, got, _, good1) = reads c.db w'.table_name key fields good is_key in
      let (values, w'', written, h3, fit) = written_values-IsReady m w' h2 in
      let (status, db', stored, ok, good') =
        updates db w''.table_name key values good1 is_key fit in
      (
        status,
        record c { db = db'; workload = w'' },
        rw (keyed, asked, got, written, stored) refl,
        ok,
        h3,
        good',
        refl,
        refl,
      )

  transaction_insert-IsReady :
      (c : Client d e r database)
      → IsReady m c.workload
      → Good c.db
      → Transacts c (transaction_insert d e r database c)
  unfolding transaction_insert
  transaction_insert-IsReady c h good =
      let (values, w, built, h1, fit) = build_values-IsReady m c.workload h in
      let (status, db, stored, ok, good') =
        inserts c.db w.table_name (codes "user" ++ to_string c.uniform_insert_counter) values good
          fit in
      (
        status,
        record c {
          db = db;
          workload = w;
          uniform_insert_counter = (c.uniform_insert_counter + 1) % 2 ^ 64;
        },
        rw (built, stored) refl,
        ok,
        h1,
        good',
        refl,
        refl,
      )

  perform-IsReady :
      (fuel : ℕ) (op : Operation) (c : Client d e r database)
      → IsReady m c.workload
      → Good c.db
      → Transacts c (perform d e r database (suc fuel) op c)
  unfolding perform
  perform-IsReady fuel insert c h good = transaction_insert-IsReady c h good
  perform-IsReady fuel read c h good = transaction_read-IsReady fuel c h good
  perform-IsReady fuel update c h good = transaction_update-IsReady fuel c h good
  perform-IsReady fuel scan c h good = transaction_scan-IsReady fuel c h good
  perform-IsReady fuel readmodifywrite c h good =
      transaction_read_modify_write-IsReady fuel c h good

  -- If the keys are drawn uniformly from some records, the fields and the lengths come from constant
  -- or uniform generators, the database serves the keys of the records and the values that are
  -- written, and Next of the chooser of operations returns `op`, then DoTransaction returns with any
  -- fuel above 0, whether its status is kOK, adds one to ops_cnt and the time that passed to ops_time
  -- at `op` and nothing at any other operation, modulo 2 ^ 64, and leaves a workload and a database of
  -- which the same holds.
  pub do_transaction-counts :
      (fuel start_time end_time : ℕ) (c : Client d e r database) (op : Operation)
      (g : DiscreteGenerator d Operation)
      → IsReady m c.workload
      → Good c.db
      → Picker.next d Operation c.workload.op_chooser (r.random_double c.workload.source).0
        ≡ some (op, g)
      → (status : ℕ) × (c' : Client d e r database) × (do_transaction d e r database
            (suc fuel)
            start_time
            end_time
            c
          ≡ returned (is_ok (pos status), c'))
        × IsStatus status
        × (c'.ops_cnt ≡ add_at c.ops_cnt op 1)
        × (c'.ops_time ≡ add_at c.ops_time op ((end_time + 2 ^ 64 - start_time) % 2 ^ 64))
        × IsReady m c'.workload
        × Good c'.db
  unfolding do_transaction next_operation timed
  do_transaction-counts fuel start_time end_time c op g h good chosen =
      let time : ℕ = (end_time + 2 ^ 64 - start_time) % 2 ^ 64 in
      let w : CoreWorkload d e r = record c.workload {
        op_chooser = g;
        source = (r.random_double c.workload.source).1;
      } in
      let (status, c', done, ok, h', good', counts, times_kept) =
        perform-IsReady fuel op (record c { workload = w })
          (choosers-IsReady h w refl refl (refl, refl)
            (next_keeps d c.workload.op_chooser g (r.random_double c.workload.source).0 op chosen)
            h.lengths h.fields h.scans)
          good in
      (
        status,
        timed d e r database op time c',
        rw (chosen, done) refl,
        ok,
        ap (λ tally. add_at tally op 1) counts,
        ap (λ tally. add_at tally op time) times_kept,
        h',
        times c'.db (time_kind op) time good',
      )
