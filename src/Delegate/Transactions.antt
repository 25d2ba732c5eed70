-- ===== src/Delegate/Transactions.antt =====
-- A thread of ycsbc.cc that performs transactions.
use ycsb_c_cloud.Base.{
  ℕ, suc, ◌+◌, ◌-◌, ◌%◌, ◌^◌, ◌<◌, ◌≤◌, ◌≡◌, refl, ap, ◌∙◌, arith, true, false, List, All, ◌&&◌,
  ◌==◌, leb, some, Bool-cases, inl, inr,
}
use ycsb_c_cloud.Numbers.{pos}
use ycsb_c_cloud.Generators.Doubles.{Doubles}
use ycsb_c_cloud.Generators.Uniform.{UniformEngine}
use ycsb_c_cloud.Generators.Discrete as Picker
use ycsb_c_cloud.Generators.Discrete.{DiscreteGenerator, pick}
use ycsb_c_cloud.Workload.{
  returned, Operation, insert, read, update, scan, readmodifywrite, Randoms, CoreWorkload,
}
use ycsb_c_cloud.Client.{Database, Tally, add_at, is_ok, do_transaction}
use ycsb_c_cloud.Client.Ready.{Limits, IsReady}
use ycsb_c_cloud.Client.Serving.{IsServing, IsThreaded}
use ycsb_c_cloud.Client.Counts.{do_transaction-counts}
use ycsb_c_cloud.Delegate.{
  Local, new_local, report, end_round, Clock, Shared, System, Event, report_latencies, run_round,
  delegate_round, delegate_client, run_threads, share_of, sum_oks, all_finished,
}
use ycsb_c_cloud.Delegate.Progress.{points_below, report_limit}
use ycsb_c_cloud.Delegate.Rounds.{IsGoing, delegate_client-goes}
use ycsb_c_cloud.Delegate.Interleaved.{turns, IsOf, run_threads-goes}

-- The sum of an array over the operations.
abbrev pub sum_tally : Tally → ℕ
sum_tally tally = tally insert + tally read + tally update + tally scan + tally readmodifywrite

sum_tally-add_at :
    (tally : Tally) (op : Operation)
    → sum_tally (add_at tally op 1) % 2 ^ 64 ≡ (sum_tally tally + 1) % 2 ^ 64
unfolding add_at
sum_tally-add_at tally insert = omega arith
sum_tally-add_at tally read = omega arith
sum_tally-add_at tally update = omega arith
sum_tally-add_at tally scan = omega arith
sum_tally-add_at tally readmodifywrite = omega arith

-- Whatever number is drawn, it falls into the share of one of the operations.
abbrev pub IsDecided : (d : Doubles) → Randoms d → Limits d → Type 0
IsDecided d r m =
    (s : r.Source)
    → (op : Operation) × (pick d Operation m.operations m.total (r.random_double s).0 ≡ some op)

module _ (d : Doubles) (e : UniformEngine) (r : Randoms d) (database : Database) (m : Limits d)
    (Good : database.Db → Type 0) where
  -- The workload and the database are ready.
  pub record IsServed (s : Shared d e r database) : Type 0 where
    pub ready : IsReady m s.client.workload
    pub good : Good s.client.db

  -- And the operations were counted `k` times.
  pub record IsBusy (k : ℕ) (s : Shared d e r database) : Type 0 where
    pub ready : IsReady m s.client.workload
    pub good : Good s.client.db
    pub counted : sum_tally s.client.ops_cnt % 2 ^ 64 ≡ k % 2 ^ 64

  module _ (serving : IsServing database m Good (λ status. status ≡ 0))
      (threaded : IsThreaded database Good) (decided : IsDecided d r m) (positive : 0 < m.records)
      (small : m.records < 2 ^ 64) where
    chosen :
        (w : CoreWorkload d e r)
        → IsReady m w
        → (op : Operation) × (g : DiscreteGenerator d Operation) × (Picker.next d Operation
              w.op_chooser
              (r.random_double w.source).0
            ≡ some (op, g))
    unfolding Picker.next
    chosen w h =
        let (op, picked) = decided w.source in
        let picked' : pick d Operation w.op_chooser.values w.op_chooser.sum
              (r.random_double w.source).0
            ≡ some op =
          rw (h.operations, h.total) picked in
        (op, record w.op_chooser { last = some op }, rw (Picker.next, picked') refl)

    report_latencies-IsBusy :
        (num k : ℕ) (clock : Clock) (s : Shared d e r database)
        → IsBusy k s
        → IsBusy k (report_latencies d e r database num clock s)
    unfolding report_latencies
    report_latencies-IsBusy num k clock s h =
        elim (Bool-cases
          (leb 1000000 ((clock.now + 2 ^ 64 - s.statics.tiktok_start) % 2 ^ 64) && num == 0)) [
            | inl due ↦
                rw (report_latencies, due)
                  (record {
                    ready = h.ready;
                    good = threaded.reports s.client.db ((s.statics.iops + 1) % 2 ^ 64) h.good;
                    counted = h.counted;
                  })
            | inr early ↦
                rw (report_latencies, early)
                  (record { ready = h.ready; good = h.good; counted = h.counted })
          ]

    run_round-IsBusy :
        (fuel num k : ℕ) (clock : Clock) (l : Local) (s : Shared d e r database)
        → IsBusy k s
        → (s' : Shared d e r database) × (run_round d e r database (suc fuel) num clock l s
            ≡ returned (end_round true (report l), s'))
          × IsBusy (suc k) s'
    unfolding run_round
    run_round-IsBusy fuel num k clock l s h =
        let (op, g, next) = chosen s.client.workload h.ready in
        let (status, c, run, ok, counts, times, ready, good) =
          do_transaction-counts d e r database m Good (λ status. status ≡ 0) serving positive small
            fuel clock.start_time clock.end_time s.client op g h.ready h.good next in
        let run' : do_transaction d e r database (suc fuel) clock.start_time clock.end_time s.client
            ≡ returned (true, c) =
          run ∙ ap (λ n. returned (is_ok (pos n), c)) ok in
        (
          report_latencies d e r database num clock (record s { client = c }),
          rw (run') refl,
          report_latencies-IsBusy num (suc k) clock (record s { client = c })
              (record {
                ready = ready;
                good = good;
                counted =
                    ap (λ tally. sum_tally tally % 2 ^ 64) counts
                    ∙ sum_tally-add_at s.client.ops_cnt op
                    ∙ omega (arith, h.counted);
              }),
        )

    counted-IsGoing : (fuel : ℕ) → IsGoing d e r database (suc fuel) false IsBusy
    unfolding delegate_round
    counted-IsGoing fuel = record {
      goes = λ num k clock l s h. run_round-IsBusy fuel num k clock l s h;
      begins = λ k s h. record {
        ready = h.ready;
        good = threaded.begins s.client.db h.good;
        counted = h.counted;
      };
      ends = λ k s h. record {
        ready = h.ready;
        good = threaded.ends s.client.db h.good;
        counted = h.counted;
      };
    }

    rounds-IsGoing : (fuel : ℕ) → IsGoing d e r database (suc fuel) false (λ k. IsServed)
    unfolding delegate_round
    rounds-IsGoing fuel = record {
      goes = λ num k clock l s h.
          let (s', run, busy) =
            run_round-IsBusy fuel num (sum_tally s.client.ops_cnt) clock l s
              (record { ready = h.ready; good = h.good; counted = refl }) in
          (s', run, record { ready = busy.ready; good = busy.good });
      begins = λ k s h. record { ready = h.ready; good = threaded.begins s.client.db h.good };
      ends = λ k s h. record { ready = h.ready; good = threaded.ends s.client.db h.good };
    }

    -- Where the workload is ready, the database serves the keys of the records and the values that are
    -- written, each with the status kOK, every number drawn decides on an operation, and no other thread
    -- runs, DelegateClient performs the n transactions that it is asked for, at most 2147400000, and
    -- returns: n were successful, it has reported the rounds whose numbers are multiples of 100 below
    -- 1000, and so on, the entries of ops_cnt have grown by n together, modulo 2 ^ 64, and the database
    -- still serves.
    pub delegate_client-transacts :
        (fuel num : ℕ) (clocks : ℕ → Clock) (n k : ℕ) (s : Shared d e r database)
        → n ≤ report_limit
        → IsBusy k s
        → (l : Local) × (s' : Shared d e r database) × (delegate_client d e r database
              (suc fuel)
              false
              num
              clocks
              n
              s
            ≡ returned (l, s'))
          × (l.oks ≡ n)
          × (l.reported ≡ points_below n)
          × IsBusy (k + n) s'
    delegate_client-transacts fuel num clocks n k s low busy =
        let (l, s', run, oks, reports, busy') =
          delegate_client-goes d e r database (suc fuel) false IsBusy (counted-IsGoing fuel) num
            clocks n k s busy in
        (l, s', run, oks, reports low, busy')

    -- Where the workload is ready, the database serves the keys of the records and the values that are
    -- written, each with the status kOK, and every number drawn decides on an operation: however the
    -- rounds of n threads come that perform their shares of total transactions, if each thread comes
    -- up for as many rounds as its share at least, every round returns, all threads finish, the sum of
    -- their successful transactions is total less the remainder of its division by n, and the workload
    -- and the database are still ready. The arrays ops_cnt and ops_time are not in the statement.
    pub run_threads-transacts :
        (fuel n total : ℕ) (events : List (Event d e r database)) (shared : Shared d e r database)
        → IsServed shared
        → All (IsOf n) events
        → ((t : ℕ) → t < n → share_of (pos total) n ≤ turns t events)
        → (s : System d e r database) × (run_threads d e r database
              (suc fuel)
              false
              (share_of (pos total) n)
              events
              (record { locals = λ t. new_local; shared = shared })
            ≡ returned s)
          × (all_finished n (share_of (pos total) n) s.locals ≡ true)
          × (sum_oks n s.locals ≡ total - total % n)
          × IsServed s.shared
    run_threads-transacts fuel n total events shared served of fair =
        run_threads-goes d e r database (suc fuel) false (λ k. IsServed) (rounds-IsGoing fuel) 0 n
          total events shared served of fair
