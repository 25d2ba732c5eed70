-- ===== src/Client/Clock.antt =====
-- DoTransaction of core/client.h between two readings of the clock of core/timer.h.
use ycsb_c_cloud.Base.{ℕ, suc, ◌+◌, ◌^◌, ◌<◌, ◌≡◌, some, ap, ◌∙◌}
use ycsb_c_cloud.Generators.Doubles.{Doubles}
use ycsb_c_cloud.Generators.Uniform.{UniformEngine}
use ycsb_c_cloud.Generators.Discrete as Picker
use ycsb_c_cloud.Generators.Discrete.{DiscreteGenerator}
use ycsb_c_cloud.Workload.{returned, Operation, Randoms}
use ycsb_c_cloud.Numbers.{pos}
use ycsb_c_cloud.Timers.{Timeval, micros, get_now_micros, elapsed_micros}
use ycsb_c_cloud.Client.{Database, Client, add_at, is_ok, do_transaction}
use ycsb_c_cloud.Client.Ready.{Limits, IsReady}
use ycsb_c_cloud.Client.Serving.{IsServing}
use ycsb_c_cloud.Client.Counts.{do_transaction-counts}

-- Where DoTransaction counts op, as for `do_transaction-counts`, and reads the clock of timer.h twice,
-- it returns, counts op once, and adds the microseconds that passed, which are fewer than 2 ^ 64, to
-- ops_time at op.
pub do_transaction-elapsed :
    (d : Doubles) (e : UniformEngine) (r : Randoms d) (database : Database) (m : Limits d)
    (Good : database.Db → Type 0) (IsStatus : ℕ → Type 0) (fuel elapsed : ℕ) (start end : Timeval)
    (c : Client d e r database) (op : Operation) (g : DiscreteGenerator d Operation)
    → IsServing database m Good IsStatus
    → 0 < m.records
    → m.records < 2 ^ 64
    → IsReady m c.workload
    → Good c.db
    → Picker.next d Operation c.workload.op_chooser (r.random_double c.workload.source).0
      ≡ some (op, g)
    → micros end ≡ micros start + elapsed
    → elapsed < 2 ^ 64
    → (status : ℕ) × (c' : Client d e r database) × (do_transaction d e r database
          (suc fuel)
          (get_now_micros start)
          (get_now_micros end)
          c
        ≡ returned (is_ok (pos status), c'))
      × (c'.ops_cnt ≡ add_at c.ops_cnt op 1)
      × (c'.ops_time ≡ add_at c.ops_time op elapsed)
do_transaction-elapsed d e r database m Good IsStatus fuel elapsed start end c op g serving positive
      small h good chosen later bounded =
    let (status, c', done, ok, counts, times, h', good') =
      do_transaction-counts d e r database m Good IsStatus serving positive small fuel
        (get_now_micros start) (get_now_micros end) c op g h good chosen in
    (
      status,
      c',
      done,
      counts,
      times
          ∙ ap (λ time. add_at c.ops_time op time) (elapsed_micros start end elapsed later bounded),
    )
