-- ===== src/Delegate/Threads.antt =====
-- The threads that main starts to load records, in any order of their rounds.
use ycsb_c_cloud.Base.{ℕ, ◌+◌, ◌-◌, ◌%◌, ◌<◌, ◌≤◌, ◌≡◌, true, List, All}
use ycsb_c_cloud.Numbers.{pos}
use ycsb_c_cloud.Generators.Doubles.{Doubles}
use ycsb_c_cloud.Generators.Uniform.{UniformEngine}
use ycsb_c_cloud.Workload.{returned, Randoms}
use ycsb_c_cloud.Client.{Database}
use ycsb_c_cloud.Client.Ready.{Limits}
use ycsb_c_cloud.Delegate.{
  new_local, Shared, System, Event, run_threads, share_of, sum_oks, all_finished,
}
use ycsb_c_cloud.Delegate.Interleaved.{turns, IsOf, run_threads-goes}
use ycsb_c_cloud.Delegate.Load.{IsAccepting, IsLoading, load-IsGoing}

-- Where the lengths of fields are constant or uniform and the database takes every whole record:
-- however the steps of n threads interleave that load their shares of total records, if each thread
-- comes up for as many rounds as its share at least, every round returns, all threads finish, the sum
-- of their successful inserts is total less the remainder of its division by n, the key sequence has
-- moved on by just as much, and the database holds what it promises of these keys.
pub run_threads-loads :
    (d : Doubles) (e : UniformEngine) (r : Randoms d) (database : Database) (m : Limits d)
    (Good : ℕ → database.Db → Type 0) (accepting : IsAccepting database m Good) (fuel k n total : ℕ)
    (events : List (Event d e r database)) (shared : Shared d e r database)
    → IsLoading d e r database m Good k shared
    → All (IsOf n) events
    → ((t : ℕ) → t < n → share_of (pos total) n ≤ turns t events)
    → (s : System d e r database) × (run_threads d e r database fuel true
          (share_of (pos total) n)
          events
          (record { locals = λ t. new_local; shared = shared })
        ≡ returned s)
      × (all_finished n (share_of (pos total) n) s.locals ≡ true)
      × (sum_oks n s.locals ≡ total - total % n)
      × IsLoading d e r database m Good (k + (total - total % n)) s.shared
run_threads-loads d e r database m Good accepting fuel k n total events shared loading of fair =
    run_threads-goes d e r database fuel true (IsLoading d e r database m Good)
      (load-IsGoing d e r database m Good accepting fuel) k n total events shared loading of fair
