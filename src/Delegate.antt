-- ===== src/Delegate.antt =====
-- DelegateClient of ycsbc.cc and the threads that main starts with it. The times that the clock shows
-- are arguments. `next_report_` is the 32 bits of an int, whose overflow, which the language leaves
-- undefined, wraps here. The counters `i` and `oks` stay at or below `num_ops`, which is an int.
--
-- A round is one step of a thread. What a round does to the arrays ops_cnt and ops_time and to the
-- static variables is no single step of the machine, and nothing guards it: of several threads, no
-- proof says what these hold.
pub mod Progress
pub mod Rounds
pub mod Interleaved
pub mod Load
pub mod Sums
pub mod Threads
pub mod Transactions
mod Runs
mod Busy
use ycsb_c_cloud.Base.{
  ℕ, zero, suc, ◌+◌, ◌-◌, ◌/◌, ◌%◌, ◌^◌, Bool, true, false, ◌&&◌, ◌||◌, List, [], ◌∷◌, ltb, leb,
  if◌then◌else◌, ◌==◌,
}
use ycsb_c_cloud.Numbers.{ℤ, pos, negsuc}
use ycsb_c_cloud.Generators.Doubles.{Doubles}
use ycsb_c_cloud.Generators.Uniform.{UniformEngine}
use ycsb_c_cloud.Workload.{Run, returned, ◌>>=◌, Randoms}
use ycsb_c_cloud.Client.{Database, Client, do_insert, do_transaction}

-- `next_report_ < n` and `i >= next_report_`, where the sign of an int is its highest bit.
abbrev pub is_below : ℕ → ℕ → Bool
is_below next_report n = leb (2 ^ 31) next_report || ltb next_report n

abbrev pub is_due : ℕ → ℕ → Bool
is_due next_report i = leb (2 ^ 31) next_report || leb next_report i

-- The next round that is reported, once `next_report_` is reached.
unfoldable pub bump : ℕ → ℕ
bump next_report =
    if is_below next_report 1000
    then (next_report + 100) % 2 ^ 32
    else if is_below next_report 5000
    then (next_report + 500) % 2 ^ 32
    else if is_below next_report 10000
    then (next_report + 1000) % 2 ^ 32
    else if is_below next_report 50000
    then (next_report + 5000) % 2 ^ 32
    else if is_below next_report 100000
    then (next_report + 10000) % 2 ^ 32
    else if is_below next_report 500000
    then (next_report + 50000) % 2 ^ 32
    else (next_report + 100000) % 2 ^ 32

-- The variables of one call: the loop counter, the calls that succeeded, the next report and, the
-- newest first, the numbers reported so far.
pub record Local : Type 0 where
  pub i : ℕ
  pub oks : ℕ
  pub next_report : ℕ
  pub reported : List ℕ

abbrev pub new_local : Local
new_local = record { i = 0; oks = 0; next_report = 0; reported = [] }

unfoldable pub report : Local → Local
report l =
    if is_due l.next_report l.i
    then record l { next_report = bump l.next_report; reported = l.i ∷ l.reported }
    else l

-- `oks +=` a bool, and `++i`.
abbrev pub one_if : Bool → ℕ
one_if ok = if ok then 1 else 0

abbrev pub end_round : Bool → Local → Local
end_round ok l = record l { i = suc l.i; oks = l.oks + one_if ok }

-- The static variables, shared by all calls.
pub record Statics : Type 0 where
  pub tiktok_start : ℕ
  pub tiktoks : ℕ
  pub iops : ℕ

-- What the clock shows in a round: at the start and the end of the transaction, behind it, and after
-- a report of the latencies.
pub record Clock : Type 0 where
  pub start_time : ℕ
  pub end_time : ℕ
  pub now : ℕ
  pub restart : ℕ

module _ (d : Doubles) (e : UniformEngine) (r : Randoms d) (database : Database) where
  -- What the threads share.
  pub record Shared : Type 0 where
    pub client : Client d e r database
    pub statics : Statics

  -- Behind a transaction: thread 0 reports the latencies once a second.
  unfoldable pub report_latencies : ℕ → Clock → Shared → Shared
  report_latencies num clock s =
      let tiktoks = (clock.now + 2 ^ 64 - s.statics.tiktok_start) % 2 ^ 64 in
      let iops = (s.statics.iops + 1) % 2 ^ 64 in
      if leb 1000000 tiktoks && num == 0
      then record {
        client = record s.client { db = database.latency_hiccup s.client.db iops };
        statics = record { tiktok_start = clock.restart; tiktoks = 0; iops = 0 };
      }
      else record s { statics = record s.statics { tiktoks = tiktoks; iops = iops } }

  -- The body of the loop, in the thread `num`.
  unfoldable pub load_round : Local → Shared → Run (Local × Shared)
  load_round l s = do
    (ok, c) ← do_insert d e r database s.client
    returned (end_round ok (report l), record s { client = c })

  unfoldable pub run_round : ℕ → ℕ → Clock → Local → Shared → Run (Local × Shared)
  run_round fuel num clock l s = do
    (ok, c) ← do_transaction d e r database fuel clock.start_time clock.end_time s.client
    returned (end_round ok (report l), report_latencies num clock (record s { client = c }))

  unfoldable pub delegate_round : ℕ → Bool → ℕ → Clock → Local → Shared → Run (Local × Shared)
  delegate_round fuel is_loading num clock l s =
      if is_loading then load_round l s else run_round fuel num clock l s

  -- One call that runs alone: `remaining` rounds are left, and `clocks` is the clock of each.
  unfoldable pub delegate_loop :
      ℕ → Bool → ℕ → (ℕ → Clock) → ℕ → Local → Shared → Run (Local × Shared)
  delegate_loop fuel is_loading num clocks zero l s = returned (l, s)
  delegate_loop fuel is_loading num clocks (suc remaining) l s = do
    (l', s') ← delegate_round fuel is_loading num (clocks l.i) l s
    delegate_loop fuel is_loading num clocks remaining l' s'

  abbrev pub with_db : (database.Db → database.Db) → Shared → Shared
  with_db f s = record s { client = record s.client { db = f s.client.db } }

  unfoldable pub delegate_client : ℕ → Bool → ℕ → (ℕ → Clock) → ℕ → Shared → Run (Local × Shared)
  delegate_client fuel is_loading num clocks num_ops s = do
    (l, s') ←
        delegate_loop fuel is_loading num clocks num_ops new_local (with_db database.init_thread s)
    returned (l, with_db database.close_thread s')

  -- The threads that main has started, by their numbers, and what they share.
  pub record System : Type 0 where
    pub locals : ℕ → Local
    pub shared : Shared

  abbrev pub set_local : (ℕ → Local) → ℕ → Local → ℕ → Local
  set_local locals t l u = if u == t then l else locals u

  -- A round of thread `t`, where it has one left.
  unfoldable pub step_thread : ℕ → Bool → ℕ → Clock → ℕ → System → Run System
  step_thread fuel is_loading num_ops clock t s =
      if ltb (s.locals t).i num_ops
      then (do
        (l, shared) ← delegate_round fuel is_loading t clock (s.locals t) s.shared
        returned (record { locals = set_local s.locals t l; shared = shared }))
      else returned s

  -- A thread begins with Init of the database and ends with Close.
  pub data Event : Type 0 where
    begins ends : ℕ → Event
    rounds : ℕ → Clock → Event

  unfoldable pub happens : ℕ → Bool → ℕ → Event → System → Run System
  happens fuel is_loading num_ops (begins t) s =
      returned (record s { shared = with_db database.init_thread s.shared })
  happens fuel is_loading num_ops (ends t) s =
      returned (record s { shared = with_db database.close_thread s.shared })
  happens fuel is_loading num_ops (rounds t clock) s = step_thread fuel is_loading num_ops clock t s

  -- The order in which the steps of the threads come.
  unfoldable pub run_threads : ℕ → Bool → ℕ → List Event → System → Run System
  run_threads fuel is_loading num_ops [] s = returned s
  run_threads fuel is_loading num_ops (event ∷ events) s = do
    s' ← happens fuel is_loading num_ops event s
    run_threads fuel is_loading num_ops events s'

-- `total_ops / num_threads`, of which a negative number lets no round run.
unfoldable pub share_of : ℤ → ℕ → ℕ
share_of (pos total_ops) num_threads = total_ops / num_threads
share_of (negsuc n) num_threads = 0

-- The sum of what the futures return.
unfoldable pub sum_oks : ℕ → (ℕ → Local) → ℕ
sum_oks zero locals = 0
sum_oks (suc n) locals = sum_oks n locals + (locals n).oks

-- Whether the threads below a number have no round left.
unfoldable pub all_finished : ℕ → ℕ → (ℕ → Local) → Bool
all_finished zero num_ops locals = true
all_finished (suc n) num_ops locals =
    let before = all_finished n num_ops locals in leb num_ops (locals n).i && before
