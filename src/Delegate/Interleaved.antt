-- ===== src/Delegate/Interleaved.antt =====
-- The threads that main starts, in any order of their rounds.
use ycsb_c_cloud.Base.{
  ℕ, Bool, suc, ◌+◌, ◌-◌, ◌/◌, ◌%◌, ◌<◌, ◌≤◌, ◌≡◌, refl, ap, arith, true, false, List, [], ◌∷◌, All,
  ◌==◌, ltb, if◌then◌else◌, Bool-cases, ltb→lt, ltb→le, ==→eq, inl, inr,
}
use mathlib.Core.Path.{subst}
use native.Mathlib.Nat.{div-add-mod}
use ycsb_c_cloud.Numbers.{pos}
use ycsb_c_cloud.Generators.Doubles.{Doubles}
use ycsb_c_cloud.Generators.Uniform.{UniformEngine}
use ycsb_c_cloud.Workload.{returned, Randoms}
use ycsb_c_cloud.Client.{Database}
use ycsb_c_cloud.Delegate.{
  Local, new_local, report, end_round, Clock, Shared, System, set_local, step_thread, Event, begins,
  ends, rounds, happens, run_threads, with_db, share_of, sum_oks, all_finished,
}
use ycsb_c_cloud.Delegate.Progress.{report-counts}
use ycsb_c_cloud.Delegate.Sums.{
  sum_rounds, sum_rounds-set, sums-done, sum_rounds-new_local, all_finished-done,
}
use ycsb_c_cloud.Delegate.Rounds.{IsGoing}

module _ {d : Doubles} {e : UniformEngine} {r : Randoms d} {database : Database} where
  -- How often a thread comes up for a round.
  abbrev pub turns : ℕ → List (Event d e r database) → ℕ
  turns t [] = 0
  turns t (begins u ∷ events) = turns t events
  turns t (ends u ∷ events) = turns t events
  turns t (rounds u clock ∷ events) = let rest = turns t events in if t == u then suc rest else rest

  -- Every event is of one of the first `n` threads.
  abbrev pub IsOf : ℕ → Event d e r database → Type 0
  IsOf n (begins u) = u < n
  IsOf n (ends u) = u < n
  IsOf n (rounds u clock) = u < n

module _ (d : Doubles) (e : UniformEngine) (r : Randoms d) (database : Database) (fuel : ℕ)
    (is_loading : Bool) (Inv : ℕ → Shared d e r database → Type 0)
    (going : IsGoing d e r database fuel is_loading Inv) (k n num_ops : ℕ) where
  -- Every round of a thread has been a success, no thread has gone too far, and what the threads share
  -- has moved once for each round.
  record IsSteady (s : System d e r database) : Type 0 where
    counted : (t : ℕ) → (s.locals t).oks ≡ (s.locals t).i
    bounded : (t : ℕ) → (s.locals t).i ≤ num_ops
    moved : Inv (k + sum_rounds n s.locals) s.shared

  -- The system behind a round of thread `t` in which the shared state became `shared`.
  abbrev after_round : ℕ → System d e r database → Shared d e r database → System d e r database
  after_round t s shared = record {
    locals = set_local d e r database s.locals t (end_round true (report (s.locals t)));
    shared = shared;
  }

  set_local-at :
      (P : Local → Type 0) (locals : ℕ → Local) (t : ℕ) (l : Local)
      → P l
      → ((u : ℕ) → P (locals u))
      → (u : ℕ) → P (set_local d e r database locals t l u)
  set_local-at P locals t l new old u = elim (Bool-cases (u == t)) [
    | inl same ↦ rw (same) new
    | inr other ↦ rw (other) (old u)
  ]

  after_round-IsSteady :
      (t : ℕ) (s : System d e r database) (shared : Shared d e r database)
      → t < n
      → (s.locals t).i < num_ops
      → IsSteady s
      → Inv (suc (k + sum_rounds n s.locals)) shared
      → IsSteady (after_round t s shared)
  after_round-IsSteady t s shared below left h inv =
      let (same_i, same_oks) = report-counts (s.locals t) in
      let l = end_round true (report (s.locals t)) in
      record {
        counted =
            set_local-at (λ x. x.oks ≡ x.i) s.locals t l
              (omega (arith, same_i, same_oks, h.counted t)) h.counted;
        bounded = set_local-at (λ x. x.i ≤ num_ops) s.locals t l (omega (arith, same_i)) h.bounded;
        moved =
            subst (λ j. Inv j shared)
              (omega (arith, sum_rounds-set n t s.locals l below (ap suc same_i))) inv;
      }

  -- What a thread still needs of the events.
  abbrev IsServed : ℕ → System d e r database → List (Event d e r database) → Type 0
  IsServed u s events = num_ops ≤ (s.locals u).i + turns u events

  turns-own :
      (t u : ℕ) (clock : Clock) (events : List (Event d e r database))
      → (u == t) ≡ true
      → turns u (rounds t clock ∷ events) ≡ suc (turns u events)
  turns-own t u clock events same = rw (same) refl

  turns-other :
      (t u : ℕ) (clock : Clock) (events : List (Event d e r database))
      → (u == t) ≡ false
      → turns u (rounds t clock ∷ events) ≡ turns u events
  turns-other t u clock events other = rw (other) refl

  after_round-IsServed :
      (t u : ℕ) (clock : Clock) (s : System d e r database) (shared : Shared d e r database)
      (events : List (Event d e r database))
      → IsServed u s (rounds t clock ∷ events)
      → IsServed u (after_round t s shared) events
  after_round-IsServed t u clock s shared events h = elim (Bool-cases (u == t)) [
    | inl same ↦ rw (same) (
        omega (
          arith,
          h,
          turns-own t u clock events same,
          (report-counts (s.locals t)).0,
          ap (λ v. (s.locals v).i) (==→eq u t same),
        ))
    | inr other ↦ rw (other) (omega (arith, h, turns-other t u clock events other))
  ]

  idle-IsServed :
      (t u : ℕ) (clock : Clock) (s : System d e r database) (events : List (Event d e r database))
      → num_ops ≤ (s.locals t).i
      → IsServed u s (rounds t clock ∷ events)
      → IsServed u s events
  idle-IsServed t u clock s events full h = elim (Bool-cases (u == t)) [
    | inl same ↦ omega (arith, full, ap (λ v. (s.locals v).i) (==→eq u t same))
    | inr other ↦ omega (arith, h, turns-other t u clock events other)
  ]

  -- An event returns and leaves the system steady, and every thread served.
  abbrev Goes : System d e r database → Event d e r database → Type 0
  Goes s event =
      (s' : System d e r database) × (happens d e r database fuel is_loading num_ops event s
        ≡ returned s')
      × IsSteady s'
      × ((u : ℕ) (events : List (Event d e r database))
          → IsServed u s (event ∷ events)
          → IsServed u s' events)

  step_thread-Goes :
      (t : ℕ) (clock : Clock) (s : System d e r database)
      → t < n
      → IsSteady s
      → Goes s (rounds t clock)
  unfolding happens step_thread
  step_thread-Goes t clock s below h = elim (Bool-cases (ltb (s.locals t).i num_ops)) [
    | inl left ↦
        let (shared, round, inv) =
          going.goes t (k + sum_rounds n s.locals) clock (s.locals t) s.shared h.moved in
        (
          after_round t s shared,
          rw (left, round) refl,
          after_round-IsSteady t s shared below (ltb→lt _ _ left) h inv,
          λ u events served. after_round-IsServed t u clock s shared events served,
        )
    | inr full ↦ (
      s,
      rw (full) refl,
      h,
      λ u events served. idle-IsServed t u clock s events (ltb→le _ _ full) served,
    )
  ]

  happens-Goes :
      (event : Event d e r database) (s : System d e r database)
      → IsOf n event
      → IsSteady s
      → Goes s event
  unfolding happens
  happens-Goes (begins t) s below h = (
    record s { shared = with_db d e r database database.init_thread s.shared },
    refl,
    record {
      counted = h.counted;
      bounded = h.bounded;
      moved = going.begins (k + sum_rounds n s.locals) s.shared h.moved;
    },
    λ u events served. served,
  )
  happens-Goes (ends t) s below h = (
    record s { shared = with_db d e r database database.close_thread s.shared },
    refl,
    record {
      counted = h.counted;
      bounded = h.bounded;
      moved = going.ends (k + sum_rounds n s.locals) s.shared h.moved;
    },
    λ u events served. served,
  )
  happens-Goes (rounds t clock) s below h = step_thread-Goes t clock s below h

  run_threads-Goes :
      (events : List (Event d e r database)) (s : System d e r database)
      → All (IsOf n) events
      → IsSteady s
      → ((t : ℕ) → t < n → IsServed t s events)
      → (s' : System d e r database) × (run_threads d e r database fuel is_loading num_ops events s
          ≡ returned s')
        × IsSteady s'
        × ((t : ℕ) → t < n → (s'.locals t).i ≡ num_ops)
  unfolding run_threads
  run_threads-Goes [] s of h served =
      (s, refl, h, λ t below. omega (arith, served t below, h.bounded t))
  run_threads-Goes (event ∷ events) s (of, ofs) h served =
      let (s1, this, h1, kept) = happens-Goes event s of h in
      let (s', rest, h', full) =
        run_threads-Goes events s1 ofs h1 (λ t below. kept t events (served t below)) in
      (s', rw (this) rest, h', full)

-- However the steps of the threads interleave, if each thread comes up for its share of rounds at
-- least, all threads finish.
pub run_threads-goes :
    (d : Doubles) (e : UniformEngine) (r : Randoms d) (database : Database) (fuel : ℕ)
    (is_loading : Bool) (Inv : ℕ → Shared d e r database → Type 0)
    (going : IsGoing d e r database fuel is_loading Inv) (k n total : ℕ)
    (events : List (Event d e r database)) (shared : Shared d e r database)
    → Inv k shared
    → All (IsOf n) events
    → ((t : ℕ) → t < n → share_of (pos total) n ≤ turns t events)
    → (s : System d e r database) × (run_threads d e r database fuel is_loading
          (share_of (pos total) n)
          events
          (record { locals = λ t. new_local; shared = shared })
        ≡ returned s)
      × (all_finished n (share_of (pos total) n) s.locals ≡ true)
      × (sum_oks n s.locals ≡ total - total % n)
      × Inv (k + (total - total % n)) s.shared
unfolding share_of
run_threads-goes d e r database fuel is_loading Inv going k n total events shared inv of fair =
    let (s, run, steady, full) =
      run_threads-Goes d e r database fuel is_loading Inv going k n (total / n) events
        (record { locals = λ t. new_local; shared = shared }) of
        (record {
          counted = λ t. refl;
          bounded = λ t. omega arith;
          moved = subst (λ j. Inv j shared) (omega (arith, sum_rounds-new_local n)) inv;
        })
        (λ t below. omega (arith, fair t below)) in
    let (oks, is) = sums-done n (total / n) s.locals steady.counted full in
    let quotient = div-add-mod total n in
    (
      s,
      run,
      all_finished-done n (total / n) s.locals full,
      omega (arith, oks, quotient),
      subst (λ j. Inv j s.shared) (omega (arith, is, quotient)) steady.moved,
    )
