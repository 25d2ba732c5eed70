-- ===== src/Delegate/Rounds.antt =====
-- The rounds of one thread of ycsbc.cc that runs DelegateClient alone.
use ycsb_c_cloud.Base.{ℕ, zero, suc, ◌+◌, ◌≤◌, ◌≡◌, refl, ap, ◌∙◌, arith, Bool, true}
use mathlib.Core.Path.{subst}
use ycsb_c_cloud.Generators.Doubles.{Doubles}
use ycsb_c_cloud.Generators.Uniform.{UniformEngine}
use ycsb_c_cloud.Workload.{returned, Randoms}
use ycsb_c_cloud.Client.{Database}
use ycsb_c_cloud.Delegate.{
  Local, new_local, report, end_round, Clock, Shared, delegate_round, delegate_loop, with_db,
  delegate_client,
}
use ycsb_c_cloud.Delegate.Progress.{
  IsTracked, report-IsTracked, new_local-IsTracked, report-counts, points_below, report_limit,
}

module _ (d : Doubles) (e : UniformEngine) (r : Randoms d) (database : Database) (fuel : ℕ)
    (is_loading : Bool) where
  -- Every round is a success and takes what the threads share from `Inv k` to `Inv (suc k)`, and a
  -- thread that begins or ends keeps it.
  pub record IsGoing (Inv : ℕ → Shared d e r database → Type 0) : Type 0 where
    pub goes :
        (num k : ℕ) (clock : Clock) (l : Local) (s : Shared d e r database)
        → Inv k s
        → (s' : Shared d e r database) × (delegate_round d e r database fuel is_loading num clock l
              s
            ≡ returned (end_round true (report l), s'))
          × Inv (suc k) s'
    pub begins :
        (k : ℕ) (s : Shared d e r database)
        → Inv k s
        → Inv k (with_db d e r database database.init_thread s)
    pub ends :
        (k : ℕ) (s : Shared d e r database)
        → Inv k s
        → Inv k (with_db d e r database database.close_thread s)

  module _ (Inv : ℕ → Shared d e r database → Type 0) (going : IsGoing Inv) where
    delegate_loop-goes :
        (num : ℕ) (clocks : ℕ → Clock) (n k : ℕ) (l : Local) (s : Shared d e r database)
        → Inv k s
        → l.oks ≡ l.i
        → (l' : Local) × (s' : Shared d e r database) × (delegate_loop d e r database fuel
              is_loading num clocks n l s
            ≡ returned (l', s'))
          × (IsTracked l → l.i + n ≤ report_limit → IsTracked l')
          × (l'.i ≡ l.i + n)
          × (l'.oks ≡ l.i + n)
          × (k' : ℕ) × (k' ≡ k + n)
          × Inv k' s'
    unfolding delegate_loop
    delegate_loop-goes num clocks zero k l s inv same =
        (l, s, refl, λ tracked low. tracked, omega arith, omega arith, k, omega arith, inv)
    delegate_loop-goes num clocks (suc n) k l s inv same =
        let (counted, succeeded) = report-counts l in
        let (s1, round, inv1) = going.goes num k (clocks l.i) l s inv in
        let (l', s', rest, tracked', count, oks, k', at, inv') =
          delegate_loop-goes num clocks n (suc k) (end_round true (report l)) s1 inv1
            (omega (arith, counted, succeeded, same)) in
        (
          l',
          s',
          rw (round) rest,
          λ tracked low.
              tracked' (report-IsTracked true l tracked (omega (arith, low)))
                (omega (arith, counted, low)),
          omega (arith, count),
          omega (arith, oks),
          k',
          omega (arith, at),
          inv',
        )

    -- A call of DelegateClient runs all its rounds.
    pub delegate_client-goes :
        (num : ℕ) (clocks : ℕ → Clock) (n k : ℕ) (s : Shared d e r database)
        → Inv k s
        → (l : Local) × (s' : Shared d e r database) × (delegate_client d e r database fuel
              is_loading num clocks n s
            ≡ returned (l, s'))
          × (l.oks ≡ n)
          × (n ≤ report_limit → l.reported ≡ points_below n)
          × Inv (k + n) s'
    unfolding delegate_client
    delegate_client-goes num clocks n k s inv =
        let (l, s', run, tracked, count, oks, k', at, inv') =
          delegate_loop-goes num clocks n k new_local
            (with_db d e r database database.init_thread s) (going.begins k s inv) refl in
        let all : l.i ≡ n = omega (arith, count) in
        (
          l,
          with_db d e r database database.close_thread s',
          rw (run) refl,
          omega (arith, oks),
          λ low. (tracked new_local-IsTracked (omega (arith, low))).so_far ∙ ap points_below all,
          subst (λ j. Inv j (with_db d e r database database.close_thread s')) at
              (going.ends k' s' inv'),
        )
