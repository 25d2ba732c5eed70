-- ===== src/Delegate/Sums.antt =====
-- Sums over the threads of what they have counted.
use ycsb_c_cloud.Base.{
  ℕ, zero, suc, ◌+◌, ◌*◌, ◌<◌, ◌≤◌, ◌≡◌, refl, ap, arith, ◌==◌, if◌then◌else◌, Bool-cases, true,
  le→leb, ne→==, ==→eq, ==→ne, inl, inr,
}
use native.Mathlib.Nat.{suc-mul}
use ycsb_c_cloud.Delegate.{Local, new_local, sum_oks, all_finished}

-- The sum of the loop counters of the first threads.
abbrev pub sum_rounds : ℕ → (ℕ → Local) → ℕ
sum_rounds zero locals = 0
sum_rounds (suc n) locals = sum_rounds n locals + (locals n).i

sum_rounds-other :
    (n t : ℕ) (locals : ℕ → Local) (l : Local)
    → n ≤ t
    → sum_rounds n (λ u. if u == t then l else locals u) ≡ sum_rounds n locals
sum_rounds-other zero t locals l h = refl
sum_rounds-other (suc n) t locals l h =
    rw (ne→== n t (λ e. omega arith))
      (ap (λ m. m + (locals n).i) (sum_rounds-other n t locals l (omega arith)))

pub sum_rounds-set :
    (n t : ℕ) (locals : ℕ → Local) (l : Local)
    → t < n
    → l.i ≡ suc (locals t).i
    → sum_rounds n (λ u. if u == t then l else locals u) ≡ suc (sum_rounds n locals)
sum_rounds-set zero t locals l h next = absurd (omega arith)
sum_rounds-set (suc n) t locals l h next = elim (Bool-cases (n == t)) [
  | inl same ↦
      rw (same, sum_rounds-other n t locals l (omega (arith, ==→eq n t same)))
        (omega (arith, next, ap (λ u. (locals u).i) (==→eq n t same)))
  | inr other ↦
      rw (other, sum_rounds-set n t locals l (omega (arith, ==→ne n t other)) next) (omega arith)
]

pub sums-done :
    (n m : ℕ) (locals : ℕ → Local)
    → ((t : ℕ) → (locals t).oks ≡ (locals t).i)
    → ((t : ℕ) → t < n → (locals t).i ≡ m)
    → (sum_oks n locals ≡ n * m) × (sum_rounds n locals ≡ n * m)
unfolding sum_oks
sums-done zero m locals counted all = (omega arith, omega arith)
sums-done (suc n) m locals counted all =
    let (oks, is) = sums-done n m locals counted (λ t below. all t (omega arith)) in
    rw (suc-mul n m)
      (omega (arith, oks, counted n, all n (omega arith)), omega (arith, is, all n (omega arith)))

pub sum_rounds-new_local : (n : ℕ) → sum_rounds n (λ t. new_local) ≡ 0
sum_rounds-new_local zero = refl
sum_rounds-new_local (suc n) = omega (arith, sum_rounds-new_local n)

pub all_finished-done :
    (n m : ℕ) (locals : ℕ → Local)
    → ((t : ℕ) → t < n → (locals t).i ≡ m)
    → all_finished n m locals ≡ true
unfolding all_finished
all_finished-done zero m locals all = refl
all_finished-done (suc n) m locals all =
    rw
      (
        le→leb m (locals n).i (omega (arith, all n (omega arith))),
        all_finished-done n m locals (λ t below. all t (omega arith)),
      )
      refl
