-- ===== src/Delegate/Progress.antt =====
-- The rounds that DelegateClient reports.
use ycsb_c_cloud.Base.{
  ℕ, zero, suc, ◌%◌, ◌≤◌, ◌<◌, ◌≡◌, refl, ap, sym, ◌∙◌, arith, Bool, true, false, List, [], ◌∷◌,
  ltb, ◌^◌, ◌+◌, if◌then◌else◌, ◌==◌, ◌≢◌, Bool-cases, ne→==, inl, inr,
}
use mathlib.Core.Path.{subst}
use ycsb_c_cloud.Delegate.{bump, is_due, Local, report, end_round, new_local}

-- The distance of the reports around a round.
abbrev pub stage : ℕ → ℕ
stage i =
    if ltb i 1000
    then 100
    else if ltb i 5000
    then 500
    else if ltb i 10000
    then 1000
    else if ltb i 50000
    then 5000
    else if ltb i 100000
    then 10000
    else if ltb i 500000
    then 50000
    else 100000

abbrev pub IsPoint : ℕ → Type 0
IsPoint i = i % stage i ≡ 0

-- The last round at which `next_report_` is raised without an overflow comes before this one.
abbrev pub report_limit : ℕ
report_limit = 2147400000

bump-stage : (p : ℕ) → p < report_limit → bump p ≡ p + stage p
unfolding bump
bump-stage p h = ground arith

stage-IsPoint : (p : ℕ) → IsPoint p → IsPoint (p + stage p)
stage-IsPoint p h = ground arith

stage-gap : (p x : ℕ) → IsPoint p → p < x → x < p + stage p → x % stage x ≢ 0
stage-gap p x h above below = λ e. ground arith

stage-above : (p : ℕ) → p < p + stage p
stage-above p = ground arith

stage-small : (p : ℕ) → IsPoint p → p < report_limit → p + stage p < 2 ^ 31
stage-small p point h = ground arith

-- The rounds before a number that are reported, the newest first.
abbrev pub points_below : ℕ → List ℕ
points_below zero = []
points_below (suc n) = let rest = points_below n in if n % stage n == 0 then n ∷ rest else rest

-- `next_report_` is the first round from `i` on that is reported.
pub record IsTracked (l : Local) : Type 0 where
  pub due : l.i ≤ l.next_report
  pub small : l.next_report < 2 ^ 31
  pub point : IsPoint l.next_report
  pub gap : (x : ℕ) → l.i ≤ x → x < l.next_report → x % stage x ≢ 0
  pub so_far : l.reported ≡ points_below l.i

at_point : (n : ℕ) → IsPoint n → points_below (suc n) ≡ n ∷ points_below n
at_point n h = rw (h) refl

between : (n : ℕ) → n % stage n ≢ 0 → points_below (suc n) ≡ points_below n
between n h = rw (ne→== (n % stage n) 0 h) refl

abbrev raised : Local → Local
raised l = record l { next_report = bump l.next_report; reported = l.i ∷ l.reported }

report-reached : (l : Local) → is_due l.next_report l.i ≡ true → raised l ≡ report l
unfolding report
report-reached l h = ap (λ b. if b then raised l else l) (sym h)

report-waits : (l : Local) → is_due l.next_report l.i ≡ false → l ≡ report l
unfolding report
report-waits l h = ap (λ b. if b then raised l else l) (sym h)

due-same : (p i : ℕ) → p < 2 ^ 31 → i ≤ p → is_due p i ≡ true → p ≡ i
due-same p i small above due = ground arith

early-above : (p i : ℕ) → is_due p i ≡ false → i < p
early-above p i early = ground arith

raised-IsTracked :
    (ok : Bool) (l : Local)
    → IsTracked l
    → l.i < report_limit
    → l.next_report ≡ l.i
    → IsTracked (end_round ok (raised l))
raised-IsTracked ok l h low same =
    let p = l.next_report in
    let next : bump p ≡ p + stage p = bump-stage p (omega (arith, same)) in
    record {
      due = omega (arith, stage-above p, next, same);
      small = omega (arith, stage-small p h.point (omega (arith, same)), next);
      point = subst (λ x. IsPoint x) (sym next) (stage-IsPoint p h.point);
      gap = λ x above.
          λ below. stage-gap p x h.point (omega (arith, above, same)) (omega (arith, below, next));
      so_far =
          ap (λ t. l.i ∷ t) h.so_far ∙ sym (at_point l.i (subst (λ x. IsPoint x) same h.point));
    }

waiting-IsTracked :
    (ok : Bool) (l : Local) → IsTracked l → l.i < l.next_report → IsTracked (end_round ok l)
waiting-IsTracked ok l h early = record {
  due = omega arith;
  small = h.small;
  point = h.point;
  gap = λ x above below. h.gap x (omega arith) below;
  so_far = h.so_far ∙ sym (between l.i (h.gap l.i (omega arith) early));
}

pub report-IsTracked :
    (ok : Bool) (l : Local) → IsTracked l → l.i < report_limit → IsTracked (end_round ok (report l))
report-IsTracked ok l h low = elim (Bool-cases (is_due l.next_report l.i)) [
  | inl reached ↦
      subst (λ x. IsTracked (end_round ok x)) (report-reached l reached)
        (raised-IsTracked ok l h low (due-same l.next_report l.i h.small h.due reached))
  | inr waits ↦
      subst (λ x. IsTracked (end_round ok x)) (report-waits l waits)
        (waiting-IsTracked ok l h (early-above l.next_report l.i waits))
]

pub new_local-IsTracked : IsTracked new_local
new_local-IsTracked = record {
  due = omega arith;
  small = omega arith;
  point = refl;
  gap = λ x above below. absurd (omega arith);
  so_far = refl;
}

pub report-counts : (l : Local) → ((report l).i ≡ l.i) × ((report l).oks ≡ l.oks)
report-counts l = elim (Bool-cases (is_due l.next_report l.i)) [
  | inl reached ↦ subst (λ x. (x.i ≡ l.i) × (x.oks ≡ l.oks)) (report-reached l reached) (refl, refl)
  | inr waits ↦ subst (λ x. (x.i ≡ l.i) × (x.oks ≡ l.oks)) (report-waits l waits) (refl, refl)
]
