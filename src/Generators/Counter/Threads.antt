-- ===== src/Generators/Counter/Threads.antt =====
-- Threads that share one CounterGenerator. `fetch_add` is atomic, so a run is an order of calls.
use ycsb_c_cloud.Base.{
  ℕ, zero, suc, ◌+◌, ◌^◌, ◌≤◌, ◌<◌, ◌≡◌, arith, List, [], ◌∷◌, length, get_elem?, ◌⊎◌, ◌↔◌, inl,
  inr, some,
}
use native.Mathlib.Decide.{dec_lt}
use ycsb_c_cloud.Generators.Counter.{CounterGenerator, next, last}

-- Thread `t` draws `v`.
pub record Draw : Type 0 where
  pub thread : ℕ
  pub value : ℕ

-- The counter, and the draws made so far, the newest first.
pub record System : Type 0 where
  pub generator : CounterGenerator
  pub draws : List Draw

pub data Step : System → System → Type 0 where
  draw :
      (s : System) (t : ℕ)
      → Step s (record {
        generator = (next s.generator).1;
        draws = record { thread = t; value = (next s.generator).0 } ∷ s.draws;
      })

pub data Reach (s : System) : System → Type 0 where
  here : Reach s s
  later : {t u : System} → Reach s t → Step t u → Reach s u

abbrev pub start_at : ℕ → System
start_at k = record { generator = record { counter = k }; draws = [] }

-- The draws are the numbers from the start up to the counter, each once, the newest first.
abbrev Consecutive : ℕ → List Draw → Type 0
Consecutive k [] = Unit
Consecutive k (d ∷ ds) = (d.value ≡ k + length ds) × Consecutive k ds

Reach-Consecutive :
    {k : ℕ} {s : System}
    → Reach (start_at k) s
    → k + length s.draws < 2 ^ 64
    → Consecutive k s.draws × (s.generator.counter ≡ k + length s.draws)
unfolding next
Reach-Consecutive here small = (tt, omega arith)
Reach-Consecutive {k} (later r (draw t i)) small =
    let (before, at) = Reach-Consecutive r (omega arith) in ((at, before), omega (arith, at))

abbrev pub Drawn : ℕ → List Draw → Type 0
Drawn v [] = ⊥
Drawn v (d ∷ ds) = (d.value ≡ v) ⊎ Drawn v ds

Drawn-bounds :
    (k v : ℕ) (ds : List Draw) → Consecutive k ds → Drawn v ds → (k ≤ v) × (v < k + length ds)
Drawn-bounds k v [] c d = absurd d
Drawn-bounds k v (d ∷ ds) (e, c) (inl h) = omega arith
Drawn-bounds k v (d ∷ ds) (e, c) (inr h) = omega (arith, Drawn-bounds k v ds c h)

bounds-Drawn :
    (k v : ℕ) (ds : List Draw) → Consecutive k ds → k ≤ v → v < k + length ds → Drawn v ds
bounds-Drawn k v [] c lo hi = absurd (omega arith)
bounds-Drawn k v (d ∷ ds) (e, c) lo hi = elim (dec_lt v (k + length ds)) [
  | yes below ↦ inr (bounds-Drawn k v ds c lo below)
  | no top ↦ inl (omega arith)
]

-- The draw at place `i` from the newest is determined by its place.
get_elem?-Consecutive :
    (k i : ℕ) (ds : List Draw) (d : Draw)
    → Consecutive k ds
    → get_elem? ds i ≡ some d
    → d.value + suc i ≡ k + length ds
get_elem?-Consecutive k i [] d c h = cc
get_elem?-Consecutive k zero (d' ∷ ds) d (e, c) h = ground arith
get_elem?-Consecutive k (suc i) (d' ∷ ds) d (e, c) h =
    omega (arith, get_elem?-Consecutive k i ds d c h)

-- However the calls of `Next` by any threads interleave, and as long as the counter stays below
-- 2 ^ 64, the values drawn are exactly those from the start up to the number of draws, no two
-- draws have the same value, and `Last` is the newest draw.
pub draws_exact :
    {k : ℕ} {s : System}
    → Reach (start_at k) s
    → k + length s.draws < 2 ^ 64
    → ((v : ℕ) → Drawn v s.draws ↔ ((k ≤ v) × (v < k + length s.draws)))
      × ((i j : ℕ) (d d' : Draw)
          → get_elem? s.draws i ≡ some d
          → get_elem? s.draws j ≡ some d'
          → d.value ≡ d'.value
          → i ≡ j)
      × ((d : Draw) → get_elem? s.draws 0 ≡ some d → last s.generator ≡ d.value)
unfolding last
draws_exact {k} {s} r small =
    let (c, at) = Reach-Consecutive r small in
    (
      λ v. (Drawn-bounds k v s.draws c, λ h. bounds-Drawn k v s.draws c h.0 h.1),
      λ i j d d' hi hj same. omega (
        arith,
        get_elem?-Consecutive k i s.draws d c hi,
        get_elem?-Consecutive k j s.draws d' c hj,
      ),
      λ d h. omega (arith, get_elem?-Consecutive k 0 s.draws d c h, at),
    )
