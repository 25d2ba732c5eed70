-- ===== src/Workload/Keys.antt =====
-- NextSequenceKey and NextTransactionKey of core/core_workload.h under the uniform distribution.
use ycsb_c_cloud.Base.{
  ℕ, zero, suc, ◌+◌, ◌-◌, ◌^◌, ◌≤◌, ◌<◌, ◌≡◌, ◌≢◌, refl, sym, ap, ◌∙◌, arith, true, false, Option,
  none, some, Str, List, [], ◌∷◌, ltb, le→ltb, All, length, drop, get_elem?,
}
use ycsb_c_cloud.Generators.Doubles.{Doubles}
use ycsb_c_cloud.Generators.Counter as Counter
use ycsb_c_cloud.Generators.Counter.{CounterGenerator}
use ycsb_c_cloud.Generators.Uniform as Uniform
use ycsb_c_cloud.Generators.Uniform.{UniformEngine, UniformGenerator}
use ycsb_c_cloud.Workload.{
  Run, returned, ◌>>=◌, Randoms, Chooser, uniform, next_chooser, CoreWorkload, build_key_name,
  next_sequence_key, draw_key, choose_key, next_transaction_key,
}
use ycsb_c_cloud.Numbers.Decimal.{to_string-injective}

abbrev name_of : Option Str → Str
name_of none = []
name_of (some name) = name

build_key_name-injective :
    (m n : ℕ)
    → m < 2 ^ 64
    → n < 2 ^ 64
    → some (build_key_name true m) ≡ some (build_key_name true n)
    → m ≡ n
unfolding build_key_name
build_key_name-injective m n hm hn same =
    to_string-injective m n hm hn (ap (λ name. drop 4 (name_of name)) same)

module _ {d : Doubles} {e : UniformEngine} {r : Randoms d} where
  -- The keys of as many calls of NextSequenceKey.
  abbrev pub load_keys : ℕ → CoreWorkload d e r → List Str
  load_keys zero w = []
  load_keys (suc n) w = let (key, w') = next_sequence_key d e r w in key ∷ load_keys n w'

  -- The keys of as many calls of NextTransactionKey.
  abbrev pub ask_keys : ℕ → ℕ → CoreWorkload d e r → Run (List Str × CoreWorkload d e r)
  ask_keys zero fuel w = returned ([], w)
  ask_keys (suc n) fuel w = do
    (key, w') ← next_transaction_key d e r fuel w
    (keys, w'') ← ask_keys n fuel w'
    returned (key ∷ keys, w'')

  -- Keys are drawn uniformly from the first `n` numbers, and `n` records are counted.
  pub record IsUniform (w : CoreWorkload d e r) (n : ℕ) : Type 0 where
    pub generator : UniformGenerator e
    pub chooser : w.key_chooser ≡ uniform generator
    pub range : (generator.min ≡ 0) × (generator.max ≡ n - 1)
    pub counted : w.insert_key_sequence.counter ≡ n

  abbrev pub after_key : CoreWorkload d e r → Chooser d e r → CoreWorkload d e r
  after_key w g = record w { key_chooser = g }

  pub get_elem?-load_keys :
      (n k start : ℕ) (w : CoreWorkload d e r)
      → w.key_generator.counter ≡ start
      → k < n
      → start + n ≤ 2 ^ 64
      → get_elem? (load_keys n w) k ≡ some (build_key_name w.ordered_inserts (start + k))
  unfolding next_sequence_key Counter.next
  get_elem?-load_keys zero k start w h l b = absurd (omega arith)
  get_elem?-load_keys (suc n) zero start w h l b =
      ap (λ k. some (build_key_name w.ordered_inserts k)) (omega (arith, h))
  get_elem?-load_keys (suc n) (suc k) start w h l b =
      get_elem?-load_keys n k (start + 1) (next_sequence_key d e r w).1 (omega (arith, h))
        (omega arith) (omega arith)
      ∙ ap (λ k. some (build_key_name w.ordered_inserts k)) (omega arith)

  draw_key-IsUniform :
      (n : ℕ) (w : CoreWorkload d e r)
      → IsUniform w n
      → 0 < n
      → (k : ℕ) × (g : Chooser d e r) × (draw_key d e r w ≡ returned (k, after_key w g))
        × (k < n)
        × IsUniform (after_key w g) n
  unfolding draw_key next_chooser Uniform.next
  draw_key-IsUniform n w h positive = (
    (e.draw h.generator.generator h.generator.min h.generator.max).0,
    uniform (Uniform.next e h.generator).1,
    rw (h.chooser) refl,
    omega (
      arith,
      h.range.0,
      h.range.1,
      (e.draw_range h.generator.generator h.generator.min h.generator.max
          (omega (arith, h.range.0))).1,
    ),
    record {
      generator = (Uniform.next e h.generator).1;
      chooser = refl;
      range = h.range;
      counted = h.counted;
    },
  )

  last-above :
      (k n : ℕ) (w : CoreWorkload d e r)
      → k < n
      → n < 2 ^ 64
      → IsUniform w n
      → ltb (Counter.last w.insert_key_sequence) k ≡ false
  unfolding Counter.last
  last-above k n w below small h =
      le→ltb (Counter.last w.insert_key_sequence) k (omega (arith, h.counted))

  pub choose_key-IsUniform :
      (fuel n : ℕ) (w : CoreWorkload d e r)
      → IsUniform w n
      → 0 < n
      → n < 2 ^ 64
      → (k : ℕ) × (g : Chooser d e r) × (choose_key d e r (suc fuel) w
          ≡ returned (k, after_key w g))
        × (k < n)
        × IsUniform (after_key w g) n
  unfolding choose_key
  choose_key-IsUniform fuel n w h positive small =
      let (k, g, drawn, below, h') = draw_key-IsUniform n w h positive in
      (k, g, rw (drawn, last-above k n (after_key w g) below small h') refl, below, h')

  -- The keys asked for stand among the keys that were loaded from 0 on, in the same order of inserts.
  pub ask_keys-loaded :
      (k fuel n : ℕ) (w w0 : CoreWorkload d e r)
      → IsUniform w n
      → 0 < n
      → n < 2 ^ 64
      → w0.key_generator.counter ≡ 0
      → w0.ordered_inserts ≡ w.ordered_inserts
      → (keys : List Str) × (w' : CoreWorkload d e r) × (ask_keys k (suc fuel) w
          ≡ returned (keys, w'))
        × (length keys ≡ k)
        × All (λ key. (i : ℕ) × (get_elem? (load_keys n w0) i ≡ some key)) keys
  unfolding next_transaction_key
  ask_keys-loaded zero fuel n w w0 h positive small start same = ([], w, refl, refl, _)
  ask_keys-loaded (suc k) fuel n w w0 h positive small start same =
      let (num, g, chosen, below, h') = choose_key-IsUniform fuel n w h positive small in
      let (keys, w'', asked, count, all) =
        ask_keys-loaded k fuel n (after_key w g) w0 h' positive small start same in
      (
        build_key_name w.ordered_inserts num ∷ keys,
        w'',
        rw (chosen, asked) refl,
        ap suc count,
        (
          (
            num,
            get_elem?-load_keys n num 0 w0 start below (omega arith)
                ∙ ap some (rw (same) (ap (build_key_name w.ordered_inserts) (omega arith))),
          ),
          all,
        ),
      )

  -- Where inserts are ordered and the counter stays below 2 ^ 64, the keys that were loaded at two
  -- different places differ.
  pub load_keys-distinct :
      (n start i j : ℕ) (w : CoreWorkload d e r)
      → w.key_generator.counter ≡ start
      → w.ordered_inserts ≡ true
      → start + n ≤ 2 ^ 64
      → i < j
      → j < n
      → get_elem? (load_keys n w) i ≢ get_elem? (load_keys n w) j
  load_keys-distinct n start i j w h ordered bound hi hj same =
      let numbers : start + i ≡ start + j =
        build_key_name-injective (start + i) (start + j) (omega arith) (omega arith) names in
      absurd (omega arith)
    where
      name_at :
          (k : ℕ) → k < n → get_elem? (load_keys n w) k ≡ some (build_key_name true (start + k))
      name_at k hk =
          get_elem?-load_keys n k start w h hk bound
          ∙ ap (λ o. some (build_key_name o (start + k))) ordered

      names : some (build_key_name true (start + i)) ≡ some (build_key_name true (start + j))
      names = sym (name_at i (omega arith)) ∙ same ∙ name_at j hj
