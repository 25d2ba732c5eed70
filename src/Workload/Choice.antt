-- ===== src/Workload/Choice.antt =====
-- The loop of NextTransactionKey in core/core_workload.h, for any chooser of keys.
use ycsb_c_cloud.Base.{
  ℕ, zero, suc, ◌^◌, ◌≤◌, ◌<◌, ◌≡◌, refl, sym, ap, ◌∙◌, arith, some, Str, ltb, ltb→le, ltb→lt,
  lt→ltb, le→ltb, if◌then◌else◌, Bool-cases, inl, inr, ◌↔◌, get_elem?,
}
use mathlib.Core.Path.{subst}
use ycsb_c_cloud.Generators.Doubles.{Doubles}
use ycsb_c_cloud.Generators.Counter as Counter
use ycsb_c_cloud.Generators.Uniform.{UniformEngine}
use ycsb_c_cloud.Workload.{
  Run, returned, failed, thrown, spinning, exited, overrun, ◌>>=◌, Randoms, Chooser, next_chooser,
  CoreWorkload, build_key_name, draw_key, choose_key, next_transaction_key,
}
use ycsb_c_cloud.Workload.Keys.{load_keys, get_elem?-load_keys}

module _ {d : Doubles} {e : UniformEngine} {r : Randoms d} where
  -- The loop from a workload, that rejects so many draws and keeps the next one.
  pub data Chooses : CoreWorkload d e r → ℕ → ℕ → CoreWorkload d e r → Type 0 where
    keeps :
        (w w' : CoreWorkload d e r) (key : ℕ)
        → draw_key d e r w ≡ returned (key, w')
        → key ≤ Counter.last w'.insert_key_sequence
        → Chooses w 0 key w'
    rejects :
        (w w1 w' : CoreWorkload d e r) (n drawn key : ℕ)
        → draw_key d e r w ≡ returned (drawn, w1)
        → Counter.last w1.insert_key_sequence < drawn
        → Chooses w1 n key w'
        → Chooses w (suc n) key w'

  -- What the loop does with a draw.
  abbrev go_on : ℕ → ℕ × CoreWorkload d e r → Run (ℕ × CoreWorkload d e r)
  go_on fuel (drawn, w1) =
      let again = choose_key d e r fuel w1 in
      if ltb (Counter.last w1.insert_key_sequence) drawn then again else returned (drawn, w1)

  draw-Chooses :
      (fuel key : ℕ) (w w' : CoreWorkload d e r) (x : Run (ℕ × CoreWorkload d e r))
      → ((w1 : CoreWorkload d e r)
          → choose_key d e r fuel w1 ≡ returned (key, w')
          → (n : ℕ) × (n < fuel) × Chooses w1 n key w')
      → draw_key d e r w ≡ x
      → (x >>= go_on fuel) ≡ returned (key, w')
      → (n : ℕ) × (n < suc fuel) × Chooses w n key w'
  draw-Chooses fuel key w w' (returned (drawn, w1)) later draw h =
      elim (Bool-cases (ltb (Counter.last w1.insert_key_sequence) drawn)) [
        | inl above ↦
            let (n, below, rest) = later w1 (rw (above) at h) in
            (
              suc n,
              omega (arith, below),
              rejects w w1 w' n drawn key draw
                  (ltb→lt (Counter.last w1.insert_key_sequence) drawn above) rest,
            )
        | inr fits ↦
            let same : returned (drawn, w1) ≡ returned (key, w') = rw (fits) at h in
            let key_same : drawn ≡ key = cc in
            let w_same : w1 ≡ w' = cc in
            (
              0,
              omega arith,
              subst (λ k. Chooses w 0 k w') key_same
                  (subst (λ v. Chooses w 0 drawn v) w_same
                    (keeps w w1 drawn draw
                      (ltb→le (Counter.last w1.insert_key_sequence) drawn fits))),
            )
      ]
  draw-Chooses fuel key w w' failed later draw h = let no : ⊥ = cc in absurd no
  draw-Chooses fuel key w w' thrown later draw h = let no : ⊥ = cc in absurd no
  draw-Chooses fuel key w w' spinning later draw h = let no : ⊥ = cc in absurd no
  draw-Chooses fuel key w w' exited later draw h = let no : ⊥ = cc in absurd no
  draw-Chooses fuel key w w' overrun later draw h = let no : ⊥ = cc in absurd no

  choose_key-Chooses :
      (fuel key : ℕ) (w w' : CoreWorkload d e r)
      → choose_key d e r fuel w ≡ returned (key, w')
      → (n : ℕ) × (n < fuel) × Chooses w n key w'
  unfolding choose_key
  choose_key-Chooses zero key w w' h = let no : ⊥ = cc in absurd no
  choose_key-Chooses (suc fuel) key w w' h =
      draw-Chooses fuel key w w' (draw_key d e r w) (λ w1 h1. choose_key-Chooses fuel key w1 w' h1)
        refl h

  Chooses-choose_key :
      (fuel n key : ℕ) (w w' : CoreWorkload d e r)
      → Chooses w n key w'
      → n < fuel
      → choose_key d e r fuel w ≡ returned (key, w')
  unfolding choose_key
  Chooses-choose_key zero n key w w' c enough = absurd (omega arith)
  Chooses-choose_key (suc fuel) zero key w w' (keeps _ _ _ draw fits) enough =
      rw (draw, le→ltb (Counter.last w'.insert_key_sequence) key fits) refl
  Chooses-choose_key (suc fuel) (suc n) key w w' (rejects _ w1 _ _ drawn _ draw above rest) enough =
      rw (draw, lt→ltb (Counter.last w1.insert_key_sequence) drawn above)
        (Chooses-choose_key fuel n key w1 w' rest (omega arith))

  -- A draw changes nothing but the chooser and the random numbers.
  abbrev IsSameBut : CoreWorkload d e r → CoreWorkload d e r → Type 0
  IsSameBut w w' =
      (w'.insert_key_sequence ≡ w.insert_key_sequence) × (w'.ordered_inserts ≡ w.ordered_inserts)

  abbrev keep_draw :
      CoreWorkload d e r → ℕ × Chooser d e r × r.Source → Run (ℕ × CoreWorkload d e r)
  keep_draw w (key_num, g, s) = returned (key_num, record w { key_chooser = g; source = s })

  drawn-IsSameBut :
      (w w' : CoreWorkload d e r) (key : ℕ) (x : Run (ℕ × Chooser d e r × r.Source))
      → (x >>= keep_draw w) ≡ returned (key, w')
      → IsSameBut w w'
  drawn-IsSameBut w w' key (returned (key_num, g, s)) h =
      let after : CoreWorkload d e r = record w { key_chooser = g; source = s } in
      let same : after ≡ w' = cc in (rw (← same) refl, rw (← same) refl)
  drawn-IsSameBut w w' key failed h = let no : ⊥ = cc in absurd no
  drawn-IsSameBut w w' key thrown h = let no : ⊥ = cc in absurd no
  drawn-IsSameBut w w' key spinning h = let no : ⊥ = cc in absurd no
  drawn-IsSameBut w w' key exited h = let no : ⊥ = cc in absurd no
  drawn-IsSameBut w w' key overrun h = let no : ⊥ = cc in absurd no

  draw_key-IsSameBut :
      (w w' : CoreWorkload d e r) (key : ℕ) → draw_key d e r w ≡ returned (key, w') → IsSameBut w w'
  unfolding draw_key
  draw_key-IsSameBut w w' key h =
      drawn-IsSameBut w w' key (next_chooser d e r w.insert_key_sequence w.key_chooser w.source) h

  Chooses-IsSameBut :
      (n key : ℕ) (w w' : CoreWorkload d e r)
      → Chooses w n key w'
      → IsSameBut w w' × (key ≤ Counter.last w.insert_key_sequence)
  Chooses-IsSameBut zero key w w' (keeps _ _ _ draw fits) =
      let (counted, ordered) = draw_key-IsSameBut w w' key draw in
      ((counted, ordered), subst (λ g. key ≤ Counter.last g) counted fits)
  Chooses-IsSameBut (suc n) key w w' (rejects _ w1 _ _ drawn _ draw above rest) =
      let (counted, ordered) = draw_key-IsSameBut w w1 drawn draw in
      let ((counted', ordered'), fits) = Chooses-IsSameBut n key w1 w' rest in
      ((counted' ∙ counted, ordered' ∙ ordered), subst (λ g. key ≤ Counter.last g) counted fits)

  abbrev name_key : ℕ × CoreWorkload d e r → Run (Str × CoreWorkload d e r)
  name_key (key, w1) = returned (build_key_name w1.ordered_inserts key, w1)

  named-Chooses :
      (fuel : ℕ) (w w' : CoreWorkload d e r) (name : Str) (x : Run (ℕ × CoreWorkload d e r))
      → choose_key d e r fuel w ≡ x
      → (x >>= name_key) ≡ returned (name, w')
      → (rounds key : ℕ) × (rounds < fuel)
        × Chooses w rounds key w'
        × (name ≡ build_key_name w.ordered_inserts key)
  named-Chooses fuel w w' name (returned (key, w1)) chosen h =
      let named : build_key_name w1.ordered_inserts key ≡ name = cc in
      let same : w1 ≡ w' = cc in
      let (rounds, below, chooses) = choose_key-Chooses fuel key w w1 chosen in
      let (_, order) = (Chooses-IsSameBut rounds key w w1 chooses).0 in
      (
        rounds,
        key,
        below,
        subst (λ v. Chooses w rounds key v) same chooses,
        sym named ∙ ap (λ o. build_key_name o key) order,
      )
  named-Chooses fuel w w' name failed chosen h = let no : ⊥ = cc in absurd no
  named-Chooses fuel w w' name thrown chosen h = let no : ⊥ = cc in absurd no
  named-Chooses fuel w w' name spinning chosen h = let no : ⊥ = cc in absurd no
  named-Chooses fuel w w' name exited chosen h = let no : ⊥ = cc in absurd no
  named-Chooses fuel w w' name overrun chosen h = let no : ⊥ = cc in absurd no

  last-below :
      (n : ℕ) (w : CoreWorkload d e r)
      → w.insert_key_sequence.counter ≡ n
      → 0 < n
      → n < 2 ^ 64
      → (key : ℕ) → key ≤ Counter.last w.insert_key_sequence
      → key < n
  unfolding Counter.last
  last-below n w counted positive small key below = omega (arith, counted, below)

  -- Whatever the chooser of keys is, if 0 < n < 2 ^ 64 records are counted: with fuel f
  -- NextTransactionKey returns a key just where, among the first f draws, there is one that is not
  -- above Last. The key is that of the first such draw, and it stands at the place that was drawn among
  -- the n keys that NextSequenceKey returns for a workload from 0 on with the same order of inserts.
  pub next_transaction_key-Chooses :
      (fuel n : ℕ) (w w0 : CoreWorkload d e r)
      → w.insert_key_sequence.counter ≡ n
      → 0 < n
      → n < 2 ^ 64
      → w0.key_generator.counter ≡ 0
      → w0.ordered_inserts ≡ w.ordered_inserts
      → (name : Str) (w' : CoreWorkload d e r)
      → (next_transaction_key d e r fuel w ≡ returned (name, w')) ↔ (
          (rounds key : ℕ) × (rounds < fuel)
          × Chooses w rounds key w'
          × (name ≡ build_key_name w.ordered_inserts key)
          × (get_elem? (load_keys n w0) key ≡ some name))
  unfolding next_transaction_key
  next_transaction_key-Chooses fuel n w w0 counted positive small start order name w' = (
    λ h.
        let (rounds, key, below, chooses, named) =
          named-Chooses fuel w w' name (choose_key d e r fuel w) refl h in
        let fits =
          last-below n w counted positive small key (Chooses-IsSameBut rounds key w w' chooses).1 in
        (
          rounds,
          key,
          below,
          chooses,
          named,
          get_elem?-load_keys n key 0 w0 start fits (omega arith)
              ∙ ap some
                  (rw (order) (ap (build_key_name w.ordered_inserts) (omega arith)) ∙ sym named),
        ),
    λ (rounds, key, below, chooses, named, place).
        rw (Chooses-choose_key fuel rounds key w w' chooses below) (
          ap (λ s. returned (s, w'))
            (ap (λ o. build_key_name o key) (Chooses-IsSameBut rounds key w w' chooses).0.1
              ∙ sym named)),
  )
