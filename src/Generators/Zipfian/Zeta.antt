-- ===== src/Generators/Zipfian/Zeta.antt =====
-- The zeta constant of core/zipfian_generator.h, in steps and at once.
use ycsb_c_cloud.Base.{
  ℕ, zero, suc, ◌+◌, ◌-◌, ◌%◌, ◌^◌, ◌≤◌, ◌≡◌, refl, sym, ap, ◌∙◌, arith, none, some, ltb, true,
  false, ◌⊎◌, Bool-cases, Option-cases, inl, inr, ltb→le,
}
use native.Mathlib.Nat.{add-zero, zero-add, suc-add, sub-zero}
use mathlib.Core.Bool.{false≢true}
use ycsb_c_cloud.Generators.Doubles.{Doubles}
use ycsb_c_cloud.Generators.Zipfian.{
  ZipfianGenerator, zeta_loop, zeta, raise_zeta, set_eta, before_zeta, last, refresh, draw, next_of,
  next, new_zipfian, in_range,
}

module _ (d : Doubles) where
  open d use {Double, of_ℕ}

  zeta_loop-add :
      (m n i j : ℕ) (theta z : Double)
      → j ≡ i + m
      → zeta_loop d n j theta (zeta_loop d m i theta z) ≡ zeta_loop d (m + n) i theta z
  unfolding zeta_loop
  zeta_loop-add zero n i j theta z e = rw (e, add-zero i, zero-add n)
  zeta_loop-add (suc m) n i j theta z e =
      rw (suc-add m n) (zeta_loop-add m n (i + 1) j theta _ (omega arith))

  zeta_from_zero : (n : ℕ) (theta z : Double) → zeta d 0 n theta z ≡ zeta_loop d n 1 theta z
  unfolding zeta
  zeta_from_zero n theta z = ap (λ k. zeta_loop d k 1 theta z) (sub-zero n)

  -- The sum up to `last_num`, continued to `cur_num`, is the sum up to `cur_num`, addition by
  -- addition, so with no rounding of its own.
  pub zeta-zeta :
      (last_num cur_num : ℕ) (theta z : Double)
      → last_num ≤ cur_num
      → zeta d last_num cur_num theta (zeta d 0 last_num theta z) ≡ zeta d 0 cur_num theta z
  zeta-zeta last_num cur_num theta z h =
      rw (zeta_from_zero last_num theta z, zeta_from_zero cur_num theta z)
        (unfold zeta in
          zeta_loop-add last_num (cur_num - last_num) 1 (last_num + 1) theta z (omega arith)
          ∙ ap (λ n. zeta_loop d n 1 theta z) whole)
    where
      whole : last_num + (cur_num - last_num) ≡ cur_num
      whole = omega arith

  -- The zeta constant of a generator is the sum up to `n_for_zeta_`, computed from nothing.
  pub record IsExact (g : ZipfianGenerator d) : Type 0 where
    pub zeta_n : g.zeta_n ≡ zeta d 0 g.n_for_zeta g.theta (of_ℕ 0)

  abbrev raised : ZipfianGenerator d → ℕ → ZipfianGenerator d
  raised g num = record g { zeta_n = zeta d g.n_for_zeta num g.theta g.zeta_n; n_for_zeta = num }

  raise_zeta-eq :
      (g : ZipfianGenerator d) (num : ℕ)
      → g.n_for_zeta ≤ num
      → raise_zeta d g num ≡ some (raised g num)
  unfolding raise_zeta
  raise_zeta-eq g num h = ground arith

  raised-IsExact :
      (g : ZipfianGenerator d) (num : ℕ) → g.n_for_zeta ≤ num → IsExact g → IsExact (raised g num)
  raised-IsExact g num h exact = record {
    zeta_n =
        ap (zeta d g.n_for_zeta num g.theta) exact.zeta_n
        ∙ zeta-zeta g.n_for_zeta num g.theta (of_ℕ 0) h;
  }

  -- The generator that Next draws from: no assertion of RaiseZeta can fail there.
  refresh_cases :
      (g : ZipfianGenerator d) (num : ℕ)
      → IsExact g
      → (g' : ZipfianGenerator d) × (refresh d g num ≡ some g')
        × IsExact g'
        × (num ≤ g'.n_for_zeta)
        × (g'.num_items ≡ g.num_items)
  unfolding refresh
  refresh_cases g num exact = elim (Bool-cases (ltb g.n_for_zeta num)) [
    | inr enough ↦ (g, rw enough, exact, ltb→le _ _ enough, refl)
    | inl more ↦ (
      set_eta d (raised g num),
      rw (more, raise_zeta-eq g num (ground arith)),
      record { zeta_n = (raised-IsExact g num (ground arith) exact).zeta_n },
      omega arith,
      refl,
    )
  ]

  -- `Next(num)` of a generator whose zeta constant is exact fails an assertion just when `num` is
  -- not in [2, kMaxNumItems); otherwise it returns a value that `Last` then returns too, and leaves
  -- a generator whose zeta constant is exact again and counts `num` items at least.
  pub next_of-IsExact :
      (g : ZipfianGenerator d) (num : ℕ) (u : Double)
      → IsExact g
      → ((in_range num ≡ false) × (next_of d g num u ≡ none))
        ⊎ ((in_range num ≡ true)
            × (v : ℕ) × (g' : ZipfianGenerator d) × (next_of d g num u ≡ some (v, g'))
            × (last d g' ≡ v)
            × IsExact g'
            × (num ≤ g'.n_for_zeta))
  unfolding next_of last
  next_of-IsExact g num u exact = elim (Bool-cases (in_range num)) [
    | inr out ↦ inl (out, rw (out, next_of))
    | inl fits ↦
        let (g', ok, exact', enough, same) = refresh_cases g num exact in
        inr (
          fits,
          draw d g' num u,
          record g' { last_value = draw d g' num u },
          rw (fits, next_of, ok),
          refl,
          record { zeta_n = exact'.zeta_n },
          enough,
        )
  ]

  pub next_of-last :
      (g g' : ZipfianGenerator d) (num v : ℕ) (u : Double)
      → next_of d g num u ≡ some (v, g')
      → last d g' ≡ v
  unfolding next_of last
  next_of-last g g' num v u h = elim (Bool-cases (in_range num)) [
    | inr out ↦ let gone : none ≡ some (v, g') = rw (out, next_of) at h in cc
    | inl fits ↦ elim (Option-cases (refresh d g num)) [
      | inl no_ ↦ let gone : none ≡ some (v, g') = rw (fits, next_of, no_) at h in cc
      | inr (r, ok) ↦
          let same : some (draw d r num u, record r { last_value = draw d r num u })
              ≡ some (v, g') =
            rw (fits, next_of, ok) at h in
          let e_v : draw d r num u ≡ v = cc in
          let e_g : record r { last_value = draw d r num u } ≡ g' = cc in rw (← e_g) e_v
    ]
  ]

  -- The constructor fails an assertion just when the number of items, `max - min + 1` on 64 bits,
  -- is not in [2, kMaxNumItems); otherwise it builds a generator whose zeta constant is exact.
  pub new_zipfian-IsExact :
      (min max : ℕ) (theta u : Double)
      → ((in_range ((max + 2 ^ 64 - min + 1) % 2 ^ 64) ≡ false)
          × (new_zipfian d min max theta u ≡ none))
        ⊎ ((in_range ((max + 2 ^ 64 - min + 1) % 2 ^ 64) ≡ true)
            × (g : ZipfianGenerator d) × (new_zipfian d min max theta u ≡ some g)
            × IsExact g)
  unfolding new_zipfian next
  new_zipfian-IsExact min max theta u = elim (Bool-cases (in_range n)) [
    | inr out ↦ inl (out, rw (out, new_zipfian))
    | inl fits ↦ elim (next_of-IsExact ready n u ready-IsExact) [
      | inl (out, none_) ↦ absurd (false≢true (sym out ∙ fits))
      | inr (fits', v, g', ok, same, exact, enough) ↦
          inr (fits, g', rw (fits, new_zipfian, raise_zeta-eq fresh n zero_le, ok), exact)
    ]
  ]
    where
      fresh : ZipfianGenerator d
      fresh = before_zeta d min max theta

      n : ℕ
      n = fresh.num_items

      zero_le : 0 ≤ n
      zero_le = omega arith

      ready : ZipfianGenerator d
      ready = set_eta d (raised fresh n)

      start : IsExact fresh
      start = record { zeta_n = sym (zeta_from_zero 0 theta (of_ℕ 0) ∙ (unfold zeta_loop in refl)) }

      ready-IsExact : IsExact ready
      ready-IsExact = record { zeta_n = (raised-IsExact fresh n zero_le start).zeta_n }
