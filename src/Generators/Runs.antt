-- ===== src/Generators/Runs.antt =====
-- Runs of the generators over whole numbers, and the theorems at concrete inputs.
use ycsb_c_cloud.Base.{
  ℕ, ◌+◌, ◌-◌, ◌*◌, ◌%◌, ◌^◌, ◌≤◌, ◌<◌, ◌≡◌, ◌⊎◌, ◌↔◌, refl, arith, true, false, none, some, [],
  ◌∷◌, get_elem?, ltb,
}
use ycsb_c_cloud.Coding.Bytes.{le_bytes}
use ycsb_c_cloud.Generators.Hash.{fnv_hash64, fnv_1a, k_fnv_offset_basis64, fnv_hash64-fnv_1a}
use ycsb_c_cloud.Generators.Counter.{next, last}
use ycsb_c_cloud.Generators.Counter.Threads.{
  Draw, System, draw, Reach, here, later, start_at, Drawn, draws_exact,
}
use ycsb_c_cloud.Generators.Doubles.{Doubles}
use ycsb_c_cloud.Generators.Zipfian
use ycsb_c_cloud.Generators.Zipfian.{
  ZipfianGenerator, in_range, zeta, next_of, new_zipfian, refresh, draw as zipfian_draw,
}
use ycsb_c_cloud.Generators.Zipfian.Zeta.{IsExact, next_of-IsExact, new_zipfian-IsExact}
use ycsb_c_cloud.Generators.Scrambled.{
  ScrambledZipfianGenerator, next_scrambled, scramble, last_scrambled,
}
use ycsb_c_cloud.Generators.Scrambled.Range.{IsRange, next_scrambled-IsRange}

-- An arithmetic of whole numbers, with no claim to that of `double`.
abbrev whole : Doubles
whole = record {
  Double = ℕ;
  lt = ltb;
  add = λ a b. a + b;
  sub = λ a b. a - b;
  mul = λ a b. a * b;
  div = λ a b. a;
  pow = λ a b. a;
  of_ℕ = λ a. a;
  decimal = λ m k. m;
  to_u64 = λ a. a;
}

fnv_of_one : fnv_hash64 1 ≡ 0x89cd31291d2aefa4
unfolding fnv_hash64
fnv_of_one = refl

fnv_hash64-fnv_1a_example : fnv_hash64 258 ≡ fnv_1a k_fnv_offset_basis64 (le_bytes 8 258)
fnv_hash64-fnv_1a_example = fnv_hash64-fnv_1a 258

-- Threads 0, 1 and 0 draw in turn.
abbrev three_draws : System
three_draws = record {
  generator = record { counter = 8 };
  draws =
      record { thread = 0; value = 7 }
      ∷ record { thread = 1; value = 6 }
      ∷ record { thread = 0; value = 5 }
      ∷ [];
}

three_draws_reached : Reach (start_at 5) three_draws
unfolding next
three_draws_reached = later (later (later here (draw _ 0)) (draw _ 1)) (draw _ 0)

draws_exact_example :
    ((v : ℕ) → Drawn v three_draws.draws ↔ ((5 ≤ v) × (v < 8)))
    × ((i j : ℕ) (d d' : Draw)
        → get_elem? three_draws.draws i ≡ some d
        → get_elem? three_draws.draws j ≡ some d'
        → d.value ≡ d'.value
        → i ≡ j)
    × ((d : Draw) → get_elem? three_draws.draws 0 ≡ some d → last three_draws.generator ≡ d.value)
draws_exact_example = draws_exact three_draws_reached (omega arith)

-- A generator over five items from 3 on, whose constant is 0 in this arithmetic.
abbrev five_items : ZipfianGenerator whole
five_items = record {
  num_items = 5;
  base = 3;
  theta = 0;
  zeta_n = 0;
  eta = 0;
  alpha = 1;
  zeta_2 = 0;
  n_for_zeta = 5;
  last_value = 0;
}

new_zipfian-IsExact_example :
    ((in_range ((9 + 2 ^ 64 - 0 + 1) % 2 ^ 64) ≡ false) × (new_zipfian whole 0 9 99 7 ≡ none))
    ⊎ ((in_range ((9 + 2 ^ 64 - 0 + 1) % 2 ^ 64) ≡ true)
        × (g : ZipfianGenerator whole) × (new_zipfian whole 0 9 99 7 ≡ some g)
        × IsExact whole g)
new_zipfian-IsExact_example = new_zipfian-IsExact whole 0 9 99 7

-- A fresh generator: its constant is the empty sum.
abbrev unused : ZipfianGenerator whole
unused = record five_items { n_for_zeta = 0 }

unused-IsExact : IsExact whole unused
unfolding zeta
unused-IsExact = record { zeta_n = refl }

next_of-IsExact_example :
    ((in_range 8 ≡ false) × (next_of whole unused 8 7 ≡ none))
    ⊎ ((in_range 8 ≡ true)
        × (v : ℕ) × (g' : ZipfianGenerator whole) × (next_of whole unused 8 7 ≡ some (v, g'))
        × (Zipfian.last whole g' ≡ v)
        × IsExact whole g'
        × (8 ≤ g'.n_for_zeta))
next_of-IsExact_example = next_of-IsExact whole unused 8 7 unused-IsExact

abbrev scrambled : ScrambledZipfianGenerator whole
scrambled = record { base = 3; num_items = 5; generator = five_items }

scrambled_runs : next_scrambled whole scrambled 7 ≡ some (scramble whole scrambled 0, scrambled)
unfolding next_scrambled Zipfian.next next_of refresh zipfian_draw
scrambled_runs = refl

next_scrambled-IsRange_example :
    (3 ≤ scramble whole scrambled 0)
    × (scramble whole scrambled 0 ≤ 7)
    × (last_scrambled whole scrambled ≡ scramble whole scrambled 0)
    × IsRange whole scrambled 3 7
next_scrambled-IsRange_example =
    next_scrambled-IsRange whole scrambled scrambled 3 7 (scramble whole scrambled 0) 7
      (record { base = refl; num_items = refl; ordered = omega arith; fits = omega arith })
      scrambled_runs
