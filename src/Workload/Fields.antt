-- ===== src/Workload/Fields.antt =====
-- The fields that BuildValues of core/core_workload.cc writes.
use ycsb_c_cloud.Base.{
  ℕ, zero, suc, ◌+◌, ◌≤◌, ◌≡◌, refl, ap, arith, Str, List, [], ◌∷◌, ◌++◌, codes, map, All, length,
  replicate, length-replicate, ◌%◌, append-nil, append_assoc,
}
use ycsb_c_cloud.Values.{KvPair}
use ycsb_c_cloud.Generators.Doubles.{Doubles}
use ycsb_c_cloud.Generators.Counter.{CounterGenerator, next_const}
use ycsb_c_cloud.Generators.Uniform as Uniform
use ycsb_c_cloud.Generators.Uniform.{UniformEngine}
use ycsb_c_cloud.Workload.{
  returned, Randoms, Chooser, constant, uniform, zipfian, scrambled, latest, next_chooser,
  CoreWorkload, build_field, build_fields, build_values,
}
use ycsb_c_cloud.Numbers.{rounds_of, to_string}

abbrev pub field_names : ℕ → ℕ → List Str
field_names zero i = []
field_names (suc n) i = (codes "field" ++ to_string i) ∷ field_names n (i + 1)

abbrev pub IsSized : ℕ → ℕ → Str → Type 0
IsSized low high field = (low ≤ length field) × (length field ≤ high)

abbrev pub AreSized : ℕ → ℕ → List KvPair → Type 0
AreSized low high = All (λ pair. IsSized low high pair.1)

module _ {d : Doubles} {e : UniformEngine} {r : Randoms d} where
  -- A constant or uniform generator of numbers from `low` to `high`.
  abbrev pub Draws : ℕ → ℕ → Chooser d e r → Type 0
  Draws low high (constant g) = (low ≤ g.constant) × (g.constant ≤ high)
  Draws low high (uniform g) = (low ≤ g.min) × (g.min ≤ g.max) × (g.max ≤ high)
  Draws low high _ = ⊥

  pub next_chooser-Draws :
      (low high : ℕ) (basis : CounterGenerator) (g : Chooser d e r) (s : r.Source)
      → Draws low high g
      → (v : ℕ) × (g' : Chooser d e r) × (next_chooser d e r basis g s ≡ returned (v, g', s))
        × (low ≤ v)
        × (v ≤ high)
        × Draws low high g'
  unfolding next_chooser Uniform.next next_const
  next_chooser-Draws low high basis (constant g) s h = (g.constant, constant g, refl, h.0, h.1, h)
  next_chooser-Draws low high basis (uniform g) s h =
      let (above, below) = e.draw_range g.generator g.min g.max h.1 in
      (
        (Uniform.next e g).0,
        uniform (Uniform.next e g).1,
        refl,
        omega (arith, h.0, above),
        omega (arith, h.2, below),
        h,
      )
  next_chooser-Draws low high basis (zipfian g) s h = absurd h
  next_chooser-Draws low high basis (scrambled g) s h = absurd h
  next_chooser-Draws low high basis (latest g) s h = absurd h

  abbrev pub after_fields : CoreWorkload d e r → Chooser d e r → r.Source → CoreWorkload d e r
  after_fields w g s = record w { field_len_generator = g; source = s }

  pub build_field-IsSized :
      (low high : ℕ) (w : CoreWorkload d e r)
      → Draws low high w.field_len_generator
      → (field : Str) × (g : Chooser d e r) × (s : r.Source) × (build_field d e r w
          ≡ returned (field, after_fields w g s))
        × IsSized low high field
        × Draws low high g
  unfolding build_field
  build_field-IsSized low high w h =
      let (v, g', drawn, above, below, h') =
        next_chooser-Draws low high w.insert_key_sequence w.field_len_generator w.source h in
      let c : ℕ = (r.rand w.source).0 % 94 + 33 in
      let size = length-replicate v c in
      (
        replicate v c,
        g',
        (r.rand w.source).1,
        rw (drawn) refl,
        (omega (arith, size, above), omega (arith, size, below)),
        h',
      )

  build_fields-names :
      (low high n i : ℕ) (values : List KvPair) (w : CoreWorkload d e r)
      → Draws low high w.field_len_generator
      → (pairs : List KvPair) × (g : Chooser d e r) × (s : r.Source) × (build_fields d e r n i
            values w
          ≡ returned (values ++ pairs, after_fields w g s))
        × (map (λ pair. pair.0) pairs ≡ field_names n i)
        × AreSized low high pairs
        × Draws low high g
  unfolding build_fields
  build_fields-names low high zero i values w h =
      ([], w.field_len_generator, w.source, rw (append-nil) refl, refl, _, h)
  build_fields-names low high (suc n) i values w h =
      let (field, g, s, built, sized, h') = build_field-IsSized low high w h in
      let name : Str = codes "field" ++ to_string i in
      let (pairs, g', s', rest, names, sizes, h'') =
        build_fields-names low high n (i + 1) (values ++ (name, field) ∷ []) (after_fields w g s)
          h' in
      (
        (name, field) ∷ pairs,
        g',
        s',
        rw (built, rest, append_assoc) refl,
        ap (λ rest. name ∷ rest) names,
        (sized, sizes),
        h'',
      )

  -- With constant or uniform field lengths from `low` to `high`, BuildValues returns: it appends one
  -- pair for each field, named field0, field1 and so on in this order, whose values have lengths
  -- from `low` to `high`, and changes nothing but the generator of lengths and the random numbers.
  pub build_values-names :
      (low high : ℕ) (values : List KvPair) (w : CoreWorkload d e r)
      → Draws low high w.field_len_generator
      → (pairs : List KvPair) × (g : Chooser d e r) × (s : r.Source) × (build_values d e r values w
          ≡ returned (values ++ pairs, after_fields w g s))
        × (map (λ pair. pair.0) pairs ≡ field_names (rounds_of w.field_count) 0)
        × AreSized low high pairs
        × Draws low high g
  unfolding build_values
  build_values-names low high values w h =
      build_fields-names low high (rounds_of w.field_count) 0 values w h
