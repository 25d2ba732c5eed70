-- ===== src/Client/Ready.antt =====
-- The steps of core/client.h on a workload that draws from uniform or constant generators.
use ycsb_c_cloud.Base.{
  ℕ, suc, ◌+◌, ◌≤◌, ◌<◌, ◌^◌, zero, map, ◌≡◌, refl, ap, ◌∙◌, arith, Bool, true, false, none, some,
  Str, List, [], ◌∷◌, ◌++◌, codes, length, length-append, All, if◌then◌else◌, Option,
}
use ycsb_c_cloud.Values.{KvPair}
use ycsb_c_cloud.Generators.Doubles.{Doubles}
use ycsb_c_cloud.Generators.Uniform.{UniformEngine}
use ycsb_c_cloud.Workload.{
  Run, returned, Operation, Randoms, CoreWorkload, next_transaction_key, next_field_name,
  next_scan_length, build_values, build_update, build_key_name,
}
use ycsb_c_cloud.Numbers.{ℤ, rounds_of, to_string}
use ycsb_c_cloud.Numbers.Decimal.{length-to_string}
use ycsb_c_cloud.Workload.Keys.{IsUniform, after_key, choose_key-IsUniform}
use ycsb_c_cloud.Workload.Fields.{
  Draws, AreSized, after_fields, field_names, next_chooser-Draws, build_field-IsSized,
  build_values-names,
}
use ycsb_c_cloud.Client.{asked_fields, written_values}

-- What does not change about a workload while it is used: the number of records, the bounds of the
-- lengths of fields, of the fields themselves and of the lengths of scans, the order of inserts, the
-- number of fields, and the operations with their weights and the sum of these.
pub record Limits (d : Doubles) : Type 0 where
  pub records : ℕ
  pub low : ℕ
  pub high : ℕ
  pub first : ℕ
  pub last : ℕ
  pub shortest : ℕ
  pub longest : ℕ
  pub ordered : Bool
  pub fields : ℤ
  pub operations : List (Operation × d.Double)
  pub total : d.Double

-- The key of one of the records.
abbrev pub IsKey : {d : Doubles} → Limits d → Str → Type 0
IsKey m key = (i : ℕ) × (i < m.records) × (key ≡ build_key_name m.ordered i)

-- No more pairs than there are fields, but one at least, each with a short name and a value of a
-- length that is drawn.
abbrev pub IsWritten : {d : Doubles} → Limits d → List KvPair → Type 0
IsWritten m values =
    (length values ≤ suc (rounds_of m.fields))
    × All (λ pair. length pair.0 ≤ 30) values
    × AreSized m.low m.high values

length-field_name : (v : ℕ) → length (codes "field" ++ to_string v) ≤ 25
length-field_name v = omega (arith, length-append (codes "field") (to_string v), length-to_string v)

pub named-short :
    (n i : ℕ) (pairs : List KvPair)
    → map (λ pair. pair.0) pairs ≡ field_names n i
    → (length pairs ≡ n) × All (λ pair. length pair.0 ≤ 30) pairs
named-short zero i [] same = (refl, tt)
named-short zero i (pair ∷ pairs) same = let no : ⊥ = cc in absurd no
named-short (suc n) i [] same = let no : ⊥ = cc in absurd no
named-short (suc n) i (pair ∷ pairs) same =
    let name : pair.0 ≡ codes "field" ++ to_string i = cc in
    let rest : map (λ pair. pair.0) pairs ≡ field_names n (i + 1) = cc in
    let (many, short) = named-short n (i + 1) pairs rest in
    (ap suc many, (omega (arith, ap length name, length-field_name i), short))

module _ {d : Doubles} {e : UniformEngine} {r : Randoms d} where
  -- Keys are drawn uniformly from the records; the fields, their lengths and the lengths of scans come
  -- from constant or uniform generators.
  pub record IsReady (m : Limits d) (w : CoreWorkload d e r) : Type 0 where
    pub keys : IsUniform w m.records
    pub lengths : Draws m.low m.high w.field_len_generator
    pub fields : Draws m.first m.last w.field_chooser
    pub scans : Draws m.shortest m.longest w.scan_len_chooser
    pub order : w.ordered_inserts ≡ m.ordered
    pub count : w.field_count ≡ m.fields
    pub operations : w.op_chooser.values ≡ m.operations
    pub total : w.op_chooser.sum ≡ m.total

  -- A step on the workload returns something of which `P` holds, and leaves the workload ready.
  abbrev pub Steps {ℓ κ} :
      {A : Type ℓ} → Limits d → (A → Type κ) → Run (A × CoreWorkload d e r) → Type (ℓ ⊔ κ)
  Steps {A = A} m P run =
      (a : A) × (w : CoreWorkload d e r) × (run ≡ returned (a, w)) × IsReady m w × P a

  -- A workload with the same key chooser and settings stays ready if its other choosers draw as before.
  pub choosers-IsReady :
      {m : Limits d} {w : CoreWorkload d e r} (h : IsReady m w) (w' : CoreWorkload d e r)
      → w'.key_chooser ≡ w.key_chooser
      → w'.insert_key_sequence ≡ w.insert_key_sequence
      → (w'.ordered_inserts ≡ w.ordered_inserts) × (w'.field_count ≡ w.field_count)
      → (w'.op_chooser.values ≡ w.op_chooser.values) × (w'.op_chooser.sum ≡ w.op_chooser.sum)
      → Draws m.low m.high w'.field_len_generator
      → Draws m.first m.last w'.field_chooser
      → Draws m.shortest m.longest w'.scan_len_chooser
      → IsReady m w'
  choosers-IsReady h w' chooser sequence (order, count) (operations, total) lengths fields scans =
      record {
        keys = record {
          generator = h.keys.generator;
          chooser = chooser ∙ h.keys.chooser;
          range = h.keys.range;
          counted = ap (λ g. g.counter) sequence ∙ h.keys.counted;
        };
        lengths = lengths;
        fields = fields;
        scans = scans;
        order = order ∙ h.order;
        count = count ∙ h.count;
        operations = operations ∙ h.operations;
        total = total ∙ h.total;
      }

  pub next_transaction_key-IsReady :
      (fuel : ℕ) (m : Limits d) (w : CoreWorkload d e r)
      → 0 < m.records
      → m.records < 2 ^ 64
      → IsReady m w
      → Steps m (IsKey m) (next_transaction_key d e r (suc fuel) w)
  unfolding next_transaction_key
  next_transaction_key-IsReady fuel m w positive small h =
      let (num, g, chosen, below, keys) =
        choose_key-IsUniform fuel m.records w h.keys positive small in
      (
        build_key_name w.ordered_inserts num,
        after_key w g,
        rw (chosen) refl,
        record {
          keys = keys;
          lengths = h.lengths;
          fields = h.fields;
          scans = h.scans;
          order = h.order;
          count = h.count;
          operations = h.operations;
          total = h.total;
        },
        (num, below, ap (λ o. build_key_name o num) h.order),
      )

  pub next_field_name-IsReady :
      (m : Limits d) (w : CoreWorkload d e r)
      → IsReady m w
      → Steps m (λ name. length name ≤ 30) (next_field_name d e r w)
  unfolding next_field_name
  next_field_name-IsReady m w h =
      let (v, g, drawn, above, below, fields) =
        next_chooser-Draws m.first m.last w.insert_key_sequence w.field_chooser w.source h.fields in
      (
        codes "field" ++ to_string v,
        record w { field_chooser = g },
        rw (drawn) refl,
        choosers-IsReady h (record w { field_chooser = g }) refl refl (refl, refl) (refl, refl)
            h.lengths fields h.scans,
        omega (arith, length-field_name v),
      )

  pub next_scan_length-IsReady :
      (m : Limits d) (w : CoreWorkload d e r)
      → IsReady m w
      → Steps m (λ len. (m.shortest ≤ len) × (len ≤ m.longest)) (next_scan_length d e r w)
  unfolding next_scan_length
  next_scan_length-IsReady m w h =
      let (v, g, drawn, above, below, scans) =
        next_chooser-Draws m.shortest m.longest w.insert_key_sequence w.scan_len_chooser w.source
          h.scans in
      (
        v,
        record w { scan_len_chooser = g },
        rw (drawn) refl,
        choosers-IsReady h (record w { scan_len_chooser = g }) refl refl (refl, refl) (refl, refl)
            h.lengths h.fields scans,
        (above, below),
      )

  pub build_values-IsReady :
      (m : Limits d) (w : CoreWorkload d e r)
      → IsReady m w
      → Steps m (IsWritten m) (build_values d e r [] w)
  build_values-IsReady m w h =
      let (pairs, g, s, built, names, sizes, lengths) =
        build_values-names m.low m.high [] w h.lengths in
      let (many, short) = named-short (rounds_of w.field_count) 0 pairs names in
      (
        pairs,
        after_fields w g s,
        built,
        choosers-IsReady h (after_fields w g s) refl refl (refl, refl) (refl, refl) lengths h.fields
            h.scans,
        (omega (arith, many, ap rounds_of h.count), short, sizes),
      )

  build_update-IsReady :
      (m : Limits d) (w : CoreWorkload d e r)
      → IsReady m w
      → Steps m (IsWritten m) (build_update d e r [] w)
  unfolding build_update
  build_update-IsReady m w h =
      let (name, w', named, h', short) = next_field_name-IsReady m w h in
      let (field, g, s, built, sized, lengths) = build_field-IsSized m.low m.high w' h'.lengths in
      (
        (name, field) ∷ [],
        after_fields w' g s,
        rw (named, built) refl,
        choosers-IsReady h' (after_fields w' g s) refl refl (refl, refl) (refl, refl) lengths
            h'.fields h'.scans,
        (omega arith, (short, tt), (sized, tt)),
      )

  if-Steps {ℓ κ} :
      {A : Type ℓ} (m : Limits d) (P : A → Type κ) (b : Bool) (x y : Run (A × CoreWorkload d e r))
      → Steps m P x
      → Steps m P y
      → Steps m P (if b then x else y)
  if-Steps m P true x y hx hy = hx
  if-Steps m P false x y hx hy = hy

  pub asked_fields-IsReady :
      (m : Limits d) (w : CoreWorkload d e r)
      → IsReady m w
      → Steps m (λ (fields : Option (List Str)). Unit {0}) (asked_fields d e r w)
  unfolding asked_fields
  asked_fields-IsReady m w h =
      let (name, w', named, h', short) = next_field_name-IsReady m w h in
      if-Steps m (λ (fields : Option (List Str)). Unit {0}) w.read_all_fields _ _
        (none, w, refl, h, tt) (some ((codes "field" ++ name) ∷ []), w', rw (named) refl, h', tt)

  pub written_values-IsReady :
      (m : Limits d) (w : CoreWorkload d e r)
      → IsReady m w
      → Steps m (IsWritten m) (written_values d e r w)
  unfolding written_values
  written_values-IsReady m w h =
      if-Steps m (IsWritten m) w.write_all_fields _ _ (build_values-IsReady m w h)
        (build_update-IsReady m w h)
