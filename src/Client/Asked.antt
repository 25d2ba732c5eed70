-- ===== src/Client/Asked.antt =====
-- The field that core/client.h asks a database for.
use ycsb_c_cloud.Base.{
  ℕ, zero, suc, ◌+◌, ◌≡◌, ◌≢◌, refl, ap, ◌∙◌, true, false, some, Str, [], ◌∷◌, ◌++◌, codes, drop,
  All,
}
use ycsb_c_cloud.Generators.Doubles.{Doubles}
use ycsb_c_cloud.Generators.Uniform.{UniformEngine}
use ycsb_c_cloud.Workload.{returned, Randoms, CoreWorkload, next_field_name}
use ycsb_c_cloud.Numbers.{to_string}
use ycsb_c_cloud.Numbers.Decimal.{starts_with_digit, to_string-digit}
use ycsb_c_cloud.Workload.Fields.{Draws, next_chooser-Draws, field_names}
use ycsb_c_cloud.Client.{asked_fields}

prefixed_twice :
    (v i : ℕ) → codes "field" ++ (codes "field" ++ to_string v) ≢ codes "field" ++ to_string i
prefixed_twice v i same =
    let digit : starts_with_digit (codes "field" ++ to_string v) ≡ true =
      ap starts_with_digit (ap (drop 5) same) ∙ to_string-digit i in
    cc

none_written :
    (v n i : ℕ)
    → All (λ written. codes "field" ++ (codes "field" ++ to_string v) ≢ written) (field_names n i)
none_written v zero i = _
none_written v (suc n) i = (prefixed_twice v i, none_written v n (i + 1))

module _ (d : Doubles) (e : UniformEngine) (r : Randoms d) where
  -- Where not all fields are read and the chooser of fields is constant or uniform, the client asks for
  -- one field, and its name is none of the names field0, field1 and so on that BuildValues writes.
  pub asked_fields-unwritten :
      (first last : ℕ) (w : CoreWorkload d e r)
      → Draws first last w.field_chooser
      → w.read_all_fields ≡ false
      → (n : ℕ)
      → (name : Str) × (w' : CoreWorkload d e r) × (asked_fields d e r w
          ≡ returned (some (name ∷ []), w'))
        × All (λ written. name ≢ written) (field_names n 0)
  unfolding asked_fields next_field_name
  asked_fields-unwritten first last w h one n =
      let (v, g, drawn, above, below, h') =
        next_chooser-Draws first last w.insert_key_sequence w.field_chooser w.source h in
      (
        codes "field" ++ (codes "field" ++ to_string v),
        record w { field_chooser = g },
        rw (one, drawn) refl,
        none_written v n 0,
      )
