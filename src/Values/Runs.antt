-- ===== src/Values/Runs.antt =====
-- Runs of the record format, and the theorems at concrete inputs.
use ycsb_c_cloud.Base.{◌≡◌, ◌⊎◌, refl, ◌++◌, arith, List, [], ◌∷◌, codes}
use ycsb_c_cloud.Coding.{
  little, decode_fixed64, load, object_value, put_fixed64, encode_fixed64, object_bytes,
}
use ycsb_c_cloud.Values.{KvPair, done, overrun, serialize_values, deserialize_values, decode_at}
use ycsb_c_cloud.Values.RoundTrip.{deserialize-serialize}
use ycsb_c_cloud.Values.Total.{deserialize_values-ends}

abbrev two_fields : List KvPair
two_fields = (codes "field0", codes "ab") ∷ (codes "field1", []) ∷ []

-- The count of a record that is cut off behind it promises pairs that are not there.
cut_off : deserialize_values little (2 ∷ 0 ∷ 0 ∷ 0 ∷ 0 ∷ 0 ∷ 0 ∷ 0 ∷ []) [] ≡ overrun
unfolding deserialize_values decode_at decode_fixed64 load object_value
cut_off = refl

serialize_two :
    serialize_values little ((1 ∷ [], 2 ∷ 3 ∷ []) ∷ [])
    ≡ 1 ∷ 0 ∷ 0 ∷ 0 ∷ 0 ∷ 0 ∷ 0 ∷ 0 ∷ 1 ∷ 0 ∷ 0 ∷ 0 ∷ 0 ∷ 0 ∷ 0 ∷ 0 ∷ 1 ∷ 2 ∷ 0 ∷ 0 ∷ 0 ∷ 0 ∷ 0 ∷ 0
      ∷ 0 ∷ 2 ∷ 3 ∷ []
unfolding serialize_values put_fixed64 encode_fixed64 object_bytes
serialize_two = refl

deserialize-serialize_example :
    deserialize_values little (serialize_values little two_fields ++ 9 ∷ []) [] ≡ done two_fields
unfolding serialize_values put_fixed64 encode_fixed64 object_bytes
deserialize-serialize_example =
    deserialize-serialize little two_fields [] (9 ∷ []) (omega arith) (omega arith)

deserialize_values-ends_example :
    (deserialize_values little (7 ∷ []) [] ≡ overrun)
    ⊎ ((out : List KvPair) × (deserialize_values little (7 ∷ []) [] ≡ done out))
deserialize_values-ends_example = deserialize_values-ends little (7 ∷ []) [] (omega arith)
