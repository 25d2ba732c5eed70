-- ===== src/Values/Size.antt =====
-- The size of what SerializeValues of db/rocksdb_cloud_db.cc writes.
use ycsb_c_cloud.Base.{
  ℕ, ◌+◌, ◌*◌, ◌≤◌, arith, Str, List, [], ◌∷◌, All, ◌++◌, length, length-append,
}
use native.Mathlib.Nat.{suc-mul}
use ycsb_c_cloud.Coding.{Endian, encode_fixed64, k_little_endian}
use ycsb_c_cloud.Coding.RoundTrip.{length-encode_fixed64}
use ycsb_c_cloud.Values.{KvPair, serialize_values}
use ycsb_c_cloud.Values.RoundTrip.{field_bytes, all_bytes, serialize_values-eq}

-- A name and a value of at most so many bytes together.
abbrev pub IsShort : ℕ → KvPair → Type 0
IsShort bound pair = length pair.0 + length pair.1 ≤ bound

length-all_bytes_bound :
    (host : Endian) (bound : ℕ) (kvs : List KvPair)
    → All (IsShort bound) kvs
    → length (all_bytes host kvs) ≤ length kvs * (16 + bound)
length-all_bytes_bound host bound [] short = omega arith
length-all_bytes_bound host bound ((key, field) ∷ kvs) (this, short) =
    let size = λ (s : Str). encode_fixed64 k_little_endian host (length s) in
    rw (suc-mul (length kvs) (16 + bound)) (
      omega (
        arith,
        this,
        length-append (field_bytes host key ++ field_bytes host field) (all_bytes host kvs),
        length-append (field_bytes host key) (field_bytes host field),
        length-append (size key) key,
        length-append (size field) field,
        length-encode_fixed64 k_little_endian host (length key),
        length-encode_fixed64 k_little_endian host (length field),
        length-all_bytes_bound host bound kvs short,
      ))

pub length-serialize_values :
    (host : Endian) (bound : ℕ) (kvs : List KvPair)
    → All (IsShort bound) kvs
    → length (serialize_values host kvs) ≤ 8 + length kvs * (16 + bound)
length-serialize_values host bound kvs short = rw (serialize_values-eq host kvs) (
    omega (
      arith,
      length-append (encode_fixed64 k_little_endian host (length kvs)) (all_bytes host kvs),
      length-encode_fixed64 k_little_endian host (length kvs),
      length-all_bytes_bound host bound kvs short,
    ))
