-- ===== src/Values.antt =====
-- SerializeValues and DeSerializeValues of db/rocksdb_cloud_db.cc, which db/rocksdb_db.cc repeats:
-- the fields of a record as one string. `c_str()` is the bytes of the string with a NUL behind
-- them; a read past that NUL is `overrun`, where the source's behaviour is undefined.
pub mod RoundTrip
pub mod Size
pub mod Total
mod Runs
use ycsb_c_cloud.Base.{
  ℕ, zero, suc, ◌+◌, ◌%◌, ◌^◌, Option, none, some, Str, List, [], ◌∷◌, ◌++◌, length, drop, ltb,
  if◌then◌else◌,
}
use ycsb_c_cloud.Coding.{Endian, load, decode_fixed64, put_fixed64, k_little_endian}

-- `typedef std::pair<std::string, std::string> KVPair`
abbrev pub KvPair : Type 0
KvPair = Str × Str

-- `stuck` is no result of the source: the loop of the model has run out of fuel.
pub data Outcome {ℓ} (A : Type ℓ) : Type ℓ where
  done : A → Outcome A
  overrun stuck : Outcome A

infixl 5 ◌>>=◌
abbrev pub ◌>>=◌ {ℓ κ} : {A : Type ℓ} {B : Type κ} → Outcome A → (A → Outcome B) → Outcome B
done a >>= f = f a
overrun >>= f = overrun
stuck >>= f = stuck

abbrev pub of_option {ℓ} : {A : Type ℓ} → Option A → Outcome A
of_option none = overrun
of_option (some a) = done a

-- One round of the loop of SerializeValues.
unfoldable pub serialize_pair : Endian → Str → KvPair → Str
serialize_pair host value (key, field) =
    put_fixed64 host (put_fixed64 host value (length key) ++ key) (length field) ++ field

unfoldable pub serialize_loop : Endian → Str → List KvPair → Str
serialize_loop host value [] = value
serialize_loop host value (pair ∷ kvs) = serialize_loop host (serialize_pair host value pair) kvs

-- Of fewer than 2 ^ 32 pairs, as every theorem that speaks of what is written asks for: there the
-- counter `unsigned int i` meets each index once. From 2 ^ 32 pairs on it wraps, and the loop of the
-- source never ends; LocalDb.Strings has the same loop with its counter, stuck there.
unfoldable pub serialize_values : Endian → List KvPair → Str
unfolding serialize_loop serialize_pair
serialize_values host kvs = serialize_loop host (put_fixed64 host [] (length kvs)) kvs

-- `DecodeFixed64(value.c_str() + offset)`, and `assign(value.c_str() + offset, n)`.
pub decode_at : Endian → Str → ℕ → Outcome ℕ
decode_at host buf offset = of_option (decode_fixed64 k_little_endian host (drop offset buf))

pub read_at : Str → ℕ → ℕ → Outcome Str
read_at buf offset n = of_option (load n (drop offset buf))

-- `offset += n` on uint64_t.
abbrev pub advance : ℕ → ℕ → ℕ
advance offset n = (offset + n) % 2 ^ 64

-- The length that stands at an offset, the bytes behind it, and the offset behind those.
unfoldable pub read_field : Endian → Str → ℕ → Outcome (Str × ℕ)
unfolding decode_at read_at
read_field host buf offset = do
  size ← decode_at host buf offset
  bytes ← read_at buf (advance offset 8) size
  done (bytes, advance (advance offset 8) size)

unfoldable pub read_pair : Endian → Str → ℕ → Outcome (KvPair × ℕ)
unfolding read_field
read_pair host buf offset = do
  (key, offset) ← read_field host buf offset
  (field, offset) ← read_field host buf offset
  done ((key, field), offset)

-- `for (unsigned int i = 0; i < kv_num; i++)`, the counter wrapping at 32 bits.
unfoldable pub deserialize_loop : Endian → Str → ℕ → ℕ → ℕ → ℕ → List KvPair → Outcome (List KvPair)
deserialize_loop host buf zero kv_num i offset kvs = stuck
deserialize_loop host buf (suc fuel) kv_num i offset kvs =
    let next = do
      (pair, offset') ← read_pair host buf offset
      deserialize_loop host buf fuel kv_num ((i + 1) % 2 ^ 32) offset' (kvs ++ pair ∷ [])
    in if ltb i kv_num then next else done kvs

-- Each round reads sixteen bytes at least, so the bytes of the buffer bound the rounds.
unfoldable pub deserialize_values : Endian → Str → List KvPair → Outcome (List KvPair)
unfolding read_pair deserialize_loop
deserialize_values host value kvs =
    let buf = value ++ 0 ∷ [] in
    do kv_num ← decode_at host buf 0; deserialize_loop host buf (length buf + 1) kv_num 0 8 kvs
