-- ===== src/LocalDb/Strings.antt =====
-- SerializeValues and DeSerializeValues of db/rocksdb_db.cc, with the counters of their loops.
use ycsb_c_cloud.Base.{
  ℕ, zero, suc, ◌+◌, ◌%◌, ◌^◌, Str, List, [], ◌∷◌, ◌++◌, length, get_elem?, ltb, if◌then◌else◌,
}
use ycsb_c_cloud.Coding.{Endian, put_fixed64}
use ycsb_c_cloud.Values.{
  KvPair, Outcome, done, stuck, ◌>>=◌, of_option, decode_at, read_at, advance,
}

-- The body of the loop of SerializeValues.
abbrev pub append_pair : Endian → KvPair → Str → Str
append_pair host pair value =
    let value = put_fixed64 host value (length pair.0) ++ pair.0 in
    put_fixed64 host value (length pair.1) ++ pair.1

-- `for (unsigned int i = 0; i < kvs.size(); i++)`, from `i` on.
unfoldable pub append_pairs : ℕ → Endian → List KvPair → ℕ → Str → Outcome Str
append_pairs zero host kvs i value = stuck
append_pairs (suc fuel) host kvs i value =
    let next = do
      pair ← of_option (get_elem? kvs i)
      append_pairs fuel host kvs ((i + 1) % 2 ^ 32) (append_pair host pair value)
    in if ltb i (length kvs) then next else done value

unfoldable pub local_serialize_values : Endian → List KvPair → Outcome Str
local_serialize_values host kvs =
    append_pairs (length kvs + 1) host kvs 0 (put_fixed64 host [] (length kvs))

-- The variables of DeSerializeValues but for `kv_num`, which the loop does not change.
pub record Reader : Type 0 where
  pub offset : ℕ
  pub key_size : ℕ
  pub value_size : ℕ
  pub i : ℕ
  pub kvs : List KvPair

-- `key_size = DecodeFixed64(...)` with the `assign` behind it, and the same for the value.
unfoldable pub read_key : Endian → Str → Reader → Outcome (Str × Reader)
read_key host buf r = do
  key_size ← decode_at host buf r.offset
  first ← read_at buf (advance r.offset 8) key_size
  done (first, record r { key_size = key_size; offset = advance (advance r.offset 8) key_size })

unfoldable pub read_value : Endian → Str → Reader → Outcome (Str × Reader)
read_value host buf r = do
  value_size ← decode_at host buf r.offset
  second ← read_at buf (advance r.offset 8) value_size
  done (
    second,
    record r { value_size = value_size; offset = advance (advance r.offset 8) value_size },
  )

-- The body of the loop with `i++`.
unfoldable pub read_round : Endian → Str → Reader → Outcome Reader
read_round host buf r = do
  (first, r) ← read_key host buf r
  (second, r) ← read_value host buf r
  done (record r { i = (r.i + 1) % 2 ^ 32; kvs = r.kvs ++ (first, second) ∷ [] })

unfoldable pub read_all_pairs : ℕ → Endian → Str → ℕ → Reader → Outcome Reader
read_all_pairs zero host buf kv_num r = stuck
read_all_pairs (suc fuel) host buf kv_num r =
    let next = do r' ← read_round host buf r; read_all_pairs fuel host buf kv_num r'
    in if ltb r.i kv_num then next else done r

unfoldable pub local_deserialize_values : Endian → Str → List KvPair → Outcome (List KvPair)
local_deserialize_values host value kvs =
    let buf = value ++ 0 ∷ [] in
    do
      kv_num ← decode_at host buf 0
      r ←
          read_all_pairs (length buf + 1) host buf kv_num
            (record { offset = 8; key_size = 0; value_size = 0; i = 0; kvs = kvs })
      done r.kvs
