-- ===== src/Values/RoundTrip.antt =====
-- DeSerializeValues of db/rocksdb_cloud_db.cc on what SerializeValues wrote.
use ycsb_c_cloud.Base.{
  ℕ, zero, suc, ◌+◌, ◌*◌, ◌%◌, ◌^◌, ◌≤◌, ◌<◌, ◌≡◌, refl, sym, ap, ◌∙◌, arith, Str, List, [], ◌∷◌,
  ◌++◌, length, drop, length-append, append-nil, append_assoc, drop-add, drop-length-append, le→ltb,
  lt→ltb,
}
use ycsb_c_cloud.Coding.{Endian, encode_fixed64, put_fixed64, k_little_endian, IsU64}
use ycsb_c_cloud.Coding.Bytes.{load-append}
use ycsb_c_cloud.Coding.RoundTrip.{decode_fixed64-encode_fixed64, length-encode_fixed64}
use ycsb_c_cloud.Values.{
  KvPair, done, serialize_pair, serialize_loop, serialize_values, decode_at, read_at, advance,
  read_field, read_pair, deserialize_loop, deserialize_values,
}

-- What is written for a string, a pair, and the pairs of a list.
abbrev pub field_bytes : Endian → Str → Str
field_bytes host s = encode_fixed64 k_little_endian host (length s) ++ s

abbrev pub pair_bytes : Endian → KvPair → Str
pair_bytes host (key, field) = field_bytes host key ++ field_bytes host field

abbrev pub all_bytes : Endian → List KvPair → Str
all_bytes host [] = []
all_bytes host (p ∷ kvs) = pair_bytes host p ++ all_bytes host kvs

serialize_loop-eq :
    (host : Endian) (value : Str) (kvs : List KvPair)
    → serialize_loop host value kvs ≡ value ++ all_bytes host kvs
unfolding serialize_loop serialize_pair put_fixed64
serialize_loop-eq host value [] = sym (append-nil value)
serialize_loop-eq host value ((key, field) ∷ kvs) =
    serialize_loop-eq host (serialize_pair host value (key, field)) kvs ∙ simp append_assoc

pub serialize_values-eq :
    (host : Endian) (kvs : List KvPair)
    → serialize_values host kvs
      ≡ encode_fixed64 k_little_endian host (length kvs) ++ all_bytes host kvs
unfolding serialize_values put_fixed64
serialize_values-eq host kvs = serialize_loop-eq host _ kvs

-- Behind `offset` the buffer holds `rest`, and the buffer is shorter than an offset can count.
record At (buf : Str) (offset : ℕ) (rest : Str) : Type 0 where
  behind : drop offset buf ≡ rest
  counted : offset + length rest ≡ length buf
  short : length buf < 2 ^ 64

At-advance :
    (buf : Str) (offset : ℕ) (s rest : Str) (n : ℕ)
    → length s ≡ n
    → At buf offset (s ++ rest)
    → At buf (advance offset n) rest
At-advance buf offset s rest n e at = record {
  behind =
      ap (λ k. drop k buf) fits
      ∙ (drop-add offset n buf
          ∙ (ap (drop n) at.behind
              ∙ (ap (λ k. drop k (s ++ rest)) (sym e) ∙ drop-length-append s rest)));
  counted = omega (arith, length-append s rest, at.counted, fits);
  short = at.short;
}
  where
    fits : advance offset n ≡ offset + n
    fits = omega (arith, length-append s rest, at.counted, at.short)

-- At the bytes of a string, `read_field` returns the string and stops behind it.
read_field-At :
    (host : Endian) (buf : Str) (offset : ℕ) (s rest : Str)
    → At buf offset (field_bytes host s ++ rest)
    → (offset' : ℕ) × (read_field host buf offset ≡ done (s, offset')) × At buf offset' rest
unfolding read_field decode_at read_at
read_field-At host buf offset s rest at = (
  advance (advance offset 8) (length s),
  rw (
    at.behind,
    append_assoc size s rest,
    decode_fixed64-encode_fixed64 k_little_endian host (length s) (s ++ rest) small,
    behind_size.behind,
    load-append (length s) s rest refl,
  ),
  At-advance buf (advance offset 8) s rest (length s) refl behind_size,
)
  where
    size : Str
    size = encode_fixed64 k_little_endian host (length s)

    small : IsU64 (length s)
    small =
        omega (arith, length-append (size ++ s) rest, length-append size s, at.counted, at.short)

    behind_size : At buf (advance offset 8) (s ++ rest)
    behind_size =
        At-advance buf offset size (s ++ rest) 8
          (length-encode_fixed64 k_little_endian host (length s)) (rw append_assoc at at)

-- At the bytes of a pair, `read_pair` returns the pair and stops behind it.
read_pair-At :
    (host : Endian) (buf : Str) (offset : ℕ) (p : KvPair) (rest : Str)
    → At buf offset (pair_bytes host p ++ rest)
    → (offset' : ℕ) × (read_pair host buf offset ≡ done (p, offset')) × At buf offset' rest
unfolding read_pair
read_pair-At host buf offset (key, field) rest at =
    let (mid, got_key, at_mid) =
      read_field-At host buf offset key (field_bytes host field ++ rest) (rw append_assoc at at) in
    let (end, got_field, at_end) = read_field-At host buf mid field rest at_mid in
    (end, rw got_key (rw got_field), at_end)

-- From counter `i`, the loop reads all that is left of the pairs and adds it to the result.
deserialize_loop-At :
    (host : Endian) (buf : Str) (todo : List KvPair) (rest : Str) (fuel n i offset : ℕ)
    (kvs : List KvPair)
    → i + length todo ≡ n
    → n < 2 ^ 32
    → length todo < fuel
    → At buf offset (all_bytes host todo ++ rest)
    → deserialize_loop host buf fuel n i offset kvs ≡ done (kvs ++ todo)
unfolding deserialize_loop
deserialize_loop-At host buf todo rest zero n i offset kvs e small enough at = absurd (omega arith)
deserialize_loop-At host buf [] rest (suc fuel) n i offset kvs e small enough at =
    rw (le→ltb i n (omega arith)) (rw append-nil)
deserialize_loop-At host buf (p ∷ todo) rest (suc fuel) n i offset kvs e small enough at =
    let (offset', got, at') =
      read_pair-At host buf offset p (all_bytes host todo ++ rest) (rw append_assoc at at) in
    rw (lt→ltb i n (omega arith), got)
      (deserialize_loop-At host buf todo rest fuel n ((i + 1) % 2 ^ 32) offset' (kvs ++ p ∷ [])
          (omega arith) small (omega arith) at'
        ∙ ap done (append_assoc kvs (p ∷ []) todo))

-- Every pair takes sixteen bytes at least.
length-all_bytes :
    (host : Endian) (kvs : List KvPair) → 16 * length kvs ≤ length (all_bytes host kvs)
length-all_bytes host [] = omega arith
length-all_bytes host ((key, field) ∷ kvs) =
    let size = λ (s : Str). encode_fixed64 k_little_endian host (length s) in
    omega (
      arith,
      length-append (field_bytes host key ++ field_bytes host field) (all_bytes host kvs),
      length-append (field_bytes host key) (field_bytes host field),
      length-append (size key) key,
      length-append (size field) field,
      length-encode_fixed64 k_little_endian host (length key),
      length-encode_fixed64 k_little_endian host (length field),
      length-all_bytes host kvs,
    )

-- What SerializeValues wrote, DeSerializeValues appends to its result, whatever stands behind it
-- in the string, if the string is shorter than 2 ^ 64 - 1 bytes and the pairs are fewer than 2 ^ 32.
pub deserialize-serialize :
    (host : Endian) (kvs out : List KvPair) (more : Str)
    → length (serialize_values host kvs ++ more) + 1 < 2 ^ 64
    → length kvs < 2 ^ 32
    → deserialize_values host (serialize_values host kvs ++ more) out ≡ done (out ++ kvs)
unfolding deserialize_values decode_at
deserialize-serialize host kvs out more short few =
    rw (layout, decode_fixed64-encode_fixed64 k_little_endian host (length kvs) rest (omega arith))
      (deserialize_loop-At host (head ++ rest) kvs (more ++ 0 ∷ []) (length (head ++ rest) + 1)
        (length kvs) 0 8 out (omega arith) few enough start)
  where
    head : Str
    head = encode_fixed64 k_little_endian host (length kvs)

    rest : Str
    rest = all_bytes host kvs ++ (more ++ 0 ∷ [])

    layout : (serialize_values host kvs ++ more) ++ 0 ∷ [] ≡ head ++ rest
    layout = rw serialize_values-eq (simp append_assoc)

    enough : length kvs < length (head ++ rest) + 1
    enough = omega (
      arith,
      length-append head rest,
      length-append (all_bytes host kvs) (more ++ 0 ∷ []),
      length-all_bytes host kvs,
    )

    start : At (head ++ rest) 8 rest
    start = record {
      behind = drop_head (length-encode_fixed64 k_little_endian host (length kvs));
      counted =
          omega (
            arith,
            length-append head rest,
            length-encode_fixed64 k_little_endian host (length kvs),
          );
      short =
          omega
            (arith, ap length layout, length-append (serialize_values host kvs ++ more) (0 ∷ []));
    }
      where
        drop_head : length head ≡ 8 → drop 8 (head ++ rest) ≡ rest
        drop_head e = ap (λ k. drop k (head ++ rest)) (sym e) ∙ drop-length-append head rest
