-- ===== src/LocalDb/Serialized.antt =====
-- The strings that db/rocksdb_db.cc writes, and those of db/rocksdb_cloud_db.cc.
use ycsb_c_cloud.Base.{
  ℕ, zero, suc, ◌+◌, ◌%◌, ◌^◌, ◌<◌, ◌≤◌, ◌≡◌, refl, arith, some, Str, List, [], ◌∷◌, length,
  get_elem?, drop, ltb, ltb→lt, ltb→le, lt→ltb, Bool-cases, inl, inr,
}
use ycsb_c_cloud.Coding.{Endian, put_fixed64}
use ycsb_c_cloud.Values.{KvPair, done, stuck, serialize_pair, serialize_loop, serialize_values}
use ycsb_c_cloud.LocalDb.Strings.{append_pair, append_pairs, local_serialize_values}

get_elem?-drop :
    {A : Type 0} (xs : List A) (i : ℕ)
    → i < length xs
    → (x : A) × (get_elem? xs i ≡ some x) × (drop i xs ≡ x ∷ drop (suc i) xs)
get_elem?-drop [] i h = absurd (omega arith)
get_elem?-drop (x ∷ xs) zero h = (x, refl, refl)
get_elem?-drop (x ∷ xs) (suc i) h = get_elem?-drop xs i (omega arith)

drop-all : {A : Type 0} (i : ℕ) (xs : List A) → length xs ≤ i → drop i xs ≡ []
drop-all zero [] h = refl
drop-all zero (x ∷ xs) h = absurd (omega arith)
drop-all (suc i) [] h = refl
drop-all (suc i) (x ∷ xs) h = drop-all i xs (omega arith)

-- From `i` on, the loop appends what is left of the pairs.
append_pairs-serialize_loop :
    (host : Endian) (kvs : List KvPair) (fuel i : ℕ) (value : Str)
    → length kvs < 2 ^ 32
    → i ≤ length kvs
    → length kvs < i + fuel
    → append_pairs fuel host kvs i value ≡ done (serialize_loop host value (drop i kvs))
unfolding append_pairs serialize_loop serialize_pair
append_pairs-serialize_loop host kvs zero i value small below enough = absurd (omega arith)
append_pairs-serialize_loop host kvs (suc fuel) i value small below enough =
    elim (Bool-cases (ltb i (length kvs))) [
      | inl more ↦
          let (pair, at, split) = get_elem?-drop kvs i (ltb→lt i (length kvs) more) in
          let next : (i + 1) % 2 ^ 32 ≡ suc i = omega (arith, ltb→lt i (length kvs) more) in
          rw (append_pairs, more, at, split, next)
            (append_pairs-serialize_loop host kvs fuel (suc i) (append_pair host pair value) small
              (omega (arith, ltb→lt i (length kvs) more)) (omega arith))
      | inr last ↦ rw (append_pairs, last, drop-all i kvs (ltb→le i (length kvs) last)) refl
    ]

-- For records of fewer than 2 ^ 32 pairs the two classes write the same string.
pub local_serialize_values-few :
    (host : Endian) (kvs : List KvPair)
    → length kvs < 2 ^ 32
    → local_serialize_values host kvs ≡ done (serialize_values host kvs)
unfolding local_serialize_values serialize_values
local_serialize_values-few host kvs small =
    append_pairs-serialize_loop host kvs (length kvs + 1) 0 (put_fixed64 host [] (length kvs)) small
      (omega arith) (omega arith)

-- From a counter of 32 bits, the loop over more pairs never comes to its end.
append_pairs-stuck :
    (host : Endian) (kvs : List KvPair) (fuel i : ℕ) (value : Str)
    → 2 ^ 32 ≤ length kvs
    → i < 2 ^ 32
    → append_pairs fuel host kvs i value ≡ stuck
unfolding append_pairs
append_pairs-stuck host kvs zero i value many below = refl
append_pairs-stuck host kvs (suc fuel) i value many below =
    let (pair, at, split) = get_elem?-drop kvs i (omega arith) in
    rw (append_pairs, lt→ltb i (length kvs) (omega arith), at)
      (append_pairs-stuck host kvs fuel ((i + 1) % 2 ^ 32) (append_pair host pair value) many
        (omega arith))
