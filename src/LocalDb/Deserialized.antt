-- ===== src/LocalDb/Deserialized.antt =====
-- What db/rocksdb_db.cc reads from a string, and what db/rocksdb_cloud_db.cc reads.
use ycsb_c_cloud.Base.{
  ℕ, zero, suc, ◌+◌, ◌%◌, ◌^◌, ◌≡◌, refl, ap, ◌∙◌, Str, List, [], ◌∷◌, ◌++◌, length, ltb,
  Bool-cases, ◌⊎◌, inl, inr,
}
use mathlib.Core.Path.{subst, ap₂}
use ycsb_c_cloud.Coding.{Endian}
use ycsb_c_cloud.Values.{
  KvPair, Outcome, done, overrun, stuck, ◌>>=◌, decode_at, read_at, advance, read_field, read_pair,
  deserialize_loop, deserialize_values,
}
use ycsb_c_cloud.LocalDb.Strings.{
  Reader, read_key, read_value, read_round, read_all_pairs, local_deserialize_values,
}

-- A step of the one reader and a step of the other on the same buffer fail alike, or return alike.
abbrev IsAlike : {A B : Type 0} → (A → B → Type 0) → Outcome A → Outcome B → Type 0
IsAlike {A} {B} R x y =
    ((x ≡ overrun) × (y ≡ overrun))
    ⊎ ((x ≡ stuck) × (y ≡ stuck))
    ⊎ ((a : A) × (b : B) × (x ≡ done a) × (y ≡ done b) × R a b)

bind-IsAlike :
    {A B C D : Type 0} (R : A → B → Type 0) (S : C → D → Type 0) (x : Outcome A) (y : Outcome B)
    (f : A → Outcome C) (g : B → Outcome D)
    → IsAlike R x y
    → ((a : A) (b : B) → R a b → IsAlike S (f a) (g b))
    → IsAlike S (x >>= f) (y >>= g)
bind-IsAlike R S x y f g (inl (hx, hy)) h = inl (rw (hx) refl, rw (hy) refl)
bind-IsAlike R S x y f g (inr (inl (hx, hy))) h = inr (inl (rw (hx) refl, rw (hy) refl))
bind-IsAlike R S x y f g (inr (inr (a, b, hx, hy, same))) h = rw (hx, hy) (h a b same)

self-IsAlike : {A : Type 0} (x : Outcome A) → IsAlike (λ a b. a ≡ b) x x
self-IsAlike (done a) = inr (inr (a, a, refl, refl, refl))
self-IsAlike overrun = inl (refl, refl)
self-IsAlike stuck = inr (inl (refl, refl))

-- The string, the offset behind it, and what does not change.
abbrev IsReadAt : Reader → Str × Reader → Str × ℕ → Type 0
IsReadAt r (s, r') (s', offset) = (s ≡ s') × (r'.offset ≡ offset) × (r'.i ≡ r.i) × (r'.kvs ≡ r.kvs)

-- What either class reads of a length and the bytes behind it; `keep` is what the reader then holds.
sized-read_field :
    (host : Endian) (buf : Str) (r : Reader) (keep : ℕ → ℕ → Reader)
    → ((size offset : ℕ)
        → ((keep size offset).offset ≡ offset)
          × ((keep size offset).i ≡ r.i)
          × ((keep size offset).kvs ≡ r.kvs))
    → IsAlike
        (IsReadAt r)
        (do
          size ← decode_at host buf r.offset
          bytes ← read_at buf (advance r.offset 8) size
          done (bytes, keep size (advance (advance r.offset 8) size)))
        (read_field host buf r.offset)
unfolding read_field
sized-read_field host buf r keep kept =
    bind-IsAlike (λ a b. a ≡ b) (IsReadAt r) (decode_at host buf r.offset)
      (decode_at host buf r.offset) _ _ (self-IsAlike (decode_at host buf r.offset))
      (λ size size' same.
        subst
          (λ n.
            IsAlike (IsReadAt r)
              (do
                bytes ← read_at buf (advance r.offset 8) size
                done (bytes, keep size (advance (advance r.offset 8) size)))
              (do
                bytes ← read_at buf (advance r.offset 8) n
                done (bytes, advance (advance r.offset 8) n)))
          same
          (bind-IsAlike (λ a b. a ≡ b) (IsReadAt r) (read_at buf (advance r.offset 8) size)
            (read_at buf (advance r.offset 8) size) _ _
            (self-IsAlike (read_at buf (advance r.offset 8) size))
            (λ bytes bytes' equal.
              let (at, count, pairs) = kept size (advance (advance r.offset 8) size) in
              inr (inr (_, _, refl, refl, (equal, at, count, pairs))))))

read_key-read_field :
    (host : Endian) (buf : Str) (r : Reader)
    → IsAlike (IsReadAt r) (read_key host buf r) (read_field host buf r.offset)
unfolding read_key
read_key-read_field host buf r =
    sized-read_field host buf r (λ size offset. record r { key_size = size; offset = offset })
      (λ size offset. (refl, refl, refl))

read_value-read_field :
    (host : Endian) (buf : Str) (r : Reader)
    → IsAlike (IsReadAt r) (read_value host buf r) (read_field host buf r.offset)
unfolding read_value
read_value-read_field host buf r =
    sized-read_field host buf r (λ size offset. record r { value_size = size; offset = offset })
      (λ size offset. (refl, refl, refl))

-- Behind a round: the pair, and the offset.
abbrev IsRoundAt : Reader → Reader → KvPair × ℕ → Type 0
IsRoundAt r r' (pair, offset) =
    (r'.kvs ≡ r.kvs ++ pair ∷ []) × (r'.offset ≡ offset) × (r'.i ≡ (r.i + 1) % 2 ^ 32)

read_round-read_pair :
    (host : Endian) (buf : Str) (r : Reader)
    → IsAlike (IsRoundAt r) (read_round host buf r) (read_pair host buf r.offset)
unfolding read_round read_pair
read_round-read_pair host buf r =
    bind-IsAlike (IsReadAt r) (IsRoundAt r) (read_key host buf r) (read_field host buf r.offset) _ _
      (read_key-read_field host buf r)
      (λ (key, r1) (key', offset) (keys, at, count, pairs).
        subst
          (λ n.
            IsAlike (IsRoundAt r)
              (do
                (second, r2) ← read_value host buf r1
                done (record r2 { i = (r2.i + 1) % 2 ^ 32; kvs = r2.kvs ++ (key, second) ∷ [] }))
              (do (field, offset') ← read_field host buf n; done ((key', field), offset')))
          at
          (bind-IsAlike (IsReadAt r1) (IsRoundAt r) (read_value host buf r1)
            (read_field host buf r1.offset) _ _ (read_value-read_field host buf r1)
            (λ (second, r2) (second', offset') (seconds, at', count', pairs'). inr (
              inr (
                _,
                _,
                refl,
                refl,
                (
                  ap₂ (λ kvs pair. kvs ++ pair ∷ []) (pairs' ∙ pairs)
                      (ap₂ (λ a b. (a, b)) keys seconds),
                  at',
                  ap (λ n. (n + 1) % 2 ^ 32) (count' ∙ count),
                ),
              )))))

-- The rounds that are left read the same pairs.
read_all_pairs-deserialize_loop :
    (fuel : ℕ) (host : Endian) (buf : Str) (kv_num : ℕ) (r : Reader)
    → IsAlike
        (λ r' out. r'.kvs ≡ out)
        (read_all_pairs fuel host buf kv_num r)
        (deserialize_loop host buf fuel kv_num r.i r.offset r.kvs)
unfolding read_all_pairs deserialize_loop
read_all_pairs-deserialize_loop zero host buf kv_num r = inr (inl (refl, refl))
read_all_pairs-deserialize_loop (suc fuel) host buf kv_num r = elim (Bool-cases (ltb r.i kv_num)) [
  | inl more ↦
      rw (read_all_pairs, deserialize_loop, more)
        (bind-IsAlike (IsRoundAt r) (λ r' out. r'.kvs ≡ out) (read_round host buf r)
          (read_pair host buf r.offset) _ _ (read_round-read_pair host buf r)
          (λ r' (pair, offset') (pairs, at, count).
            subst
              (λ rest.
                IsAlike (λ r'' out. r''.kvs ≡ out) (read_all_pairs fuel host buf kv_num r') rest)
              (rw (count, at, pairs) refl)
              (read_all_pairs-deserialize_loop fuel host buf kv_num r')))
  | inr last ↦ rw (read_all_pairs, deserialize_loop, last) (inr (inr (_, _, refl, refl, refl)))
]

-- What is alike up to a function is equal behind it.
IsAlike-eq :
    {A B : Type 0} (f : A → B) (x : Outcome A) (y : Outcome B)
    → IsAlike (λ a b. f a ≡ b) x y
    → (x >>= λ a. done (f a)) ≡ y
IsAlike-eq f x y (inl (hx, hy)) = rw (hx, hy) refl
IsAlike-eq f x y (inr (inl (hx, hy))) = rw (hx, hy) refl
IsAlike-eq f x y (inr (inr (a, b, hx, hy, same))) = rw (hx, hy, same) refl

-- Whatever the string is, the two classes read the same pairs from it, or both read past its end.
pub local_deserialize_values-same :
    (host : Endian) (value : Str) (kvs : List KvPair)
    → local_deserialize_values host value kvs ≡ deserialize_values host value kvs
unfolding local_deserialize_values deserialize_values
local_deserialize_values-same host value kvs = go (decode_at host (value ++ 0 ∷ []) 0)
  where
    go :
        (n : Outcome ℕ)
        → (do
          kv_num ← n
          r ←
              read_all_pairs
                (length (value ++ 0 ∷ []) + 1)
                host
                (value ++ 0 ∷ [])
                kv_num
                (record { offset = 8; key_size = 0; value_size = 0; i = 0; kvs = kvs })
          done r.kvs)
          ≡ (do
            kv_num ← n
            deserialize_loop host (value ++ 0 ∷ []) (length (value ++ 0 ∷ []) + 1) kv_num 0 8 kvs)
    go (done kv_num) =
        IsAlike-eq (λ r. r.kvs) _ _
          (read_all_pairs-deserialize_loop (length (value ++ 0 ∷ []) + 1) host (value ++ 0 ∷ [])
            kv_num (record { offset = 8; key_size = 0; value_size = 0; i = 0; kvs = kvs }))
    go overrun = refl
    go stuck = refl
