-- ===== src/Values/Total.antt =====
-- DeSerializeValues of db/rocksdb_cloud_db.cc on any string, and its fuel.
use ycsb_c_cloud.Base.{
  ℕ, zero, suc, ◌+◌, ◌%◌, ◌^◌, ◌≤◌, ◌<◌, ◌≡◌, ◌≢◌, ◌⊎◌, inl, inr, refl, arith, Str, List, [], ◌∷◌,
  ◌++◌, length, drop, take, length-append, length-drop, Bool-cases, ltb, leb,
}
use ycsb_c_cloud.Coding.{Endian, load, decode_fixed64, object_value}
use ycsb_c_cloud.Values.{
  KvPair, Outcome, done, overrun, stuck, decode_at, read_at, advance, read_field, read_pair,
  deserialize_loop, deserialize_values,
}

-- An action on the buffer never runs out of fuel, and where it returns it stands `least` bytes or
-- more behind `offset`, and not past the buffer's end.
abbrev Moves : {A : Type 0} → Str → ℕ → ℕ → Outcome (A × ℕ) → Type 0
Moves buf offset least (done (a, offset')) = (offset + least ≤ offset') × (offset' ≤ length buf)
Moves buf offset least overrun = Unit
Moves buf offset least stuck = ⊥

decode_at_cases :
    (host : Endian) (buf : Str) (offset : ℕ)
    → (decode_at host buf offset ≡ overrun)
      ⊎ ((v : ℕ) × (decode_at host buf offset ≡ done v) × (offset + 8 ≤ length buf))
unfolding decode_at decode_fixed64 load
decode_at_cases host buf offset = elim (Bool-cases (leb 8 (length (drop offset buf)))) [
  | inl room ↦ inr (
    object_value host (take 8 (drop offset buf)),
    rw room,
    ground (arith, length-drop offset buf),
  )
  | inr short ↦ inl (rw short)
]

read_at_cases :
    (buf : Str) (offset n : ℕ)
    → offset ≤ length buf
    → (read_at buf offset n ≡ overrun)
      ⊎ ((s : Str) × (read_at buf offset n ≡ done s) × (offset + n ≤ length buf))
unfolding read_at load
read_at_cases buf offset n h = elim (Bool-cases (leb n (length (drop offset buf)))) [
  | inl room ↦ inr (take n (drop offset buf), rw room, ground (arith, length-drop offset buf))
  | inr short ↦ inl (rw short)
]

read_field-Moves :
    (host : Endian) (buf : Str) (offset : ℕ)
    → length buf < 2 ^ 64
    → Moves buf offset 8 (read_field host buf offset)
unfolding read_field
read_field-Moves host buf offset short = elim (decode_at_cases host buf offset) [
  | inl e ↦ rw e tt
  | inr (size, e, fits) ↦
      let eight : advance offset 8 ≡ offset + 8 = omega arith in
      rw (e, eight)
        (elim (read_at_cases buf (offset + 8) size (omega arith)) [
          | inl f ↦ rw f tt
          | inr (s, f, room) ↦ rw f (omega arith, omega arith)
        ])
]

Moves-cases :
    {A : Type 0} (buf : Str) (offset least : ℕ) (m : Outcome (A × ℕ))
    → Moves buf offset least m
    → (m ≡ overrun)
      ⊎ ((a : A) × (offset' : ℕ) × (m ≡ done (a, offset'))
          × (offset + least ≤ offset')
          × (offset' ≤ length buf))
Moves-cases buf offset least (done (a, offset')) h = inr (a, offset', refl, h.0, h.1)
Moves-cases buf offset least overrun h = inl refl
Moves-cases buf offset least stuck h = absurd h

read_pair-Moves :
    (host : Endian) (buf : Str) (offset : ℕ)
    → length buf < 2 ^ 64
    → Moves buf offset 16 (read_pair host buf offset)
unfolding read_pair
read_pair-Moves host buf offset short =
    elim (Moves-cases buf offset 8 _ (read_field-Moves host buf offset short)) [
      | inl e ↦ rw e tt
      | inr (key, mid, e, past, inside) ↦
          rw e (elim (Moves-cases buf mid 8 _ (read_field-Moves host buf mid short)) [
            | inl f ↦ rw f tt
            | inr (field, last, f, past', inside') ↦ rw f (omega arith, omega arith)
          ])
    ]

Outcome-cases {ℓ} :
    {A : Type ℓ} (m : Outcome A) → m ≢ stuck → (m ≡ overrun) ⊎ ((a : A) × (m ≡ done a))
Outcome-cases (done a) h = inr (a, refl)
Outcome-cases overrun h = inl refl
Outcome-cases stuck h = absurd (h refl)

deserialize_loop-ne-stuck :
    (host : Endian) (buf : Str) (fuel n i offset : ℕ) (kvs : List KvPair)
    → length buf < 2 ^ 64
    → offset ≤ length buf
    → length buf < fuel + offset
    → deserialize_loop host buf fuel n i offset kvs ≢ stuck
unfolding deserialize_loop
deserialize_loop-ne-stuck host buf zero n i offset kvs short inside enough = absurd (omega arith)
deserialize_loop-ne-stuck host buf (suc fuel) n i offset kvs short inside enough =
    elim (Bool-cases (ltb i n)) [
      | inr last ↦ rw last (λ e. cc)
      | inl more ↦
          rw more (elim (Moves-cases buf offset 16 _ (read_pair-Moves host buf offset short)) [
            | inl e ↦ rw e (λ e. cc)
            | inr (p, offset', e, past, inside') ↦ rw e (
                deserialize_loop-ne-stuck host buf fuel n ((i + 1) % 2 ^ 32) offset' (kvs ++ p ∷ [])
                  short inside' (omega arith))
          ])
    ]

-- On every string shorter than 2 ^ 64 - 1 bytes, written by SerializeValues or not,
-- DeSerializeValues ends: with pairs, or at the first read past the string's NUL.
pub deserialize_values-ends :
    (host : Endian) (value : Str) (kvs : List KvPair)
    → length value + 1 < 2 ^ 64
    → (deserialize_values host value kvs ≡ overrun)
      ⊎ ((out : List KvPair) × (deserialize_values host value kvs ≡ done out))
unfolding deserialize_values
deserialize_values-ends host value kvs short = elim (decode_at_cases host (value ++ 0 ∷ []) 0) [
  | inl e ↦ inl (rw e)
  | inr (n, e, fits) ↦ rw e (
      Outcome-cases _ (
        deserialize_loop-ne-stuck host (value ++ 0 ∷ []) (length (value ++ 0 ∷ []) + 1) n 0 8 kvs
          (omega (arith, length-append value (0 ∷ []))) (omega arith) (omega arith)))
]
