-- ===== src/Coding/RoundTrip.antt =====
-- The branches of lib/coding.h, and decoding behind encoding.
use ycsb_c_cloud.Base.{
  ℕ, ◌+◌, ◌*◌, ◌/◌, ◌%◌, ◌^◌, ◌<◌, ◌≡◌, refl, sym, ap, ◌∙◌, arith, Bool, true, false, some, Str, [],
  ◌∷◌, ◌++◌, length, bit_and_byte, bit_or_join, bit_or_join_high, append_assoc, drop,
  drop-length-append,
}
use mathlib.Core.List.{reverse}
use native.Mathlib.Nat.{mod-eq_of_lt}
use ycsb_c_cloud.Coding.Bytes.{
  Endian, little, big, IsU32, IsU64, le_bytes, object_bytes, length-le_bytes, length-object_bytes,
  object_value-object_bytes, load-append,
}
use ycsb_c_cloud.Coding.{
  octet, encode_fixed32, encode_fixed64, join32, decode_fixed32, decode_fixed64, put_fixed64,
  k_little_endian,
}

-- Octet `k` of the explicit branch is digit `k` of the number in base 256.
octet_digit : (v s : ℕ) → octet v s ≡ v / 2 ^ s % 256
octet_digit v s = bit_and_byte (v / 2 ^ s)

explicit32 : (host : Endian) (v : ℕ) → encode_fixed32 false host v ≡ le_bytes 4 v
unfolding encode_fixed32 le_bytes
explicit32 host v = simp bit_and_byte (ground arith)

explicit64 : (host : Endian) (v : ℕ) → encode_fixed64 false host v ≡ le_bytes 8 v
unfolding encode_fixed64 le_bytes
explicit64 host v = simp bit_and_byte (ground arith)

explicit64_halves :
    (host : Endian) (v : ℕ)
    → encode_fixed64 false host v
      ≡ encode_fixed32 false host v ++ encode_fixed32 false host (v / 2 ^ 32)
unfolding encode_fixed32 encode_fixed64
explicit64_halves host v = simp bit_and_byte (ground arith)

-- A shift that stays below the word's width loses nothing.
shift_fits : (b k : ℕ) → b * 2 ^ k < 2 ^ 32 → b * 2 ^ k % 2 ^ 32 ≡ b * 2 ^ k
shift_fits b k h = mod-eq_of_lt h

join32_sum :
    (a b c d : ℕ) (rest : Str)
    → a < 256
    → b < 256
    → c < 256
    → d < 256
    → join32 (a ∷ b ∷ c ∷ d ∷ rest) ≡ a + b * 2 ^ 8 + c * 2 ^ 16 + d * 2 ^ 24
unfolding join32
join32_sum a b c d rest ha hb hc hd = rw (
  shift_fits b 8 (omega arith),
  shift_fits c 16 (omega arith),
  shift_fits d 24 (omega arith),
  bit_or_join 8 a b (omega arith),
  bit_or_join 16 (a + b * 2 ^ 8) c (omega arith),
  bit_or_join 24 (a + b * 2 ^ 8 + c * 2 ^ 16) d (omega arith),
)

join32-le_bytes : (v : ℕ) → IsU32 v → join32 (le_bytes 4 v) ≡ v
unfolding le_bytes
join32-le_bytes v h = omega (
  arith,
  join32_sum (v % 256) (v / 256 % 256) (v / 256 / 256 % 256) (v / 256 / 256 / 256 % 256) []
      (omega arith) (omega arith) (omega arith) (omega arith),
)

-- What the explicit branch of `DecodeFixed32` reads from four bytes and from more.
decode_explicit32 :
    (host : Endian) (v : ℕ) (rest : Str)
    → IsU32 v
    → decode_fixed32 false host (le_bytes 4 v ++ rest) ≡ some v
unfolding decode_fixed32
decode_explicit32 host v rest h =
    rw (load-append 4 (le_bytes 4 v) rest (length-le_bytes 4 v)) (ap some (join32-le_bytes v h))

-- Decoding the four bytes that `EncodeFixed32` wrote gives the number back, whatever follows them,
-- in either branch of the macro and on a host of either byte order.
pub decode_fixed32-encode_fixed32 :
    (flag : Bool) (host : Endian) (v : ℕ) (rest : Str)
    → IsU32 v
    → decode_fixed32 flag host (encode_fixed32 flag host v ++ rest) ≡ some v
decode_fixed32-encode_fixed32 true host v rest h =
    unfold encode_fixed32 decode_fixed32 in
    rw (load-append 4 (object_bytes host 4 v) rest (length-object_bytes host 4 v))
      (ap some (object_value-object_bytes host 4 v h))
decode_fixed32-encode_fixed32 false host v rest h =
    ap (λ p. decode_fixed32 false host (p ++ rest)) (explicit32 host v)
    ∙ decode_explicit32 host v rest h

decode_explicit64 :
    (host : Endian) (lo hi : ℕ) (rest : Str)
    → IsU32 lo
    → IsU32 hi
    → decode_fixed64 false host (le_bytes 4 lo ++ (le_bytes 4 hi ++ rest)) ≡ some (hi * 2 ^ 32 + lo)
unfolding decode_fixed64
decode_explicit64 host lo hi rest hlo hhi =
    rw
      (
        decode_explicit32 host lo (le_bytes 4 hi ++ rest) hlo,
        drop_four lo (le_bytes 4 hi ++ rest),
        decode_explicit32 host hi rest hhi,
      )
      (ap some (rw (high hhi) (bit_or_join_high 32 lo hi hlo)))
  where
    high : IsU32 hi → hi * 2 ^ 32 % 2 ^ 64 ≡ hi * 2 ^ 32
    high fits = omega arith

    drop_four : (v : ℕ) (p : Str) → drop 4 (le_bytes 4 v ++ p) ≡ p
    drop_four v p = unfold le_bytes in refl

-- Decoding the eight bytes that `EncodeFixed64` wrote gives the number back, whatever follows
-- them, in either branch of the macro and on a host of either byte order.
pub decode_fixed64-encode_fixed64 :
    (flag : Bool) (host : Endian) (v : ℕ) (rest : Str)
    → IsU64 v
    → decode_fixed64 flag host (encode_fixed64 flag host v ++ rest) ≡ some v
decode_fixed64-encode_fixed64 true host v rest h =
    unfold encode_fixed64 decode_fixed64 in
    rw (load-append 8 (object_bytes host 8 v) rest (length-object_bytes host 8 v))
      (ap some (object_value-object_bytes host 8 v h))
decode_fixed64-encode_fixed64 false host v rest h =
    ap (λ p. decode_fixed64 false host (p ++ rest)) halves
    ∙ ap (decode_fixed64 false host) (append_assoc (le_bytes 4 (v % 2 ^ 32)) _ rest)
    ∙ (decode_explicit64 host (v % 2 ^ 32) (v / 2 ^ 32) rest (omega arith) (omega arith)
        ∙ ap some (omega arith))
  where
    halves : encode_fixed64 false host v ≡ le_bytes 4 (v % 2 ^ 32) ++ le_bytes 4 (v / 2 ^ 32)
    halves = explicit64 host v ∙ (unfold le_bytes in ground arith)

-- On a little-endian host the `memcpy` branches and the explicit branches of `EncodeFixed32` and
-- `EncodeFixed64` write the same bytes, which on a big-endian host come in the reverse order.
encode_branches :
    (v : ℕ)
    → (encode_fixed32 true little v ≡ encode_fixed32 false little v)
      × (encode_fixed64 true little v ≡ encode_fixed64 false little v)
      × (encode_fixed32 true big v ≡ reverse (encode_fixed32 false big v))
      × (encode_fixed64 true big v ≡ reverse (encode_fixed64 false big v))
encode_branches v = (
  unfold encode_fixed32 object_bytes in sym (explicit32 little v),
  unfold encode_fixed64 object_bytes in sym (explicit64 little v),
  rw (explicit32 big v) (unfold encode_fixed32 object_bytes in refl),
  rw (explicit64 big v) (unfold encode_fixed64 object_bytes in refl),
)

-- What `PutFixed64` appends is read back by `DecodeFixed64` at the old end of the string.
pub decode_fixed64-put_fixed64 :
    (host : Endian) (dst rest : Str) (v : ℕ)
    → IsU64 v
    → decode_fixed64 k_little_endian host (drop (length dst) (put_fixed64 host dst v ++ rest))
      ≡ some v
unfolding put_fixed64
decode_fixed64-put_fixed64 host dst rest v h =
    ap (decode_fixed64 true host)
      (ap (drop (length dst)) (append_assoc dst _ rest) ∙ drop-length-append dst _)
    ∙ decode_fixed64-encode_fixed64 true host v rest h

pub length-encode_fixed64 :
    (flag : Bool) (host : Endian) (v : ℕ) → length (encode_fixed64 flag host v) ≡ 8
unfolding encode_fixed64
length-encode_fixed64 true host v = length-object_bytes host 8 v
length-encode_fixed64 false host v = refl
