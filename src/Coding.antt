-- ===== src/Coding.antt =====
-- lib/coding.h: fixed-width integers as bytes. A `char *` is the list of the bytes from it to the
-- end of its buffer, and a read past that end is `none`.
pub mod Bytes
pub mod RoundTrip
mod Runs
pub use Bytes.{Endian, little, big, IsU32, IsU64}
unfoldable pub use Bytes.{object_bytes, object_value, load}
use ycsb_c_cloud.Base.{
  ℕ, ◌+◌, ◌*◌, ◌/◌, ◌%◌, ◌^◌, bit_and, bit_or, Bool, true, Option, none, some, Str, List, [], ◌∷◌,
  ◌++◌, drop, get_or, if◌then◌else◌,
}
use mathlib.Core.Option

-- `#define KLittleEndian true`
abbrev pub k_little_endian : Bool
k_little_endian = true

-- One byte of `value`: `(value >> shift) & 0xff`.
abbrev pub octet : ℕ → ℕ → ℕ
octet value shift = bit_and (value / 2 ^ shift) 0xff

-- `flag` is the macro's value, and `host` the byte order that `memcpy` shows.
unfoldable pub encode_fixed32 : Bool → Endian → ℕ → Str
encode_fixed32 flag host value =
    if flag
    then object_bytes host 4 value
    else (octet value 0 ∷ octet value 8 ∷ octet value 16 ∷ octet value 24 ∷ [])

unfoldable pub encode_fixed64 : Bool → Endian → ℕ → Str
encode_fixed64 flag host value =
    if flag
    then object_bytes host 8 value
    else (octet value 0
        ∷ octet value 8
        ∷ octet value 16
        ∷ octet value 24
        ∷ octet value 32
        ∷ octet value 40
        ∷ octet value 48
        ∷ octet value 56
        ∷ [])

-- The four bytes joined by `|` and `<<` on uint32_t.
join32 : Str → ℕ
join32 p =
    bit_or
      (bit_or (bit_or (get_or p 0 0) (get_or p 1 0 * 2 ^ 8 % 2 ^ 32))
        (get_or p 2 0 * 2 ^ 16 % 2 ^ 32))
      (get_or p 3 0 * 2 ^ 24 % 2 ^ 32)

unfoldable pub decode_fixed32 : Bool → Endian → Str → Option ℕ
unfolding join32
decode_fixed32 flag host ptr =
    Option.map (λ p. if flag then object_value host p else join32 p) (load 4 ptr)

-- `lo` and `hi` joined on uint64_t.
join64 : Option ℕ → Option ℕ → Option ℕ
join64 (some lo) (some hi) = some (bit_or (hi * 2 ^ 32 % 2 ^ 64) lo)
join64 lo hi = none

unfoldable pub decode_fixed64 : Bool → Endian → Str → Option ℕ
unfolding join64
decode_fixed64 flag host ptr =
    if flag
    then Option.map (object_value host) (load 8 ptr)
    else join64 (decode_fixed32 flag host ptr) (decode_fixed32 flag host (drop 4 ptr))

-- `dst->append(buf, sizeof(buf))`
unfoldable pub put_fixed32 : Endian → Str → ℕ → Str
put_fixed32 host dst value = dst ++ encode_fixed32 k_little_endian host value

unfoldable pub put_fixed64 : Endian → Str → ℕ → Str
put_fixed64 host dst value = dst ++ encode_fixed64 k_little_endian host value
