-- ===== src/Coding/Bytes.antt =====
-- The object representation of an unsigned integer, which `memcpy` copies out and in.
use ycsb_c_cloud.Base.{
  ℕ, zero, suc, ◌+◌, ◌*◌, ◌/◌, ◌%◌, ◌^◌, ◌<◌, ◌≡◌, refl, ap, ◌∙◌, arith, Option, none, some, Str,
  [], ◌∷◌, ◌++◌, length, take, take-length-append, length-append, All, IsByte, leb, if◌then◌else◌,
}
use mathlib.Core.List.{reverse, reverse-cons, reverse-reverse}
use native.Mathlib.Nat.{pow-suc}

pub data Endian : Type 0 where
  little big : Endian

abbrev pub IsU32 : ℕ → Type 0
IsU32 v = v < 2 ^ 32

abbrev pub IsU64 : ℕ → Type 0
IsU64 v = v < 2 ^ 64

-- `k` bytes, lowest first, and the number that bytes stand for.
unfoldable pub le_bytes : ℕ → ℕ → Str
le_bytes zero v = []
le_bytes (suc k) v = (v % 256) ∷ le_bytes k (v / 256)

unfoldable pub le_value : Str → ℕ
le_value [] = 0
le_value (b ∷ s) = b + 256 * le_value s

unfoldable pub object_bytes : Endian → ℕ → ℕ → Str
unfolding le_bytes
object_bytes little k v = le_bytes k v
object_bytes big k v = reverse (le_bytes k v)

unfoldable pub object_value : Endian → Str → ℕ
unfolding le_value
object_value little s = le_value s
object_value big s = le_value (reverse s)

-- The first `n` bytes at a pointer.
unfoldable pub load : ℕ → Str → Option Str
load n s = if leb n (length s) then some (take n s) else none

pub length-le_bytes : (k v : ℕ) → length (le_bytes k v) ≡ k
unfolding le_bytes
length-le_bytes zero v = refl
length-le_bytes (suc k) v = ap suc (length-le_bytes k (v / 256))

le_bytes-IsByte : (k v : ℕ) → All IsByte (le_bytes k v)
unfolding le_bytes
le_bytes-IsByte zero v = tt
le_bytes-IsByte (suc k) v = (omega arith, le_bytes-IsByte k (v / 256))

le_value-le_bytes : (k v : ℕ) → v < 256 ^ k → le_value (le_bytes k v) ≡ v
unfolding le_bytes le_value
le_value-le_bytes zero v h = omega arith
le_value-le_bytes (suc k) v h =
    omega (arith, le_value-le_bytes k (v / 256) (omega (arith, pow-suc 256 k)))

length-reverse : (s : Str) → length (reverse s) ≡ length s
length-reverse [] = refl
length-reverse (b ∷ s) =
    rw (reverse-cons b s) (omega (arith, length-append (reverse s) (b ∷ []), length-reverse s))

pub length-object_bytes : (host : Endian) (k v : ℕ) → length (object_bytes host k v) ≡ k
unfolding object_bytes
length-object_bytes little k v = length-le_bytes k v
length-object_bytes big k v = length-reverse (le_bytes k v) ∙ length-le_bytes k v

pub object_value-object_bytes :
    (host : Endian) (k v : ℕ) → v < 256 ^ k → object_value host (object_bytes host k v) ≡ v
unfolding object_bytes object_value
object_value-object_bytes little k v h = le_value-le_bytes k v h
object_value-object_bytes big k v h = rw reverse-reverse (le_value-le_bytes k v h)

-- A read of `n` bytes succeeds just where `n` bytes are left, and returns them.
pub load-append : (n : ℕ) (p rest : Str) → length p ≡ n → load n (p ++ rest) ≡ some p
unfolding load
load-append n p rest e = rw (← e) (ground (arith, length-append p rest, take-length-append p rest))
