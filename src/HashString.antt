-- ===== src/HashString.antt =====
-- The class String of lib/string.h: a C string with its length and its SDBM hash.
pub mod Equality
mod Runs
use ycsb_c_cloud.Base.{
  ℕ, ◌+◌, ◌-◌, ◌*◌, ◌%◌, ◌^◌, Bool, false, Str, [], ◌∷◌, length, ltb, str_eq, ◌==◌, if◌then◌else◌,
}

-- The members. The pointer `value_` is the string that it points to, up to its NUL.
pub record HashString : Type 0 where
  pub hash : ℕ
  pub value : Str
  pub len : ℕ

-- `c = *cstr++` on uint64_t: where a char is signed, as on x86-64, a byte from 128 on is
-- extended by ones.
abbrev pub widened : ℕ → ℕ
widened c = if ltb c 128 then c else c + 2 ^ 64 - 2 ^ 8

-- One round of the loop of SDBMHash.
unfoldable pub sdbm_round : ℕ → ℕ → ℕ
sdbm_round hash c =
    (widened c + hash * 2 ^ 6 % 2 ^ 64 + hash * 2 ^ 16 % 2 ^ 64 + (2 ^ 64 - hash)) % 2 ^ 64

sdbm_loop : Str → ℕ → ℕ
sdbm_loop [] hash = hash
sdbm_loop (c ∷ cstr) hash = sdbm_loop cstr (sdbm_round hash c)

unfoldable pub sdbm_hash : Str → ℕ
unfolding sdbm_loop
sdbm_hash cstr = sdbm_loop cstr 0

-- `Wrap`, which is `Copy` too, where the memory that the latter asks for is there.
unfoldable pub wrap : Str → HashString
wrap v = record { hash = sdbm_hash v; value = v; len = length v }

-- `operator==`
unfoldable pub equal : HashString → HashString → Bool
equal s other = if s.hash == other.hash then str_eq s.value other.value else false
