-- ===== src/HashString/Equality.antt =====
-- The hash and the comparison of lib/string.h.
use ycsb_c_cloud.Base.{ℕ, ◌+◌, ◌*◌, ◌%◌, ◌^◌, ◌≡◌, refl, arith, true, Str, [], ◌∷◌, str_eq_iff, ◌↔◌}
use ycsb_c_cloud.HashString.{widened, sdbm_round, sdbm_loop, sdbm_hash, wrap, equal}

-- The hash as a polynomial of the bytes, without shifts and on numbers of any size.
abbrev pub polynomial : Str → ℕ → ℕ
polynomial [] hash = hash
polynomial (c ∷ cstr) hash = polynomial cstr (hash * 65599 + widened c)

sdbm_round-polynomial :
    (hash h c : ℕ) → hash ≡ h % 2 ^ 64 → sdbm_round hash c ≡ (h * 65599 + widened c) % 2 ^ 64
unfolding sdbm_round
sdbm_round-polynomial hash h c same = omega (arith, same)

sdbm_loop-polynomial :
    (cstr : Str) (hash h : ℕ) → hash ≡ h % 2 ^ 64 → sdbm_loop cstr hash ≡ polynomial cstr h % 2 ^ 64
unfolding sdbm_loop
sdbm_loop-polynomial [] hash h same = same
sdbm_loop-polynomial (c ∷ cstr) hash h same =
    sdbm_loop-polynomial cstr (sdbm_round hash c) (h * 65599 + widened c)
      (sdbm_round-polynomial hash h c same)

-- SDBMHash is the polynomial in 65599 whose coefficients are the characters of the string, each
-- extended with its sign to 64 bits, modulo 2 ^ 64.
pub sdbm_hash-polynomial : (cstr : Str) → sdbm_hash cstr ≡ polynomial cstr 0 % 2 ^ 64
unfolding sdbm_hash
sdbm_hash-polynomial cstr = sdbm_loop-polynomial cstr 0 0 refl

-- Two wrapped strings compare equal just where the strings are equal: the comparison of the hashes
-- never tells equal strings apart.
equal-wrap : (s t : Str) → (equal (wrap s) (wrap t) ≡ true) ↔ (s ≡ t)
unfolding equal wrap
equal-wrap s t = ground (arith, str_eq_iff s t)
