-- ===== src/Generators/Hash.antt =====
-- FNVHash64 and Hash of core/utils.h.
use ycsb_c_cloud.Base.{
  ℕ, zero, suc, ◌*◌, ◌/◌, ◌%◌, ◌^◌, ◌≡◌, refl, ap, ◌∙◌, arith, bit_and, bit_xor, bit_and_byte, Str,
  [], ◌∷◌,
}
use ycsb_c_cloud.Coding.{IsU64}
use ycsb_c_cloud.Coding.Bytes.{le_bytes}

abbrev pub k_fnv_offset_basis64 : ℕ
k_fnv_offset_basis64 = 0xCBF29CE484222325

abbrev pub k_fnv_prime64 : ℕ
k_fnv_prime64 = 1099511628211

-- The rounds left, `hash` and `val`.
fnv_loop : ℕ → ℕ → ℕ → ℕ
fnv_loop zero hash val = hash
fnv_loop (suc n) hash val =
    let octet = bit_and val 0x00ff in
    fnv_loop n (bit_xor hash octet * k_fnv_prime64 % 2 ^ 64) (val / 2 ^ 8)

unfoldable pub fnv_hash64 : ℕ → ℕ
unfolding fnv_loop
fnv_hash64 val = fnv_loop 8 k_fnv_offset_basis64 val

unfoldable pub hash : ℕ → ℕ
unfolding fnv_hash64
hash val = fnv_hash64 val

-- FNV-1a over a sequence of bytes.
pub fnv_1a : ℕ → Str → ℕ
fnv_1a h [] = h
fnv_1a h (b ∷ s) = fnv_1a (bit_xor h b * k_fnv_prime64 % 2 ^ 64) s

fnv_loop-eq : (n h v : ℕ) → fnv_loop n h v ≡ fnv_1a h (le_bytes n v)
unfolding fnv_loop fnv_1a le_bytes
fnv_loop-eq zero h v = refl
fnv_loop-eq (suc n) h v =
    fnv_loop-eq n (bit_xor h (bit_and v 0xff) * k_fnv_prime64 % 2 ^ 64) (v / 256)
    ∙ ap (λ o. fnv_1a (bit_xor h o * k_fnv_prime64 % 2 ^ 64) (le_bytes n (v / 256)))
        (bit_and_byte v)

-- FNVHash64 of a number is FNV-1a over the number's eight bytes, lowest first, from the offset basis.
pub fnv_hash64-fnv_1a : (v : ℕ) → fnv_hash64 v ≡ fnv_1a k_fnv_offset_basis64 (le_bytes 8 v)
unfolding fnv_hash64
fnv_hash64-fnv_1a v = fnv_loop-eq 8 k_fnv_offset_basis64 v

fnv_loop-lt : (n h v : ℕ) → IsU64 h → IsU64 (fnv_loop n h v)
unfolding fnv_loop
fnv_loop-lt zero h v lt = lt
fnv_loop-lt (suc n) h v lt = fnv_loop-lt n _ (v / 256) (omega arith)

pub fnv_hash64-IsU64 : (v : ℕ) → IsU64 (fnv_hash64 v)
unfolding fnv_hash64
fnv_hash64-IsU64 v = fnv_loop-lt 8 k_fnv_offset_basis64 v (omega arith)
