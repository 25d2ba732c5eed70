-- ===== src/HashString/Runs.antt =====
-- Runs of the hashed strings at concrete inputs.
use ycsb_c_cloud.Base.{◌+◌, ◌-◌, ◌*◌, ◌%◌, ◌^◌, ◌++◌, ◌≡◌, refl, [], ◌∷◌, codes}
use ycsb_c_cloud.HashString.{sdbm_hash, sdbm_round}
use ycsb_c_cloud.HashString.Equality.{polynomial, sdbm_hash-polynomial}

hash_of_a : sdbm_hash (codes "ab") ≡ 97 * 65599 + 98
unfolding sdbm_hash sdbm_round
hash_of_a = refl

-- The byte 255 counts as -1.
hash_of_high : sdbm_hash (255 ∷ 1 ∷ []) ≡ 2 ^ 64 - 65598
unfolding sdbm_hash sdbm_round
hash_of_high = refl

sdbm_hash-polynomial_example :
    sdbm_hash (codes "user" ++ 200 ∷ []) ≡ polynomial (codes "user" ++ 200 ∷ []) 0 % 2 ^ 64
sdbm_hash-polynomial_example = sdbm_hash-polynomial (codes "user" ++ 200 ∷ [])
