-- ===== src/Timers.antt =====
-- get_now_micros of core/timer.h, which db/rocksdb_cloud_db.h and db/rocksdb_db.h repeat. What
-- gettimeofday writes is its argument, for a clock that does not go back behind 1970, and whose
-- microseconds fit `time_t`.
use ycsb_c_cloud.Base.{ℕ, ◌+◌, ◌-◌, ◌*◌, ◌%◌, ◌^◌, ◌<◌, ◌≡◌, arith}

pub record Timeval : Type 0 where
  pub tv_sec : ℕ
  pub tv_usec : ℕ

abbrev pub micros : Timeval → ℕ
micros tv = tv.tv_sec * 1000000 + tv.tv_usec

unfoldable pub get_now_micros : Timeval → ℕ
get_now_micros tv = micros tv % 2 ^ 64

wrapped_difference :
    (a b elapsed : ℕ)
    → b ≡ a + elapsed
    → elapsed < 2 ^ 64
    → (b % 2 ^ 64 + 2 ^ 64 - a % 2 ^ 64) % 2 ^ 64 ≡ elapsed
wrapped_difference a b elapsed e small = omega arith

pub elapsed_micros :
    (start end : Timeval) (elapsed : ℕ)
    → micros end ≡ micros start + elapsed
    → elapsed < 2 ^ 64
    → (get_now_micros end + 2 ^ 64 - get_now_micros start) % 2 ^ 64 ≡ elapsed
unfolding get_now_micros
elapsed_micros start end elapsed e small =
    wrapped_difference (micros start) (micros end) elapsed e small
