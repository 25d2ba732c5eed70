-- ===== src/Statistics/Sums.antt =====
-- Sums of differences of tickers, as uint64_t.
use ycsb_c_cloud.Base.{ℕ, ◌+◌, ◌%◌, ◌^◌, ◌<◌, ◌≡◌, refl, arith, List, [], ◌∷◌}
use ycsb_c_cloud.Statistics.{
  RocksdbStatistics, Amounts, amounts_of, to_uint64, sub_uint64, deltas, Second, Report, no_amounts,
}

abbrev pub add_uint64 : ℕ → ℕ → ℕ
add_uint64 a b = (a + b) % 2 ^ 64

abbrev pub plus : Amounts → Amounts → Amounts
plus a b = record {
  bytes_read = add_uint64 a.bytes_read b.bytes_read;
  bytes_write = add_uint64 a.bytes_write b.bytes_write;
  number_keys_write = add_uint64 a.number_keys_write b.number_keys_write;
  number_keys_read = add_uint64 a.number_keys_read b.number_keys_read;
  number_db_seek = add_uint64 a.number_db_seek b.number_db_seek;
  number_db_next = add_uint64 a.number_db_next b.number_db_next;
  number_db_prev = add_uint64 a.number_db_prev b.number_db_prev;
  iter_bytes_read = add_uint64 a.iter_bytes_read b.iter_bytes_read;
}

-- What the reports say of their intervals, added up.
abbrev pub total : List Report → Amounts
total [] = no_amounts
total (r ∷ rs) = plus r.interval (total rs)

abbrev pub newest : Amounts → List Second → Amounts
newest a [] = a
newest a (r ∷ rs) = newest (amounts_of r.statistics) rs

pub record Fits (a : Amounts) : Type 0 where
  pub f1 : a.bytes_read < 2 ^ 64
  pub f2 : a.bytes_write < 2 ^ 64
  pub f3 : a.number_keys_write < 2 ^ 64
  pub f4 : a.number_keys_read < 2 ^ 64
  pub f5 : a.number_db_seek < 2 ^ 64
  pub f6 : a.number_db_next < 2 ^ 64
  pub f7 : a.number_db_prev < 2 ^ 64
  pub f8 : a.iter_bytes_read < 2 ^ 64

wrapped : (n : ℕ) → to_uint64 n < 2 ^ 64
wrapped n = omega arith

pub amounts_of-Fits : (s : RocksdbStatistics) → Fits (amounts_of s)
unfolding amounts_of
amounts_of-Fits s = record {
  f1 = omega arith;
  f2 = omega arith;
  f3 = omega arith;
  f4 = omega arith;
  f5 = omega arith;
  f6 = omega arith;
  f7 = omega arith;
  f8 = omega arith;
}

sub-same : (a : ℕ) → a < 2 ^ 64 → sub_uint64 a a ≡ 0
sub-same a h = omega arith

sub-zero : (a : ℕ) → a < 2 ^ 64 → sub_uint64 a 0 ≡ a
sub-zero a h = omega arith

sub_trans :
    (a b c : ℕ)
    → a < 2 ^ 64
    → b < 2 ^ 64
    → add_uint64 (sub_uint64 b a) (sub_uint64 c b) ≡ sub_uint64 c a
sub_trans a b c ha hb = omega arith

pub deltas-same : (a : Amounts) → Fits a → no_amounts ≡ deltas a a
unfolding deltas
deltas-same a h =
    rw
      (
        sub-same _ h.f1,
        sub-same _ h.f2,
        sub-same _ h.f3,
        sub-same _ h.f4,
        sub-same _ h.f5,
        sub-same _ h.f6,
        sub-same _ h.f7,
        sub-same _ h.f8,
      )
      refl

pub deltas-start : (a : Amounts) → Fits a → deltas a no_amounts ≡ a
unfolding deltas
deltas-start a h =
    rw
      (
        sub-zero _ h.f1,
        sub-zero _ h.f2,
        sub-zero _ h.f3,
        sub-zero _ h.f4,
        sub-zero _ h.f5,
        sub-zero _ h.f6,
        sub-zero _ h.f7,
        sub-zero _ h.f8,
      )
      refl

pub deltas_trans : (a b c : Amounts) → Fits a → Fits b → plus (deltas b a) (deltas c b) ≡ deltas c a
unfolding deltas
deltas_trans a b c ha hb =
    rw
      (
        sub_trans _ _ _ ha.f1 hb.f1,
        sub_trans _ _ _ ha.f2 hb.f2,
        sub_trans _ _ _ ha.f3 hb.f3,
        sub_trans _ _ _ ha.f4 hb.f4,
        sub_trans _ _ _ ha.f5 hb.f5,
        sub_trans _ _ _ ha.f6 hb.f6,
        sub_trans _ _ _ ha.f7 hb.f7,
        sub_trans _ _ _ ha.f8 hb.f8,
      )
      refl

pub newest-Fits : (a : Amounts) (rs : List Second) → Fits a → Fits (newest a rs)
newest-Fits a [] h = h
newest-Fits a (r ∷ rs) h = newest-Fits (amounts_of r.statistics) rs (amounts_of-Fits r.statistics)

pub zero-Fits : Fits no_amounts
zero-Fits = record {
  f1 = omega arith;
  f2 = omega arith;
  f3 = omega arith;
  f4 = omega arith;
  f5 = omega arith;
  f6 = omega arith;
  f7 = omega arith;
  f8 = omega arith;
}
