-- ===== src/Numbers/Decimal.antt =====
-- Decimal digits: what was printed is read.
use ycsb_c_cloud.Base.{
  length, ℕ, zero, suc, ◌+◌, ◌-◌, ◌*◌, ◌/◌, ◌%◌, ◌^◌, ◌<◌, ◌≤◌, ◌≡◌, ap, sym, ◌∙◌, arith, Bool,
  true, false, ◌&&◌, Str, [], ◌∷◌, ltb, leb, ltb→lt, lt→ltb, Bool-cases, inl, inr,
}
use ycsb_c_cloud.Numbers.{digits, to_string, is_digit, read_number}

pub digit-is_digit : (k : ℕ) → k < 10 → is_digit (48 + k) ≡ true
digit-is_digit k h = ground arith

read_number-digit :
    (a k : ℕ) (s : Str) → k < 10 → read_number a ((48 + k) ∷ s) ≡ read_number (a * 10 + k) s
unfolding read_number
read_number-digit a k s h = rw (digit-is_digit k h) (ap (λ m. read_number m s) same)
  where
    same : a * 10 + (48 + k - 48) ≡ a * 10 + k
    same = omega arith

read_number-first : (k : ℕ) (s : Str) → k < 10 → read_number 0 ((48 + k) ∷ s) ≡ read_number k s
read_number-first k s h = read_number-digit 0 k s h ∙ ap (λ m. read_number m s) (plain)
  where
    plain : 0 * 10 + k ≡ k
    plain = omega arith

div-regroup : (n : ℕ) → n / 10 * 10 + n % 10 ≡ n
div-regroup n = omega arith

-- The number that was printed is read, and then what follows.
pub read_number-digits :
    (fuel n : ℕ) (s : Str)
    → n < 10 ^ suc fuel
    → read_number 0 (digits (suc fuel) n s) ≡ read_number n s
unfolding digits
read_number-digits zero n s h = rw (lt→ltb n 10 (omega arith)) (read_number-first n s (omega arith))
read_number-digits (suc fuel) n s h = elim (Bool-cases (ltb n 10)) [
  | inl small ↦ rw (small) (read_number-first n s (ltb→lt n 10 small))
  | inr large ↦ rw (
    large,
    read_number-digits fuel (n / 10) ((48 + n % 10) ∷ s) (omega arith),
    read_number-digit (n / 10) (n % 10) s (omega arith),
    div-regroup n,
  )
]

-- A uint64_t is read back from its decimal digits.
pub read_number-to_string : (n : ℕ) → n < 2 ^ 64 → read_number 0 (to_string n) ≡ n
unfolding to_string read_number
read_number-to_string n h = read_number-digits 19 n [] (omega arith)

pub to_string-injective : (m n : ℕ) → m < 2 ^ 64 → n < 2 ^ 64 → to_string m ≡ to_string n → m ≡ n
to_string-injective m n hm hn same =
    sym (read_number-to_string m hm) ∙ ap (read_number 0) same ∙ read_number-to_string n hn

abbrev pub starts_with_digit : Str → Bool
starts_with_digit [] = false
starts_with_digit (c ∷ s) = leb 48 c && leb c 57

digits-digit :
    (fuel n : ℕ) (s : Str) → starts_with_digit s ≡ true → starts_with_digit (digits fuel n s) ≡ true
unfolding digits
digits-digit zero n s h = h
digits-digit (suc fuel) n s h = elim (Bool-cases (ltb n 10)) [
  | inl small ↦ rw (small) (digit-is_digit n (ltb→lt n 10 small))
  | inr large ↦
      rw (large)
        (digits-digit fuel (n / 10) ((48 + n % 10) ∷ s) (digit-is_digit (n % 10) (omega arith)))
]

pub digits-suc-digit : (fuel n : ℕ) (s : Str) → starts_with_digit (digits (suc fuel) n s) ≡ true
unfolding digits
digits-suc-digit fuel n s = elim (Bool-cases (ltb n 10)) [
  | inl small ↦ rw (small) (digit-is_digit n (ltb→lt n 10 small))
  | inr large ↦
      rw (large)
        (digits-digit fuel (n / 10) ((48 + n % 10) ∷ s) (digit-is_digit (n % 10) (omega arith)))
]

pub to_string-digit : (n : ℕ) → starts_with_digit (to_string n) ≡ true
unfolding to_string
to_string-digit n = digits-suc-digit 19 n []

length-digits : (fuel n : ℕ) (s : Str) → length (digits fuel n s) ≤ fuel + length s
unfolding digits
length-digits zero n s = omega arith
length-digits (suc fuel) n s = elim (Bool-cases (ltb n 10)) [
  | inl small ↦ rw (small) (omega arith)
  | inr large ↦ rw (large) (omega (arith, length-digits fuel (n / 10) ((48 + n % 10) ∷ s)))
]

-- A uint64_t has twenty digits at most.
pub length-to_string : (n : ℕ) → length (to_string n) ≤ 20
unfolding to_string
length-to_string n = length-digits 20 n []
