-- ===== src/Numbers/Extract.antt =====
-- `>>` behind a printed number.
use ycsb_c_cloud.Base.{
  ℕ, zero, suc, ◌+◌, ◌-◌, ◌/◌, ◌%◌, ◌^◌, ◌<◌, ◌≤◌, ◌≡◌, refl, ◌∙◌, arith, true, false, some, Str,
  [], ◌∷◌, ◌++◌, ltb, ◌==◌, ltb→lt, Bool-cases, inl, inr, All, append-nil,
}
use ycsb_c_cloud.Properties.{is_space, skip_spaces}
use ycsb_c_cloud.Properties.Loading.{Lacks}
use ycsb_c_cloud.Numbers.{
  pos, digits, to_string, read_number, drop_number, read_magnitude, read_signed, extract, stoll,
}
use ycsb_c_cloud.Numbers.Decimal.{
  starts_with_digit, digit-is_digit, digits-suc-digit, read_number-digits,
}

digits-append : (fuel n : ℕ) (s t : Str) → digits fuel n s ++ t ≡ digits fuel n (s ++ t)
unfolding digits
digits-append zero n s t = refl
digits-append (suc fuel) n s t = elim (Bool-cases (ltb n 10)) [
  | inl small ↦ rw (small) refl
  | inr large ↦ rw (large) (digits-append fuel (n / 10) ((48 + n % 10) ∷ s) t)
]

drop_number-digit : (k : ℕ) (s : Str) → k < 10 → drop_number ((48 + k) ∷ s) ≡ drop_number s
unfolding drop_number
drop_number-digit k s h = rw (digit-is_digit k h) refl

drop_number-digits : (fuel n : ℕ) (s : Str) → drop_number (digits fuel n s) ≡ drop_number s
unfolding digits
drop_number-digits zero n s = refl
drop_number-digits (suc fuel) n s = elim (Bool-cases (ltb n 10)) [
  | inl small ↦ rw (small) (drop_number-digit n s (ltb→lt n 10 small))
  | inr large ↦ rw (large) (
      drop_number-digits fuel (n / 10) ((48 + n % 10) ∷ s)
      ∙ drop_number-digit (n % 10) s (omega arith))
]

read_number-end : (n : ℕ) (s : Str) → starts_with_digit s ≡ false → read_number n s ≡ n
unfolding read_number
read_number-end n [] h = refl
read_number-end n (c ∷ s) h = rw (h) refl

drop_number-end : (s : Str) → starts_with_digit s ≡ false → drop_number s ≡ s
unfolding drop_number
drop_number-end [] h = refl
drop_number-end (c ∷ s) h = rw (h) refl

read_magnitude-digit :
    (s rest : Str) (n limit : ℕ)
    → starts_with_digit s ≡ true
    → read_number 0 s ≡ n
    → drop_number s ≡ rest
    → n ≤ limit
    → read_magnitude s limit ≡ some (n, rest)
unfolding read_magnitude
read_magnitude-digit [] rest n limit digit value behind h = cc
read_magnitude-digit (c ∷ s) rest n limit digit value behind h =
    rw (digit, value, behind) (ground arith)

-- A string that begins with a digit begins with no sign and no space.
read_signed-digit :
    (s rest : Str) (n limit : ℕ)
    → starts_with_digit s ≡ true
    → read_number 0 s ≡ n
    → drop_number s ≡ rest
    → n < limit
    → read_signed limit s ≡ some (pos n, rest)
unfolding read_signed
read_signed-digit [] rest n limit digit value behind h = cc
read_signed-digit (c ∷ s) rest n limit digit value behind h =
    rw (read_magnitude-digit (c ∷ s) rest n (limit - 1) digit value behind (omega arith))
      (ground arith)

skip_spaces-digit : (s : Str) → starts_with_digit s ≡ true → skip_spaces s ≡ s
unfolding skip_spaces is_space
skip_spaces-digit [] h = refl
skip_spaces-digit (c ∷ s) h = ground arith

pub extract-digits :
    (n limit : ℕ) (rest : Str)
    → n < limit
    → limit ≤ 2 ^ 64
    → starts_with_digit rest ≡ false
    → extract limit (to_string n ++ rest) ≡ some (pos n, rest)
unfolding extract to_string
extract-digits n limit rest h bound stop =
    rw (digits-append 20 n [] rest, skip_spaces-digit (digits 20 n rest) first)
      (read_signed-digit (digits 20 n rest) rest n limit first
        (read_number-digits 19 n rest (omega arith) ∙ read_number-end n rest stop)
        (drop_number-digits 20 n rest ∙ drop_number-end rest stop) h)
  where
    first : starts_with_digit (digits 20 n rest) ≡ true
    first = digits-suc-digit 19 n rest

extract-space : (limit : ℕ) (s : Str) → extract limit (32 ∷ s) ≡ extract limit s
unfolding extract skip_spaces is_space
extract-space limit s = refl

-- A number that was printed behind a space is extracted, up to what follows it, if no digit does.
pub extract-to_string :
    (n limit : ℕ) (rest : Str)
    → n < limit
    → limit ≤ 2 ^ 64
    → starts_with_digit rest ≡ false
    → extract limit (32 ∷ (to_string n ++ rest)) ≡ some (pos n, rest)
extract-to_string n limit rest h bound stop =
    extract-space limit (to_string n ++ rest) ∙ extract-digits n limit rest h bound stop

digits-All :
    (P : ℕ → Type 0) (fuel n : ℕ) (s : Str)
    → ((k : ℕ) → k < 10 → P (48 + k))
    → All P s
    → All P (digits fuel n s)
unfolding digits
digits-All P zero n s digit h = h
digits-All P (suc fuel) n s digit h = elim (Bool-cases (ltb n 10)) [
  | inl small ↦ rw (small) (digit n (ltb→lt n 10 small), h)
  | inr large ↦
      rw (large)
        (digits-All P fuel (n / 10) ((48 + n % 10) ∷ s) digit (digit (n % 10) (omega arith), h))
]

-- What holds of the ten digits holds of every character of a printed number.
pub to_string-All : (P : ℕ → Type 0) (n : ℕ) → ((k : ℕ) → k < 10 → P (48 + k)) → All P (to_string n)
unfolding to_string
to_string-All P n digit = digits-All P 20 n [] digit _

pub to_string-Lacks : (n : ℕ) → Lacks 10 (to_string n)
to_string-Lacks n = to_string-All (λ c. (c == 10) ≡ false) n (λ k h. ground arith)

pub to_string-IsWord : (n : ℕ) → All (λ c. is_space c ≡ false) (to_string n)
unfolding is_space
to_string-IsWord n = to_string-All (λ c. is_space c ≡ false) n (λ k h. ground arith)

pub stoll-to_string : (n : ℕ) → n < 2 ^ 63 → stoll (to_string n) ≡ some (pos n)
unfolding stoll
stoll-to_string n h =
    rw (← append-nil (to_string n), extract-digits n (2 ^ 63) [] h (omega arith) refl) refl
