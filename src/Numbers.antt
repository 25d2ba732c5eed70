-- ===== src/Numbers.antt =====
-- Integers in decimal: `std::to_string`, `std::stoi` and `>>` from a stream, as core/ and lib/ use
-- them.
pub mod Decimal
pub mod Extract
use ycsb_c_cloud.Base.{
  ℕ, zero, suc, ◌+◌, ◌-◌, ◌*◌, ◌/◌, ◌%◌, ◌^◌, ◌<◌, ◌≡◌, arith, Bool, ◌&&◌, Option, none, some, Str,
  [], ◌∷◌, ltb, leb, ◌==◌, if◌then◌else◌, ltb→lt, lt→ltb, Bool-cases, ap, sym, ◌∙◌, true, false,
  inl, inr,
}
use ycsb_c_cloud.Properties.{skip_spaces}

-- `int`
pub data ℤ : Type 0 where
  pos negsuc : ℕ → ℤ

-- The conversion to uint64_t or size_t.
unfoldable pub to_u64 : ℤ → ℕ
to_u64 (pos n) = n % 2 ^ 64
to_u64 (negsuc n) = (2 ^ 64 - 1 - n) % 2 ^ 64

-- How often `for (int i = 0; i < n; ++i)` runs its body.
abbrev pub rounds_of : ℤ → ℕ
rounds_of (pos n) = n
rounds_of (negsuc n) = 0

-- The digits of a number, put before a string; the first argument bounds how many.
pub digits : ℕ → ℕ → Str → Str
digits zero n s = s
digits (suc fuel) n s =
    let more = digits fuel (n / 10) ((48 + n % 10) ∷ s) in if ltb n 10 then (48 + n) ∷ s else more

-- A uint64_t has twenty digits at most.
unfoldable pub to_string : ℕ → Str
unfolding digits
to_string n = digits 20 n []

abbrev pub is_digit : ℕ → Bool
is_digit c = leb 48 c && leb c 57

-- The digits that begin a string, read after a number.
unfoldable pub read_number : ℕ → Str → ℕ
read_number n [] = n
read_number n (c ∷ s) =
    let more = read_number (n * 10 + (c - 48)) s in if is_digit c then more else n

-- What stands behind those digits.
unfoldable pub drop_number : Str → Str
drop_number [] = []
drop_number (c ∷ s) = let rest = drop_number s in if is_digit c then rest else c ∷ s

-- A number up to a limit that stands at the start, and the rest; `none` if there is none.
read_magnitude : Str → ℕ → Option (ℕ × Str)
read_magnitude [] limit = none
read_magnitude (c ∷ s) limit =
    let n = read_number 0 (c ∷ s) in
    if is_digit c && leb n limit then some (n, drop_number (c ∷ s)) else none

abbrev as_pos : Option (ℕ × Str) → Option (ℤ × Str)
as_pos none = none
as_pos (some (n, rest)) = some (pos n, rest)

abbrev as_neg : Option (ℕ × Str) → Option (ℤ × Str)
as_neg none = none
as_neg (some (zero, rest)) = some (pos zero, rest)
as_neg (some (suc n, rest)) = some (negsuc n, rest)

-- A number with a sign, in a type whose least value is `- limit`.
unfoldable pub read_signed : ℕ → Str → Option (ℤ × Str)
unfolding read_magnitude
read_signed limit [] = none
read_signed limit (c ∷ s) =
    if c == b'-'
    then as_neg (read_magnitude s limit)
    else if c == b'+'
    then as_pos (read_magnitude s (limit - 1))
    else as_pos (read_magnitude (c ∷ s) (limit - 1))

-- Behind spaces. For std::stoi and its like `none` is an exception, std::invalid_argument or
-- std::out_of_range, and for `>>` a failed stream.
unfoldable pub extract : ℕ → Str → Option (ℤ × Str)
extract limit s = read_signed limit (skip_spaces s)

abbrev value_of : Option (ℤ × Str) → Option ℤ
value_of none = none
value_of (some (n, rest)) = some n

unfoldable pub stoi : Str → Option ℤ
stoi s = value_of (extract (2 ^ 31) s)

unfoldable pub stoll : Str → Option ℤ
stoll s = value_of (extract (2 ^ 63) s)

-- `-` on long long, where it does not overflow.
infixl 65 ◌-ℤ◌
unfoldable pub ◌-ℤ◌ : ℤ → ℤ → ℤ
pos a -ℤ pos b = if leb b a then pos (a - b) else negsuc (b - a - 1)
pos a -ℤ negsuc b = pos (a + b + 1)
negsuc a -ℤ pos b = negsuc (a + b)
negsuc a -ℤ negsuc b = if leb a b then pos (b - a) else negsuc (a - b - 1)
