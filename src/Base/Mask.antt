-- ===== src/Base/Mask.antt =====
-- The low byte of a number as a mask, and the join of two numbers with no bit in common, at variables.
use Prim.Native.Nat.{ℕ, zero, suc, ◌+◌, ◌*◌, ◌/◌, ◌%◌, ◌^◌, ◌≤◌, ◌<◌, min, max, differ}
use Prim.Native.Nat.{bit_and, bit_or, bit_xor, digits}
use Prim.Native.Nat.{bit_and-bitwise, bit_or-bitwise, bit_xor-bitwise}
use mathlib.Core.Path.{◌≡◌, refl, ap, ◌∙◌}
use native.Mathlib.Nat.{pow-suc}
use native.Mathlib.Omega.{arith}

-- The number whose `k` low bits are ones, and the `k` low bits of `a`.
ones : ℕ → ℕ
ones zero = 0
ones (suc k) = ones k * 2 + 1

low : ℕ → ℕ → ℕ
low zero a = 0
low (suc k) a = low k (a / 2) * 2 + a % 2

low-zero : (k : ℕ) → low k 0 ≡ 0
unfolding low
low-zero zero = refl
low-zero (suc k) = omega (arith, low-zero k)

and_ones : (k n a b : ℕ) → a ≤ n → b ≡ ones k → digits (λ _. zero) min n a b ≡ low k a
unfolding ones low
and_ones k zero zero b h e = omega (arith, low-zero k)
and_ones k zero (suc a) b h e = absurd (omega arith)
and_ones k (suc n) zero b h e = omega (arith, low-zero k)
and_ones zero (suc n) (suc a) b h e =
    omega (arith, and_ones zero n (suc a / 2) (b / 2) (omega arith) (omega arith))
and_ones (suc k) (suc n) (suc a) b h e =
    omega (arith, and_ones k n (suc a / 2) (b / 2) (omega arith) (omega arith))

-- `x & 0xff` is the low byte of `x`.
pub bit_and_byte : (x : ℕ) → bit_and x 0xff ≡ x % 256
unfolding low ones
bit_and_byte x = bit_and-bitwise x 0xff ∙ (and_ones 8 x x 0xff (omega arith) refl ∙ omega arith)

or_join : (k n a b c : ℕ) → a ≤ n → a < 2 ^ k → c ≡ b * 2 ^ k → digits (λ y. y) max n a c ≡ a + c
or_join k zero zero b c h lt e = omega arith
or_join k zero (suc a) b c h lt e = absurd (omega arith)
or_join k (suc n) zero b c h lt e = omega arith
or_join zero (suc n) (suc a) b c h lt e = absurd (omega arith)
or_join (suc k) (suc n) (suc a) b c h lt e =
    let even : c ≡ b * 2 ^ k * 2 =
      omega (arith, pow-suc 2 k, ap (λ (t : ℕ). b * t) (pow-suc 2 k)) in
    omega (
      arith,
      or_join k n (suc a / 2) b (c / 2) (omega arith) (omega (arith, pow-suc 2 k))
          (omega (arith, even)),
      even,
    )

-- `a | (b << k)` is the sum, where `a` has no bit at `k` or above.
pub bit_or_join : (k a b : ℕ) → a < 2 ^ k → bit_or a (b * 2 ^ k) ≡ a + b * 2 ^ k
bit_or_join k a b h =
    bit_or-bitwise a (b * 2 ^ k) ∙ or_join k a a b (b * 2 ^ k) (omega arith) h refl

or_zero : (n a : ℕ) → a ≤ n → digits (λ y. y) max n a 0 ≡ a
or_zero zero a h = omega arith
or_zero (suc n) zero h = refl
or_zero (suc n) (suc a) h = omega (arith, or_zero n (suc a / 2) (omega arith))

or_join_high :
    (k n c b a : ℕ) → c ≤ n → a < 2 ^ k → c ≡ b * 2 ^ k → digits (λ y. y) max n c a ≡ c + a
or_join_high k zero zero b a h lt e = omega arith
or_join_high k zero (suc c) b a h lt e = absurd (omega arith)
or_join_high k (suc n) zero b a h lt e = omega arith
or_join_high zero (suc n) (suc c) b zero h lt e = omega (arith, or_zero n (suc c / 2) (omega arith))
or_join_high zero (suc n) (suc c) b (suc a) h lt e = absurd (omega arith)
or_join_high (suc k) (suc n) (suc c) b a h lt e =
    let even : suc c ≡ b * 2 ^ k * 2 =
      omega (arith, pow-suc 2 k, ap (λ (t : ℕ). b * t) (pow-suc 2 k)) in
    omega (
      arith,
      or_join_high k n (suc c / 2) b (a / 2) (omega arith) (omega (arith, pow-suc 2 k))
          (omega (arith, even)),
      even,
    )

-- `(b << k) | a` is the sum too.
pub bit_or_join_high : (k a b : ℕ) → a < 2 ^ k → bit_or (b * 2 ^ k) a ≡ b * 2 ^ k + a
bit_or_join_high k a b h =
    bit_or-bitwise (b * 2 ^ k) a ∙ or_join_high k (b * 2 ^ k) (b * 2 ^ k) b a (omega arith) h refl

differ-lt_two : (x y : ℕ) → x < 2 → y < 2 → differ x y < 2
differ-lt_two zero y hx hy = hy
differ-lt_two (suc x) zero hx hy = hx
differ-lt_two (suc x) (suc y) hx hy = differ-lt_two x y (omega arith) (omega arith)

xor_bound : (k n a b : ℕ) → a ≤ n → a < 2 ^ k → b < 2 ^ k → digits (λ y. y) differ n a b < 2 ^ k
xor_bound k zero a b h ha hb = hb
xor_bound k (suc n) zero b h ha hb = hb
xor_bound zero (suc n) (suc a) b h ha hb = absurd (omega arith)
xor_bound (suc k) (suc n) (suc a) b h ha hb = omega (
  arith,
  pow-suc 2 k,
  differ-lt_two (suc a % 2) (b % 2) (omega arith) (omega arith),
  xor_bound k n (suc a / 2) (b / 2) (omega arith) (omega (arith, pow-suc 2 k))
      (omega (arith, pow-suc 2 k)),
)

-- `a ^ b` needs no more bits than `a` and `b` do.
pub bit_xor-lt : (k a b : ℕ) → a < 2 ^ k → b < 2 ^ k → bit_xor a b < 2 ^ k
bit_xor-lt k a b ha hb = rw bit_xor-bitwise (xor_bound k a a b (omega arith) ha hb)
