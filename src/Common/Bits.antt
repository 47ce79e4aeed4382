-- ===== src/Common/Bits.antt =====
-- `|` on numbers without a common digit is addition.
use Prim.Native.Nat.{max, digits, bit_or, bit_or-bitwise}
use native.Mathlib.Nat.{pow-suc, mul_assoc}
use promeproxy.Common.{
  ℕ, zero, suc, ◌+◌, ◌*◌, ◌/◌, ◌%◌, ◌^◌, ◌≤◌, ◌<◌, ◌≡◌, refl, sym, ap, ◌∙◌, arith,
}

-- the recursion that the native operation stands for, on a number of digits to go
abbrev or_digits : ℕ → ℕ → ℕ → ℕ
or_digits fuel a b = digits (λ y. y) max fuel a b

-- digits to spare change nothing
or_digits-enough : (a n m b : ℕ) → a ≤ n → a ≤ m → or_digits n a b ≡ or_digits m a b
or_digits-enough zero zero zero b h k = refl
or_digits-enough zero zero (suc m) b h k = refl
or_digits-enough zero (suc n) zero b h k = refl
or_digits-enough zero (suc n) (suc m) b h k = refl
or_digits-enough (suc a) zero m b h k = absurd (omega arith)
or_digits-enough (suc a) (suc n) zero b h k = absurd (omega arith)
or_digits-enough (suc a) (suc n) (suc m) b h k =
    ap (λ x. x * 2 + max (suc a % 2) (b % 2))
      (or_digits-enough (suc a / 2) n m (b / 2) (omega arith) (omega arith))

zero-bit_or : (b : ℕ) → bit_or 0 b ≡ b
zero-bit_or b = bit_or-bitwise 0 b

bit_or-halves : (a b : ℕ) → bit_or a b ≡ bit_or (a / 2) (b / 2) * 2 + max (a % 2) (b % 2)
bit_or-halves zero b = omega (arith, zero-bit_or b, zero-bit_or (b / 2))
bit_or-halves (suc a) b = omega (
  arith,
  bit_or-bitwise (suc a) b,
  bit_or-bitwise (suc a / 2) (b / 2),
  or_digits-enough (suc a / 2) a (suc a / 2) (b / 2) (omega arith) (omega arith),
)

bit_or-zero : (fuel a : ℕ) → a ≤ fuel → bit_or a 0 ≡ a
bit_or-zero fuel zero h = refl
bit_or-zero zero (suc a) h = absurd (omega arith)
bit_or-zero (suc fuel) (suc a) h =
    omega (arith, bit_or-halves (suc a) 0, bit_or-zero fuel (suc a / 2) (omega arith))

times_power-suc : (a n : ℕ) → a * 2 ^ suc n ≡ a * 2 ^ n * 2
times_power-suc a n = ap (λ p. a * p) (pow-suc 2 n) ∙ sym (mul_assoc a (2 ^ n) 2)

double_or : (x b : ℕ) → bit_or x (b / 2) ≡ x + b / 2 → bit_or (x * 2) b ≡ x * 2 + b
double_or x b h = omega (arith, bit_or-halves (x * 2) b, ap (λ y. bit_or y (b / 2)) (half x), h)
  where
    half : (x : ℕ) → x * 2 / 2 ≡ x
    half x = omega arith

-- a multiple of 2 ^ n and a number below it
pub bit_or-disjoint : (n a b : ℕ) → b < 2 ^ n → bit_or (a * 2 ^ n) b ≡ a * 2 ^ n + b
bit_or-disjoint zero a zero h = omega (arith, bit_or-zero (a * 1) (a * 1) (omega arith))
bit_or-disjoint zero a (suc b) h = absurd (omega arith)
bit_or-disjoint (suc n) a b h =
    rw (times_power-suc a n)
      (double_or (a * 2 ^ n) b (bit_or-disjoint n a (b / 2) (omega (arith, times_power-suc 1 n))))
