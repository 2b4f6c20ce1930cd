-- ===== src/Log/Key/Bits.antt =====
-- A shifted number and one below the shift: `|` is their sum.
use Prim.Native.Nat.{
  ℕ, zero, suc, ◌+◌, ◌*◌, ◌/◌, ◌%◌, ◌^◌, ◌≤◌, ◌<◌, max, bit_or, digits, bit_or-bitwise,
}
use mathlib.Core.Path.{◌≡◌, refl, sym}
use native.Mathlib.Omega.{arith}
use native.Mathlib.Nat.{pow-suc, mul_assoc}

abbrev or_digits : ℕ → ℕ → ℕ → ℕ
or_digits n a b = digits (λ b. b) max n a b

or_digits_fuel : (n m a b : ℕ) → a ≤ n → a ≤ m → or_digits n a b ≡ or_digits m a b
or_digits_fuel zero zero a b p q = refl
or_digits_fuel zero (suc m) zero b p q = refl
or_digits_fuel zero (suc m) (suc a) b p q = absurd (omega arith)
or_digits_fuel (suc n) zero zero b p q = refl
or_digits_fuel (suc n) zero (suc a) b p q = absurd (omega arith)
or_digits_fuel (suc n) (suc m) zero b p q = refl
or_digits_fuel (suc n) (suc m) (suc a) b p q =
    omega (arith, or_digits_fuel n m (suc a / 2) (b / 2) (omega arith) (omega arith))

zero-bit_or : (b : ℕ) → bit_or 0 b ≡ b
zero-bit_or b = bit_or-bitwise 0 b

bit_or_step : (a b : ℕ) → bit_or a b ≡ bit_or (a / 2) (b / 2) * 2 + max (a % 2) (b % 2)
bit_or_step zero b = omega (arith, zero-bit_or b, zero-bit_or (b / 2))
bit_or_step (suc a) b = omega (
  arith,
  bit_or-bitwise (suc a) b,
  bit_or-bitwise (suc a / 2) (b / 2),
  or_digits_fuel a (suc a / 2) (suc a / 2) (b / 2) (omega arith) (omega arith),
)

bit_or-zero_fuel : (n a : ℕ) → a ≤ n → bit_or a 0 ≡ a
bit_or-zero_fuel n zero h = zero-bit_or 0
bit_or-zero_fuel zero (suc a) h = absurd (omega arith)
bit_or-zero_fuel (suc n) (suc a) h =
    omega (arith, bit_or_step (suc a) 0, bit_or-zero_fuel n (suc a / 2) (omega arith))

pub bit_or_shifted : (k t b : ℕ) → b < 2 ^ k → bit_or (t * 2 ^ k) b ≡ t * 2 ^ k + b
bit_or_shifted zero t b h =
    let e : b ≡ 0 = omega arith in
    rw e (omega (arith, bit_or-zero_fuel (t * 1) (t * 1) (omega arith)))
bit_or_shifted (suc k) t b h =
    let e : t * 2 ^ suc k ≡ (t * 2 ^ k) * 2 = rw pow-suc (sym (mul_assoc t (2 ^ k) 2)) in
    let half : b / 2 < 2 ^ k = omega (arith, pow-suc 2 k) in
    let step : t * 2 ^ suc k / 2 ≡ t * 2 ^ k = omega (arith, e) in
    let low : bit_or (t * 2 ^ suc k / 2) (b / 2) ≡ t * 2 ^ k + b / 2 =
      rw step (bit_or_shifted k t (b / 2) half) in
    omega (arith, e, low, bit_or_step (t * 2 ^ suc k) b)
