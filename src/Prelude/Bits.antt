-- ===== src/Prelude/Bits.antt =====
-- Bit sets in machine words: what `|`, `&` and a single-bit mask do to one bit.
use Prim.Native.Nat.{
  ℕ, zero, suc, ◌+◌, ◌-◌, ◌*◌, ◌/◌, ◌%◌, ◌^◌, ◌≤◌, ◌<◌, min, max, bit_and, bit_or, digits,
  bit_and-bitwise, bit_or-bitwise,
}
use mathlib.Core.Path.{◌≡◌, refl, ap}
use mathlib.Core.Logic.{◌≢◌}
use native.Mathlib.Nat.{pow-suc, one-le-pow}
use native.Mathlib.Omega.{arith}

-- Bit `i` of a word, 0 or 1.
unfoldable pub bit : ℕ → ℕ → ℕ
bit s zero = s % 2
bit s (suc i) = bit (s / 2) i

and_digits_enough :
    (n m a b : ℕ) → a ≤ n → a ≤ m → digits (λ b. zero) min n a b ≡ digits (λ b. zero) min m a b
and_digits_enough zero zero a b p q = refl
and_digits_enough zero (suc m) zero b p q = refl
and_digits_enough zero (suc m) (suc a) b p q = elim p [ ]
and_digits_enough (suc n) zero zero b p q = refl
and_digits_enough (suc n) zero (suc a) b p q = elim q [ ]
and_digits_enough (suc n) (suc m) zero b p q = refl
and_digits_enough (suc n) (suc m) (suc a) b p q =
    omega (arith, and_digits_enough n m (suc a / 2) (b / 2) (omega arith) (omega arith))

or_digits_enough :
    (n m a b : ℕ) → a ≤ n → a ≤ m → digits (λ b. b) max n a b ≡ digits (λ b. b) max m a b
or_digits_enough zero zero a b p q = refl
or_digits_enough zero (suc m) zero b p q = refl
or_digits_enough zero (suc m) (suc a) b p q = elim p [ ]
or_digits_enough (suc n) zero zero b p q = refl
or_digits_enough (suc n) zero (suc a) b p q = elim q [ ]
or_digits_enough (suc n) (suc m) zero b p q = refl
or_digits_enough (suc n) (suc m) (suc a) b p q =
    omega (arith, or_digits_enough n m (suc a / 2) (b / 2) (omega arith) (omega arith))

bit_and_halves : (a b : ℕ) → bit_and a b ≡ bit_and (a / 2) (b / 2) * 2 + min (a % 2) (b % 2)
bit_and_halves zero b = omega (arith, bit_and-bitwise 0 b, bit_and-bitwise 0 (b / 2))
bit_and_halves (suc a) b = omega (
  arith,
  bit_and-bitwise (suc a) b,
  bit_and-bitwise (suc a / 2) (b / 2),
  and_digits_enough a (suc a / 2) (suc a / 2) (b / 2) (omega arith) (omega arith),
)

bit_or_halves : (a b : ℕ) → bit_or a b ≡ bit_or (a / 2) (b / 2) * 2 + max (a % 2) (b % 2)
bit_or_halves zero b = omega (arith, bit_or-bitwise 0 b, bit_or-bitwise 0 (b / 2))
bit_or_halves (suc a) b = omega (
  arith,
  bit_or-bitwise (suc a) b,
  bit_or-bitwise (suc a / 2) (b / 2),
  or_digits_enough a (suc a / 2) (suc a / 2) (b / 2) (omega arith) (omega arith),
)

half-bit_or : (a b : ℕ) → bit_or a b / 2 ≡ bit_or (a / 2) (b / 2)
half-bit_or a b = omega (arith, bit_or_halves a b)

half-bit_and : (a b : ℕ) → bit_and a b / 2 ≡ bit_and (a / 2) (b / 2)
half-bit_and a b = omega (arith, bit_and_halves a b)

pub bit-bit_or : (i a b : ℕ) → bit (bit_or a b) i ≡ max (bit a i) (bit b i)
unfolding bit
bit-bit_or zero a b = omega (arith, bit_or_halves a b)
bit-bit_or (suc i) a b = rw (half-bit_or a b) (bit-bit_or i (a / 2) (b / 2))

pub bit-bit_and : (i a b : ℕ) → bit (bit_and a b) i ≡ min (bit a i) (bit b i)
unfolding bit
bit-bit_and zero a b = omega (arith, bit_and_halves a b)
bit-bit_and (suc i) a b = rw (half-bit_and a b) (bit-bit_and i (a / 2) (b / 2))

bit_and-zero_enough : (n a : ℕ) → a ≤ n → bit_and a 0 ≡ 0
bit_and-zero_enough n zero h = refl
bit_and-zero_enough zero (suc a) h = elim h [ ]
bit_and-zero_enough (suc n) (suc a) h =
    omega (arith, bit_and_halves (suc a) 0, bit_and-zero_enough n (suc a / 2) (omega arith))

-- `s & (1 << i)` is the bit in its place.
pub bit_and-one_shifted : (i s : ℕ) → bit_and s (2 ^ i) ≡ bit s i * 2 ^ i
unfolding bit
bit_and-one_shifted zero s =
    omega (arith, bit_and_halves s 1, bit_and-zero_enough (s / 2) (s / 2) (omega arith))
bit_and-one_shifted (suc i) s =
    grind (arith, bit_and_halves s (2 ^ suc i), pow-suc 2 i, bit_and-one_shifted i (s / 2))

pub bit-lt-two : (i s : ℕ) → bit s i < 2
unfolding bit
bit-lt-two zero s = omega arith
bit-lt-two (suc i) s = bit-lt-two i (s / 2)

-- The bits of `1 << j`.
pub bit-zero : (i : ℕ) → bit 0 i ≡ 0
unfolding bit
bit-zero zero = refl
bit-zero (suc i) = bit-zero i

pub bit-two_pow_self : (j : ℕ) → bit (2 ^ j) j ≡ 1
unfolding bit
bit-two_pow_self zero = refl
bit-two_pow_self (suc j) =
    rw (let e : 2 ^ suc j / 2 ≡ 2 ^ j = omega (arith, pow-suc 2 j) in e) (bit-two_pow_self j)

pub bit-two_pow_ne : (i j : ℕ) → i ≢ j → bit (2 ^ j) i ≡ 0
unfolding bit
bit-two_pow_ne zero zero h = absurd (h refl)
bit-two_pow_ne zero (suc j) h = omega (arith, pow-suc 2 j)
bit-two_pow_ne (suc i) zero h = bit-zero i
bit-two_pow_ne (suc i) (suc j) h =
    rw (let e : 2 ^ suc j / 2 ≡ 2 ^ j = omega (arith, pow-suc 2 j) in e)
      (bit-two_pow_ne i j (λ e. h (ap suc e)))

-- A mask of `k` ones.
pub bit-ones : (i k : ℕ) → i < k → bit (2 ^ k - 1) i ≡ 1
unfolding bit
bit-ones i zero h = elim h [ ]
bit-ones zero (suc k) h = omega (arith, pow-suc 2 k, one-le-pow k 2)
bit-ones (suc i) (suc k) h =
    rw (let e : (2 ^ suc k - 1) / 2 ≡ 2 ^ k - 1 = omega (arith, pow-suc 2 k, one-le-pow k 2) in e)
      (bit-ones i k (omega arith))

pub bit-ones_above : (i k : ℕ) → k ≤ i → bit (2 ^ k - 1) i ≡ 0
unfolding bit
bit-ones_above i zero h = bit-zero i
bit-ones_above zero (suc k) h = elim h [ ]
bit-ones_above (suc i) (suc k) h =
    rw (let e : (2 ^ suc k - 1) / 2 ≡ 2 ^ k - 1 = omega (arith, pow-suc 2 k, one-le-pow k 2) in e)
      (bit-ones_above i k (omega arith))
