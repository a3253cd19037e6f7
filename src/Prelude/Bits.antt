-- ===== src/Prelude/Bits.antt =====
-- Single bits of a native number, and what `bit_and` and `bit_or` do to them.
use Prim.Native.Nat.{ℕ, zero, suc, ◌+◌, ◌*◌, ◌/◌, ◌%◌, ◌^◌, ◌≤◌, ◌<◌, ◌-◌}
use Prim.Native.Nat.{min, max, digits, bit_and, bit_or, bit_and-bitwise, bit_or-bitwise}
use mathlib.Core.Path.{◌≡◌, refl, ◌∙◌, ap}
use mathlib.Core.Bool.{Bool, false, ◌&&◌, ◌||◌, not}
use native.Mathlib.Nat.{pow-suc, one-le-pow}
use native.Mathlib.Omega.{arith}
use moonlight_scarlet.Prelude.Tests.{◌==◌}

-- Bit `k` of `a`.
unfoldable pub test_bit : ℕ → ℕ → Bool
test_bit a zero = a % 2 == 1
test_bit a (suc k) = test_bit (a / 2) k

-- The native operations stand for a digit recursion whose fuel may be exchanged.
module _ (rest : ℕ → ℕ) (digit : ℕ → ℕ → ℕ) where
  exchange : (f g a b : ℕ) → a ≤ f → a ≤ g → digits rest digit f a b ≡ digits rest digit g a b
  exchange zero zero a b p q = refl
  exchange zero (suc g) zero b p q = refl
  exchange zero (suc g) (suc a) b p q = absurd (omega arith)
  exchange (suc f) zero zero b p q = refl
  exchange (suc f) zero (suc a) b p q = absurd (omega arith)
  exchange (suc f) (suc g) zero b p q = refl
  exchange (suc f) (suc g) (suc a) b p q =
      omega (arith, exchange f g (suc a / 2) (b / 2) (omega arith) (omega arith))

bit_or_halves : (a b : ℕ) → bit_or a b ≡ bit_or (a / 2) (b / 2) * 2 + max (a % 2) (b % 2)
bit_or_halves zero b = omega (arith, bit_or-bitwise 0 b, bit_or-bitwise 0 (b / 2))
bit_or_halves (suc a) b = omega (
  arith,
  bit_or-bitwise (suc a) b,
  bit_or-bitwise (suc a / 2) (b / 2),
  exchange (λ n. n) max a (suc a / 2) (suc a / 2) (b / 2) (omega arith) (omega arith),
)

pub bit_and_halves : (a b : ℕ) → bit_and a b ≡ bit_and (a / 2) (b / 2) * 2 + min (a % 2) (b % 2)
bit_and_halves zero b = omega (arith, bit_and-bitwise 0 b, bit_and-bitwise 0 (b / 2))
bit_and_halves (suc a) b = omega (
  arith,
  bit_and-bitwise (suc a) b,
  bit_and-bitwise (suc a / 2) (b / 2),
  exchange (λ _. zero) min a (suc a / 2) (suc a / 2) (b / 2) (omega arith) (omega arith),
)

bit_or_half : (a b : ℕ) → bit_or a b / 2 ≡ bit_or (a / 2) (b / 2)
bit_or_half a b = omega (arith, bit_or_halves a b)

bit_and_half : (a b : ℕ) → bit_and a b / 2 ≡ bit_and (a / 2) (b / 2)
bit_and_half a b = omega (arith, bit_and_halves a b)

-- A bit of `a | b` and of `a & b`.
pub test_bit-bit_or : (k a b : ℕ) → test_bit (bit_or a b) k ≡ (test_bit a k || test_bit b k)
unfolding test_bit
test_bit-bit_or zero a b = ground (arith, bit_or_halves a b)
test_bit-bit_or (suc k) a b =
    ap (λ n. test_bit n k) (bit_or_half a b) ∙ test_bit-bit_or k (a / 2) (b / 2)

pub test_bit-bit_and : (k a b : ℕ) → test_bit (bit_and a b) k ≡ (test_bit a k && test_bit b k)
unfolding test_bit
test_bit-bit_and zero a b = ground (arith, bit_and_halves a b)
test_bit-bit_and (suc k) a b =
    ap (λ n. test_bit n k) (bit_and_half a b) ∙ test_bit-bit_and k (a / 2) (b / 2)

-- No bit of 0 is set.
pub test_bit-zero : (k : ℕ) → test_bit 0 k ≡ false
unfolding test_bit
test_bit-zero zero = refl
test_bit-zero (suc k) = test_bit-zero k

half_pow : (n : ℕ) → 2 ^ suc n / 2 ≡ 2 ^ n
half_pow n = omega (arith, pow-suc 2 n)

bit_and_zero_below : (n a : ℕ) → a ≤ n → bit_and a 0 ≡ 0
bit_and_zero_below n zero h = refl
bit_and_zero_below zero (suc a) h = absurd (omega arith)
bit_and_zero_below (suc n) (suc a) h =
    omega (arith, bit_and_halves (suc a) 0, bit_and_zero_below n (suc a / 2) (omega arith))

pub bit_and_zero : (a : ℕ) → bit_and a 0 ≡ 0
bit_and_zero a = bit_and_zero_below a a (omega arith)

-- The one bit of a power of two.
pub test_bit-pow : (s k : ℕ) → test_bit (2 ^ s) k ≡ (s == k)
unfolding test_bit
test_bit-pow zero zero = refl
test_bit-pow zero (suc k) = ground (arith, test_bit-zero k)
test_bit-pow (suc s) zero = ground (arith, pow-suc 2 s)
test_bit-pow (suc s) (suc k) = ap (λ n. test_bit n k) (half_pow s) ∙ test_bit-pow s k ∙ ground arith

-- `!a` in `n` bits.
pub test_bit-complement :
    (n k a : ℕ) → k < n → a < 2 ^ n → test_bit (2 ^ n - 1 - a) k ≡ not (test_bit a k)
unfolding test_bit
test_bit-complement zero k a h lt = absurd (omega arith)
test_bit-complement (suc n) zero a h lt = ground (arith, pow-suc 2 n)
test_bit-complement (suc n) (suc k) a h lt =
    ap (λ m. test_bit m k) halved ∙ test_bit-complement n k (a / 2) (omega arith) below
  where
    halved : (2 ^ suc n - 1 - a) / 2 ≡ 2 ^ n - 1 - a / 2
    halved = omega (arith, pow-suc 2 n)

    below : a / 2 < 2 ^ n
    below = omega (arith, pow-suc 2 n)

-- `a & (1 << k) == 0`
pub bit_and-pow : (a k : ℕ) → (bit_and a (2 ^ k) == 0) ≡ not (test_bit a k)
unfolding test_bit
bit_and-pow a zero = ground (arith, bit_and_halves a 1, bit_and_zero (a / 2))
bit_and-pow a (suc k) = ground (
  arith,
  bit_and_halves a (2 ^ suc k),
  pow-suc 2 k,
  ap (bit_and (a / 2)) (half_pow k),
  bit_and-pow (a / 2) k,
)

-- `|` stays within the width of its arguments.
pub bit_or-lt : (n a b : ℕ) → a < 2 ^ n → b < 2 ^ n → bit_or a b < 2 ^ n
bit_or-lt zero zero zero p q = omega arith
bit_or-lt zero (suc a) b p q = absurd (omega arith)
bit_or-lt zero zero (suc b) p q = absurd (omega arith)
bit_or-lt (suc n) a b p q = omega (
  arith,
  bit_or_halves a b,
  pow-suc 2 n,
  bit_or-lt n (a / 2) (b / 2) (omega (arith, pow-suc 2 n)) (omega (arith, pow-suc 2 n)),
)

-- A power of two below the width.
pub pow-lt : (n k : ℕ) → k < n → 2 ^ k < 2 ^ n
pow-lt zero k h = absurd (omega arith)
pow-lt (suc n) zero h = omega (arith, pow-suc 2 n, one-le-pow n 2 (omega arith))
pow-lt (suc n) (suc k) h = omega (arith, pow-suc 2 n, pow-suc 2 k, pow-lt n k (omega arith))

-- `a & 0x0f` and `a & 0xff` are remainders.
bit_and_nibble : (a : ℕ) → bit_and a 0x0f ≡ a % 16
bit_and_nibble a = omega (
  arith,
  bit_and_halves a 15,
  bit_and_halves (a / 2) 7,
  bit_and_halves (a / 2 / 2) 3,
  bit_and_halves (a / 2 / 2 / 2) 1,
  bit_and_zero (a / 2 / 2 / 2 / 2),
)

pub bit_and_byte : (a : ℕ) → bit_and a 0xff ≡ a % 256
bit_and_byte a = omega (
  arith,
  bit_and_halves a 255,
  bit_and_halves (a / 2) 127,
  bit_and_halves (a / 2 / 2) 63,
  bit_and_halves (a / 2 / 2 / 2) 31,
  bit_and_nibble (a / 2 / 2 / 2 / 2),
)

-- A bit above a number is added to it.
pub bit_or-high : (n r : ℕ) → r < 2 ^ n → bit_or (2 ^ n) r ≡ 2 ^ n + r
bit_or-high zero zero h = refl
bit_or-high zero (suc r) h = absurd (omega arith)
bit_or-high (suc n) r h = omega (
  arith,
  bit_or_halves (2 ^ suc n) r,
  pow-suc 2 n,
  ap (λ m. bit_or m (r / 2)) (half_pow n),
  bit_or-high n (r / 2) (omega (arith, pow-suc 2 n)),
)
