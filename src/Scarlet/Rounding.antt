-- ===== src/Scarlet/Rounding.antt =====
-- Rounding an address down to a power of two by a mask, as moonlight-sys/src/scarlet.rs does.
use moonlight_scarlet.Prelude.{
  ℕ, zero, suc, ◌*◌, ◌+◌, ◌-◌, ◌/◌, ◌^◌, ◌≤◌, ◌<◌, ◌≡◌, ap, ◌∙◌, inl, inr, true, ◌==◌, bit_and,
  Bool-cases, arith,
}
use native.Mathlib.Nat.{pow-suc, one-le-pow, mul_assoc}
use moonlight_scarlet.Prelude.Bits.{bit_and_halves, bit_and_zero}
use moonlight_scarlet.Scarlet.Alloc.{is_power_below}

-- Clearing the low `k` bits.
pub record IsRounded (k a r : ℕ) : Type 0 where
  pub below : r ≤ a
  pub near : a < r + 2 ^ k
  pub multiple : (q : ℕ) × (r ≡ q * 2 ^ k)

all_bits : (n a : ℕ) → a < 2 ^ n → bit_and a (2 ^ n - 1) ≡ a
all_bits zero a h = omega (arith, bit_and_zero a)
all_bits (suc n) a h = omega (
  arith,
  bit_and_halves a (2 ^ suc n - 1),
  pow-suc 2 n,
  one-le-pow n 2 (omega arith),
  all_bits n (a / 2) (omega (arith, pow-suc 2 n)),
  ap (bit_and (a / 2)) half,
)
  where
    half : (2 ^ suc n - 1) / 2 ≡ 2 ^ n - 1
    half = omega (arith, pow-suc 2 n, one-le-pow n 2 (omega arith))

masked_halves :
    (n k a : ℕ) → bit_and a (2 ^ suc n - 2 ^ suc k) ≡ bit_and (a / 2) (2 ^ n - 2 ^ k) * 2
masked_halves n k a = omega (
  arith,
  bit_and_halves a (2 ^ suc n - 2 ^ suc k),
  ap (bit_and (a / 2)) half,
  pow-suc 2 n,
  pow-suc 2 k,
)
  where
    half : (2 ^ suc n - 2 ^ suc k) / 2 ≡ 2 ^ n - 2 ^ k
    half = omega (arith, pow-suc 2 n, pow-suc 2 k)

doubled-IsRounded : (k a r r' : ℕ) → r' ≡ r * 2 → IsRounded k (a / 2) r → IsRounded (suc k) a r'
doubled-IsRounded k a r r' e h = record {
  below = omega (arith, e, h.below);
  near = omega (arith, e, h.near, pow-suc 2 k);
  multiple =
      let (q, f) = h.multiple in
      (
        q,
        e
            ∙ ap (λ x. x * 2) f
            ∙ mul_assoc q (2 ^ k) 2
            ∙ ap (λ x. q * x) (omega (arith, pow-suc 2 k)),
      );
}

pub cleared-IsRounded : (n k a : ℕ) → k ≤ n → a < 2 ^ n → IsRounded k a (bit_and a (2 ^ n - 2 ^ k))
cleared-IsRounded n zero a le h = record {
  below = omega (arith, all_bits n a h);
  near = omega (arith, all_bits n a h);
  multiple = (a, omega (arith, all_bits n a h));
}
cleared-IsRounded zero (suc k) a le h = absurd (omega (arith, le))
cleared-IsRounded (suc n) (suc k) a le h =
    doubled-IsRounded k a (bit_and (a / 2) (2 ^ n - 2 ^ k)) _ (masked_halves n k a)
      (cleared-IsRounded n k (a / 2) (omega (arith, le)) (omega (arith, h, pow-suc 2 n)))

pub power_of : (n a : ℕ) → is_power_below n a ≡ true → (k : ℕ) × (k < n) × (a ≡ 2 ^ k)
power_of zero a h = absurd (ground (arith, h))
power_of (suc n) a h = elim (Bool-cases (a == 2 ^ n)) [
  | inl e ↦ (n, omega arith, ground (arith, e))
  | inr ne ↦ let (k, lt, e) = power_of n a (ground (arith, h, ne)) in (k, omega (arith, lt), e)
]
