-- ===== src/Input/Wheel.antt =====
-- Wheel and pointer amounts of moonlight/src/input.rs. An `i32` times 120 fits an `i64`, so the
-- saturation of the 64-bit operations is never reached; Rust's division rounds toward 0.
use moonlight_scarlet.Prelude.{ℕ, zero, suc, ◌+◌, ◌*◌, ◌/◌, ◌≤◌, ◌<◌, ◌≡◌, refl, arith, min}
use moonlight_scarlet.Prelude.Int.{ℤ, pos, negsuc, pos_part, neg_part}

-- `-n` for a natural number.
abbrev negate : ℕ → ℤ
negate zero = pos 0
negate (suc n) = negsuc n

-- `clamp` to the range of an `i16`.
unfoldable pub clamp_i16 : ℤ → ℤ
clamp_i16 (pos n) = pos (min n 32767)
clamp_i16 (negsuc n) = negsuc (min n 32767)

unfoldable pub wheel_units : ℤ → ℤ
unfolding clamp_i16
wheel_units (pos n) = clamp_i16 (pos ((n * 120 + 16) / 32))
wheel_units (negsuc n) = clamp_i16 (negate ((suc n * 120 + 16) / 32))

-- On one side of 0, `q` of the host's units is `v` wheel steps of 120/32 units, rounded to the
-- nearest, or the bound.
abbrev pub IsNearest : ℕ → ℕ → ℕ → Type 0
IsNearest bound v q = (q ≤ bound) × (32 * q ≤ 120 * v + 16) × (q < bound → 120 * v < 32 * q + 16)

clamped :
    (m : ℕ)
    → (pos_part (clamp_i16 (negate m)) ≡ 0) × (neg_part (clamp_i16 (negate m)) ≡ min m 32768)
unfolding clamp_i16
clamped zero = (refl, refl)
clamped (suc m) = (refl, omega arith)

-- The wheel amount is the nearest number of the host's units and stays in the range of an `i16`, in
-- either direction.
pub wheel_units-IsNearest :
    (v : ℤ)
    → IsNearest 32767 (pos_part v) (pos_part (wheel_units v))
      × IsNearest 32768 (neg_part v) (neg_part (wheel_units v))
unfolding wheel_units
wheel_units-IsNearest (pos n) = (
  (omega arith, omega arith, λ h. omega (arith, h)),
  (omega arith, omega arith, λ h. omega arith),
)
wheel_units-IsNearest (negsuc n) =
    let (p, q) = clamped ((suc n * 120 + 16) / 32) in
    rw (p, q)
      (
        (omega arith, omega arith, λ h. omega arith),
        (omega arith, omega arith, λ h. omega (arith, h)),
      )
