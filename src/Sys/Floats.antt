-- ===== src/Sys/Floats.antt =====
-- `f32`, which the program computes with and does not implement: a carrier with the operations
-- that the program calls.
use moonlight_scarlet.Prelude.{ℕ, Bool, ◌&&◌, if◌then◌else◌}
use moonlight_scarlet.Prelude.Int.{ℤ}

pub record Float32 : Type 1 where
  pub Carrier : Type 0
  pub of_int : ℤ → Carrier
  pub of_nat : ℕ → Carrier
  pub zero : Carrier
  pub half : Carrier
  pub one : Carrier
  -- 32767.0 and the rounding cast to `i16`
  pub extent : Carrier
  pub round_i16 : Carrier → ℤ
  pub sub : Carrier → Carrier → Carrier
  pub mul : Carrier → Carrier → Carrier
  pub div : Carrier → Carrier → Carrier
  -- `<=` and `<`, false where a side is not a number
  pub le : Carrier → Carrier → Bool
  pub lt : Carrier → Carrier → Bool
  pub is_finite : Carrier → Bool

module _ (f : Float32) where
  open f use {Carrier, zero, one, le, lt}

  -- `(0.0..=1.0).contains(&x)`
  unfoldable pub in_unit : Carrier → Bool
  in_unit x = le zero x && le x one

  -- `x.clamp(0.0, 1.0)`
  unfoldable pub clamp_unit : Carrier → Carrier
  clamp_unit x = if lt x zero then zero else if lt one x then one else x
