-- ===== src/Video/Fit.antt =====
-- Theorems on `fit_size` of moonlight/src/video.rs.
use moonlight_scarlet.Prelude.{
  ℕ, zero, suc, Bool-cases, ◌+◌, ◌*◌, ◌/◌, ◌%◌, ◌^◌, ◌≤◌, ◌<◌, ◌≡◌, refl, ◌⊎◌, inl, inr, max, false,
  ◌||◌, leb, ◌==◌, arith,
}
use moonlight_scarlet.Video.{fit_size}

-- A quotient that is bounded through its product.
div-le : (a b c : ℕ) → 0 < b → a ≤ c * b → a / b ≤ c
div-le a b c h le = grind arith

div_bounds : (a b : ℕ) → 0 < b → (a / b * b ≤ a) × (a < (a / b + 1) * b)
div_bounds a b h = (grind arith, grind arith)

-- The scaled side: at least 1, within `d`, and the exact proportion rounded down.
abbrev pub Scaled : ℕ → ℕ → ℕ → ℕ → Type 0
Scaled a b d m = (0 < m) × (m ≤ d) × ((m ≡ 1) ⊎ (m * b ≤ a)) × (a < (m + 1) * b)

max-Scaled : (a b d q : ℕ) → 0 < d → q ≤ d → q * b ≤ a → a < (q + 1) * b → Scaled a b d (max q 1)
max-Scaled a b d zero pos le lo hi = (omega arith, omega arith, inl refl, omega arith)
max-Scaled a b d (suc n) pos le lo hi =
    let e : max (suc n) 1 ≡ suc n = omega arith in rw e (omega arith, le, inr lo, hi)

scaled_lem :
    (a b d : ℕ) → 0 < b → 0 < d → d < 2 ^ 32 → a ≤ d * b → Scaled a b d (max (a / b % 2 ^ 32) 1)
scaled_lem a b d hb hd small le =
    let q = div-le a b d hb le in
    let e : a / b % 2 ^ 32 ≡ a / b = omega arith in
    let (lo, hi) = div_bounds a b hb in rw e (max-Scaled a b d (a / b) hd q lo hi)

-- A source and a destination that are not empty give a picture that fills one side of the
-- destination, stays within the other, and has there the source's proportion rounded down, but at
-- least 1.
pub fit_size_lem :
    (sw sh dw dh : ℕ)
    → 0 < sw
    → 0 < sh
    → 0 < dw
    → 0 < dh
    → dw < 2 ^ 32
    → dh < 2 ^ 32
    → (((fit_size sw sh dw dh).0 ≡ dw) × Scaled (dw * sh) sw dh (fit_size sw sh dw dh).1)
      ⊎ (((fit_size sw sh dw dh).1 ≡ dh) × Scaled (dh * sw) sh dw (fit_size sw sh dw dh).0)
unfolding fit_size
fit_size_lem sw sh dw dh p q r s t u = rw positive (elim (Bool-cases (leb (dw * sh) (dh * sw))) [
  | inl narrow ↦ rw narrow (inl (refl, scaled_lem (dw * sh) sw dh p s u (ground arith)))
  | inr wide ↦ rw wide (inr (refl, scaled_lem (dh * sw) sh dw q r t (ground arith)))
])
  where
    positive : (sw == 0 || sh == 0 || dw == 0 || dh == 0) ≡ false
    positive = ground arith

-- An empty source or destination gives the empty picture.
pub fit_size_empty :
    (sw sh dw dh : ℕ) → (sw ≡ 0) ⊎ (sh ≡ 0) ⊎ (dw ≡ 0) ⊎ (dh ≡ 0) → fit_size sw sh dw dh ≡ (0, 0)
unfolding fit_size
fit_size_empty sw sh dw dh h = ground arith
