-- ===== src/Video/Tests.antt =====
-- The aspect fit at concrete sizes.
use moonlight_scarlet.Prelude.{◌*◌, ◌≡◌, ◌⊎◌, inr, inl, refl, arith}
use moonlight_scarlet.Video.{fit_size}
use moonlight_scarlet.Video.Fit.{Scaled}
use moonlight_scarlet.Video.Fit

fit_size_example :
    (((fit_size 1920 1080 800 800).0 ≡ 800)
      × Scaled (800 * 1080) 1920 800 (fit_size 1920 1080 800 800).1)
    ⊎ (((fit_size 1920 1080 800 800).1 ≡ 800)
        × Scaled (800 * 1920) 1080 800 (fit_size 1920 1080 800 800).0)
fit_size_example =
    Fit.fit_size_lem 1920 1080 800 800 (omega arith) (omega arith) (omega arith) (omega arith)
      (omega arith) (omega arith)

fit_size_empty_example : fit_size 1920 0 800 600 ≡ (0, 0)
fit_size_empty_example = Fit.fit_size_empty 1920 0 800 600 (inr (inl refl))
