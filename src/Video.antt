-- ===== src/Video.antt =====
-- The aspect fit of moonlight/src/video.rs. Products of `u32`s fit the `u64`s that the code takes
-- them in; the quotients are cast back to `u32`.
pub mod Fit
mod Tests
use moonlight_scarlet.Prelude.{
  ℕ, ◌*◌, ◌/◌, ◌%◌, ◌^◌, max, Bool, true, false, ◌||◌, if◌then◌else◌, leb, ◌==◌,
}

unfoldable pub fit_size : ℕ → ℕ → ℕ → ℕ → ℕ × ℕ
fit_size source_width source_height destination_width destination_height =
    if source_width == 0 || source_height == 0 || destination_width == 0 || destination_height == 0
    then (0, 0)
    else if leb (destination_width * source_height) (destination_height * source_width)
    then (destination_width, max (destination_width * source_height / source_width % 2 ^ 32) 1)
    else (max (destination_height * source_width / source_height % 2 ^ 32) 1, destination_height)
