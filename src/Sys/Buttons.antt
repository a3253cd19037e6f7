-- ===== src/Sys/Buttons.antt =====
-- `ControllerButton` of moonlight-sys/src/connection.rs, with the bits of `Limelight.h`.
use moonlight_scarlet.Prelude.{ℕ}

pub data ControllerButton : Type 0 where
  up down left right start back left_stick right_stick : ControllerButton
  left_shoulder right_shoulder home a b x y : ControllerButton

-- `button as u32`
unfoldable pub button_bits : ControllerButton → ℕ
button_bits up = 0x0001
button_bits down = 0x0002
button_bits left = 0x0004
button_bits right = 0x0008
button_bits start = 0x0010
button_bits back = 0x0020
button_bits left_stick = 0x0040
button_bits right_stick = 0x0080
button_bits left_shoulder = 0x0100
button_bits right_shoulder = 0x0200
button_bits home = 0x0400
button_bits a = 0x1000
button_bits b = 0x2000
button_bits x = 0x4000
button_bits y = 0x8000
