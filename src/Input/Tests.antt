-- ===== src/Input/Tests.antt =====
-- The theorems on keys, mouse and wheel at concrete inputs.
use moonlight_scarlet.Prelude.{
  ℕ, ◌<◌, ◌≡◌, refl, Bool, true, false, some, [], ◌∷◌, if◌then◌else◌, ◌==◌, ok, arith,
}
use moonlight_scarlet.Prelude.Int.{negsuc, pos_part, neg_part}
use moonlight_scarlet.Prelude.Bits.{test_bit}
use moonlight_scarlet.Sys.Types.{raw, as_i16}
use moonlight_scarlet.Sys.Control.{
  Core, CoreCall, send_touch_event, send_mouse_position_event, send_mouse_move_event,
  send_mouse_button_event, send_keyboard_event2, send_high_res_scroll_event,
  send_high_res_hscroll_event, send_multi_controller_event, send_controller_arrival_event, Link,
  send_keyboard, send_touch, valid_position, send_input, report, wire_key_code, is_zero,
}
use moonlight_scarlet.Sys.Control as Sys
use moonlight_scarlet.Touch.Defs.{untouched}
use moonlight_scarlet.Touch.Route.{release_to}
use moonlight_scarlet.Input.Keys.{
  KeyCode, char, KeyModifiers, key_pressed, key_released, keycode_to_vk, char_to_vk,
  moonlight_shortcut_modifiers, LocalButton, left_button, right_button, middle_button,
}
use moonlight_scarlet.Input.Wheel.{wheel_units, IsNearest}
use moonlight_scarlet.Input.Defs.{
  toggle_capture, not_shortcut, consumed, command, contains, PressedInput, nothing_pressed,
  control_of,
}
use moonlight_scarlet.Input.Remote.{
  classify_shortcut, shortcut_of, suppress_capture_click, consume_suppressed_mouse_release,
  send_key, release_all, release_keys, release_buttons, release_button, keep_first, answer,
}
use moonlight_scarlet.Input.Tracking.{Follows, IsTracked, is_press, changed}
use moonlight_scarlet.Input.Release.{LetsGo}
use moonlight_scarlet.Input.Samples.{Keys, control, down, held, control-Follows, control-LetsGo}
use moonlight_scarlet.Input.Wheel
use moonlight_scarlet.Input.Shortcuts
use moonlight_scarlet.Input.Tracking
use moonlight_scarlet.Input.Release

abbrev chord : KeyModifiers
chord = record { shift = true; control = true; alt = true; super_key = false }

abbrev plain : KeyModifiers
plain = record { shift = false; control = false; alt = false; super_key = false }

program : Unit {0}
unfolding keycode_to_vk char_to_vk shortcut_of raw release_all release_keys release_buttons
    release_button keep_first answer release_to test_bit classify_shortcut control_of send_keyboard
    Sys.send_mouse_button send_input report as_i16 wire_key_code is_zero
program = tt

-- Ctrl-Alt-Shift-Z.
z_key : keycode_to_vk (char 0x7a) ≡ some 0x5a
unfolding program
z_key = refl

z_shortcut : shortcut_of 0x5a ≡ some toggle_capture
unfolding program
z_shortcut = refl

abbrev pressed_z : PressedInput ℕ
pressed_z = (classify_shortcut (key_pressed (char 0x7a) chord) nothing_pressed).1

shortcut_round_example :
    ((classify_shortcut {F = ℕ} (key_pressed (char 0x7a) chord) nothing_pressed).0
      ≡ command toggle_capture)
    × (classify_shortcut (key_pressed (char 0x7a) plain) pressed_z
        ≡ (if moonlight_shortcut_modifiers plain then consumed else not_shortcut, pressed_z))
    × (classify_shortcut (key_released (char 0x7a) plain) pressed_z ≡ (consumed, nothing_pressed))
shortcut_round_example =
    Shortcuts.shortcut_round (char 0x7a) 0x5a toggle_capture chord plain nothing_pressed z_key
      z_shortcut refl refl

abbrev captured : Bool × PressedInput ℕ
captured =
    consume_suppressed_mouse_release left_button
      (suppress_capture_click left_button nothing_pressed)

wheel_units-IsNearest_example :
    IsNearest 32767 0 (pos_part (wheel_units (negsuc 32)))
    × IsNearest 32768 33 (neg_part (wheel_units (negsuc 32)))
wheel_units-IsNearest_example = Wheel.wheel_units-IsNearest (negsuc 32)

-- A and Escape, and the right button, are down.
abbrev two_keys : PressedInput ℕ
two_keys = record {
  touches = untouched;
  keys = 0x1b ∷ 0x41 ∷ [];
  mouse_buttons = 4;
  suppressed_mouse_buttons = 1;
  suppressed_shortcut_keys = [];
}

abbrev two_down : Link Keys
two_down = record {
  active = true;
  stop_requested = false;
  inner = ((λ k. contains k (0x1b ∷ 0x41 ∷ [])), λ r. r == 3);
}

two_keys-IsTracked : IsTracked control down held control-Follows two_keys two_down
unfolding raw test_bit
two_keys-IsTracked = record {
  ascending = ((omega arith, tt), (tt, tt));
  codes = λ k h. ground (arith, h);
  keys = λ k h. refl;
  buttons = buttons;
}
  where
    buttons : (b : LocalButton) → test_bit 4 (Shortcuts.bit_place b) ≡ held two_down b
    buttons left_button = refl
    buttons middle_button = refl
    buttons right_button = refl

send_key-IsTracked_example :
    IsTracked control down held control-Follows
      (send_key control (key_released KeyCode.escape plain) two_keys two_down).1.0
      (send_key control (key_released KeyCode.escape plain) two_keys two_down).1.1
send_key-IsTracked_example =
    Tracking.send_key-IsTracked control down held control-Follows
      (key_released KeyCode.escape plain) two_keys two_down two_keys-IsTracked

all_taken : (release_all control 0 true two_keys two_down).0 ≡ ok tt
unfolding program
all_taken = refl

release_all_clears_example :
    ((k : ℕ) → k < 256 → down (release_all control 0 true two_keys two_down).1.1 k ≡ false)
    × ((b : LocalButton) → held (release_all control 0 true two_keys two_down).1.1 b ≡ false)
    × ((release_all control 0 true two_keys two_down).1.0.keys ≡ [])
    × ((release_all control 0 true two_keys two_down).1.0.mouse_buttons ≡ 0)
release_all_clears_example =
    Release.release_all_clears control down held control-Follows control-LetsGo 0 two_keys two_down
      two_keys-IsTracked all_taken
