-- ===== src/Input/Samples.antt =====
-- A connection to a core that plays keys and buttons, for the tests on moonlight/src/input.rs.
use moonlight_scarlet.Prelude.{
  ℕ, ◌-◌, ◌<◌, ◌≡◌, refl, ap, Bool-cases, inl, inr, Bool, true, false, if◌then◌else◌, ◌==◌, arith,
}
use moonlight_scarlet.Prelude.Int.{ℤ, pos, negsuc}
use moonlight_scarlet.Sys.Types.{
  raw, press, release, cancel_all, InputAction, KeyboardModifiers, as_i16,
}
use moonlight_scarlet.Sys.Samples.{thousandths}
use moonlight_scarlet.Sys.Laws.{wire_key_code_lem}
use moonlight_scarlet.Sys.Control.{
  Core, CoreCall, send_touch_event, send_mouse_position_event, send_mouse_move_event,
  send_mouse_button_event, send_keyboard_event2, send_high_res_scroll_event,
  send_high_res_hscroll_event, send_multi_controller_event, send_controller_arrival_event, Link,
  send_keyboard, send_touch, valid_position, send_input, report, wire_key_code, is_zero,
}
use moonlight_scarlet.Sys.Control as Sys
use moonlight_scarlet.Touch.Defs.{control_sink}
use moonlight_scarlet.Input.Keys.{
  LocalButton, left_button, right_button, middle_button, remote_mouse_button,
}
use moonlight_scarlet.Input.Defs.{Control, control_of}
use moonlight_scarlet.Input.Tracking.{Follows, is_press, changed}
use moonlight_scarlet.Input.Release.{LetsGo}
use moonlight_scarlet.Input.Shortcuts

abbrev pub Keys : Type 0
Keys = (ℕ → Bool) × (ℕ → Bool)

-- A core that plays keys and buttons, and takes all else.
abbrev pub play : CoreCall ℕ → Keys → ℤ × Keys
play (send_keyboard_event2 (negsuc n) action modifiers flags) (d, h) =
    (pos 0, ((λ k. if k == 0x7fff - n then action == 3 else d k), h))
play (send_keyboard_event2 (pos n) action modifiers flags) w = (pos 0, w)
play (send_mouse_button_event action button) (d, h) =
    (pos 0, (d, λ r. if button == r then action == 7 else h r))
play (send_touch_event e id x y p a b r) w = (pos 0, w)
play (send_mouse_position_event x y a b) w = (pos 0, w)
play (send_mouse_move_event x y) w = (pos 0, w)
play (send_high_res_scroll_event n) w = (pos 0, w)
play (send_high_res_hscroll_event n) w = (pos 0, w)
play (send_multi_controller_event n m b l r x y p q) w = (pos 0, w)
play (send_controller_arrival_event n m t b c) w = (pos 0, w)

abbrev pub player : Core ℕ Keys
player = record { call = play; host_feature_flags = λ w. 1 }

-- The control of a connection to it.
abbrev pub control : Control ℕ (Link Keys)
control = control_of thousandths player

abbrev pub down : Link Keys → ℕ → Bool
down l = l.inner.0

abbrev pub held : Link Keys → LocalButton → Bool
held l b = l.inner.1 (raw (remote_mouse_button b))

abbrev click_code : InputAction → ℕ
click_code press = 0x07
click_code release = 0x08

abbrev action_code : InputAction → ℕ
action_code press = 0x03
action_code release = 0x04

twice : (vk : ℕ) → vk < 256 → 0x7fff - (0x7fff - vk) ≡ vk
twice vk h = omega (arith, h)

on_the_wire : (vk : ℕ) → vk < 256 → as_i16 (wire_key_code vk) ≡ negsuc (0x7fff - vk)
unfolding as_i16
on_the_wire vk h = rw (wire_key_code_lem vk).0 (ground (arith, h))

pub control-Follows : Follows control down held
unfolding control_of control_sink send_keyboard Sys.send_mouse_button send_input report raw is_zero
control-Follows = record {
  keyboard_plays = plays;
  keyboard_keeps = keeps;
  button_plays = presses;
  button_keeps = button_keeps;
}
  where
    plays :
        (vk : ℕ) (a : InputAction) (m : KeyboardModifiers) (w : Link Keys) (k : ℕ)
        → vk < 256
        → k < 256
        → down (control.keyboard vk a m w).1 k
          ≡ changed
              (control.keyboard vk a m w).0
              (if k == vk then is_press a else down w k)
              (down w k)
    plays vk press m w k hv hk = elim (Bool-cases w.active) [
      | inl on ↦ rw (on, on_the_wire vk hv, twice vk hv) refl
      | inr off ↦ rw off refl
    ]
    plays vk release m w k hv hk = elim (Bool-cases w.active) [
      | inl on ↦ rw (on, on_the_wire vk hv, twice vk hv) refl
      | inr off ↦ rw off refl
    ]

    keeps :
        (vk : ℕ) (a : InputAction) (m : KeyboardModifiers) (w : Link Keys) (b : LocalButton)
        → held (control.keyboard vk a m w).1 b ≡ held w b
    keeps vk a m w b = elim (Bool-cases w.active) [
      | inl on ↦ rw on (typed (as_i16 (wire_key_code vk)))
      | inr off ↦ rw off refl
    ]
      where
        typed :
            (n : ℤ)
            → (play (send_keyboard_event2 n (action_code a) m.bits 0) w.inner).1.1
                (raw (remote_mouse_button b))
              ≡ held w b
        typed (pos n) = refl
        typed (negsuc n) = refl

    presses :
        (b : LocalButton) (a : InputAction) (w : Link Keys) (c : LocalButton)
        → held (control.mouse_button (remote_mouse_button b) a w).1 c
          ≡ changed
              (control.mouse_button (remote_mouse_button b) a w).0
              (if Shortcuts.bit_place b == Shortcuts.bit_place c then is_press a else held w c)
              (held w c)
    presses b a w c = elim (Bool-cases w.active) [
      | inl on ↦ rw on (clicked b a c)
      | inr off ↦ rw off refl
    ]
      where
        clicked :
            (b : LocalButton) (a : InputAction) (c : LocalButton)
            → (if raw (remote_mouse_button b) == raw (remote_mouse_button c)
                then click_code a == 7
                else held w c)
              ≡ (if Shortcuts.bit_place b == Shortcuts.bit_place c then is_press a else held w c)
        clicked left_button press left_button = refl
        clicked left_button press middle_button = refl
        clicked left_button press right_button = refl
        clicked left_button release left_button = refl
        clicked left_button release middle_button = refl
        clicked left_button release right_button = refl
        clicked middle_button press left_button = refl
        clicked middle_button press middle_button = refl
        clicked middle_button press right_button = refl
        clicked middle_button release left_button = refl
        clicked middle_button release middle_button = refl
        clicked middle_button release right_button = refl
        clicked right_button press left_button = refl
        clicked right_button press middle_button = refl
        clicked right_button press right_button = refl
        clicked right_button release left_button = refl
        clicked right_button release middle_button = refl
        clicked right_button release right_button = refl

    button_keeps :
        (b : LocalButton) (a : InputAction) (w : Link Keys) (k : ℕ)
        → down (control.mouse_button (remote_mouse_button b) a w).1 k ≡ down w k
    button_keeps b a w k = elim (Bool-cases w.active) [
      | inl on ↦ rw on refl
      | inr off ↦ rw off refl
    ]

-- A touch leaves the keys and buttons.
touch_keeps :
    (x y : ℕ) (w : Link Keys) → (send_touch thousandths player cancel_all 0 x y w).1.inner ≡ w.inner
unfolding send_touch send_input report is_zero
touch_keeps x y w = elim (Bool-cases (valid_position thousandths player x y)) [
  | inr bad ↦ rw bad refl
  | inl good ↦ elim (Bool-cases w.active) [
    | inl on ↦ rw (good, on) refl
    | inr off ↦ rw (good, off) refl
  ]
]

pub control-LetsGo : LetsGo control down held
unfolding control_of control_sink Sys.send_mouse_button send_input report raw is_zero
control-LetsGo = record {
  cancel_down = λ x y w k. ap (λ (i : Keys). i.0 k) (touch_keeps x y w);
  cancel_held = λ x y w b. ap (λ (i : Keys). i.1 (raw (remote_mouse_button b))) (touch_keeps x y w);
  button_down = λ w k. elim (Bool-cases w.active) [ inl on ↦ rw on refl | inr off ↦ rw off refl ];
  button_held = lifts;
}
  where
    released :
        (w : Link Keys) (c : LocalButton)
        → (if 1 == raw (remote_mouse_button c) then false else held w c) ≡ true
        → held w c ≡ true
    released w left_button h = absurd (ground (arith, h))
    released w middle_button h = h
    released w right_button h = h

    lifts :
        (w : Link Keys) (b : LocalButton)
        → held (control.touch_sink.button false w).1 b ≡ true
        → held w b ≡ true
    lifts w b h = elim (Bool-cases w.active) [
      | inl on ↦ released w b (rw on at h)
      | inr off ↦ rw off at h
    ]
