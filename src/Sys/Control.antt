-- ===== src/Sys/Control.antt =====
-- `ConnectionControl` of moonlight-sys/src/connection.rs: the checks in front of each input call of
-- the C core. The core itself (third_party/moonlight-common-c) is a parameter.
use Prim.Native.String.{String}
use moonlight_scarlet.Prelude.{
  ℕ, Bool, false, not, ◌&&◌, if◌then◌else◌, leb, ◌==◌, Result, ok, err, bit_or, bit_and,
}
use moonlight_scarlet.Prelude.Int.{ℤ, pos, negsuc}
use moonlight_scarlet.Sys.Floats.{Float32, in_unit}
use moonlight_scarlet.Sys.Types.{
  InputAction, press, release, MouseButton, raw, KeyboardModifiers, TouchEventType, down, up, move,
  cancel, cancel_all, event_code, ControllerState, InputError, invalid_coordinates,
  invalid_controller, connection_inactive, core, as_i16, as_i32,
}

-- The input functions of `Limelight.h`, with their arguments.
pub data CoreCall (F : Type 0) : Type 0 where
  send_touch_event : ℕ → ℕ → F → F → F → F → F → ℕ → CoreCall F
  send_mouse_position_event : ℤ → ℤ → ℤ → ℤ → CoreCall F
  send_mouse_move_event : ℤ → ℤ → CoreCall F
  send_mouse_button_event : ℕ → ℕ → CoreCall F
  send_keyboard_event2 : ℤ → ℕ → ℕ → ℕ → CoreCall F
  send_high_res_scroll_event : ℤ → CoreCall F
  send_high_res_hscroll_event : ℤ → CoreCall F
  send_multi_controller_event : ℤ → ℤ → ℤ → ℕ → ℕ → ℤ → ℤ → ℤ → ℤ → CoreCall F
  send_controller_arrival_event : ℕ → ℕ → ℕ → ℕ → ℕ → CoreCall F

-- The C core: a call returns an error code and the next state.
pub record Core (F C : Type 0) : Type 0 where
  pub call : CoreCall F → C → ℤ × C
  pub host_feature_flags : C → ℕ

-- What a `ConnectionControl` shares with its connection, and the core behind it.
pub record Link (C : Type 0) : Type 0 where
  pub active : Bool
  pub stop_requested : Bool
  pub inner : C

unfoldable pub is_zero : ℤ → Bool
is_zero (pos n) = n == 0
is_zero (negsuc n) = false

unfoldable pub wire_key_code : ℕ → ℕ
wire_key_code key_code = bit_or 0x8000 (bit_and key_code 0x00ff)

module _ (f : Float32) {C : Type 0} (c : Core f.Carrier C) where
  open f use {Carrier}

  unfoldable pub valid_position : Carrier → Carrier → Bool
  valid_position x y = f.is_finite x && f.is_finite y && in_unit f x && in_unit f y

  -- The last lines of `send_input`, once the core has been called.
  unfoldable pub report : String → Link C → ℤ × C → Result InputError (Unit {0}) × Link C
  report operation l (result, after) =
      (if is_zero result then ok tt else err (core operation result), record l { inner = after })

  unfoldable pub send_input :
      String → CoreCall Carrier → Link C → Result InputError (Unit {0}) × Link C
  unfolding report
  send_input operation send l =
      if not l.active
      then (err connection_inactive, l)
      else report operation l (c.call send l.inner)

  unfoldable pub supports_touch : Link C → Result InputError Bool × Link C
  supports_touch l =
      if not l.active
      then (err connection_inactive, l)
      else (ok (not (bit_and (c.host_feature_flags l.inner) 0x01 == 0)), l)

  abbrev pub touch_pressure : TouchEventType → Carrier
  touch_pressure down = f.one
  touch_pressure move = f.one
  touch_pressure up = f.zero
  touch_pressure cancel = f.zero
  touch_pressure cancel_all = f.zero

  unfoldable pub send_touch :
      TouchEventType → ℕ → Carrier → Carrier → Link C → Result InputError (Unit {0}) × Link C
  unfolding send_input
  send_touch event id x y l =
      if not (valid_position x y)
      then (err invalid_coordinates, l)
      else send_input "touch"
          (send_touch_event (event_code event) id x y (touch_pressure event) f.zero f.zero 0xffff) l

  unfoldable pub send_mouse_position :
      Carrier → Carrier → Link C → Result InputError (Unit {0}) × Link C
  unfolding send_input
  send_mouse_position x y l =
      if not (valid_position x y)
      then (err invalid_coordinates, l)
      else send_input "mouse position"
          (send_mouse_position_event (f.round_i16 (f.mul x f.extent))
            (f.round_i16 (f.mul y f.extent)) (pos 32767) (pos 32767))
          l

  unfoldable pub send_mouse_move : ℤ → ℤ → Link C → Result InputError (Unit {0}) × Link C
  unfolding send_input
  send_mouse_move delta_x delta_y = send_input "mouse move" (send_mouse_move_event delta_x delta_y)

  abbrev button_action : InputAction → ℕ
  button_action press = 0x07
  button_action release = 0x08

  unfoldable pub send_mouse_button :
      MouseButton → InputAction → Link C → Result InputError (Unit {0}) × Link C
  unfolding send_input
  send_mouse_button button action =
      send_input "mouse button" (send_mouse_button_event (button_action action) (raw button))

  abbrev key_action : InputAction → ℕ
  key_action press = 0x03
  key_action release = 0x04

  unfoldable pub send_keyboard :
      ℕ → InputAction → KeyboardModifiers → Link C → Result InputError (Unit {0}) × Link C
  unfolding send_input
  send_keyboard key_code action modifiers =
      send_input "keyboard" (
        send_keyboard_event2 (as_i16 (wire_key_code key_code)) (key_action action) modifiers.bits 0)

  unfoldable pub send_vertical_scroll : ℤ → Link C → Result InputError (Unit {0}) × Link C
  unfolding send_input
  send_vertical_scroll amount = send_input "vertical scroll" (send_high_res_scroll_event amount)

  unfoldable pub send_horizontal_scroll : ℤ → Link C → Result InputError (Unit {0}) × Link C
  unfolding send_input
  send_horizontal_scroll amount =
      send_input "horizontal scroll" (send_high_res_hscroll_event amount)

  unfoldable pub send_controller_arrival : ℕ → ℕ → Link C → Result InputError (Unit {0}) × Link C
  unfolding send_input
  send_controller_arrival number active_mask l =
      if leb 16 number
      then (err (invalid_controller number), l)
      else send_input "controller arrival"
          (send_controller_arrival_event number active_mask 1 0xf7ff 1) l

  unfoldable pub send_controller :
      ℕ → ℕ → ControllerState → Link C → Result InputError (Unit {0}) × Link C
  unfolding send_input
  send_controller number active_mask s l =
      if leb 16 number
      then (err (invalid_controller number), l)
      else send_input "controller"
          (send_multi_controller_event (pos number) (as_i16 active_mask) (as_i32 s.buttons)
            s.left_trigger s.right_trigger s.left_x s.left_y s.right_x s.right_y)
          l
