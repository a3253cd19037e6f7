-- ===== src/Input/Remote.antt =====
-- The handlers of `RemoteInput`, moonlight/src/input.rs: each takes the state and the world of the
-- connection and returns its result with both.
use moonlight_scarlet.Prelude.{
  ℕ, ◌-◌, Bool, true, false, not, Option, none, some, List, [], ◌∷◌, if◌then◌else◌, ◌==◌, Result,
  ok, err, bit_and, bit_or,
}
use moonlight_scarlet.Prelude.Int.{ℤ}
use moonlight_scarlet.Sys.Types.{InputError, InputAction, press, release, no_modifiers}
use moonlight_scarlet.Sys.Control.{is_zero}
use moonlight_scarlet.Gamepad.Defs.{saturating_neg}
use moonlight_scarlet.Touch.Defs.{TouchChange, untouched}
use moonlight_scarlet.Touch.Route.{release_to, route}
use moonlight_scarlet.Sys.Floats.{Float32}
use moonlight_scarlet.Input.Keys.{
  KeyEvent, key_pressed, key_released, key_char, KeyModifiers, keycode_to_vk, remote_modifiers,
  moonlight_shortcut_modifiers, LocalButton, left_button, middle_button, right_button,
  remote_mouse_button, mouse_button_bit,
}
use moonlight_scarlet.Input.Wheel.{clamp_i16, wheel_units}
use moonlight_scarlet.Input.Defs.{
  StreamShortcut, toggle_capture, disconnect, toggle_fullscreen, ShortcutDispatch, not_shortcut,
  consumed, command, contains, insert, remove, PressedInput, nothing_pressed, Control,
}

-- `!bit` of a `u8`.
unfoldable pub clear_bit : ℕ → ℕ → ℕ
clear_bit buttons bit = bit_and buttons (255 - bit)

unfoldable pub shortcut_of : ℕ → Option StreamShortcut
shortcut_of vk =
    if vk == 0x5a
    then some toggle_capture
    else if vk == 0x51
    then some disconnect
    else if vk == 0x58
    then some toggle_fullscreen
    else none

module _ {F : Type 0} where
  -- A release of a key: one that belonged to a shortcut is consumed.
  unfoldable pub shortcut_release : ℕ → PressedInput F → ShortcutDispatch × PressedInput F
  shortcut_release vk s =
      if contains vk s.suppressed_shortcut_keys
      then (consumed, record s { suppressed_shortcut_keys = remove vk s.suppressed_shortcut_keys })
      else (not_shortcut, s)

  -- A press of a key under the shortcut modifiers; `insert` answers whether the key was new.
  unfoldable pub shortcut_press :
      Option StreamShortcut → ℕ → PressedInput F → ShortcutDispatch × PressedInput F
  shortcut_press none vk s = (not_shortcut, s)
  shortcut_press (some c) vk s =
      if contains vk s.suppressed_shortcut_keys
      then (consumed, s)
      else (command c, record s { suppressed_shortcut_keys = insert vk s.suppressed_shortcut_keys })

  unfoldable pub classify :
      Option ℕ → KeyModifiers → Bool → PressedInput F → ShortcutDispatch × PressedInput F
  unfolding shortcut_release shortcut_press
  classify none modifiers pressed s = (not_shortcut, s)
  classify (some vk) modifiers true s =
      if moonlight_shortcut_modifiers modifiers
      then shortcut_press (shortcut_of vk) vk s
      else (not_shortcut, s)
  classify (some vk) modifiers false s = shortcut_release vk s

  unfoldable pub classify_shortcut : KeyEvent → PressedInput F → ShortcutDispatch × PressedInput F
  unfolding classify
  classify_shortcut (key_pressed keycode modifiers) s =
      classify (keycode_to_vk keycode) modifiers true s
  classify_shortcut (key_released keycode modifiers) s =
      classify (keycode_to_vk keycode) modifiers false s
  classify_shortcut key_char s = (not_shortcut, s)

  unfoldable pub suppress_capture_click : LocalButton → PressedInput F → PressedInput F
  suppress_capture_click button s = record s {
    suppressed_mouse_buttons = bit_or s.suppressed_mouse_buttons (mouse_button_bit button);
  }

  unfoldable pub consume_suppressed_mouse_release :
      LocalButton → PressedInput F → Bool × PressedInput F
  unfolding clear_bit
  consume_suppressed_mouse_release button s =
      if bit_and s.suppressed_mouse_buttons (mouse_button_bit button) == 0 then (false, s) else (
        true,
        record s {
          suppressed_mouse_buttons = clear_bit s.suppressed_mouse_buttons (mouse_button_bit button);
        },
      )

  module _ {W : Type 0} (control : Control F W) where
    abbrev pub Reply : Type 0 → Type 0
    Reply A = Result InputError A × (PressedInput F × W)

    -- The key is recorded once the host has been told.
    unfoldable pub note_key :
        ℕ → InputAction → PressedInput F → Result InputError (Unit {0}) × W → Reply Bool
    note_key vk action s (err e, w) = (err e, (s, w))
    note_key vk press s (ok u, w) = (ok true, (record s { keys = insert vk s.keys }, w))
    note_key vk release s (ok u, w) = (ok true, (record s { keys = remove vk s.keys }, w))

    unfoldable pub send_code :
        Option ℕ → KeyModifiers → InputAction → PressedInput F → W → Reply Bool
    unfolding note_key
    send_code none modifiers action s w = (ok false, (s, w))
    send_code (some vk) modifiers action s w =
        note_key vk action s (control.keyboard vk action (remote_modifiers modifiers) w)

    unfoldable pub send_key : KeyEvent → PressedInput F → W → Reply Bool
    unfolding send_code
    send_key (key_pressed keycode modifiers) s w =
        send_code (keycode_to_vk keycode) modifiers press s w
    send_key (key_released keycode modifiers) s w =
        send_code (keycode_to_vk keycode) modifiers release s w
    send_key key_char s w = (ok false, (s, w))

    unfoldable pub note_button :
        LocalButton → Bool → PressedInput F → Result InputError (Unit {0}) × W → Reply (Unit {0})
    unfolding clear_bit
    note_button button pressed s (err e, w) = (err e, (s, w))
    note_button button true s (ok u, w) =
        (ok tt, (record s { mouse_buttons = bit_or s.mouse_buttons (mouse_button_bit button) }, w))
    note_button button false s (ok u, w) = (
      ok tt,
      (record s { mouse_buttons = clear_bit s.mouse_buttons (mouse_button_bit button) }, w),
    )

    unfoldable pub send_mouse_button : LocalButton → Bool → PressedInput F → W → Reply (Unit {0})
    unfolding note_button
    send_mouse_button button pressed s w =
        note_button button pressed s
          (control.mouse_button (remote_mouse_button button) (if pressed then press else release) w)

    unfoldable pub send_mouse_delta : ℤ → ℤ → W → Result InputError (Unit {0}) × W
    send_mouse_delta delta_x delta_y = control.mouse_move (clamp_i16 delta_x) (clamp_i16 delta_y)

    unfoldable pub scroll_vertical :
        ℤ → Result InputError (Unit {0}) × W → Result InputError (Unit {0}) × W
    scroll_vertical vertical (err e, w) = (err e, w)
    scroll_vertical vertical (ok u, w) =
        if is_zero vertical then (ok tt, w) else control.vertical_scroll vertical w

    unfoldable pub send_wheel : ℤ → ℤ → W → Result InputError (Unit {0}) × W
    unfolding scroll_vertical
    send_wheel delta_x delta_y w = scroll_vertical (saturating_neg (wheel_units delta_y)) (
        if is_zero (wheel_units delta_x)
        then (ok tt, w)
        else control.horizontal_scroll (wheel_units delta_x) w)

    -- `first_error.get_or_insert(error)`
    abbrev pub first_of : Option InputError → Result InputError (Unit {0}) → Option InputError
    first_of (some e) r = some e
    first_of none (ok u) = none
    first_of none (err e) = some e

    -- `first_error.map_or(Ok(()), Err)`
    abbrev pub or_ok : Option InputError → Result InputError (Unit {0})
    or_ok none = ok tt
    or_ok (some e) = err e

    unfoldable pub keep_first :
        Option InputError → Result InputError (Unit {0}) × W → Option InputError × W
    keep_first first (r, w) = (first_of first r, w)

    -- One round of the loop over the buttons.
    unfoldable pub release_button : ℕ → LocalButton → Option InputError × W → Option InputError × W
    release_button buttons button (first, w) =
        if bit_and buttons (mouse_button_bit button) == 0
        then (first, w)
        else keep_first first (control.mouse_button (remote_mouse_button button) release w)

    unfoldable pub release_buttons : ℕ → Option InputError × W → Option InputError × W
    unfolding release_button
    release_buttons buttons o =
        release_button buttons right_button
          (release_button buttons middle_button (release_button buttons left_button o))

    unfoldable pub release_keys : List ℕ → Option InputError × W → Option InputError × W
    release_keys [] o = o
    release_keys (k ∷ ks) (first, w) =
        release_keys ks (keep_first first (control.keyboard k release no_modifiers w))

    unfoldable pub answer : PressedInput F → Option InputError × W → Reply (Unit {0})
    answer s (first, w) = (or_ok first, (s, w))

    -- The flag says whether there is a control.
    unfoldable pub release_mouse : Bool → PressedInput F → W → Reply (Unit {0})
    release_mouse connected s w =
        let s' = record s { suppressed_mouse_buttons = 0; mouse_buttons = 0 } in
        if connected
        then answer s' (release_buttons s.mouse_buttons (none, w))
        else (ok tt, (s', w))

    -- `zero` is the coordinate that the touches are cancelled with.
    unfoldable pub release_all : F → Bool → PressedInput F → W → Reply (Unit {0})
    release_all zero connected s w =
        let s' = record s {
          touches = untouched;
          keys = [];
          mouse_buttons = 0;
          suppressed_mouse_buttons = 0;
        } in
        if not connected
        then (ok tt, (s', w))
        else let (r, (_, w')) = release_to control.touch_sink zero s.touches w in
          answer s' (release_buttons s.mouse_buttons (release_keys s.keys (first_of none r, w')))

-- `send_touch` hands a touch to the router in the state, and `reset` starts a new session.
unfoldable pub send_touch :
    (f : Float32) {W : Type 0}
    → Control f.Carrier W
    → TouchChange
    → ℕ × ℕ
    → ℕ × ℕ
    → PressedInput f.Carrier
    → W
    → Result InputError Bool × (PressedInput f.Carrier × W)
send_touch f control change viewport video s w =
    let (r, (touches, after)) = route f control.touch_sink change viewport video s.touches w in
    (r, (record s { touches = touches }, after))

abbrev pub reset : {F : Type 0} → PressedInput F → PressedInput F
reset s = nothing_pressed
