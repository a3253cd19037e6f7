-- ===== src/Input/Tracking.antt =====
-- The keys and buttons that moonlight/src/input.rs records, and those that the host holds down.
use moonlight_scarlet.Prelude.{
  ℕ, ◌<◌, ◌≡◌, refl, ◌∙◌, sym, Bool, true, false, Option, none, some, if◌then◌else◌, ◌==◌, arith,
  Result, ok, err,
}
use moonlight_scarlet.Prelude.Bits.{test_bit}
use moonlight_scarlet.Sys.Types.{InputError, InputAction, press, release, KeyboardModifiers}
use moonlight_scarlet.Input.Keys.{
  KeyEvent, key_pressed, key_released, key_char, KeyModifiers, keycode_to_vk, keycode_to_vk_range,
  remote_modifiers, LocalButton, remote_mouse_button,
}
use moonlight_scarlet.Input.Defs.{contains, PressedInput, Control}
use moonlight_scarlet.Input.Remote.{note_key, send_code, send_key, note_button, send_mouse_button}
use moonlight_scarlet.Input.Sets.{
  IsAscending, insert-IsAscending, remove-IsAscending, contains-insert, contains-remove,
}
use moonlight_scarlet.Input.Shortcuts.{
  bit_place, place_lt, test_bit-set_button, test_bit-clear_button,
}

abbrev pub is_press : InputAction → Bool
is_press press = true
is_press release = false

abbrev pub changed : Result InputError (Unit {0}) → Bool → Bool → Bool
changed (ok u) new old = new
changed (err e) new old = old

-- What the host holds down, by virtual-key codes, which are those below 256, and by buttons; and how
-- the calls of a control change it: a call that fails changes nothing.
pub record Follows {F W : Type 0} (control : Control F W) (down : W → ℕ → Bool)
    (held : W → LocalButton → Bool) : Type 0 where
  pub keyboard_plays :
      (vk : ℕ) (a : InputAction) (m : KeyboardModifiers) (w : W) (k : ℕ)
      → vk < 256
      → k < 256
      → down (control.keyboard vk a m w).1 k
        ≡ changed
            (control.keyboard vk a m w).0
            (if k == vk then is_press a else down w k)
            (down w k)
  pub keyboard_keeps :
      (vk : ℕ) (a : InputAction) (m : KeyboardModifiers) (w : W) (b : LocalButton)
      → held (control.keyboard vk a m w).1 b ≡ held w b
  pub button_plays :
      (b : LocalButton) (a : InputAction) (w : W) (c : LocalButton)
      → held (control.mouse_button (remote_mouse_button b) a w).1 c
        ≡ changed
            (control.mouse_button (remote_mouse_button b) a w).0
            (if bit_place b == bit_place c then is_press a else held w c)
            (held w c)
  pub button_keeps :
      (b : LocalButton) (a : InputAction) (w : W) (k : ℕ)
      → down (control.mouse_button (remote_mouse_button b) a w).1 k ≡ down w k

module _ {F W : Type 0} (control : Control F W) (down : W → ℕ → Bool)
    (held : W → LocalButton → Bool) (follows : Follows control down held) where
  open follows use {keyboard_plays, keyboard_keeps, button_plays, button_keeps}

  -- The sets of the state are exactly what the host holds, and the recorded keys are codes.
  pub record IsTracked (s : PressedInput F) (w : W) : Type 0 where
    pub ascending : IsAscending s.keys
    pub codes : (k : ℕ) → contains k s.keys ≡ true → k < 256
    pub keys : (k : ℕ) → k < 256 → contains k s.keys ≡ down w k
    pub buttons : (b : LocalButton) → test_bit s.mouse_buttons (bit_place b) ≡ held w b

  note_key-IsTracked :
      (vk : ℕ) (a : InputAction) (s : PressedInput F) (w w' : W) (r : Result InputError (Unit {0}))
      → vk < 256
      → IsTracked s w
      → ((k : ℕ)
          → k < 256
          → down w' k ≡ changed r (if k == vk then is_press a else down w k) (down w k))
      → ((b : LocalButton) → held w' b ≡ held w b)
      → IsTracked (note_key control vk a s (r, w')).1.0 (note_key control vk a s (r, w')).1.1
  unfolding note_key
  note_key-IsTracked vk a s w w' (err e) small t d b = record {
    ascending = t.ascending;
    codes = t.codes;
    keys = λ k h. t.keys k h ∙ sym (d k h);
    buttons = λ c. t.buttons c ∙ sym (b c);
  }
  note_key-IsTracked vk press s w w' (ok u) small t d b = record {
    ascending = insert-IsAscending vk s.keys t.ascending;
    codes = λ k h. ground (arith, small, t.codes k, contains-insert vk k s.keys, h);
    keys = λ k h. contains-insert vk k s.keys ∙ ground (arith, d k h, t.keys k h);
    buttons = λ c. t.buttons c ∙ sym (b c);
  }
  note_key-IsTracked vk release s w w' (ok u) small t d b = record {
    ascending = remove-IsAscending vk s.keys t.ascending;
    codes = λ k h. ground (arith, t.codes k, contains-remove vk k s.keys t.ascending, h);
    keys = λ k h. contains-remove vk k s.keys t.ascending ∙ ground (arith, d k h, t.keys k h);
    buttons = λ c. t.buttons c ∙ sym (b c);
  }

  send_code-IsTracked :
      (code : Option ℕ) (m : KeyModifiers) (a : InputAction) (s : PressedInput F) (w : W)
      → ((vk : ℕ) → code ≡ some vk → vk < 256)
      → IsTracked s w
      → IsTracked (send_code control code m a s w).1.0 (send_code control code m a s w).1.1
  unfolding send_code
  send_code-IsTracked none m a s w small t = t
  send_code-IsTracked (some vk) m a s w small t =
      note_key-IsTracked vk a s w (control.keyboard vk a (remote_modifiers m) w).1
        (control.keyboard vk a (remote_modifiers m) w).0 (small vk refl) t
        (λ k. keyboard_plays vk a (remote_modifiers m) w k (small vk refl))
        (keyboard_keeps vk a (remote_modifiers m) w)

  -- Any key event, sent, refused or not translated, keeps the recorded keys and buttons those that the
  -- host holds down, where a call that the core refuses leaves the host as it was and no other handler
  -- runs between the call and the record.
  pub send_key-IsTracked :
      (e : KeyEvent) (s : PressedInput F) (w : W)
      → IsTracked s w
      → IsTracked (send_key control e s w).1.0 (send_key control e s w).1.1
  unfolding send_key
  send_key-IsTracked (key_pressed keycode m) s w t =
      send_code-IsTracked (keycode_to_vk keycode) m press s w
        (λ vk h. (keycode_to_vk_range keycode vk h).1) t
  send_key-IsTracked (key_released keycode m) s w t =
      send_code-IsTracked (keycode_to_vk keycode) m release s w
        (λ vk h. (keycode_to_vk_range keycode vk h).1) t
  send_key-IsTracked key_char s w t = t

  note_button-IsTracked :
      (b : LocalButton) (pressed : Bool) (s : PressedInput F) (w w' : W)
      (r : Result InputError (Unit {0}))
      → IsTracked s w
      → ((c : LocalButton)
          → held w' c
            ≡ changed r (if bit_place b == bit_place c then pressed else held w c) (held w c))
      → ((k : ℕ) → down w' k ≡ down w k)
      → IsTracked
          (note_button control b pressed s (r, w')).1.0
          (note_button control b pressed s (r, w')).1.1
  unfolding note_button
  note_button-IsTracked b pressed s w w' (err e) t h d = record {
    ascending = t.ascending;
    codes = t.codes;
    keys = λ k h. t.keys k h ∙ sym (d k);
    buttons = λ c. t.buttons c ∙ sym (h c);
  }
  note_button-IsTracked b true s w w' (ok u) t h d = record {
    ascending = t.ascending;
    codes = t.codes;
    keys = λ k h. t.keys k h ∙ sym (d k);
    buttons =
        λ c. test_bit-set_button s.mouse_buttons b (bit_place c) ∙ ground (arith, h c, t.buttons c);
  }
  note_button-IsTracked b false s w w' (ok u) t h d = record {
    ascending = t.ascending;
    codes = t.codes;
    keys = λ k h. t.keys k h ∙ sym (d k);
    buttons = λ c.
        test_bit-clear_button s.mouse_buttons b (bit_place c) (place_lt c)
        ∙ ground (arith, h c, t.buttons c);
  }

  -- So does a mouse button.
  pub send_mouse_button-IsTracked :
      (b : LocalButton) (pressed : Bool) (s : PressedInput F) (w : W)
      → IsTracked s w
      → IsTracked
          (send_mouse_button control b pressed s w).1.0
          (send_mouse_button control b pressed s w).1.1
  unfolding send_mouse_button
  send_mouse_button-IsTracked b true s w t =
      note_button-IsTracked b true s w (control.mouse_button (remote_mouse_button b) press w).1
        (control.mouse_button (remote_mouse_button b) press w).0 t (button_plays b press w)
        (button_keeps b press w)
  send_mouse_button-IsTracked b false s w t =
      note_button-IsTracked b false s w (control.mouse_button (remote_mouse_button b) release w).1
        (control.mouse_button (remote_mouse_button b) release w).0 t (button_plays b release w)
        (button_keeps b release w)
