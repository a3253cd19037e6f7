-- ===== src/Input/Shortcuts.antt =====
-- What moonlight/src/input.rs keeps from the host: the client's own shortcuts, and the release of
-- a click that captured the pointer.
use moonlight_scarlet.Prelude.{
  ℕ, ◌-◌, ◌^◌, ◌<◌, ◌≡◌, ◌≢◌, refl, ap, ◌∙◌, sym, Bool, true, false, not, ◌&&◌, ◌||◌, Option, none,
  some, if◌then◌else◌, ◌==◌, bit_and, bit_or, arith, Bool-cases, inl, inr,
}
use moonlight_scarlet.Prelude.Bits.{
  test_bit, bit_and-pow, test_bit-bit_or, test_bit-bit_and, test_bit-pow, test_bit-complement,
  pow-lt,
}
use moonlight_scarlet.Input.Keys.{
  KeyCode, KeyModifiers, key_pressed, key_released, key_char, KeyEvent, keycode_to_vk,
  moonlight_shortcut_modifiers, LocalButton, left_button, middle_button, right_button,
  mouse_button_bit,
}
use moonlight_scarlet.Input.Defs.{
  StreamShortcut, not_shortcut, consumed, command, contains, insert, remove, PressedInput,
}
use moonlight_scarlet.Input.Sets.{contains-insert, remove-insert}
use moonlight_scarlet.Input.Remote.{
  classify, classify_shortcut, shortcut_of, shortcut_press, clear_bit, suppress_capture_click,
  consume_suppressed_mouse_release,
}

module _ {F : Type 0} where
  -- A shortcut that is not held down commands once. While it is held, a repeat of the key under the
  -- shortcut modifiers is consumed, one without them is no shortcut, and neither changes the state. The
  -- release is consumed whatever the modifiers are by then, and the state is then as before.
  pub shortcut_round :
      (keycode : KeyCode) (vk : ℕ) (c : StreamShortcut) (modifiers later : KeyModifiers)
      (s : PressedInput F)
      → keycode_to_vk keycode ≡ some vk
      → shortcut_of vk ≡ some c
      → moonlight_shortcut_modifiers modifiers ≡ true
      → contains vk s.suppressed_shortcut_keys ≡ false
      → let held = (classify_shortcut (key_pressed keycode modifiers) s).1 in
        ((classify_shortcut (key_pressed keycode modifiers) s).0 ≡ command c)
        × (classify_shortcut (key_pressed keycode later) held
            ≡ (if moonlight_shortcut_modifiers later then consumed else not_shortcut, held))
        × (classify_shortcut (key_released keycode later) held ≡ (consumed, s))
  unfolding classify_shortcut
  shortcut_round keycode vk c modifiers later s k o m h =
      elim (Bool-cases (moonlight_shortcut_modifiers later)) [
        | inl on ↦
            rw (k, m, on, o, h, inserted)
              (
                refl,
                refl,
                ap (λ keys. (consumed, record s { suppressed_shortcut_keys = keys })) back,
              )
        | inr off ↦
            rw (k, m, off, o, h, inserted)
              (
                refl,
                refl,
                ap (λ keys. (consumed, record s { suppressed_shortcut_keys = keys })) back,
              )
      ]
    where
      inserted : contains vk (insert vk s.suppressed_shortcut_keys) ≡ true
      inserted = ground (arith, contains-insert vk vk s.suppressed_shortcut_keys)

      back : remove vk (insert vk s.suppressed_shortcut_keys) ≡ s.suppressed_shortcut_keys
      back = remove-insert vk s.suppressed_shortcut_keys h

  press_keeps :
      (c : Option StreamShortcut) (vk : ℕ) (s : PressedInput F)
      → (shortcut_press c vk s).0 ≡ not_shortcut
      → (shortcut_press c vk s).1 ≡ s
  unfolding shortcut_press
  press_keeps none vk s h = refl
  press_keeps (some c) vk s h = elim (Bool-cases (contains vk s.suppressed_shortcut_keys)) [
    | inl e ↦ rw e refl
    | inr e ↦ absurd (ground (arith, (rw e at h)))
  ]

  classify_keeps :
      (vk : Option ℕ) (modifiers : KeyModifiers) (pressed : Bool) (s : PressedInput F)
      → (classify vk modifiers pressed s).0 ≡ not_shortcut
      → (classify vk modifiers pressed s).1 ≡ s
  unfolding classify
  classify_keeps none modifiers pressed s h = refl
  classify_keeps (some vk) modifiers true s h =
      elim (Bool-cases (moonlight_shortcut_modifiers modifiers)) [
        | inl e ↦ rw e (press_keeps (shortcut_of vk) vk s (rw e at h))
        | inr e ↦ rw e refl
      ]
  classify_keeps (some vk) modifiers false s h =
      elim (Bool-cases (contains vk s.suppressed_shortcut_keys)) [
        | inl e ↦ absurd (ground (arith, (rw e at h)))
        | inr e ↦ rw e refl
      ]

  -- An event that is no shortcut changes nothing.
  pub not_shortcut_keeps :
      (e : KeyEvent) (s : PressedInput F)
      → (classify_shortcut e s).0 ≡ not_shortcut
      → (classify_shortcut e s).1 ≡ s
  unfolding classify_shortcut
  not_shortcut_keeps (key_pressed keycode modifiers) s h =
      classify_keeps (keycode_to_vk keycode) modifiers true s h
  not_shortcut_keeps (key_released keycode modifiers) s h =
      classify_keeps (keycode_to_vk keycode) modifiers false s h
  not_shortcut_keeps key_char s h = refl

-- The place of a button's bit.
abbrev pub bit_place : LocalButton → ℕ
bit_place left_button = 0
bit_place middle_button = 1
bit_place right_button = 2

pub mouse_button_bit-pow : (b : LocalButton) → mouse_button_bit b ≡ 2 ^ bit_place b
mouse_button_bit-pow left_button = refl
mouse_button_bit-pow middle_button = refl
mouse_button_bit-pow right_button = refl

-- A button's test, setting it and clearing it, by bits.
pub held_bit :
    (n : ℕ) (b : LocalButton)
    → (bit_and n (mouse_button_bit b) == 0) ≡ not (test_bit n (bit_place b))
held_bit n b = rw (mouse_button_bit-pow b) (bit_and-pow n (bit_place b))

pub test_bit-set_button :
    (n : ℕ) (b : LocalButton) (k : ℕ)
    → test_bit (bit_or n (mouse_button_bit b)) k ≡ (test_bit n k || bit_place b == k)
test_bit-set_button n b k = rw (mouse_button_bit-pow b) (
    test_bit-bit_or k n (2 ^ bit_place b)
    ∙ ap (λ t. test_bit n k || t) (test_bit-pow (bit_place b) k))

pub place_lt : (b : LocalButton) → bit_place b < 8
place_lt left_button = omega arith
place_lt middle_button = omega arith
place_lt right_button = omega arith

pub test_bit-clear_button :
    (n : ℕ) (b : LocalButton) (k : ℕ)
    → k < 8
    → test_bit (clear_bit n (mouse_button_bit b)) k ≡ (test_bit n k && not (bit_place b == k))
unfolding clear_bit
test_bit-clear_button n b k h = rw (mouse_button_bit-pow b) (
    test_bit-bit_and k n (255 - 2 ^ bit_place b)
    ∙ ap (λ t. test_bit n k && t)
        (test_bit-complement 8 k (2 ^ bit_place b) h (pow-lt 8 (bit_place b) (place_lt b))
          ∙ ap not (test_bit-pow (bit_place b) k)))

place_ne : (b c : LocalButton) → b ≢ c → (bit_place b == bit_place c) ≡ false
place_ne left_button left_button n = absurd (n refl)
place_ne left_button middle_button n = refl
place_ne left_button right_button n = refl
place_ne middle_button left_button n = refl
place_ne middle_button middle_button n = absurd (n refl)
place_ne middle_button right_button n = refl
place_ne right_button left_button n = refl
place_ne right_button middle_button n = refl
place_ne right_button right_button n = absurd (n refl)

module _ {F : Type 0} where
  -- A release is consumed if the button's bit is set.
  consumes :
      (b : LocalButton) (s : PressedInput F)
      → (consume_suppressed_mouse_release b s).0 ≡ test_bit s.suppressed_mouse_buttons (bit_place b)
  unfolding consume_suppressed_mouse_release
  consumes b s = elim (Bool-cases (test_bit s.suppressed_mouse_buttons (bit_place b))) [
    | inl e ↦ rw (held_bit s.suppressed_mouse_buttons b, e) refl
    | inr e ↦ rw (held_bit s.suppressed_mouse_buttons b, e) refl
  ]

  -- After that the bit is clear.
  leaves :
      (b : LocalButton) (s : PressedInput F) (k : ℕ)
      → k < 8
      → test_bit (consume_suppressed_mouse_release b s).1.suppressed_mouse_buttons k
        ≡ (test_bit s.suppressed_mouse_buttons k && not (bit_place b == k))
  unfolding consume_suppressed_mouse_release
  leaves b s k h = elim (Bool-cases (test_bit s.suppressed_mouse_buttons (bit_place b))) [
    | inl e ↦
        rw (held_bit s.suppressed_mouse_buttons b, e)
          (test_bit-clear_button s.suppressed_mouse_buttons b k h)
    | inr e ↦
        rw (held_bit s.suppressed_mouse_buttons b, e)
          (elim (Bool-cases (bit_place b == k)) [
            | inl m ↦ ground (arith, e, m, ap (test_bit s.suppressed_mouse_buttons) (same k m))
            | inr n ↦ ground (arith, n)
          ])
  ]
    where
      same : (k : ℕ) → (bit_place b == k) ≡ true → bit_place b ≡ k
      same k m = ground (arith, m)

  -- A click that captured the pointer has its release consumed, once, and the releases of the other
  -- buttons are treated as before.
  pub suppress_once :
      (b : LocalButton) (s : PressedInput F)
      → let after = consume_suppressed_mouse_release b (suppress_capture_click b s) in
        (after.0 ≡ true)
        × ((consume_suppressed_mouse_release b after.1).0 ≡ false)
        × ((c : LocalButton)
            → b ≢ c
            → ((consume_suppressed_mouse_release c (suppress_capture_click b s)).0
                ≡ (consume_suppressed_mouse_release c s).0)
              × ((consume_suppressed_mouse_release c after.1).0
                  ≡ (consume_suppressed_mouse_release c s).0))
  suppress_once b s = (
    consumes b s' ∙ ground (arith, set (bit_place b)),
    consumes b after ∙ ground (arith, leaves b s' (bit_place b) (place_lt b)),
    λ c n. (
      consumes c s' ∙ ground (arith, set (bit_place c), place_ne b c n) ∙ sym (consumes c s),
      consumes c after
          ∙ ground
              (arith, leaves b s' (bit_place c) (place_lt c), set (bit_place c), place_ne b c n)
          ∙ sym (consumes c s),
    ),
  )
    where
      s' : PressedInput F
      s' = suppress_capture_click b s

      after : PressedInput F
      after = (consume_suppressed_mouse_release b s').1

      set :
          (k : ℕ)
          → test_bit s'.suppressed_mouse_buttons k
            ≡ (test_bit s.suppressed_mouse_buttons k || bit_place b == k)
      set k = unfold suppress_capture_click in test_bit-set_button s.suppressed_mouse_buttons b k
