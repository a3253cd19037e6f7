-- ===== src/Input/Keys.antt =====
-- Virtual-key codes of moonlight/src/input.rs. A `char` is its code point.
use moonlight_scarlet.Prelude.{
  ℕ, ◌+◌, ◌-◌, Bool, ◌&&◌, ◌||◌, ◌<◌, ◌≡◌, arith, Option, none, some, if◌then◌else◌, leb, ◌==◌,
}
use moonlight_scarlet.Sys.Types.{KeyboardModifiers, keyboard_modifiers, MouseButton}

-- `KeyCode` of ScarletUI.
pub data KeyCode : Type 0 where
  unknown escape enter tab backspace space left right up down home end page_up page_down insert
        delete :
      KeyCode
  f_key : ℕ → KeyCode
  char : ℕ → KeyCode

-- `KeyModifiers` of ScarletUI.
pub record KeyModifiers : Type 0 where
  pub shift : Bool
  pub control : Bool
  pub alt : Bool
  pub super_key : Bool

-- `KeyEvent` of ScarletUI; the characters of a text event are not read.
pub data KeyEvent : Type 0 where
  key_pressed : KeyCode → KeyModifiers → KeyEvent
  key_released : KeyCode → KeyModifiers → KeyEvent
  key_char : KeyEvent

abbrev pub within : ℕ → ℕ → ℕ → Bool
within lo hi n = leb lo n && leb n hi

abbrev pub either : ℕ → ℕ → ℕ → Bool
either a b n = n == a || n == b

-- The punctuation of `char_to_vk`, from `'!'` on.
unfoldable pub punctuation_to_vk : ℕ → Option ℕ
punctuation_to_vk c =
    if c == 0x21
    then some 0x31
    else if c == 0x40
    then some 0x32
    else if c == 0x23
    then some 0x33
    else if c == 0x24
    then some 0x34
    else if c == 0x25
    then some 0x35
    else if c == 0x5e
    then some 0x36
    else if c == 0x26
    then some 0x37
    else if c == 0x2a
    then some 0x38
    else if c == 0x28
    then some 0x39
    else if c == 0x29
    then some 0x30
    else if either 0x3b 0x3a c
    then some 0xba
    else if either 0x3d 0x2b c
    then some 0xbb
    else if either 0x2c 0x3c c
    then some 0xbc
    else if either 0x2d 0x5f c
    then some 0xbd
    else if either 0x2e 0x3e c
    then some 0xbe
    else if either 0x2f 0x3f c
    then some 0xbf
    else if either 0x60 0x7e c
    then some 0xc0
    else if either 0x5b 0x7b c
    then some 0xdb
    else if either 0x5c 0x7c c
    then some 0xdc
    else if either 0x5d 0x7d c
    then some 0xdd
    else if either 0x27 0x22 c
    then some 0xde
    else none

-- `to_ascii_uppercase` of a lower-case letter takes 32 away.
unfoldable pub char_to_vk : ℕ → Option ℕ
char_to_vk c =
    if within 0x61 0x7a c
    then some (c - 0x20)
    else if within 0x41 0x5a c || within 0x30 0x39 c
    then some c
    else if within 0x01 0x1a c
    then some (c - 1 + 0x41)
    else if c == 0x1b
    then some 0xdb
    else if c == 0x1c
    then some 0xdc
    else if c == 0x1d
    then some 0xdd
    else if c == 0x1f
    then some 0xbd
    else punctuation_to_vk c

unfoldable pub keycode_to_vk : KeyCode → Option ℕ
unfolding char_to_vk
keycode_to_vk unknown = none
keycode_to_vk escape = some 0x1b
keycode_to_vk enter = some 0x0d
keycode_to_vk tab = some 0x09
keycode_to_vk backspace = some 0x08
keycode_to_vk space = some 0x20
keycode_to_vk left = some 0x25
keycode_to_vk right = some 0x27
keycode_to_vk up = some 0x26
keycode_to_vk down = some 0x28
keycode_to_vk home = some 0x24
keycode_to_vk end = some 0x23
keycode_to_vk page_up = some 0x21
keycode_to_vk page_down = some 0x22
keycode_to_vk insert = some 0x2d
keycode_to_vk delete = some 0x2e
keycode_to_vk (f_key number) = if within 1 24 number then some (0x70 + (number - 1)) else none
keycode_to_vk (char character) = char_to_vk character

abbrev pub remote_modifiers : KeyModifiers → KeyboardModifiers
remote_modifiers m = keyboard_modifiers m.shift m.control m.alt m.super_key

abbrev pub moonlight_shortcut_modifiers : KeyModifiers → Bool
moonlight_shortcut_modifiers m = m.shift && m.control && m.alt

-- `MouseButton` of ScarletUI.
pub data LocalButton : Type 0 where
  left_button middle_button right_button : LocalButton

abbrev pub remote_mouse_button : LocalButton → MouseButton
remote_mouse_button left_button = MouseButton.left
remote_mouse_button middle_button = MouseButton.middle
remote_mouse_button right_button = MouseButton.right

abbrev pub mouse_button_bit : LocalButton → ℕ
mouse_button_bit left_button = 0x01
mouse_button_bit middle_button = 0x02
mouse_button_bit right_button = 0x04

-- A code of the letters, digits, function keys or of the list of named ones fits a byte and is not 0.
pub keycode_to_vk_range : (k : KeyCode) (vk : ℕ) → keycode_to_vk k ≡ some vk → (0 < vk) × (vk < 256)
unfolding keycode_to_vk char_to_vk punctuation_to_vk
keycode_to_vk_range k vk e = ground arith
