-- ===== src/Gamepad/Translate.antt =====
-- `translate` and `trigger` of moonlight/src/gamepad.rs.
use moonlight_scarlet.Prelude.{
  ℕ, zero, suc, ◌+◌, ◌*◌, ◌≤◌, ◌^◌, ◌≡◌, refl, ap, ◌∙◌, Bool, true, false, ◌&&◌, ◌||◌, List, [],
  ◌∷◌, if◌then◌else◌, ◌==◌, min, arith, inr, ◌⊎◌,
}
use moonlight_scarlet.Prelude.Int.{ℤ, pos, negsuc, ltb_ℤ, ◌≤ℤ◌}
use moonlight_scarlet.Prelude.Bits.{test_bit, test_bit-zero, test_bit-bit_or, test_bit-pow}
use moonlight_scarlet.Sys.Buttons.{ControllerButton, button_bits}
use moonlight_scarlet.Gamepad.Defs.{
  GamepadEvent, GamepadButton, translate, trigger, saturating_neg, press_all, press_if, pairs,
}

-- The bit of each button, by its place in the protocol's word.
abbrev pub bit_index : ControllerButton → ℕ
bit_index ControllerButton.up = 0
bit_index ControllerButton.down = 1
bit_index ControllerButton.left = 2
bit_index ControllerButton.right = 3
bit_index ControllerButton.start = 4
bit_index ControllerButton.back = 5
bit_index ControllerButton.left_stick = 6
bit_index ControllerButton.right_stick = 7
bit_index ControllerButton.left_shoulder = 8
bit_index ControllerButton.right_shoulder = 9
bit_index ControllerButton.home = 10
bit_index ControllerButton.a = 12
bit_index ControllerButton.b = 13
bit_index ControllerButton.x = 14
bit_index ControllerButton.y = 15

-- Which local control stands for which button: by position, with Y up.
abbrev pub held : GamepadEvent → ControllerButton → Bool
held e ControllerButton.up = ltb_ℤ e.hat_y (pos 0)
held e ControllerButton.down = ltb_ℤ (pos 0) e.hat_y
held e ControllerButton.left = ltb_ℤ e.hat_x (pos 0)
held e ControllerButton.right = ltb_ℤ (pos 0) e.hat_x
held e ControllerButton.start = e.pressed GamepadButton.start
held e ControllerButton.back = e.pressed GamepadButton.select
held e ControllerButton.left_stick = e.pressed GamepadButton.left_stick
held e ControllerButton.right_stick = e.pressed GamepadButton.right_stick
held e ControllerButton.left_shoulder = e.pressed GamepadButton.left_shoulder
held e ControllerButton.right_shoulder = e.pressed GamepadButton.right_shoulder
held e ControllerButton.home = e.pressed GamepadButton.home
held e ControllerButton.a = e.pressed GamepadButton.south
held e ControllerButton.b = e.pressed GamepadButton.east
held e ControllerButton.x = e.pressed GamepadButton.west
held e ControllerButton.y = e.pressed GamepadButton.north

button_bits-pow : (b : ControllerButton) → button_bits b ≡ 2 ^ bit_index b
unfolding button_bits
button_bits-pow ControllerButton.up = refl
button_bits-pow _ = refl

abbrev among : List (Bool × ControllerButton) → ℕ → Bool
among [] k = false
among ((h, button) ∷ rest) k = (bit_index button == k && h) || among rest k

test_bit-press_if :
    (h : Bool) (b : ControllerButton) (acc k : ℕ)
    → test_bit (press_if h b acc) k ≡ (test_bit acc k || (bit_index b == k && h))
test_bit-press_if true button acc k =
    test_bit-bit_or k acc (button_bits button)
    ∙ ground
        (arith, ap (λ n. test_bit n k) (button_bits-pow button), test_bit-pow (bit_index button) k)
test_bit-press_if false button acc k = ground arith

test_bit-press_all :
    (ps : List (Bool × ControllerButton)) (acc k : ℕ)
    → test_bit (press_all ps acc) k ≡ (test_bit acc k || among ps k)
unfolding press_all
test_bit-press_all [] acc k = ground arith
test_bit-press_all ((h, button) ∷ ps) acc k =
    test_bit-press_all ps (press_if h button acc) k
    ∙ rw (test_bit-press_if) (or_assoc (test_bit acc k) (bit_index button == k && h) (among ps k))
  where
    or_assoc : (p q r : Bool) → ((p || q) || r) ≡ (p || (q || r))
    or_assoc true q r = refl
    or_assoc false q r = refl

or-false : (p : Bool) → (p || false) ≡ p
or-false true = refl
or-false false = refl

among-held : (e : GamepadEvent) (b : ControllerButton) → among (pairs e) (bit_index b) ≡ held e b
unfolding pairs
among-held e ControllerButton.up = or-false _
among-held e _ = or-false _

translate-buttons :
    (e : GamepadEvent) → (translate e).buttons ≡ (if e.reset then 0 else press_all (pairs e) 0)
unfolding translate
translate-buttons e = ground arith

-- A snapshot that is no reset sets exactly the bits of the buttons that are held.
pub test_bit-translate :
    (e : GamepadEvent) (b : ControllerButton)
    → e.reset ≡ false
    → test_bit (translate e).buttons (bit_index b) ≡ held e b
test_bit-translate e button r =
    simp (translate-buttons e, r)
      (test_bit-press_all (pairs e) 0 (bit_index button)
        ∙ ground (arith, test_bit-zero (bit_index button), among-held e button))

-- The pressure is the nearest of 256 steps, and full or none at the ends.
pub trigger_nearest :
    (value : ℕ) (digital : Bool)
    → (digital && value == 0) ≡ false
    → (trigger value digital * 32767 ≤ min value 32767 * 255 + 16383)
      × (min value 32767 * 255 ≤ trigger value digital * 32767 + 16383)
      × (trigger value digital ≤ 255)
unfolding trigger
trigger_nearest value digital h = rw h (omega arith)

-- Negating a 16-bit coordinate stays within 16 bits: the least one becomes the greatest.
pub saturating_neg_range :
    (v : ℤ)
    → negsuc 32767 ≤ℤ v
    → v ≤ℤ pos 32767
    → (negsuc 32766 ≤ℤ saturating_neg v)
      × (saturating_neg v ≤ℤ pos 32767)
      × ((v ≡ negsuc 32767) ⊎ (saturating_neg (saturating_neg v) ≡ v))
unfolding saturating_neg
saturating_neg_range (pos zero) lo hi = (omega arith, omega arith, inr refl)
saturating_neg_range (pos (suc n)) lo hi = (omega arith, omega arith, ground arith)
saturating_neg_range (negsuc zero) lo hi = (omega arith, omega arith, inr refl)
saturating_neg_range (negsuc (suc n)) lo hi = (omega arith, omega arith, ground arith)
