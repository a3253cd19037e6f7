-- ===== src/Sys/Laws.antt =====
-- What the checks of `ConnectionControl` promise, whatever the C core does.
use moonlight_scarlet.Prelude.{
  ℕ, ◌+◌, ◌%◌, ◌≤◌, ◌<◌, ◌^◌, ◌≡◌, ap, ◌∙◌, ◌↔◌, ◌⊎◌, Bool, true, false, ok, err, bit_or, arith,
}
use moonlight_scarlet.Prelude.Int.{pos}
use moonlight_scarlet.Prelude.Bits.{test_bit, bit_and_byte, bit_or-high}
use moonlight_scarlet.Sys.Floats.{Float32}
use moonlight_scarlet.Sys.Types.{
  TouchEventType, ControllerState, connection_inactive, invalid_controller, as_i16,
  keyboard_modifiers, event_code, as_i32,
}
use moonlight_scarlet.Sys.Control.{
  Core, CoreCall, send_multi_controller_event, send_touch_event, touch_pressure, Link, is_zero,
  wire_key_code, valid_position, report, send_touch, send_controller,
}

-- The code on the wire is the low byte of the key under the virtual-key marker, so marking twice
-- changes nothing.
pub wire_key_code_lem :
    (k : ℕ)
    → (wire_key_code k ≡ 0x8000 + k % 256) × (wire_key_code (wire_key_code k) ≡ wire_key_code k)
wire_key_code_lem k = (marked k, marked (wire_key_code k) ∙ omega (arith, marked k))
  where
    marked : (n : ℕ) → wire_key_code n ≡ 0x8000 + n % 256
    marked n =
        unfold wire_key_code in
        (ap (bit_or 0x8000) (bit_and_byte n) ∙ bit_or-high 15 (n % 256) (omega arith))

-- Each modifier has a bit of its own, and no other bit is set.
pub keyboard_modifiers_bits :
    (shift control alt meta : Bool)
    → (test_bit (keyboard_modifiers shift control alt meta).bits 0 ≡ shift)
      × (test_bit (keyboard_modifiers shift control alt meta).bits 1 ≡ control)
      × (test_bit (keyboard_modifiers shift control alt meta).bits 2 ≡ alt)
      × (test_bit (keyboard_modifiers shift control alt meta).bits 3 ≡ meta)
      × ((keyboard_modifiers shift control alt meta).bits < 16)
unfolding keyboard_modifiers test_bit
keyboard_modifiers_bits shift control alt meta =
    (ground arith, ground arith, ground arith, ground arith, ground arith)

-- The cast to a C `short` loses none of the sixteen bits.
pub as_i16_injective : (n m : ℕ) → n < 2 ^ 16 → m < 2 ^ 16 → as_i16 n ≡ as_i16 m → n ≡ m
unfolding as_i16
as_i16_injective n m hn hm e = ground arith

module _ (f : Float32) {C : Type 0} (c : Core f.Carrier C) where
  open f use {Carrier}

  -- The core's call for a controller state.
  abbrev pub controller_call : ℕ → ℕ → ControllerState → CoreCall Carrier
  controller_call number mask s =
      send_multi_controller_event (pos number) (as_i16 mask) (as_i32 s.buttons) s.left_trigger
        s.right_trigger s.left_x s.left_y s.right_x s.right_y

  -- A controller state is queued exactly when the number is in range, the connection is active and
  -- the core accepts the packet.
  pub send_controller-ok_iff :
      (number mask : ℕ) (s : ControllerState) (l : Link C)
      → ((send_controller f c number mask s l).0 ≡ ok tt) ↔ (
          (number < 16)
          × (l.active ≡ true)
          × ((c.call (controller_call number mask s) l.inner).0 ≡ pos 0))
  unfolding send_controller report is_zero
  send_controller-ok_iff number mask s l = (λ h. ground arith, λ h. ground arith)

  -- A number out of range or a stopped connection is reported without a call of the core.
  pub send_controller_silent :
      (number mask : ℕ) (s : ControllerState) (l : Link C)
      → (16 ≤ number) ⊎ (l.active ≡ false)
      → (((send_controller f c number mask s l).0 ≡ err (invalid_controller number))
          ⊎ ((send_controller f c number mask s l).0 ≡ err connection_inactive))
        × ((send_controller f c number mask s l).1 ≡ l)
  unfolding send_controller
  send_controller_silent number mask s l h = (ground arith, ground arith)

  -- The core's call for a touch.
  abbrev pub touch_call : TouchEventType → ℕ → Carrier → Carrier → CoreCall Carrier
  touch_call event id x y =
      send_touch_event (event_code event) id x y (touch_pressure f c event) f.zero f.zero 0xffff

  -- A touch is queued exactly when its point is finite and inside the unit square, the connection is
  -- active and the core accepts it.
  pub send_touch-ok_iff :
      (event : TouchEventType) (id : ℕ) (x y : Carrier) (l : Link C)
      → ((send_touch f c event id x y l).0 ≡ ok tt) ↔ (
          (valid_position f c x y ≡ true)
          × (l.active ≡ true)
          × ((c.call (touch_call event id x y) l.inner).0 ≡ pos 0))
  unfolding send_touch report is_zero
  send_touch-ok_iff event id x y l = (λ h. ground arith, λ h. ground arith)
