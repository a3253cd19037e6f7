-- ===== src/Gamepad/Defs.antt =====
-- The types and operations of moonlight/src/gamepad.rs. An array of sixteen slots is a list; what
-- the ScarletUI event answers to `pressed` is a field of the event.
use moonlight_scarlet.Prelude.{
  ℕ, zero, suc, ◌+◌, ◌-◌, ◌*◌, ◌/◌, ◌%◌, ◌^◌, min, bit_and, bit_or, Bool, true, false, not, ◌&&◌,
  Option, none, some, List, [], ◌∷◌, if◌then◌else◌, ◌==◌, is_some, get_or, set, replicate,
}
use moonlight_scarlet.Prelude.Int.{ℤ, pos, negsuc, ltb_ℤ}
use moonlight_scarlet.Sys.Types.{ControllerState, neutral}
use moonlight_scarlet.Sys.Buttons.{ControllerButton, button_bits}

pub data GamepadButton : Type 0 where
  south east west north left_shoulder right_shoulder left_trigger right_trigger : GamepadButton
  select start home left_stick right_stick : GamepadButton

pub record GamepadEvent : Type 0 where
  pub device_id : ℕ
  pub reset : Bool
  pub pressed : GamepadButton → Bool
  pub hat_x : ℤ
  pub hat_y : ℤ
  pub left_trigger : ℕ
  pub right_trigger : ℕ
  pub left_x : ℤ
  pub left_y : ℤ
  pub right_x : ℤ
  pub right_y : ℤ

abbrev pub max_gamepads : ℕ
max_gamepads = 16

pub record Device : Type 0 where
  pub id : ℕ
  pub state : ControllerState

pub data Packet : Type 0 where
  arrival : ℕ → ℕ → Packet
  state_of : ℕ → ℕ → ControllerState → Packet

pub record Gamepads : Type 0 where
  pub devices : List (Option Device)
  pub sent : List (Option Device)
  pub swap_ab : Bool

-- `[None; MAX_GAMEPADS]`, and the value of `Gamepads::default`.
abbrev pub empty_slots : List (Option Device)
empty_slots = replicate max_gamepads none

abbrev pub default : Gamepads
default = record { devices = empty_slots; sent = empty_slots; swap_ab = false }

-- `array[slot]`; the loops stay below the length.
abbrev pub slot_at : List (Option Device) → ℕ → Option Device
slot_at ds slot = get_or ds slot none

-- The fold of `mask`, at the slot that it has reached.
unfoldable pub mask_from : ℕ → ℕ → List (Option Device) → ℕ
mask_from slot acc [] = acc
mask_from slot acc (d ∷ ds) =
    mask_from (slot + 1) (bit_or acc (if is_some d then 2 ^ slot else 0)) ds

unfoldable pub mask : List (Option Device) → ℕ
mask ds = mask_from 0 0 ds

-- `iter().position(p)`
unfoldable pub position {ℓ} : {A : Type ℓ} → (A → Bool) → List A → Option ℕ
position p [] = none
position p (x ∷ xs) = elim (p x) [
  | true ↦ some 0
  | false ↦ elim (position p xs) [ none ↦ none | some i ↦ some (suc i) ]
]

-- `saturating_neg` of an `i16`
unfoldable pub saturating_neg : ℤ → ℤ
saturating_neg (pos zero) = pos 0
saturating_neg (pos (suc n)) = negsuc n
saturating_neg (negsuc n) = pos (min (suc n) 32767)

unfoldable pub trigger : ℕ → Bool → ℕ
trigger value digital =
    if digital && value == 0 then 255 else (min value 32767 * 255 + 16383) / 32767 % 256

-- One round of the two loops of `translate`: `buttons |= button as u32` under a test.
abbrev pub press_if : Bool → ControllerButton → ℕ → ℕ
press_if held button buttons = if held then bit_or buttons (button_bits button) else buttons

unfoldable pub press_all : List (Bool × ControllerButton) → ℕ → ℕ
press_all [] buttons = buttons
press_all ((held, button) ∷ rest) buttons = press_all rest (press_if held button buttons)

-- The pairs of the two loops, in their order.
unfoldable pub pairs : GamepadEvent → List (Bool × ControllerButton)
pairs event =
    (event.pressed south, ControllerButton.a)
    ∷ (event.pressed east, ControllerButton.b)
    ∷ (event.pressed west, ControllerButton.x)
    ∷ (event.pressed north, ControllerButton.y)
    ∷ (event.pressed left_shoulder, ControllerButton.left_shoulder)
    ∷ (event.pressed right_shoulder, ControllerButton.right_shoulder)
    ∷ (event.pressed select, ControllerButton.back)
    ∷ (event.pressed start, ControllerButton.start)
    ∷ (event.pressed home, ControllerButton.home)
    ∷ (event.pressed left_stick, ControllerButton.left_stick)
    ∷ (event.pressed right_stick, ControllerButton.right_stick)
    ∷ (ltb_ℤ event.hat_x (pos 0), ControllerButton.left)
    ∷ (ltb_ℤ (pos 0) event.hat_x, ControllerButton.right)
    ∷ (ltb_ℤ event.hat_y (pos 0), ControllerButton.up)
    ∷ (ltb_ℤ (pos 0) event.hat_y, ControllerButton.down)
    ∷ []

unfoldable pub translate : GamepadEvent → ControllerState
translate event = if event.reset then neutral else record {
  buttons = press_all (pairs event) 0;
  left_trigger = trigger event.left_trigger (event.pressed left_trigger);
  right_trigger = trigger event.right_trigger (event.pressed right_trigger);
  left_x = event.left_x;
  left_y = saturating_neg event.left_y;
  right_x = event.right_x;
  right_y = saturating_neg event.right_y;
}

abbrev pub has_id : ℕ → Option Device → Bool
has_id id none = false
has_id id (some device) = device.id == id

abbrev pub is_none : Option Device → Bool
is_none d = not (is_some d)

-- `existing.or_else(..)`
abbrev pub or_else {ℓ} : {A : Type ℓ} → Option A → Option A → Option A
or_else none other = other
or_else (some a) other = some a

-- The two stores of `observe`.
abbrev pub forget : Gamepads → Option ℕ → Gamepads
forget g none = g
forget g (some slot) = record g { devices = set g.devices slot none }

abbrev pub store : Gamepads → Device → Option ℕ → Gamepads
store g device none = g
store g device (some slot) = record g { devices = set g.devices slot (some device) }

unfoldable pub observe : Gamepads → GamepadEvent → Gamepads
observe g event =
    let existing = position (has_id event.device_id) g.devices in
    if event.reset
    then forget g existing
    else store g (record { id = event.device_id; state = translate event })
        (or_else existing (position is_none g.devices))

-- The `swap_ab` block of `sync`.
unfoldable pub swap_buttons : ℕ → ℕ
swap_buttons buttons =
    let a = button_bits ControllerButton.a in
    let b = button_bits ControllerButton.b in
    bit_or
      (bit_or (bit_and buttons (2 ^ 32 - 1 - bit_or a b))
        (if not (bit_and buttons a == 0) then b else 0))
      (if not (bit_and buttons b == 0) then a else 0)

unfoldable pub swapped : Bool → Device → Device
swapped swap device =
    if swap
    then record device {
      state = record (device.state) { buttons = swap_buttons device.state.buttons };
    }
    else device
