-- ===== src/Sys/Types.antt =====
-- The input vocabulary of moonlight-sys/src/connection.rs, and the casts of C integers.
use Prim.Native.String.{String}
use moonlight_scarlet.Prelude.{ℕ, ◌-◌, ◌^◌, Bool, if◌then◌else◌, ltb, bit_or}
use moonlight_scarlet.Prelude.Int.{ℤ, pos, negsuc}

-- `as i16` of a `u16`, and `as c_int` of a `u32`: the same bits, read as signed.
unfoldable pub as_i16 : ℕ → ℤ
as_i16 n = if ltb n (2 ^ 15) then pos n else negsuc (2 ^ 16 - n - 1)

unfoldable pub as_i32 : ℕ → ℤ
as_i32 n = if ltb n (2 ^ 31) then pos n else negsuc (2 ^ 32 - n - 1)

pub data InputAction : Type 0 where
  press release : InputAction

pub data MouseButton : Type 0 where
  left middle right : MouseButton

unfoldable pub raw : MouseButton → ℕ
raw left = 0x01
raw middle = 0x02
raw right = 0x03

pub record KeyboardModifiers : Type 0 where
  pub bits : ℕ

-- `KeyboardModifiers::new`
unfoldable pub keyboard_modifiers : Bool → Bool → Bool → Bool → KeyboardModifiers
keyboard_modifiers shift control alt meta =
    let bits₁ = if shift then bit_or 0 0x01 else 0 in
    let bits₂ = if control then bit_or bits₁ 0x02 else bits₁ in
    let bits₃ = if alt then bit_or bits₂ 0x04 else bits₂ in
    let bits₄ = if meta then bit_or bits₃ 0x08 else bits₃ in record { bits = bits₄ }

-- `KeyboardModifiers::default`
abbrev pub no_modifiers : KeyboardModifiers
no_modifiers = record { bits = 0 }

pub data TouchEventType : Type 0 where
  down up move cancel cancel_all : TouchEventType

-- The discriminants of the enum.
unfoldable pub event_code : TouchEventType → ℕ
event_code down = 1
event_code up = 2
event_code move = 3
event_code cancel = 4
event_code cancel_all = 7

pub record ControllerState : Type 0 where
  pub buttons : ℕ
  pub left_trigger : ℕ
  pub right_trigger : ℕ
  pub left_x : ℤ
  pub left_y : ℤ
  pub right_x : ℤ
  pub right_y : ℤ

-- `ControllerState::default`
abbrev pub neutral : ControllerState
neutral = record {
  buttons = 0;
  left_trigger = 0;
  right_trigger = 0;
  left_x = pos 0;
  left_y = pos 0;
  right_x = pos 0;
  right_y = pos 0;
}

pub data InputError : Type 0 where
  invalid_coordinates : InputError
  invalid_controller : ℕ → InputError
  connection_inactive : InputError
  core : String → ℤ → InputError
