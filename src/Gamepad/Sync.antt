-- ===== src/Gamepad/Sync.antt =====
-- `Gamepads::sync` and `RemoteGamepads` of moonlight/src/gamepad.rs. The closure `send` acts on a
-- world `W` of its own; a `?` ends the loops and keeps what has been stored so far.
use moonlight_scarlet.Prelude.{
  ℕ, zero, suc, ◌+◌, ◌-◌, ◌^◌, bit_and, bit_or, Bool, true, false, not, ◌&&◌, Option, none, some,
  if◌then◌else◌, ◌==◌, Result, ok, err, is_some, set,
}
use moonlight_scarlet.Prelude.Int.{ℤ, pos, negsuc}
use moonlight_scarlet.Sys.Types.{ControllerState, neutral, InputError}
use moonlight_scarlet.Sys.Floats.{Float32}
use moonlight_scarlet.Sys.Control.{Core, Link, send_controller, send_controller_arrival}
use moonlight_scarlet.Gamepad.Defs.{
  Device, Packet, arrival, state_of, Gamepads, slot_at, empty_slots, mask, max_gamepads, swapped,
}

-- The derived `==` of the structs.
unfoldable pub int_eq : ℤ → ℤ → Bool
int_eq (pos a) (pos b) = a == b
int_eq (pos a) (negsuc b) = false
int_eq (negsuc a) (pos b) = false
int_eq (negsuc a) (negsuc b) = a == b

unfoldable pub state_eq : ControllerState → ControllerState → Bool
state_eq s t =
    s.buttons == t.buttons
    && s.left_trigger == t.left_trigger
    && s.right_trigger == t.right_trigger
    && int_eq s.left_x t.left_x
    && int_eq s.left_y t.left_y
    && int_eq s.right_x t.right_x
    && int_eq s.right_y t.right_y

unfoldable pub device_eq : Device → Device → Bool
unfolding int_eq state_eq
device_eq d e = d.id == e.id && state_eq d.state e.state

-- `sent[slot] == Some(device)`
abbrev pub holds : Option Device → Device → Bool
holds none device = false
holds (some d) device = device_eq d device

-- `sent[slot].map(id) == devices[slot].map(id)`
abbrev pub same_id : Option Device → Option Device → Bool
same_id none none = true
same_id none (some e) = false
same_id (some d) none = false
same_id (some d) (some e) = d.id == e.id

abbrev pub Outcome : Type 0 → Type 0
Outcome W = Result InputError (Unit {0}) × (Gamepads × W)

-- `e?; k` on the state.
abbrev pub and_then : {W : Type 0} → Outcome W → (Gamepads × W → Outcome W) → Outcome W
and_then (ok _, s) k = k s
and_then (err e, s) k = (err e, s)

-- `send(packet)?; self.sent[slot] = v`
abbrev pub commit :
    {W : Type 0} → Gamepads → ℕ → Option Device → Result InputError (Unit {0}) × W → Outcome W
commit g slot v (ok _, w) = (ok tt, (record g { sent = set g.sent slot v }, w))
commit g slot v (err e, w) = (err e, (g, w))

-- `for slot in i..i + n`
unfoldable pub for_slots :
    {W : Type 0} → ℕ → ℕ → (ℕ → Gamepads × W → Outcome W) → Gamepads × W → Outcome W
for_slots zero i body s = (ok tt, s)
for_slots (suc n) i body s = and_then (body i s) (for_slots n (i + 1) body)

module _ {W : Type 0} (send : Packet → W → Result InputError (Unit {0}) × W) where
  -- The body of the first loop.
  unfoldable pub retire : ℕ → Gamepads × W → Outcome W
  retire slot (g, w) =
      if is_some (slot_at g.sent slot)
        && not (same_id (slot_at g.sent slot) (slot_at g.devices slot))
      then commit g slot none
          (send (state_of slot (bit_and (mask g.sent) (2 ^ 16 - 1 - 2 ^ slot)) neutral) w)
      else (ok tt, (g, w))

  -- The body of the second loop, after the device has been read.
  unfoldable pub introduce : ℕ → Device → Gamepads × W → Outcome W
  introduce slot device (g, w) =
      if is_some (slot_at g.sent slot)
      then (ok tt, (g, w))
      else commit g slot (some (record { id = device.id; state = neutral }))
          (send (arrival slot (bit_or (mask g.sent) (2 ^ slot))) w)

  unfoldable pub refresh : ℕ → Device → Gamepads × W → Outcome W
  refresh slot device (g, w) =
      if holds (slot_at g.sent slot) device
      then (ok tt, (g, w))
      else commit g slot (some device) (send (state_of slot (mask g.sent) device.state) w)

  unfoldable pub update_device : ℕ → Device → Gamepads × W → Outcome W
  unfolding introduce refresh
  update_device slot device s = and_then (introduce slot device s) (refresh slot device)

  unfoldable pub update_slot : ℕ → Option Device → Gamepads × W → Outcome W
  unfolding update_device
  update_slot slot none s = (ok tt, s)
  update_slot slot (some device) s = update_device slot (swapped s.0.swap_ab device) s

  unfoldable pub update : ℕ → Gamepads × W → Outcome W
  unfolding update_slot
  update slot s = update_slot slot (slot_at s.0.devices slot) s

  unfoldable pub sync : Gamepads → W → Outcome W
  unfolding retire update for_slots
  sync g w = and_then (for_slots max_gamepads 0 retire (g, w)) (for_slots max_gamepads 0 update)

  -- `RemoteGamepads::release_all`, with the connection's control or without one.
  unfoldable pub release_all : Bool → Gamepads → W → Outcome W
  unfolding sync
  release_all connected g w =
      if connected
      then sync (record g { devices = empty_slots }) w
      else (ok tt, (record g { devices = empty_slots; sent = empty_slots }, w))

-- `RemoteGamepads::reset_session`, `set_swap_ab` and `active_mask`.
unfoldable pub reset_session : Gamepads → Gamepads
reset_session g = record g { sent = empty_slots }

unfoldable pub set_swap_ab : Bool → Gamepads → Gamepads
set_swap_ab enabled g = record g { swap_ab = enabled }

unfoldable pub active_mask : Gamepads → ℕ
active_mask g = mask g.devices

-- `Packet::send`
unfoldable pub send_packet :
    (f : Float32) {C : Type 0}
    → Core f.Carrier C
    → Packet
    → Link C
    → Result InputError (Unit {0}) × Link C
unfolding send_controller_arrival send_controller
send_packet f c (arrival slot mask) l = send_controller_arrival f c slot mask l
send_packet f c (state_of slot mask s) l = send_controller f c slot mask s l

-- The methods of `RemoteGamepads` on a connection.
unfoldable pub sync_to :
    (f : Float32) {C : Type 0} → Core f.Carrier C → Gamepads → Link C → Outcome (Link C)
unfolding sync send_packet
sync_to f c g l = sync (send_packet f c) g l
