-- ===== src/Gamepad/Host.antt =====
-- The receiving side as the specification of `sync`: the controllers that the host has, the packets
-- that the protocol allows it to be sent, and what each does. A packet's mask lists the controllers
-- that stay attached; a state packet whose own bit is clear detaches its controller.
use moonlight_scarlet.Prelude.{
  ℕ, ◌<◌, ◌≡◌, ◌≢◌, true, ◌||◌, Option, none, some, if◌then◌else◌, ◌==◌, Result, ok, err, is_some,
  length,
}
use moonlight_scarlet.Prelude.Bits.{test_bit}
use moonlight_scarlet.Sys.Types.{ControllerState, neutral, InputError}
use moonlight_scarlet.Gamepad.Defs.{Packet, arrival, state_of, Device, Gamepads, slot_at, swapped}

abbrev pub Host : Type 0
Host = ℕ → Option ControllerState

abbrev pub receive : Packet → Host → Host
receive (arrival slot mask) h k = if slot == k then some neutral else h k
receive (state_of slot mask s) h k =
    if slot == k then (if test_bit mask slot then some s else none) else h k

-- An arrival is for a free slot, a state for a taken one, and the mask agrees with the host on
-- every other slot.
abbrev pub Allowed : Packet → Host → Type 0
Allowed (arrival slot mask) h =
    (slot < 16)
    × (h slot ≡ none)
    × ((k : ℕ) → k < 16 → test_bit mask k ≡ (is_some (h k) || slot == k))
Allowed (state_of slot mask s) h =
    (slot < 16)
    × (is_some (h slot) ≡ true)
    × ((k : ℕ) → k < 16 → slot ≢ k → test_bit mask k ≡ is_some (h k))

-- What a transport owes: an allowed packet that it takes reaches the host, and one that it refuses
-- does not.
pub record Delivers {W : Type 0} (view : W → Host)
    (send : Packet → W → Result InputError (Unit {0}) × W) : Type 0 where
  pub taken :
      (p : Packet) (w w' : W) (k : ℕ)
      → Allowed p (view w)
      → send p w ≡ (ok tt, w')
      → view w' k ≡ receive p (view w) k
  pub refused :
      (p : Packet) (w w' : W) (e : InputError) (k : ℕ)
      → send p w ≡ (err e, w')
      → view w' k ≡ view w k

abbrev pub state_at : Option Device → Option ControllerState
state_at none = none
state_at (some d) = some d.state

-- The host has what `sent` records.
pub record Mirrors (g : Gamepads) (h : Host) : Type 0 where
  pub agrees : (k : ℕ) → k < 16 → h k ≡ state_at (slot_at g.sent k)

pub record Tracks {W : Type 0} (view : W → Host) (s : Gamepads × W) : Type 0 where
  pub slots : length s.0.sent ≡ 16
  pub mirrors : Mirrors s.0 (view s.1)

-- What a slot should hold at the host.
abbrev pub target : Gamepads → ℕ → Option Device
target g k = target_of (slot_at g.devices k)
  where
    target_of : Option Device → Option Device
    target_of none = none
    target_of (some d) = some (swapped g.swap_ab d)
