-- ===== src/Gamepad/Tests.antt =====
-- The theorems on gamepads at concrete inputs, and runs of the code.
use moonlight_scarlet.Prelude.{
  ℕ, zero, suc, ◌<◌, ◌≡◌, refl, sym, ap, true, false, Option, none, some, ◌∷◌, Result, ok, err,
  replicate, get_or-replicate, if◌then◌else◌, ◌==◌, arith,
}
use moonlight_scarlet.Prelude.Int.{pos, negsuc}
use moonlight_scarlet.Prelude.Bits.{test_bit}
use moonlight_scarlet.Sys.Types.{InputError, connection_inactive, ControllerState, neutral}
use moonlight_scarlet.Sys.Buttons.{ControllerButton, button_bits}
use moonlight_scarlet.Gamepad.Defs.{
  Device, Packet, Gamepads, GamepadEvent, GamepadButton, slot_at, mask, observe, translate, has_id,
  swap_buttons, swapped,
}
use moonlight_scarlet.Gamepad.Sync.{sync, release_all, device_eq}
use moonlight_scarlet.Gamepad.Host.{Host, receive, Delivers, Tracks, state_at, target}
use moonlight_scarlet.Gamepad.Slots.{IsAssigned}
use moonlight_scarlet.Gamepad.Mirror
use moonlight_scarlet.Gamepad.Synced
use moonlight_scarlet.Gamepad.Observe
use moonlight_scarlet.Gamepad.Translate.{bit_index, held}
use moonlight_scarlet.Gamepad.Translate
use moonlight_scarlet.Gamepad.Refinement
use moonlight_scarlet.Gamepad.Loops.{Succeeds}

-- A transport that takes a number of packets and then refuses, in front of a host.
budget : Packet → Host × ℕ → Result InputError (Unit {0}) × (Host × ℕ)
budget p (h, zero) = (err connection_inactive, (h, zero))
budget p (h, suc n) = (ok tt, (receive p h, n))

abbrev host_of : Host × ℕ → Host
host_of w = w.0

abbrev Reply : Type 0
Reply = Result InputError (Unit {0}) × (Host × ℕ)

budget_taken :
    (p : Packet) (w w' : Host × ℕ) (k : ℕ) → budget p w ≡ (ok tt, w') → w'.0 k ≡ receive p w.0 k
unfolding budget
budget_taken p (h, zero) w' k e = cc (ap (λ (r : Reply). r.0) e)
budget_taken p (h, suc n) w' k e = sym (ap (λ (r : Reply). r.1.0 k) e)

budget_refused :
    (p : Packet) (w w' : Host × ℕ) (x : InputError) (k : ℕ)
    → budget p w ≡ (err x, w')
    → w'.0 k ≡ w.0 k
unfolding budget
budget_refused p (h, zero) w' x k e = sym (ap (λ (r : Reply). r.1.0 k) e)
budget_refused p (h, suc n) w' x k e = cc (ap (λ (r : Reply). r.0) e)

budget-Delivers : Delivers host_of budget
budget-Delivers = record {
  taken = λ p w w' k a e. budget_taken p w w' k e;
  refused = budget_refused;
}

abbrev event : ℕ → GamepadEvent
event id = record {
  device_id = id;
  reset = false;
  pressed = elim [ GamepadButton.south ↦ true | _ ↦ false ];
  hat_x = negsuc 0;
  hat_y = pos 0;
  left_trigger = 16384;
  right_trigger = 0;
  left_x = pos 5;
  left_y = negsuc 32767;
  right_x = pos 0;
  right_y = pos 7;
}

abbrev pad : ℕ → ControllerState → Device
pad id s = record { id = id; state = s }

abbrev pressed_a : ControllerState
pressed_a = record neutral { buttons = 0x1000; left_x = pos 1234 }

-- Device 900 has left slot 0 and 42 has taken it; 7 holds A, and A and B are swapped.
abbrev changed : Gamepads
changed = record {
  devices = some (pad 42 neutral) ∷ some (pad 7 pressed_a) ∷ replicate 14 none;
  sent = some (pad 900 pressed_a) ∷ replicate 15 none;
  swap_ab = true;
}

abbrev attached_900 : Host
attached_900 k = if 0 == k then some pressed_a else none

changed-Tracks : (n : ℕ) → Tracks host_of (changed, (attached_900, n))
changed-Tracks n = record { slots = refl; mirrors = record { agrees = agrees } }
  where
    agrees : (k : ℕ) → k < 16 → attached_900 k ≡ state_at (slot_at changed.sent k)
    agrees zero h = refl
    agrees (suc k) h = ground (arith, get_or-replicate {A = Option Device} 15 k none)

program : Unit {0}
unfolding sync release_all budget swapped swap_buttons mask test_bit device_eq button_bits
program = tt

-- The release of 900, two arrivals and one state: four packets.
run_of_four : Succeeds (sync budget changed (attached_900, 4))
unfolding program
run_of_four = refl

run_of_three : (sync budget changed (attached_900, 3)).0 ≡ err connection_inactive
unfolding program
run_of_three = refl

-- Cut short after three packets, the record still agrees with the host.
sync-Tracks_example : Tracks host_of (sync budget changed (attached_900, 3)).1
sync-Tracks_example =
    Mirror.sync-Tracks budget-Delivers changed (attached_900, 3) (changed-Tracks 3)

abbrev settled : Gamepads
settled = record changed {
  sent =
      some (pad 42 neutral)
      ∷ some (pad 7 (record pressed_a { buttons = 0x2000 }))
      ∷ replicate 14 none;
}

settled_slots : (k : ℕ) → k < 16 → slot_at settled.sent k ≡ target settled k
unfolding swapped swap_buttons button_bits
settled_slots zero h = refl
settled_slots (suc zero) h = refl
settled_slots (suc (suc k)) h = ground (arith, get_or-replicate {A = Option Device} 14 k none)

sync_idle_example : sync budget settled (attached_900, 0) ≡ (ok tt, (settled, (attached_900, 0)))
sync_idle_example = Synced.sync_idle budget settled (attached_900, 0) settled_slots

sync_refines_example :
    (sync budget changed (attached_900, 4)).1.1.0 1
    ≡ some (record pressed_a { buttons = swap_buttons 0x1000 })
unfolding swapped
sync_refines_example =
    Refinement.sync_refines budget-Delivers changed (attached_900, 4) (changed-Tracks 4) run_of_four
      1 (omega arith)

release_of_one : Succeeds (release_all budget true changed (attached_900, 1))
unfolding program
release_of_one = refl

release_all_detaches_example : (release_all budget true changed (attached_900, 1)).1.1.0 0 ≡ none
release_all_detaches_example =
    Refinement.release_all_detaches budget-Delivers changed (attached_900, 1) (changed-Tracks 1)
      release_of_one 0 (omega arith)

changed-IsAssigned : IsAssigned changed
changed-IsAssigned = record { slots = refl; distinct = λ id i j. distinct i j id }
  where
    owner : (k id : ℕ) → has_id id (slot_at changed.devices (suc (suc k))) ≡ true → ⊥
    owner k id h = cc (get_or-replicate {A = Option Device} 14 k none, h)

    distinct :
        (i j id : ℕ)
        → has_id id (slot_at changed.devices i) ≡ true
        → has_id id (slot_at changed.devices j) ≡ true
        → i ≡ j
    distinct zero zero id p q = refl
    distinct zero (suc zero) id p q = absurd (ground arith)
    distinct (suc zero) zero id p q = absurd (ground arith)
    distinct (suc zero) (suc zero) id p q = refl
    distinct (suc (suc i)) j id p q = absurd (owner i id p)
    distinct zero (suc (suc j)) id p q = absurd (owner j id q)
    distinct (suc zero) (suc (suc j)) id p q = absurd (owner j id q)

observe-IsAssigned_example : IsAssigned (observe changed (event 5))
observe-IsAssigned_example = Observe.observe-IsAssigned changed (event 5) changed-IsAssigned

test_bit-translate_example : test_bit (translate (event 5)).buttons 2 ≡ true
test_bit-translate_example = Translate.test_bit-translate (event 5) ControllerButton.left refl
