-- ===== src/Gamepad/Mirror.antt =====
-- `sync` of moonlight/src/gamepad.rs: its record of the host, and the packets that it sends.
use moonlight_scarlet.Prelude.{
  ℕ, ◌<◌, ◌≡◌, refl, sym, ap, ◌∙◌, Bool, true, not, ◌||◌, ◌&&◌, Option, none, some, ◌==◌, Result,
  ok, err, is_some, set, length-set, Bool-cases, inl, inr, arith,
}
use moonlight_scarlet.Sys.Types.{neutral, InputError}
use moonlight_scarlet.Gamepad.Defs.{
  Packet, arrival, state_of, Device, Gamepads, slot_at, mask, swapped,
}
use moonlight_scarlet.Gamepad.Sync.{
  commit, same_id, holds, retire, introduce, refresh, for_slots, update_device, update_slot, update,
  sync,
}
use moonlight_scarlet.Gamepad.Mask.{test_bit-mask, test_bit-arrival, test_bit-release, slot_at-set}
use moonlight_scarlet.Gamepad.Loops.{and_then_cases, and_then_keeps, for_slots_keeps}
use moonlight_scarlet.Gamepad.Delivery.{introduced}
use moonlight_scarlet.Gamepad.Host.{Host, receive, Allowed, Delivers, state_at, Tracks}

module _ {W : Type 0} {view : W → Host} {send : Packet → W → Result InputError (Unit {0}) × W}
    (d : Delivers view send) where
  -- A slot that has just been stored, at the host.
  commit-Tracks :
      (g : Gamepads) (w : W) (slot : ℕ) (v : Option Device) (p : Packet)
      → Tracks view (g, w)
      → Allowed p (view w)
      → ((k : ℕ) → k < 16 → receive p (view w) k ≡ state_at (slot_at (set g.sent slot v) k))
      → Tracks view (commit g slot v (send p w)).1
  commit-Tracks g w slot v p i a agree = go (send p w) refl
    where
      go : (r : Result InputError (Unit {0}) × W) → send p w ≡ r → Tracks view (commit g slot v r).1
      go (ok tt, w') e = record {
        slots = length-set g.sent slot v ∙ i.slots;
        mirrors = record { agrees = λ k h. d.taken p w w' k a e ∙ agree k h };
      }
      go (err x, w') e = record {
        slots = i.slots;
        mirrors = record { agrees = λ k h. d.refused p w w' x k e ∙ i.mirrors.agrees k h };
      }

  is_some-state_at : (o : Option Device) → is_some (state_at o) ≡ is_some o
  is_some-state_at none = refl
  is_some-state_at (some x) = refl

  -- Who is attached at the host, by the record.
  attached :
      {g : Gamepads} {w : W}
      → Tracks view (g, w)
      → (k : ℕ) → k < 16
      → is_some (view w k) ≡ is_some (slot_at g.sent k)
  attached i k h = ap is_some (i.mirrors.agrees k h) ∙ is_some-state_at _

  retire-Tracks :
      (slot : ℕ) (s : Gamepads × W) → slot < 16 → Tracks view s → Tracks view (retire send slot s).1
  unfolding retire
  retire-Tracks slot (g, w) h i = elim (Bool-cases stale) [
    | inl old ↦ rw old (
        commit-Tracks g w slot none (state_of slot _ neutral) i
          (
            h,
            ground (arith, attached i slot h),
            λ k hk ne. ground (arith, test_bit-release g.sent slot k h hk, attached i k hk),
          )
          (λ k hk. ground (
            arith,
            i.mirrors.agrees k hk,
            test_bit-release g.sent slot slot h h,
            slot_at-set g.sent slot k none i.slots h,
          )))
    | inr new ↦ rw new i
  ]
    where
      stale : Bool
      stale =
          is_some (slot_at g.sent slot)
          && not (same_id (slot_at g.sent slot) (slot_at g.devices slot))

  introduce-Tracks :
      (slot : ℕ) (x : Device) (s : Gamepads × W)
      → slot < 16
      → Tracks view s
      → Tracks view (introduce send slot x s).1
  unfolding introduce
  introduce-Tracks slot x (g, w) h i = elim (Bool-cases (is_some (slot_at g.sent slot))) [
    | inl taken ↦ rw (taken) i
    | inr free ↦ rw (free) (
        commit-Tracks g w slot _ (arrival slot _) i
          (
            h,
            ground (arith, attached i slot h),
            λ k hk.
                test_bit-arrival g.sent slot k ∙ ap (λ b. b || slot == k) (sym (attached i k hk)),
          )
          (λ k hk. ground (
            arith,
            i.mirrors.agrees k hk,
            slot_at-set g.sent slot k (some (record { id = x.id; state = neutral })) i.slots h,
          )))
  ]

  refresh-Tracks :
      (slot : ℕ) (x : Device) (s : Gamepads × W)
      → slot < 16
      → is_some (slot_at s.0.sent slot) ≡ true
      → Tracks view s
      → Tracks view (refresh send slot x s).1
  unfolding refresh
  refresh-Tracks slot x (g, w) h taken i = elim (Bool-cases (holds (slot_at g.sent slot) x)) [
    | inl same ↦ rw same i
    | inr new ↦ rw new (
        commit-Tracks g w slot (some x) (state_of slot (mask g.sent) x.state) i
          (h, attached i slot h ∙ taken, λ k hk ne. test_bit-mask g.sent k ∙ sym (attached i k hk))
          (λ k hk. ground (
            arith,
            i.mirrors.agrees k hk,
            test_bit-mask g.sent slot,
            slot_at-set g.sent slot k (some x) i.slots h,
          )))
  ]

  update_slot-Tracks :
      (slot : ℕ) (o : Option Device) (s : Gamepads × W)
      → slot < 16
      → Tracks view s
      → Tracks view (update_slot send slot o s).1
  unfolding update_slot update_device
  update_slot-Tracks slot none s h i = i
  update_slot-Tracks slot (some x) s h i =
      let x' = swapped s.0.swap_ab x in
      and_then_cases (Tracks view) (λ t. is_some (slot_at t.0.sent slot) ≡ true)
        (introduce send slot x' s) (refresh send slot x') (introduce-Tracks slot x' s h i)
        (introduced send slot x' s h i.slots) (λ t it taken. refresh-Tracks slot x' t h taken it)

  -- Every run, finished or cut short by a refused packet, leaves `sent` an exact record of the host;
  -- `Delivers` assumes nothing of a packet that the protocol does not allow.
  pub sync-Tracks : (g : Gamepads) (w : W) → Tracks view (g, w) → Tracks view (sync send g w).1
  unfolding sync update
  sync-Tracks g w i =
      and_then_keeps (Tracks view) (for_slots 16 0 (retire send) (g, w))
        (for_slots 16 0 (update send))
        (for_slots_keeps (retire send) (Tracks view) 16 0 16 (omega arith) retire-Tracks (g, w) i)
        (for_slots_keeps (update send) (Tracks view) 16 0 16 (omega arith)
          (λ j s. update_slot-Tracks j (slot_at s.0.devices j) s))
