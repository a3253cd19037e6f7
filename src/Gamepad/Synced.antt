-- ===== src/Gamepad/Synced.antt =====
-- `sync` as a whole: what a run without a refusal has reached, and when there is nothing to send.
use moonlight_scarlet.Prelude.{
  ℕ, ◌+◌, ◌≤◌, ◌<◌, ◌≡◌, refl, ◌∙◌, ◌≢◌, Option, none, some, Result, ok, length, arith,
}
use native.Mathlib.Decide.{ℕ_discrete}
use moonlight_scarlet.Sys.Types.{InputError}
use moonlight_scarlet.Gamepad.Defs.{Packet, Device, Gamepads, slot_at, swapped}
use moonlight_scarlet.Gamepad.Sync.{
  for_slots, retire, introduce, refresh, update_device, update_slot, update, sync,
}
use moonlight_scarlet.Gamepad.Loops.{Succeeds, and_then_reaches, for_slots_reaches, for_slots_idle}
use moonlight_scarlet.Gamepad.Host.{target}
use moonlight_scarlet.Gamepad.Delivery.{
  Local, Settled, retire-Local, update_slot-Local, device_eq_refl,
}

module _ {W : Type 0} (send : Packet → W → Result InputError (Unit {0}) × W) (g : Gamepads) where
  -- The state is `g` but for what has been sent.
  record Kept (s : Gamepads × W) : Type 0 where
    devices : s.0.devices ≡ g.devices
    swap_ab : s.0.swap_ab ≡ g.swap_ab
    slots : length s.0.sent ≡ 16

  record Retired (j : ℕ) (s : Gamepads × W) : Type 0 where
    kept : Kept s
    settled : (k : ℕ) → k < j → Settled send s k

  record Updated (j : ℕ) (s : Gamepads × W) : Type 0 where
    kept : Kept s
    ahead : (k : ℕ) → j ≤ k → k < 16 → Settled send s k
    behind : (k : ℕ) → k < j → slot_at s.0.sent k ≡ target g k

  Local-Kept : {slot : ℕ} {s t : Gamepads × W} → Local send slot s t → Kept s → Kept t
  Local-Kept l k = record {
    devices = l.devices ∙ k.devices;
    swap_ab = l.swap_ab ∙ k.swap_ab;
    slots = l.slots;
  }

  Local-Settled :
      {slot : ℕ} {s t : Gamepads × W} (k : ℕ)
      → Local send slot s t
      → slot ≢ k
      → Settled send s k
      → Settled send t k
  Local-Settled k l ne h = rw (l.others k ne, l.devices) h

  retire-Retired :
      (j : ℕ) (s : Gamepads × W)
      → j < 16
      → Retired j s
      → Succeeds (retire send j s)
      → Retired (j + 1) (retire send j s).1
  retire-Retired j s h r good =
      let (l, done) = retire-Local send j s h r.kept.slots good in
      record {
        kept = Local-Kept l r.kept;
        settled = λ k lt. elim (ℕ_discrete j k) [
          | yes e ↦ rw (← e) done
          | no ne ↦ Local-Settled k l ne (r.settled k (omega arith))
        ];
      }

  update-Updated :
      (j : ℕ) (s : Gamepads × W)
      → j < 16
      → Updated j s
      → Succeeds (update send j s)
      → Updated (j + 1) (update send j s).1
  unfolding update
  update-Updated j s h u good =
      let (l, v) =
        update_slot-Local send j (slot_at s.0.devices j) s h u.kept.slots refl
          (u.ahead j (omega arith) h) good in
      record {
        kept = Local-Kept l u.kept;
        ahead = λ k le lt. Local-Settled k l (omega arith) (u.ahead k (omega arith) lt);
        behind = λ k lt. elim (ℕ_discrete j k) [
          | yes e ↦ rw (← e) (v ∙ ground (arith, u.kept.devices, u.kept.swap_ab))
          | no ne ↦ l.others k ne ∙ u.behind k (omega arith)
        ];
      }

  -- The record of the host after a run, against what was wanted before it.
  pub record IsSynced (t : Gamepads) : Type 0 where
    pub devices : t.devices ≡ g.devices
    pub swap_ab : t.swap_ab ≡ g.swap_ab
    pub sent : (k : ℕ) → k < 16 → slot_at t.sent k ≡ target g k

  -- When no packet of a run is refused, every slot has been sent what its device shows, the A/B swap
  -- applied, an empty slot is empty at the host, and the local side is unchanged.
  pub sync-IsSynced :
      (w : W) → length g.sent ≡ 16 → Succeeds (sync send g w) → IsSynced (sync send g w).1.0
  unfolding sync
  sync-IsSynced w e good =
      let u : Updated 16 (sync send g w).1 =
        and_then_reaches (Retired 16) (Updated 16) (for_slots 16 0 (retire send) (g, w))
          (for_slots 16 0 (update send))
          (for_slots_reaches (retire send) Retired 16 0 16 (omega arith) retire-Retired (g, w)
            (record {
              kept = record { devices = refl; swap_ab = refl; slots = e };
              settled = λ k lt. absurd (omega arith);
            }))
          (λ s r.
            for_slots_reaches (update send) Updated 16 0 16 (omega arith) update-Updated s (record {
              kept = r.kept;
              ahead = λ k le lt. r.settled k lt;
              behind = λ k lt. absurd (omega arith);
            }))
          good in
      record { devices = u.kept.devices; swap_ab = u.kept.swap_ab; sent = u.behind }

  -- A slot that already holds its target sends nothing.
  retire_idle :
      (w : W) (k : ℕ) → slot_at g.sent k ≡ target g k → retire send k (g, w) ≡ (ok tt, (g, w))
  unfolding retire swapped
  retire_idle w k h = ground arith

  update_slot_idle :
      (w : W) (k : ℕ) (o : Option Device)
      → slot_at g.devices k ≡ o
      → slot_at g.sent k ≡ target g k
      → update_slot send k o (g, w) ≡ (ok tt, (g, w))
  unfolding update_slot update_device introduce refresh
  update_slot_idle w k none o h = refl
  update_slot_idle w k (some x) o h =
      let x' = swapped g.swap_ab x in
      let e : slot_at g.sent k ≡ some x' = ground arith in rw (e, refresh, e, device_eq_refl x')

  -- Where nothing has changed since the last run, another one sends no packet.
  pub sync_idle :
      (w : W) → ((k : ℕ) → k < 16 → slot_at g.sent k ≡ target g k) → sync send g w ≡ (ok tt, (g, w))
  unfolding sync update
  sync_idle w h =
      rw
        (for_slots_idle (retire send) 16 0 16 (omega arith) (g, w)
          (λ k lt. retire_idle w k (h k lt)))
        (for_slots_idle (update send) 16 0 16 (omega arith) (g, w)
          (λ k lt. update_slot_idle w k (slot_at g.devices k) refl (h k lt)))
