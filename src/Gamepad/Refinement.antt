-- ===== src/Gamepad/Refinement.antt =====
-- `sync` and `release_all` of moonlight/src/gamepad.rs against the host.
use moonlight_scarlet.Prelude.{
  ℕ, ◌<◌, ◌≡◌, ◌∙◌, ap, true, Option, none, Result, get_or-replicate, arith,
}
use moonlight_scarlet.Sys.Types.{InputError}
use moonlight_scarlet.Gamepad.Defs.{Packet, Device, Gamepads, empty_slots}
use moonlight_scarlet.Gamepad.Sync.{sync, release_all}
use moonlight_scarlet.Gamepad.Loops.{Succeeds}
use moonlight_scarlet.Gamepad.Host.{Host, Delivers, Tracks, state_at, target}
use moonlight_scarlet.Gamepad.Mirror.{sync-Tracks}
use moonlight_scarlet.Gamepad.Synced.{sync-IsSynced}

module _ {W : Type 0} {view : W → Host} {send : Packet → W → Result InputError (Unit {0}) × W}
    (d : Delivers view send) where
  -- After a run in which nothing was refused the host shows each slot's current device and no other,
  -- with the A/B swap applied.
  pub sync_refines :
      (g : Gamepads) (w : W)
      → Tracks view (g, w)
      → Succeeds (sync send g w)
      → (k : ℕ) → k < 16
      → view (sync send g w).1.1 k ≡ state_at (target g k)
  sync_refines g w t good k h =
      (sync-Tracks d g w t).mirrors.agrees k h
      ∙ ap state_at ((sync-IsSynced send g w t.slots good).sent k h)

  -- Releasing everything on a live connection detaches every controller at the host, if nothing was
  -- refused.
  pub release_all_detaches :
      (g : Gamepads) (w : W)
      → Tracks view (g, w)
      → Succeeds (release_all send true g w)
      → (k : ℕ) → k < 16
      → view (release_all send true g w).1.1 k ≡ none
  unfolding release_all
  release_all_detaches g w t good k h =
      let g' : Gamepads = record g { devices = empty_slots } in
      sync_refines g' w (record { slots = t.slots; mirrors = record { agrees = t.mirrors.agrees } })
        good k h
      ∙ ground (arith, get_or-replicate {A = Option Device} 16 k none)
