-- ===== src/Gamepad/Delivery.antt =====
-- What the slot loops have stored when no packet was refused; no assumption on the transport.
use moonlight_scarlet.Prelude.{
  ℕ, ◌<◌, ◌≡◌, refl, ap, ◌∙◌, ◌≢◌, Bool, true, false, not, ◌&&◌, Option, none, some, ◌==◌, Result,
  ok, err, is_some, length, length-set, Bool-cases, inl, inr, arith,
}
use moonlight_scarlet.Prelude.Int.{ℤ}
use moonlight_scarlet.Sys.Types.{ControllerState, InputError}
use moonlight_scarlet.Gamepad.Defs.{Packet, Device, Gamepads, slot_at, swapped}
use moonlight_scarlet.Gamepad.Sync.{
  commit, same_id, int_eq, state_eq, device_eq, holds, retire, introduce, refresh, update_device,
  update_slot,
}
use moonlight_scarlet.Gamepad.Mask.{slot_at-set}
use moonlight_scarlet.Gamepad.Loops.{Succeeds, and_then_reaches}
use moonlight_scarlet.Gamepad.Host.{target}

int_eq-eq : (a b : ℤ) → int_eq a b ≡ true → a ≡ b
unfolding int_eq
int_eq-eq a b h = ground arith

int_eq_refl : (a : ℤ) → int_eq a a ≡ true
unfolding int_eq
int_eq_refl a = ground arith

state_eq-eq : (s t : ControllerState) → state_eq s t ≡ true → s ≡ t
unfolding state_eq
state_eq-eq s t h = ground (
  arith,
  int_eq-eq s.left_x t.left_x,
  int_eq-eq s.left_y t.left_y,
  int_eq-eq s.right_x t.right_x,
  int_eq-eq s.right_y t.right_y,
)

state_eq_refl : (s : ControllerState) → state_eq s s ≡ true
unfolding state_eq
state_eq_refl s = ground (
  arith,
  int_eq_refl s.left_x,
  int_eq_refl s.left_y,
  int_eq_refl s.right_x,
  int_eq_refl s.right_y,
)

-- The derived equality of devices is equality.
device_eq-split : (d e : Device) → device_eq d e ≡ (d.id == e.id && state_eq d.state e.state)
unfolding device_eq
device_eq-split d e = refl

pub device_eq-eq : (d e : Device) → device_eq d e ≡ true → d ≡ e
device_eq-eq d e h = ground (arith, device_eq-split d e, state_eq-eq d.state e.state)

pub device_eq_refl : (d : Device) → device_eq d d ≡ true
device_eq_refl d = ground (arith, device_eq-split d d, state_eq_refl d.state)

module _ {W : Type 0} (send : Packet → W → Result InputError (Unit {0}) × W) where
  -- What a step on one slot does to the rest: nothing.
  pub record Local (slot : ℕ) (s t : Gamepads × W) : Type 0 where
    pub devices : t.0.devices ≡ s.0.devices
    pub swap_ab : t.0.swap_ab ≡ s.0.swap_ab
    pub slots : length t.0.sent ≡ 16
    pub others : (k : ℕ) → slot ≢ k → slot_at t.0.sent k ≡ slot_at s.0.sent k

  commit-Local :
      (g : Gamepads) (w : W) (slot : ℕ) (v : Option Device) (r : Result InputError (Unit {0}) × W)
      → slot < 16
      → length g.sent ≡ 16
      → Succeeds (commit g slot v r)
      → Local slot (g, w) (commit g slot v r).1 × (slot_at (commit g slot v r).1.0.sent slot ≡ v)
  commit-Local g w slot v (ok u, w') h e good = (
    record {
      devices = refl;
      swap_ab = refl;
      slots = length-set g.sent slot v ∙ e;
      others = λ k ne. ground (arith, slot_at-set g.sent slot k v e h);
    },
    ground (arith, slot_at-set g.sent slot slot v e h),
  )
  commit-Local g w slot v (err x, w') h e good = cc

  -- The first loop: nobody else's controller is left in the slot.
  abbrev pub Settled : Gamepads × W → ℕ → Type 0
  Settled s k =
      (is_some (slot_at s.0.sent k) && not (same_id (slot_at s.0.sent k) (slot_at s.0.devices k)))
      ≡ false

  pub retire-Local :
      (slot : ℕ) (s : Gamepads × W)
      → slot < 16
      → length s.0.sent ≡ 16
      → Succeeds (retire send slot s)
      → Local slot s (retire send slot s).1 × Settled (retire send slot s).1 slot
  unfolding retire
  retire-Local slot (g, w) h e good = elim (Bool-cases stale) [
    | inl old ↦
        rw old (let (l, v) = commit-Local g w slot none _ h e (rw old at good) in (l, rw v refl))
    | inr new ↦
        rw new (record { devices = refl; swap_ab = refl; slots = e; others = λ k ne. refl }, new)
  ]
    where
      stale : Bool
      stale =
          is_some (slot_at g.sent slot)
          && not (same_id (slot_at g.sent slot) (slot_at g.devices slot))

  introduce-Local :
      (slot : ℕ) (x : Device) (s : Gamepads × W)
      → slot < 16
      → length s.0.sent ≡ 16
      → Succeeds (introduce send slot x s)
      → Local slot s (introduce send slot x s).1
  unfolding introduce
  introduce-Local slot x (g, w) h e good = elim (Bool-cases (is_some (slot_at g.sent slot))) [
    | inl old ↦ rw old (record { devices = refl; swap_ab = refl; slots = e; others = λ k ne. refl })
    | inr new ↦ rw new (commit-Local g w slot _ _ h e (rw new at good)).0
  ]

  refresh-Local :
      (slot : ℕ) (x : Device) (s : Gamepads × W)
      → slot < 16
      → length s.0.sent ≡ 16
      → Succeeds (refresh send slot x s)
      → Local slot s (refresh send slot x s).1
        × (slot_at (refresh send slot x s).1.0.sent slot ≡ some x)
  unfolding refresh
  refresh-Local slot x (g, w) h e good = elim (Bool-cases (holds (slot_at g.sent slot) x)) [
    | inl old ↦ rw old (
      record { devices = refl; swap_ab = refl; slots = e; others = λ k ne. refl },
      holds-eq (slot_at g.sent slot) old,
    )
    | inr new ↦ rw new (commit-Local g w slot _ _ h e (rw new at good))
  ]
    where
      holds-eq : (o : Option Device) → holds o x ≡ true → o ≡ some x
      holds-eq none p = cc
      holds-eq (some y) p = ap some (device_eq-eq y x p)

  Local-trans : {slot : ℕ} {s t u : Gamepads × W} → Local slot s t → Local slot t u → Local slot s u
  Local-trans a b = record {
    devices = b.devices ∙ a.devices;
    swap_ab = b.swap_ab ∙ a.swap_ab;
    slots = b.slots;
    others = λ k ne. b.others k ne ∙ a.others k ne;
  }

  update_device-Local :
      (slot : ℕ) (x : Device) (s : Gamepads × W)
      → slot < 16
      → length s.0.sent ≡ 16
      → Succeeds (update_device send slot x s)
      → Local slot s (update_device send slot x s).1
        × (slot_at (update_device send slot x s).1.0.sent slot ≡ some x)
  unfolding update_device
  update_device-Local slot x s h e =
      and_then_reaches (Local slot s) (λ t. Local slot s t × (slot_at t.0.sent slot ≡ some x))
        (introduce send slot x s) (refresh send slot x) (introduce-Local slot x s h e)
        (λ t l good. let (m, v) = refresh-Local slot x t h l.slots good in (Local-trans l m, v))

  -- The second loop: the slot holds what it should.
  pub update_slot-Local :
      (slot : ℕ) (o : Option Device) (s : Gamepads × W)
      → slot < 16
      → length s.0.sent ≡ 16
      → slot_at s.0.devices slot ≡ o
      → Settled s slot
      → Succeeds (update_slot send slot o s)
      → Local slot s (update_slot send slot o s).1
        × (slot_at (update_slot send slot o s).1.0.sent slot ≡ target s.0 slot)
  unfolding update_slot
  update_slot-Local slot none s h e o settled good =
      (record { devices = refl; swap_ab = refl; slots = e; others = λ k ne. refl }, ground arith)
  update_slot-Local slot (some x) s h e o settled good =
      let (l, v) = update_device-Local slot (swapped s.0.swap_ab x) s h e good in
      (l, v ∙ ground arith)

  -- After an arrival has been taken the slot is taken.
  pub introduced :
      (slot : ℕ) (x : Device) (s : Gamepads × W)
      → slot < 16
      → length s.0.sent ≡ 16
      → Succeeds (introduce send slot x s)
      → is_some (slot_at (introduce send slot x s).1.0.sent slot) ≡ true
  unfolding introduce
  introduced slot x (g, w) h e good = elim (Bool-cases (is_some (slot_at g.sent slot))) [
    | inl old ↦ rw old old
    | inr new ↦ rw new (ap is_some (commit-Local g w slot _ _ h e (rw new at good)).1)
  ]
