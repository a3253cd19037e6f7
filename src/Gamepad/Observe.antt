-- ===== src/Gamepad/Observe.antt =====
-- `observe` of moonlight/src/gamepad.rs: assignment, stability of slots, registration and removal.
use moonlight_scarlet.Prelude.{
  ℕ, ◌<◌, ◌≡◌, refl, ◌∙◌, ◌≢◌, ◌⊎◌, inl, inr, true, false, Option, none, some, is_some, set,
  Bool-cases, Option-cases, arith,
}
use native.Mathlib.Decide.{ℕ_discrete}
use moonlight_scarlet.Gamepad.Defs.{
  Device, Gamepads, GamepadEvent, slot_at, has_id, is_none, observe,
}
use moonlight_scarlet.Gamepad.Mask.{slot_at-set}
use moonlight_scarlet.Gamepad.Slots.{
  IsAssigned, IsPicked, known, current, chosen, known-IsPicked, chosen-IsPicked, store-IsAssigned,
  store_other, known-none, position-none,
}

-- What `observe` does, case by case.
observe_cases {ℓ} :
    (P : Gamepads → Type ℓ) (g : Gamepads) (e : GamepadEvent)
    → (e.reset ≡ true → known g e ≡ none → P g)
    → ((slot : ℕ)
        → e.reset ≡ true
        → known g e ≡ some slot
        → P (record g { devices = set g.devices slot none }))
    → (e.reset ≡ false → chosen g e ≡ none → P g)
    → ((slot : ℕ)
        → e.reset ≡ false
        → chosen g e ≡ some slot
        → P (record g { devices = set g.devices slot (some (current g e)) }))
    → P (observe g e)
unfolding observe
observe_cases P g e gone removed full stored = elim (Bool-cases e.reset) [
  | inl r ↦ elim (Option-cases (known g e)) [
    | inl n ↦ rw (r, n) (gone r n)
    | inr (slot, s) ↦ rw (r, s) (removed slot r s)
  ]
  | inr r ↦ elim (Option-cases (chosen g e)) [
    | inl n ↦ rw (r, n) (full r n)
    | inr (slot, s) ↦ simp (r, s) (stored slot r s)
  ]
]

-- No event puts a device into two slots.
pub observe-IsAssigned : (g : Gamepads) (e : GamepadEvent) → IsAssigned g → IsAssigned (observe g e)
observe-IsAssigned g e a =
    observe_cases IsAssigned g e (λ _ _. a)
      (λ slot _ s. store-IsAssigned g e slot none a (known-IsPicked g e slot a s) (λ id h. cc))
      (λ _ _. a)
      (λ slot _ s.
        store-IsAssigned g e slot (some (current g e)) a (chosen-IsPicked g e slot a s)
          (λ id h. ground arith))

-- An event leaves the slot of every other device, and what it shows, alone.
pub observe_keeps :
    (g : Gamepads) (e : GamepadEvent) (k : ℕ) (d : Device)
    → IsAssigned g
    → slot_at g.devices k ≡ some d
    → d.id ≢ e.device_id
    → slot_at (observe g e).devices k ≡ some d
observe_keeps g e k d a has ne =
    observe_cases (λ t. slot_at t.devices k ≡ some d) g e (λ _ _. has)
      (λ slot _ s. kept slot none (known-IsPicked g e slot a s)) (λ _ _. has)
      (λ slot _ s. kept slot (some (current g e)) (chosen-IsPicked g e slot a s))
  where
    kept :
        (slot : ℕ) (v : Option Device)
        → IsPicked g e slot
        → slot_at (set g.devices slot v) k ≡ some d
    kept slot v p = elim (ℕ_discrete slot k) [
      | yes s ↦ absurd (ne (p.free d.id (rw (s, has) (ground arith))))
      | no n ↦ store_other g e slot k v p.inside a.slots n ∙ has
    ]

-- After a reset no slot holds the device.
pub observe_reset :
    (g : Gamepads) (e : GamepadEvent) (k : ℕ)
    → IsAssigned g
    → e.reset ≡ true
    → has_id e.device_id (slot_at (observe g e).devices k) ≡ false
observe_reset g e k a r =
    observe_cases (λ t. has_id e.device_id (slot_at t.devices k) ≡ false) g e
      (λ _ n. known-none g e a.slots n k) (λ slot _ s. cleared slot (known-IsPicked g e slot a s))
      (λ r' _. cc) (λ slot r' _. cc)
  where
    cleared :
        (slot : ℕ)
        → IsPicked g e slot
        → has_id e.device_id (slot_at (set g.devices slot none) k) ≡ false
    cleared slot p = elim (ℕ_discrete slot k) [
      | yes s ↦ ground (arith, slot_at-set g.devices slot k none a.slots p.inside)
      | no n ↦ rw (store_other g e slot k none p.inside a.slots n) (p.alone k n)
    ]

-- A snapshot ends up in a slot of its own, unless the device is new and all sixteen are taken; then
-- nothing changes.
pub observe_registers :
    (g : Gamepads) (e : GamepadEvent)
    → IsAssigned g
    → e.reset ≡ false
    → ((slot : ℕ) × (slot < 16) × (slot_at (observe g e).devices slot ≡ some (current g e)))
      ⊎ (((k : ℕ) → k < 16 → is_some (slot_at g.devices k) ≡ true) × (observe g e ≡ g))
observe_registers g e a r =
    observe_cases
      (λ t.
        ((slot : ℕ) × (slot < 16) × (slot_at t.devices slot ≡ some (current g e)))
        ⊎ (((k : ℕ) → k < 16 → is_some (slot_at g.devices k) ≡ true) × (t ≡ g)))
      g e (λ r' _. cc) (λ slot r' _. cc) (λ _ n. inr (λ k lt. taken n k lt, refl))
      (λ slot _ s.
        let p = chosen-IsPicked g e slot a s in
        inl (slot, p.inside, slot_at-set g.devices slot slot _ a.slots p.inside ∙ ground arith))
  where
    taken : chosen g e ≡ none → (k : ℕ) → k < 16 → is_some (slot_at g.devices k) ≡ true
    taken n k lt = elim (Option-cases (known g e)) [
      | inl new ↦
          ground (arith, position-none is_none g.devices k (rw new at n) (omega (arith, a.slots)))
      | inr (i, s) ↦ absurd (ground arith)
    ]
