-- ===== src/Gamepad/Slots.antt =====
-- `observe`: which slot a device has.
use moonlight_scarlet.Prelude.{
  ℕ, zero, suc, ◌≤◌, ◌<◌, ◌≡◌, refl, sym, ap, ◌∙◌, ◌≢◌, ◌⊎◌, inl, inr, Bool, true, false, Option,
  none, some, List, [], ◌∷◌, length, set, length-set, Bool-cases, Option-cases, arith,
}
use native.Mathlib.Decide.{ℕ_discrete}
use moonlight_scarlet.Gamepad.Defs.{
  Device, Gamepads, GamepadEvent, slot_at, position, has_id, is_none, or_else, translate,
}
use moonlight_scarlet.Gamepad.Mask.{slot_at-set}

module _ (p : Option Device → Bool) where
  pub position-some :
      (ds : List (Option Device)) (i : ℕ)
      → position p ds ≡ some i
      → (i < length ds) × (p (slot_at ds i) ≡ true)
  unfolding position
  position-some [] i h = cc
  position-some (d ∷ ds) zero h = ground arith
  position-some (d ∷ ds) (suc i) h = ground (arith, position-some ds i)

  pub position-none :
      (ds : List (Option Device)) (i : ℕ)
      → position p ds ≡ none
      → i < length ds
      → p (slot_at ds i) ≡ false
  unfolding position
  position-none [] i h lt = absurd (omega arith)
  position-none (d ∷ ds) zero h lt = ground arith
  position-none (d ∷ ds) (suc i) h lt = ground (arith, position-none ds i)

-- Sixteen slots, and no device in two of them.
pub record IsAssigned (g : Gamepads) : Type 0 where
  pub slots : length g.devices ≡ 16
  pub distinct :
      (id i j : ℕ)
      → has_id id (slot_at g.devices i) ≡ true
      → has_id id (slot_at g.devices j) ≡ true
      → i ≡ j

slot_at-out : (ds : List (Option Device)) (i : ℕ) → length ds ≤ i → slot_at ds i ≡ none
slot_at-out [] i h = refl
slot_at-out (d ∷ ds) zero h = absurd (omega arith)
slot_at-out (d ∷ ds) (suc i) h = slot_at-out ds i (omega arith)

module _ (g : Gamepads) (e : GamepadEvent) where
  abbrev pub known : Option ℕ
  known = position (has_id e.device_id) g.devices

  abbrev pub current : Device
  current = record { id = e.device_id; state = translate e }

  abbrev pub chosen : Option ℕ
  chosen = or_else known (position is_none g.devices)

  -- The slots that the event does not concern.
  pub store_other :
      (slot k : ℕ) (v : Option Device)
      → slot < 16
      → length g.devices ≡ 16
      → slot ≢ k
      → slot_at (set g.devices slot v) k ≡ slot_at g.devices k
  store_other slot k v h len ne = ground (arith, slot_at-set g.devices slot k v len h)

  -- A slot outside the known one does not hold the device.
  pub known-none :
      length g.devices ≡ 16
      → known ≡ none
      → (k : ℕ) → has_id e.device_id (slot_at g.devices k) ≡ false
  known-none len h k = elim (below k) [
    | inl lt ↦ position-none (has_id e.device_id) g.devices k h (omega arith)
    | inr ge ↦ rw (slot_at-out g.devices k (omega arith))
  ]
    where
      below : (n : ℕ) → (n < 16) ⊎ (16 ≤ n)
      below n = grind arith

  -- What `observe` has picked: a slot in range, which no other device has, and which is the only
  -- one for this device.
  pub record IsPicked (slot : ℕ) : Type 0 where
    pub inside : slot < 16
    pub alone : (k : ℕ) → slot ≢ k → has_id e.device_id (slot_at g.devices k) ≡ false
    pub free : (id : ℕ) → has_id id (slot_at g.devices slot) ≡ true → id ≡ e.device_id

  pub known-IsPicked : (slot : ℕ) → IsAssigned g → known ≡ some slot → IsPicked slot
  known-IsPicked slot a h =
      let (lt, hit) = position-some (has_id e.device_id) g.devices slot h in
      record {
        inside = omega (arith, a.slots);
        alone = λ k ne. elim (Bool-cases (has_id e.device_id (slot_at g.devices k))) [
          | inl other ↦ absurd (ne (a.distinct e.device_id slot k hit other))
          | inr clear ↦ clear
        ];
        free = λ id own. same_owner (slot_at g.devices slot) id own hit;
      }
    where
      same_owner :
          (o : Option Device) (id : ℕ)
          → has_id id o ≡ true
          → has_id e.device_id o ≡ true
          → id ≡ e.device_id
      same_owner none id p q = cc
      same_owner (some d) id p q = ground arith

  pub chosen-IsPicked : (slot : ℕ) → IsAssigned g → chosen ≡ some slot → IsPicked slot
  chosen-IsPicked slot a h = elim (Option-cases known) [
    | inr (i, found) ↦
        let same : i ≡ slot = ground arith in known-IsPicked slot a (found ∙ ap some same)
    | inl new ↦
        let (lt, empty) = position-some is_none g.devices slot (rw new at h) in
        record {
          inside = omega (arith, a.slots);
          alone = λ k ne. known-none a.slots new k;
          free = λ id own. no_owner (slot_at g.devices slot) id own empty;
        }
  ]
    where
      no_owner :
          (o : Option Device) (id : ℕ) → has_id id o ≡ true → is_none o ≡ true → id ≡ e.device_id
      no_owner none id p q = cc
      no_owner (some d) id p q = cc

  -- Whose a slot is after the store.
  owner-store :
      (slot k id : ℕ) (v : Option Device)
      → IsAssigned g
      → IsPicked slot
      → ((id : ℕ) → has_id id v ≡ true → id ≡ e.device_id)
      → has_id id (slot_at (set g.devices slot v) k) ≡ true
      → ((slot ≡ k) × (id ≡ e.device_id)) ⊎ ((slot ≢ k) × (has_id id (slot_at g.devices k) ≡ true))
  owner-store slot k id v a p own h = elim (ℕ_discrete slot k) [
    | yes s ↦
        let stored : slot_at (set g.devices slot v) k ≡ v =
          slot_at-set g.devices slot k v a.slots p.inside ∙ ground arith in
        inl (s, own id (rw stored at h))
    | no n ↦ inr (n, rw (store_other slot k v p.inside a.slots n) at h)
  ]

  apart :
      (slot k id : ℕ)
      → IsPicked slot
      → slot ≢ k
      → id ≡ e.device_id
      → ¬ (has_id id (slot_at g.devices k) ≡ true)
  apart slot k id p ne own h = cc (p.alone k ne, rw own at h)

  pub store-IsAssigned :
      (slot : ℕ) (v : Option Device)
      → IsAssigned g
      → IsPicked slot
      → ((id : ℕ) → has_id id v ≡ true → id ≡ e.device_id)
      → IsAssigned (record g { devices = set g.devices slot v })
  store-IsAssigned slot v a p own = record {
    slots = length-set g.devices slot v ∙ a.slots;
    distinct = λ id i j hi hj.
        one id i j (owner-store slot i id v a p own hi) (owner-store slot j id v a p own hj);
  }
    where
      one :
          (id i j : ℕ)
          → ((slot ≡ i) × (id ≡ e.device_id))
            ⊎ ((slot ≢ i) × (has_id id (slot_at g.devices i) ≡ true))
          → ((slot ≡ j) × (id ≡ e.device_id))
            ⊎ ((slot ≢ j) × (has_id id (slot_at g.devices j) ≡ true))
          → i ≡ j
      one id i j (inl (s, _)) (inl (t, _)) = sym s ∙ t
      one id i j (inl (s, own)) (inr (n, has)) = absurd (apart slot j id p n own has)
      one id i j (inr (n, has)) (inl (t, own)) = absurd (apart slot i id p n own has)
      one id i j (inr (n, has)) (inr (m, has')) = a.distinct id i j has has'
