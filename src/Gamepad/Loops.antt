-- ===== src/Gamepad/Loops.antt =====
-- The rules for the slot loops: what every run keeps, what a run that ends well has reached, and
-- when a run does nothing.
use moonlight_scarlet.Prelude.{
  ℕ, zero, suc, ◌+◌, ◌≤◌, ◌<◌, ◌≡◌, refl, ap, ◌∙◌, subst, ok, err, arith,
}
use moonlight_scarlet.Gamepad.Defs.{Gamepads}
use moonlight_scarlet.Gamepad.Sync.{Outcome, and_then, for_slots}

module _ {W : Type 0} where
  abbrev pub Succeeds : Outcome W → Type 0
  Succeeds o = o.0 ≡ ok tt

  pub and_then_keeps :
      (P : Gamepads × W → Type 0) (o : Outcome W) (k : Gamepads × W → Outcome W)
      → P o.1
      → ((s : Gamepads × W) → P s → P (k s).1)
      → P (and_then o k).1
  and_then_keeps P (ok u, s) k h keep = keep s h
  and_then_keeps P (err e, s) k h keep = h

  pub and_then_cases :
      (P Q : Gamepads × W → Type 0) (o : Outcome W) (k : Gamepads × W → Outcome W)
      → P o.1
      → (Succeeds o → Q o.1)
      → ((s : Gamepads × W) → P s → Q s → P (k s).1)
      → P (and_then o k).1
  and_then_cases P Q (ok u, s) k h good keep = keep s h (good refl)
  and_then_cases P Q (err e, s) k h good keep = h

  pub and_then_reaches :
      (Q R : Gamepads × W → Type 0) (o : Outcome W) (k : Gamepads × W → Outcome W)
      → (Succeeds o → Q o.1)
      → ((s : Gamepads × W) → Q s → Succeeds (k s) → R (k s).1)
      → Succeeds (and_then o k)
      → R (and_then o k).1
  and_then_reaches Q R (ok u, s) k first then h = then s (first refl) h
  and_then_reaches Q R (err e, s) k first then h = cc

  pub and_then_total :
      (o : Outcome W) (k : Gamepads × W → Outcome W)
      → Succeeds o
      → ((s : Gamepads × W) → Succeeds (k s))
      → Succeeds (and_then o k)
  and_then_total (ok u, s) k h t = t s
  and_then_total (err e, s) k h t = cc

  module _ (body : ℕ → Gamepads × W → Outcome W) where
    pub for_slots_keeps :
        (P : Gamepads × W → Type 0) (n i hi : ℕ)
        → i + n ≤ hi
        → ((j : ℕ) (s : Gamepads × W) → j < hi → P s → P (body j s).1)
        → (s : Gamepads × W) → P s
        → P (for_slots n i body s).1
    unfolding for_slots
    for_slots_keeps P zero i hi le keep s h = h
    for_slots_keeps P (suc n) i hi le keep s h =
        and_then_keeps P (body i s) (for_slots n (i + 1) body) (keep i s (omega arith) h)
          (for_slots_keeps P n (i + 1) hi (omega arith) keep)

    pub for_slots_reaches :
        (P : ℕ → Gamepads × W → Type 0) (n i hi : ℕ)
        → i + n ≡ hi
        → ((j : ℕ) (s : Gamepads × W)
            → j < hi
            → P j s
            → Succeeds (body j s)
            → P (j + 1) (body j s).1)
        → (s : Gamepads × W) → P i s
        → Succeeds (for_slots n i body s)
        → P hi (for_slots n i body s).1
    unfolding for_slots
    for_slots_reaches P zero i hi e step s h good =
        let e' : i ≡ hi = omega arith in subst (λ j. P j s) e' h
    for_slots_reaches P (suc n) i hi e step s h good =
        and_then_reaches (P (i + 1)) (P hi) (body i s) (for_slots n (i + 1) body)
          (step i s (omega arith) h) (for_slots_reaches P n (i + 1) hi (omega arith) step) good

    pub for_slots_total :
        (n i : ℕ)
        → ((j : ℕ) (s : Gamepads × W) → Succeeds (body j s))
        → (s : Gamepads × W) → Succeeds (for_slots n i body s)
    unfolding for_slots
    for_slots_total zero i t s = refl
    for_slots_total (suc n) i t s =
        and_then_total (body i s) (for_slots n (i + 1) body) (t i s) (for_slots_total n (i + 1) t)

    pub for_slots_idle :
        (n i hi : ℕ)
        → i + n ≤ hi
        → (s : Gamepads × W) → ((j : ℕ) → j < hi → body j s ≡ (ok tt, s))
        → for_slots n i body s ≡ (ok tt, s)
    unfolding for_slots
    for_slots_idle zero i hi le s idle = refl
    for_slots_idle (suc n) i hi le s idle =
        ap (λ o. and_then o (for_slots n (i + 1) body)) (idle i (omega arith))
        ∙ for_slots_idle n (i + 1) hi (omega arith) s idle
