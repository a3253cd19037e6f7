-- ===== src/Touch/Surface.antt =====
-- What the host holds down, as the calls of a touch sink change it: the contract that a client of
-- moonlight/src/touch.rs relies on. A call that fails changes nothing at the host.
use moonlight_scarlet.Prelude.{
  ℕ, zero, suc, ◌≤◌, ◌≡◌, refl, Bool, true, false, not, ◌&&◌, ◌||◌, some, List, [], ◌∷◌, ◌++◌, ◌==◌,
  length, arith, Result, ok, err,
}
use moonlight_scarlet.Sys.Types.{InputError, TouchEventType, down, up, move, cancel, cancel_all}
use moonlight_scarlet.Touch.Defs.{
  TouchSink, Contact, TouchInput, uses, remove_at, move_at, contact_at,
}

-- Whether touch `j` is down after an event of touch `id`.
abbrev pub play : TouchEventType → ℕ → ℕ → Bool → Bool
play down id j held = id == j || held
play up id j held = not (id == j) && held
play move id j held = held
play cancel id j held = not (id == j) && held
play cancel_all id j held = false

abbrev pub answered : Result InputError (Unit {0}) → Bool → Bool → Bool
answered (ok u) new old = new
answered (err e) new old = old

pub record Carries {F W : Type 0} (sink : TouchSink F W) (touching : W → ℕ → Bool)
    (pressed : W → Bool) : Type 0 where
  pub touch_plays :
      (e : TouchEventType) (id : ℕ) (x y : F) (w : W) (j : ℕ)
      → touching (sink.touch e id x y w).1 j
        ≡ answered (sink.touch e id x y w).0 (play e id j (touching w j)) (touching w j)
  pub touch_keeps :
      (e : TouchEventType) (id : ℕ) (x y : F) (w : W)
      → pressed (sink.touch e id x y w).1 ≡ pressed w
  pub button_plays :
      (b : Bool) (w : W) → pressed (sink.button b w).1 ≡ answered (sink.button b w).0 b (pressed w)
  pub button_keeps : (b : Bool) (w : W) (j : ℕ) → touching (sink.button b w).1 j ≡ touching w j
  pub position_keeps : (x y : F) (w : W) (j : ℕ) → touching (sink.position x y w).1 j ≡ touching w j
  pub position_keeps_button : (x y : F) (w : W) → pressed (sink.position x y w).1 ≡ pressed w
  pub asking_keeps : (w : W) (j : ℕ) → touching (sink.supports_touch w).1 j ≡ touching w j
  pub asking_keeps_button : (w : W) → pressed (sink.supports_touch w).1 ≡ pressed w

-- Whatever the host holds down belongs to a contact that the router knows.
pub record IsHeld {F : Type 0} (s : TouchInput F) (touching : ℕ → Bool) (pressed : Bool)
    : Type 0 where
  pub touches : (j : ℕ) → touching j ≡ true → (s.native ≡ some true) × (uses j s.contacts ≡ true)
  pub button : pressed ≡ true → (s.native ≡ some false) × (1 ≤ length s.contacts)

module _ {F : Type 0} where
  pub uses-append :
      (j : ℕ) (c : Contact F) (cs : List (Contact F))
      → uses j (cs ++ (c ∷ [])) ≡ (uses j cs || c.remote_id == j)
  uses-append j c [] = ground arith
  uses-append j c (d ∷ ds) = ground (arith, uses-append j c ds)

  pub uses-move_at :
      (j i : ℕ) (p : F × F) (cs : List (Contact F)) → uses j (move_at i p cs) ≡ uses j cs
  unfolding move_at
  uses-move_at j i p [] = refl
  uses-move_at j zero p (c ∷ cs) = refl
  uses-move_at j (suc i) p (c ∷ cs) = ground (arith, uses-move_at j i p cs)

  -- Only the id of the removed contact is gone.
  pub uses-remove_at :
      (j i : ℕ) (c : Contact F) (cs : List (Contact F))
      → contact_at i cs ≡ some c
      → (c.remote_id == j) ≡ false
      → uses j cs ≡ true
      → uses j (remove_at i cs) ≡ true
  unfolding remove_at contact_at
  uses-remove_at j i c [] e n u = absurd (ground (arith, u))
  uses-remove_at j zero c (d ∷ ds) e n u = ground (arith, e, n, u)
  uses-remove_at j (suc i) c (d ∷ ds) e n u = ground (arith, u, uses-remove_at j i c ds e n)

  pub length-move_at :
      (i : ℕ) (p : F × F) (cs : List (Contact F)) → length (move_at i p cs) ≡ length cs
  unfolding move_at
  length-move_at i p [] = refl
  length-move_at zero p (c ∷ cs) = refl
  length-move_at (suc i) p (c ∷ cs) = omega (arith, length-move_at i p cs)
