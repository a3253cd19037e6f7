-- ===== src/Touch/Stuck.antt =====
-- What the host holds down while moonlight/src/touch.rs begins and settles contacts.
use moonlight_scarlet.Prelude.{
  ℕ, ◌≡◌, ◌≢◌, refl, ◌⊎◌, inl, inr, Bool, true, false, not, ◌&&◌, Option, none, some, [], ◌∷◌, ◌==◌,
  length-append, arith, Bool-cases, Result, ok, err, Result-cases,
}
use moonlight_scarlet.Sys.Types.{InputError, down}
use moonlight_scarlet.Touch.Defs.{
  TouchChange, TouchSink, Contact, TouchInput, is_empty, find_free, contact_at,
}
use moonlight_scarlet.Touch.Route.{
  Outcome, learn, ask_native, announce, push_contact, begin_with, begin, press_down, settle,
  button_after,
}
use moonlight_scarlet.Touch.Surface.{
  Carries, IsHeld, uses-append, uses-move_at, uses-remove_at, length-move_at,
}

module _ {F W : Type 0} (sink : TouchSink F W) (touching : W → ℕ → Bool) (pressed : W → Bool)
    (carries : Carries sink touching pressed) where
  open carries use {
    touch_plays, touch_keeps, button_plays, button_keeps, position_keeps, position_keeps_button,
    asking_keeps, asking_keeps_button,
  }

  -- The router's state and the host's agree.
  abbrev pub Holds : TouchInput F × W → Type 0
  Holds (s, w) = IsHeld s (touching w) (pressed w)

  -- While the input method is unknown the host holds nothing.
  learn-Holds :
      (s : TouchInput F) (w w' : W) (r : Result InputError Bool)
      → s.native ≡ none
      → Holds (s, w)
      → ((j : ℕ) → touching w' j ≡ touching w j)
      → pressed w' ≡ pressed w
      → Holds (learn sink s (r, w')).1
  unfolding learn
  learn-Holds s w w' (ok v) n h t p = record {
    touches = λ j e. absurd (ground (arith, h.touches j, t j, e, n));
    button = λ e. absurd (ground (arith, h.button, p, e, n));
  }
  learn-Holds s w w' (err x) n h t p = record {
    touches = λ j e. ground (arith, h.touches j, t j, e);
    button = λ e. ground (arith, h.button, p, e);
  }

  ask-Holds :
      (known : Option Bool) (s : TouchInput F) (w : W)
      → s.native ≡ known
      → Holds (s, w)
      → Holds (ask_native sink known s w).1
  unfolding ask_native
  ask-Holds (some v) s w n h = h
  ask-Holds none s w n h =
      learn-Holds s w (sink.supports_touch w).1 (sink.supports_touch w).0 n h (asking_keeps w)
        (asking_keeps_button w)

  -- A contact of the input method in use is pushed after the calls `r` that announced it.
  push-Holds :
      (change : TouchChange) (id : ℕ) (p : F × F) (s : TouchInput F) (w w' : W)
      (r : Result InputError (Unit {0}))
      → Holds (s, w)
      → ((j : ℕ)
          → touching w' j ≡ true
          → (touching w j ≡ true) ⊎ ((r ≡ ok tt) × (s.native ≡ some true) × (id ≡ j)))
      → (pressed w' ≡ true → (pressed w ≡ true) ⊎ ((r ≡ ok tt) × (s.native ≡ some false)))
      → Holds (push_contact sink change id p s (r, w')).1
  unfolding push_contact
  push-Holds change id p s w w' (err x) h t b = record {
    touches =
        λ j e. elim (t j e) [ inl old ↦ h.touches j old | inr new ↦ absurd (ground (arith, new)) ];
    button = λ e. elim (b e) [ inl old ↦ h.button old | inr new ↦ absurd (ground (arith, new)) ];
  }
  push-Holds change id p s w w' (ok u) h t b = record {
    touches = λ j e. elim (t j e) [
      | inl old ↦
          ((h.touches j old).0, ground (arith, uses-append j pushed s.contacts, h.touches j old))
      | inr new ↦ (new.1, ground (arith, uses-append j pushed s.contacts, new))
    ];
    button = λ e. elim (b e) [
      | inl old ↦ ((h.button old).0, omega (arith, length-append s.contacts (pushed ∷ [])))
      | inr new ↦ (new.1, omega (arith, length-append s.contacts (pushed ∷ [])))
    ];
  }
    where
      pushed : Contact F
      pushed = record { seat = change.seat_id; local_id = change.id; remote_id = id; position = p }

  -- The calls of a new contact put down one touch, or the button.
  announce_touch :
      (id : ℕ) (p : F × F) (w : W) (j : ℕ)
      → touching (sink.touch down id p.0 p.1 w).1 j ≡ true
      → (touching w j ≡ true) ⊎ (((sink.touch down id p.0 p.1 w).0 ≡ ok tt) × (id ≡ j))
  announce_touch id p w j e = elim (Result-cases (sink.touch down id p.0 p.1 w).0) [
    | inl (u, k) ↦ ground (arith, touch_plays down id p.0 p.1 w j, e, k)
    | inr (x, k) ↦ inl (ground (arith, touch_plays down id p.0 p.1 w j, e, k))
  ]

  button_after_keeps :
      (p : F × F) (w : W)
      → ((j : ℕ) → touching (button_after sink (sink.position p.0 p.1 w)).1 j ≡ touching w j)
        × (pressed (button_after sink (sink.position p.0 p.1 w)).1 ≡ true
            → (pressed w ≡ true) ⊎ ((button_after sink (sink.position p.0 p.1 w)).0 ≡ ok tt))
  unfolding button_after
  button_after_keeps p w =
      go (sink.position p.0 p.1 w).0 (sink.position p.0 p.1 w).1 (position_keeps p.0 p.1 w)
        (position_keeps_button p.0 p.1 w)
    where
      go :
          (r : Result InputError (Unit {0})) (w' : W)
          → ((j : ℕ) → touching w' j ≡ touching w j)
          → pressed w' ≡ pressed w
          → ((j : ℕ) → touching (button_after sink (r, w')).1 j ≡ touching w j)
            × (pressed (button_after sink (r, w')).1 ≡ true
                → (pressed w ≡ true) ⊎ ((button_after sink (r, w')).0 ≡ ok tt))
      go (err x) w' t b = (t, λ e. inl (ground (arith, b, e)))
      go (ok u) w' t b = (
        (λ j. ground (arith, t j, button_keeps true w' j)),
        λ e. elim (Result-cases (sink.button true w').0) [
          | inl (v, k) ↦ inr (ground (arith, k))
          | inr (x, k) ↦ inl (ground (arith, button_plays true w', b, e, k))
        ],
      )

  begin_with-Holds :
      (change : TouchChange) (p : F × F) (native : Bool) (free : Option ℕ) (s : TouchInput F)
      (w : W)
      → s.native ≡ some native
      → Holds (s, w)
      → Holds (begin_with sink change p native free s w).1
  unfolding begin_with announce
  begin_with-Holds change p native none s w n h = h
  begin_with-Holds change p true (some id) s w n h =
      push-Holds change id p s w (sink.touch down id p.0 p.1 w).1 (sink.touch down id p.0 p.1 w).0 h
        (λ j e. elim (announce_touch id p w j e) [ inl o ↦ inl o | inr (k, m) ↦ inr (k, n, m) ])
        (λ e. inl (ground (arith, e, touch_keeps down id p.0 p.1 w)))
  begin_with-Holds change p false (some id) s w n h =
      push-Holds change id p s w (button_after sink (sink.position p.0 p.1 w)).1
        (button_after sink (sink.position p.0 p.1 w)).0 h
        (λ j e. inl (ground (arith, e, (button_after_keeps p w).0 j)))
        (λ e. elim ((button_after_keeps p w).1 e) [ inl o ↦ inl o | inr k ↦ inr (k, n) ])

  begin-Holds :
      (change : TouchChange) (p : F × F) (o : Outcome sink Bool)
      → Holds o.1
      → ((v : Bool) → o.0 ≡ ok v → o.1.0.native ≡ some v)
      → Holds (begin sink change p o).1
  unfolding begin
  begin-Holds change p (err e, (s, w)) h n = h
  begin-Holds change p (ok native, (s, w)) h n =
      elim (Bool-cases (not native && not (is_empty s.contacts))) [
        | inl busy ↦ rw busy h
        | inr idle ↦
            rw idle
              (begin_with-Holds change p native (find_free 10 0 s.contacts) s w (n native refl) h)
      ]

  asked_native :
      (known : Option Bool) (s : TouchInput F) (w : W)
      → s.native ≡ known
      → (v : Bool) → (ask_native sink known s w).0 ≡ ok v
      → (ask_native sink known s w).1.0.native ≡ some v
  unfolding ask_native learn
  asked_native (some v) s w n v' e = ground (arith, n, e)
  asked_native none s w n v e = go (sink.supports_touch w) e
    where
      go :
          (r : Result InputError Bool × W)
          → (learn sink s r).0 ≡ ok v
          → (learn sink s r).1.0.native ≡ some v
      go (ok v', w') k = ground (arith, k)
      go (err x, w') k = absurd (ground (arith, k))

  pub press_down-Holds :
      (change : TouchChange) (found : Option ℕ) (point : Option (F × F)) (s : TouchInput F) (w : W)
      → Holds (s, w)
      → Holds (press_down sink change found point s w).1
  unfolding press_down
  press_down-Holds change (some i) point s w h = h
  press_down-Holds change none none s w h = h
  press_down-Holds change none (some p) s w h =
      begin-Holds change p (ask_native sink s.native s w) (ask-Holds s.native s w refl h)
        (asked_native s.native s w refl)

  -- What the calls for a known contact leave down at the host.
  pub record IsLeft (s : TouchInput F) (c : Contact F) (ending : Bool) (w w' : W)
      (r : Result InputError (Unit {0})) : Type 0 where
    pub touches :
        (j : ℕ)
        → touching w' j ≡ true
        → (touching w j ≡ true) × ((ending ≡ true) → (r ≡ ok tt) → (c.remote_id == j) ≡ false)
    pub button :
        pressed w' ≡ true
        → (pressed w ≡ true) × ((ending ≡ true) → (r ≡ ok tt) → s.native ≢ some false)

  pub settle-Holds :
      (ending : Bool) (i : ℕ) (c : Contact F) (p : F × F) (s : TouchInput F) (w w' : W)
      (r : Result InputError (Unit {0}))
      → Holds (s, w)
      → contact_at i s.contacts ≡ some c
      → IsLeft s c ending w w' r
      → Holds (settle sink ending i p s (r, w')).1
  unfolding settle
  settle-Holds ending i c p s w w' (err e) h f l = record {
    touches = λ j e. ground (arith, h.touches j, l.touches j e, uses-move_at j i p s.contacts);
    button = λ e. (
      (h.button (l.button e).0).0,
      omega (arith, (h.button (l.button e).0).1, length-move_at i p s.contacts),
    );
  }
  settle-Holds false i c p s w w' (ok u) h f l = record {
    touches = λ j e. ground (arith, h.touches j, l.touches j e, uses-move_at j i p s.contacts);
    button = λ e. (
      (h.button (l.button e).0).0,
      omega (arith, (h.button (l.button e).0).1, length-move_at i p s.contacts),
    );
  }
  settle-Holds true i c p s w w' (ok u) h f l = record {
    touches = λ j e. (
      (h.touches j (l.touches j e).0).0,
      uses-remove_at j i c s.contacts f ((l.touches j e).1 refl refl)
          (h.touches j (l.touches j e).0).1,
    );
    button = λ e. absurd ((l.button e).1 refl refl (h.button (l.button e).0).0);
  }
