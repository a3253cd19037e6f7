-- ===== src/Touch/Held.antt =====
-- Events and releases of moonlight/src/touch.rs over a host that follows its calls.
use moonlight_scarlet.Prelude.{
  ℕ, ◌≡◌, refl, inl, inr, Bool, true, false, Option, none, some, if◌then◌else◌, ◌==◌, arith,
  Bool-cases, Result, ok, err, ◌≢◌,
}
use moonlight_scarlet.Sys.Types.{InputError, TouchEventType}
use moonlight_scarlet.Gamepad.Defs.{position}
use moonlight_scarlet.Touch.Defs.{
  TouchPhase, phase_down, phase_move, phase_up, phase_cancel, TouchChange, TouchSink, Contact,
  TouchInput, is_phase_down, is_phase_up, is_ending, is_contact, contact_at, event_of,
}
use moonlight_scarlet.Touch.Route.{
  forward, continue_at, continue_with, continue, route_at, or_last, and_release,
}
use moonlight_scarlet.Touch.Surface.{play, answered, Carries}
use moonlight_scarlet.Touch.Stuck.{Holds, IsLeft, settle-Holds, press_down-Holds}

module _ {F W : Type 0} (sink : TouchSink F W) (touching : W → ℕ → Bool) (pressed : W → Bool)
    (carries : Carries sink touching pressed) where
  open carries use {
    touch_plays, touch_keeps, button_plays, button_keeps, position_keeps, position_keeps_button,
    asking_keeps, asking_keeps_button,
  }

  touch-IsLeft :
      (e : TouchEventType) (s : TouchInput F) (c : Contact F) (p : F × F) (w : W) (ending : Bool)
      → s.native ≡ some true
      → ((held : Bool) (j : ℕ)
          → play e c.remote_id j held ≡ true
          → (held ≡ true) × (ending ≡ true → (c.remote_id == j) ≡ false))
      → IsLeft sink touching pressed carries s c ending w
          (sink.touch e c.remote_id p.0 p.1 w).1
          (sink.touch e c.remote_id p.0 p.1 w).0
  touch-IsLeft e s c p w ending n plays =
      go (sink.touch e c.remote_id p.0 p.1 w).0 (sink.touch e c.remote_id p.0 p.1 w).1
        (touch_plays e c.remote_id p.0 p.1 w) (touch_keeps e c.remote_id p.0 p.1 w)
    where
      go :
          (r : Result InputError (Unit {0})) (w' : W)
          → ((j : ℕ)
              → touching w' j ≡ answered r (play e c.remote_id j (touching w j)) (touching w j))
          → pressed w' ≡ pressed w
          → IsLeft sink touching pressed carries s c ending w w' r
      go (ok u) w' t b = record {
        touches = λ j k. (
          (plays (touching w j) j (ground (arith, t j, k))).0,
          λ x y. (plays (touching w j) j (ground (arith, t j, k))).1 x,
        );
        button = λ k. (ground (arith, b, k), λ x y z. ground (arith, n, z));
      }
      go (err x) w' t b = record {
        touches = λ j k. (ground (arith, t j, k), λ x y. absurd (ground (arith, y)));
        button = λ k. (ground (arith, b, k), λ x y. absurd (ground (arith, y)));
      }

  -- The mouse puts no touch down, and a release that is taken leaves the button up.
  release-IsLeft :
      (s : TouchInput F) (c : Contact F) (ending : Bool) (w w' : W)
      (r : Result InputError (Unit {0}))
      → s.native ≢ some true
      → ((j : ℕ) → touching w j ≡ true → s.native ≡ some true)
      → ((j : ℕ) → touching w' j ≡ touching w j)
      → pressed w' ≡ pressed w
      → IsLeft sink touching pressed carries s c ending w
          (and_release sink (r, w')).1
          (and_release sink (r, w')).0
  unfolding and_release
  release-IsLeft s c ending w w' (ok u) n h t b = record {
    touches = λ j k. absurd (n (h j (ground (arith, t j, button_keeps false w' j, k))));
    button = λ k. (
      ground (arith, b, k, button_plays false w'),
      λ x y. absurd (ground (arith, button_plays false w', y, k)),
    );
  }
  release-IsLeft s c ending w w' (err x) n h t b = record {
    touches = λ j k. absurd (n (h j (ground (arith, t j, button_keeps false w' j, k))));
    button = λ k. (ground (arith, b, k, button_plays false w'), λ x y. absurd (ground (arith, y)));
  }

  mouse-IsLeft :
      (change : TouchChange) (s : TouchInput F) (c : Contact F) (p : F × F) (w : W)
      → s.native ≢ some true
      → ((j : ℕ) → touching w j ≡ true → s.native ≡ some true)
      → IsLeft sink touching pressed carries s c
          (is_ending change.phase)
          w
          (forward sink change (some false) c p w).1
          (forward sink change (some false) c p w).0
  unfolding forward
  mouse-IsLeft change s c p w n h = go change.phase
    where
      still :
          IsLeft sink touching pressed carries s c false w
            (sink.position p.0 p.1 w).1
            (sink.position p.0 p.1 w).0
      still = record {
        touches = λ j k. absurd (n (h j (ground (arith, position_keeps p.0 p.1 w j, k))));
        button = λ k.
            (ground (arith, k, position_keeps_button p.0 p.1 w), λ x y. absurd (ground (arith, x)));
      }

      go :
          (phase : TouchPhase)
          → IsLeft sink touching pressed carries s c
              (is_ending phase)
              w
              (if is_ending phase
                then and_release sink
                    (if is_phase_up phase then sink.position p.0 p.1 w else (ok tt, w))
                else sink.position p.0 p.1 w).1
              (if is_ending phase
                then and_release sink
                    (if is_phase_up phase then sink.position p.0 p.1 w else (ok tt, w))
                else sink.position p.0 p.1 w).0
      go phase_down = still
      go phase_move = still
      go phase_up =
          release-IsLeft s c true w (sink.position p.0 p.1 w).1 (sink.position p.0 p.1 w).0 n h
            (position_keeps p.0 p.1 w) (position_keeps_button p.0 p.1 w)
      go phase_cancel = release-IsLeft s c true w w (ok tt) n h (λ j. refl) refl

  forward-IsLeft :
      (change : TouchChange) (known : Option Bool) (s : TouchInput F) (c : Contact F) (p : F × F)
      (w : W)
      → s.native ≡ known
      → is_phase_down change.phase ≡ false
      → Holds sink touching pressed carries (s, w)
      → IsLeft sink touching pressed carries s c
          (is_ending change.phase)
          w
          (forward sink change known c p w).1
          (forward sink change known c p w).0
  unfolding forward
  forward-IsLeft change none s c p w n d h =
      mouse-IsLeft change s c p w (λ e. ground (arith, n, e)) (λ j k. (h.touches j k).0)
  forward-IsLeft change (some false) s c p w n d h =
      mouse-IsLeft change s c p w (λ e. ground (arith, n, e)) (λ j k. (h.touches j k).0)
  forward-IsLeft change (some true) s c p w n d h =
      touch-IsLeft (event_of change.phase) s c p w (is_ending change.phase) n (plays change.phase d)
    where
      plays :
          (phase : TouchPhase)
          → is_phase_down phase ≡ false
          → (held : Bool) (j : ℕ) → play (event_of phase) c.remote_id j held ≡ true
          → (held ≡ true) × (is_ending phase ≡ true → (c.remote_id == j) ≡ false)
      plays phase_down k held j e = absurd (ground (arith, k))
      plays phase_move k held j e = (e, λ x. absurd (ground (arith, x)))
      plays phase_up k held j e = (ground (arith, e), λ x. ground (arith, e))
      plays phase_cancel k held j e = (ground (arith, e), λ x. ground (arith, e))

  continue-Holds :
      (change : TouchChange) (found : Option ℕ) (point : Option (F × F)) (s : TouchInput F) (w : W)
      → is_phase_down change.phase ≡ false
      → Holds sink touching pressed carries (s, w)
      → Holds sink touching pressed carries (continue sink change found point s w).1
  unfolding continue continue_with continue_at
  continue-Holds change none point s w d h = h
  continue-Holds change (some i) point s w d h = go (contact_at i s.contacts) refl
    where
      go :
          (c : Option (Contact F))
          → contact_at i s.contacts ≡ c
          → Holds sink touching pressed carries (continue_with sink change i c point s w).1
      go none e = h
      go (some c) e =
          settle-Holds sink touching pressed carries (is_ending change.phase) i c
            (or_last sink point c) s w (forward sink change s.native c (or_last sink point c) w).1
            (forward sink change s.native c (or_last sink point c) w).0 h e
            (forward-IsLeft change s.native s c (or_last sink point c) w refl d h)

  -- After any event, answered or refused, what the host holds down still belongs to a contact.
  pub route_at-Holds :
      (change : TouchChange) (point : Option (F × F)) (s : TouchInput F) (w : W)
      → Holds sink touching pressed carries (s, w)
      → Holds sink touching pressed carries (route_at sink change point s w).1
  unfolding route_at
  route_at-Holds change point s w h = elim (Bool-cases (is_phase_down change.phase)) [
    | inl d ↦ rw d (
        press_down-Holds sink touching pressed carries change
          (position (is_contact change) s.contacts) point s w h)
    | inr o ↦ rw o (continue-Holds change (position (is_contact change) s.contacts) point s w o h)
  ]
