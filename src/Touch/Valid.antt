-- ===== src/Touch/Valid.antt =====
-- The contacts of the router of moonlight/src/touch.rs over an arbitrary sink.
use moonlight_scarlet.Prelude.{
  ℕ, zero, suc, ◌+◌, ◌≤◌, ◌<◌, ◌≡◌, refl, inl, inr, Bool, true, false, not, ◌&&◌, Option, none,
  some, List, [], ◌∷◌, length, length-append, arith, Bool-cases, Result, ok, err,
}
use moonlight_scarlet.Sys.Types.{InputError}
use moonlight_scarlet.Gamepad.Defs.{position}
use moonlight_scarlet.Touch.Defs.{
  TouchChange, TouchSink, Contact, TouchInput, is_phase_down, is_ending, is_contact, is_empty, uses,
  find_free, remove_at, move_at, contact_at,
}
use moonlight_scarlet.Touch.Route.{
  Outcome, learn, ask_native, announce, push_contact, begin_with, begin, press_down, forward,
  settle, continue_at, continue_with, continue, route_at, or_last,
}
use moonlight_scarlet.Touch.Contacts.{
  AreDistinct, move_at-AreDistinct, remove_at-AreDistinct, append-AreDistinct, unused-IsFresh,
  find_free_unused,
}

module _ {F : Type 0} where
  -- Contacts are distinct, none are there before the input method is known, and the mouse carries one
  -- at most.
  abbrev pub IsValid : TouchInput F → Type 0
  IsValid s =
      AreDistinct s.contacts
      × (s.native ≡ none → length s.contacts ≡ 0)
      × (s.native ≡ some false → length s.contacts ≤ 1)

  length-move_at : (cs : List (Contact F)) (i : ℕ) (p : F × F) → length (move_at i p cs) ≡ length cs
  unfolding move_at
  length-move_at [] i p = refl
  length-move_at (c ∷ cs) zero p = refl
  length-move_at (c ∷ cs) (suc i) p = omega (arith, length-move_at cs i p)

  length-remove_at : (cs : List (Contact F)) (i : ℕ) → length (remove_at i cs) ≤ length cs
  unfolding remove_at
  length-remove_at [] i = omega arith
  length-remove_at (c ∷ cs) zero = omega arith
  length-remove_at (c ∷ cs) (suc i) = omega (arith, length-remove_at cs i)

  length-is_empty : (cs : List (Contact F)) → is_empty cs ≡ true → length cs ≡ 0
  length-is_empty [] e = refl
  length-is_empty (c ∷ cs) e = absurd (ground (arith, e))

  module _ {W : Type 0} where
    -- After the question, the answer is remembered and no contact has changed.
    abbrev HasAsked : TouchInput F → Result InputError Bool × (TouchInput F × W) → Type 0
    HasAsked s o =
        IsValid o.1.0
        × (o.1.0.contacts ≡ s.contacts)
        × ((v : Bool) → o.0 ≡ ok v → o.1.0.native ≡ some v)

    module _ (sink : TouchSink F W) where
      learn-HasAsked :
          (s : TouchInput F) (r : Result InputError Bool × W)
          → IsValid s
          → s.native ≡ none
          → HasAsked s (learn sink s r)
      unfolding learn
      learn-HasAsked s (ok v, w) (d, z, m) n = (
        (d, (λ e. absurd (ground (arith, e))), λ _. omega (arith, z n)),
        refl,
        λ v' e. ground (arith, e),
      )
      learn-HasAsked s (err x, w) h n = (h, refl, λ v e. absurd (ground (arith, e)))

      ask-HasAsked :
          (known : Option Bool) (s : TouchInput F) (w : W)
          → s.native ≡ known
          → IsValid s
          → HasAsked s (ask_native sink known s w)
      unfolding ask_native
      ask-HasAsked none s w n h = learn-HasAsked s (sink.supports_touch w) h n
      ask-HasAsked (some v) s w n h = (h, refl, λ v' e. ground (arith, e, n))

      settle-IsValid :
          (ending : Bool) (i : ℕ) (p : F × F) (s : TouchInput F)
          (r : Result InputError (Unit {0}) × W)
          → IsValid s
          → IsValid (settle sink ending i p s r).1.0
      unfolding settle
      settle-IsValid true i p s (ok u, w) (d, n, m) = (
        remove_at-AreDistinct s.contacts i d,
        (λ e. omega (arith, n e, length-remove_at s.contacts i)),
        λ e. omega (arith, m e, length-remove_at s.contacts i),
      )
      settle-IsValid false i p s (ok u, w) (d, n, m) = (
        move_at-AreDistinct s.contacts i p d,
        (λ e. omega (arith, n e, length-move_at s.contacts i p)),
        λ e. omega (arith, m e, length-move_at s.contacts i p),
      )
      settle-IsValid ending i p s (err e, w) (d, n, m) = (
        move_at-AreDistinct s.contacts i p d,
        (λ e. omega (arith, n e, length-move_at s.contacts i p)),
        λ e. omega (arith, m e, length-move_at s.contacts i p),
      )

      continue_with-IsValid :
          (change : TouchChange) (i : ℕ) (c : Option (Contact F)) (point : Option (F × F))
          (s : TouchInput F) (w : W)
          → IsValid s
          → IsValid (continue_with sink change i c point s w).1.0
      unfolding continue_with continue_at
      continue_with-IsValid change i none point s w h = h
      continue_with-IsValid change i (some c) point s w h =
          settle-IsValid (is_ending change.phase) i (or_last sink point c) s
            (forward sink change s.native c (or_last sink point c) w) h

      continue-IsValid :
          (change : TouchChange) (found : Option ℕ) (point : Option (F × F)) (s : TouchInput F)
          (w : W)
          → IsValid s
          → IsValid (continue sink change found point s w).1.0
      unfolding continue
      continue-IsValid change none point s w h = h
      continue-IsValid change (some i) point s w h =
          continue_with-IsValid change i (contact_at i s.contacts) point s w h

      push-IsValid :
          (change : TouchChange) (id : ℕ) (p : F × F) (s : TouchInput F)
          (r : Result InputError (Unit {0}) × W) (native : Bool)
          → IsValid s
          → s.native ≡ some native
          → (native ≡ false → length s.contacts ≡ 0)
          → position (is_contact change) s.contacts ≡ none
          → find_free 10 0 s.contacts ≡ some id
          → IsValid (push_contact sink change id p s r).1.0
      unfolding push_contact
      push-IsValid change id p s (err e, w) native h n z k free = h
      push-IsValid change id p s (ok u, w) native h n z k free = (
        append-AreDistinct _ s.contacts (omega (arith, unused.0))
            (unused-IsFresh change id p s.contacts k unused.1) h.0,
        (λ e. absurd (ground (arith, e, n))),
        λ e. omega (
          arith,
          z (ground (arith, e, n)),
          length-append s.contacts (
              record { seat = change.seat_id; local_id = change.id; remote_id = id; position = p }
              ∷ []),
        ),
      )
        where
          unused : (id < 0 + 10) × (uses id s.contacts ≡ false)
          unused = find_free_unused 10 0 s.contacts id free

      begin_with-IsValid :
          (change : TouchChange) (p : F × F) (native : Bool) (free : Option ℕ) (s : TouchInput F)
          (w : W)
          → IsValid s
          → s.native ≡ some native
          → (native ≡ false → length s.contacts ≡ 0)
          → position (is_contact change) s.contacts ≡ none
          → find_free 10 0 s.contacts ≡ free
          → IsValid (begin_with sink change p native free s w).1.0
      unfolding begin_with
      begin_with-IsValid change p native none s w h n z k free = h
      begin_with-IsValid change p native (some id) s w h n z k free =
          push-IsValid change id p s (announce sink native id p w) native h n z k free

      -- The guard against a second mouse contact has been passed.
      begin-IsValid :
          (change : TouchChange) (p : F × F) (s : TouchInput F) (o : Outcome sink Bool)
          → HasAsked s o
          → position (is_contact change) s.contacts ≡ none
          → IsValid (begin sink change p o).1.0
      unfolding begin
      begin-IsValid change p s (err e, (t, w)) h k = h.0
      begin-IsValid change p s (ok native, (t, w)) h k =
          elim (Bool-cases (not native && not (is_empty t.contacts))) [
            | inl busy ↦ rw busy h.0
            | inr idle ↦ rw idle (
                begin_with-IsValid change p native (find_free 10 0 t.contacts) t w h.0
                  (h.2 native refl) (λ e. length-is_empty t.contacts (ground (arith, idle, e)))
                  (rw h.1 k) refl)
          ]

      press_down-IsValid :
          (change : TouchChange) (point : Option (F × F)) (s : TouchInput F) (w : W)
          (found : Option ℕ)
          → position (is_contact change) s.contacts ≡ found
          → IsValid s
          → IsValid (press_down sink change found point s w).1.0
      unfolding press_down
      press_down-IsValid change point s w (some i) e h = h
      press_down-IsValid change none s w none e h = h
      press_down-IsValid change (some p) s w none e h =
          begin-IsValid change p s (ask_native sink s.native s w) (ask-HasAsked s.native s w refl h)
            e

      -- No event, and no answer of the sink, puts the contacts out of order.
      pub route_at-IsValid :
          (change : TouchChange) (point : Option (F × F)) (s : TouchInput F) (w : W)
          → IsValid s
          → IsValid (route_at sink change point s w).1.0
      unfolding route_at
      route_at-IsValid change point s w h = elim (Bool-cases (is_phase_down change.phase)) [
        | inl d ↦
            rw d
              (press_down-IsValid change point s w (position (is_contact change) s.contacts) refl h)
        | inr o ↦
            rw o (continue-IsValid change (position (is_contact change) s.contacts) point s w h)
      ]
