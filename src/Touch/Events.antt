-- ===== src/Touch/Events.antt =====
-- What `route` and `release_to` of moonlight/src/touch.rs promise to the rest of the program.
use moonlight_scarlet.Prelude.{
  ℕ, ◌≡◌, refl, ap, ◌∙◌, ◌≤◌, inl, inr, Bool, true, false, not, Option, none, some, List, [], ◌∷◌,
  length, arith, Bool-cases, Result, ok, err,
}
use moonlight_scarlet.Sys.Types.{InputError, cancel_all}
use moonlight_scarlet.Sys.Floats.{Float32}
use moonlight_scarlet.Gamepad.Defs.{position}
use moonlight_scarlet.Touch.Defs.{
  TouchChange, TouchSink, Contact, TouchInput, is_phase_down, is_ending, is_contact, is_empty, uses,
  contact_at, video_position,
}
use moonlight_scarlet.Touch.Route.{
  press_down, forward, settle, continue_at, continue_with, continue, route_at, route, release_to,
  forgotten, and_release, let_go,
}
use moonlight_scarlet.Touch.Surface.{Carries, IsHeld}
use moonlight_scarlet.Touch.Valid.{IsValid, route_at-IsValid}
use moonlight_scarlet.Touch.Held.{route_at-Holds}

module _ (f : Float32) {W : Type 0} (sink : TouchSink f.Carrier W) where
  open f use {Carrier}

  -- Whatever the sink answers, an event keeps the contacts in order: each remote id is below ten and
  -- used once, each touch of the surface has one contact, and the mouse carries one contact at most.
  pub route-IsValid :
      (change : TouchChange) (viewport video : ℕ × ℕ) (s : TouchInput Carrier) (w : W)
      → IsValid s
      → IsValid (route f sink change viewport video s w).1.0
  unfolding route
  route-IsValid change viewport video =
      route_at-IsValid sink change
        (video_position f change.x change.y viewport video (not (is_phase_down change.phase)))

  -- Over a host that follows the calls, whatever it holds down after an event, answered or refused,
  -- belongs to a contact of the input method in use, if that was so before.
  pub route-Holds :
      (touching : W → ℕ → Bool) (pressed : W → Bool) (carries : Carries sink touching pressed)
      (change : TouchChange) (viewport video : ℕ × ℕ) (s : TouchInput Carrier) (w : W)
      → IsHeld s (touching w) (pressed w)
      → IsHeld
          (route f sink change viewport video s w).1.0
          (touching (route f sink change viewport video s w).1.1)
          (pressed (route f sink change viewport video s w).1.1)
  unfolding route
  route-Holds touching pressed carries change viewport video =
      route_at-Holds sink touching pressed carries change
        (video_position f change.x change.y viewport video (not (is_phase_down change.phase)))

  -- Outside the picture.
  abbrev pub IsOutside : TouchChange → ℕ × ℕ → ℕ × ℕ → Type 0
  IsOutside change viewport video = video_position f change.x change.y viewport video false ≡ none

  -- A press outside the picture and an event of a touch that is not known call nothing and change
  -- nothing.
  pub route_ignores :
      (change : TouchChange) (viewport video : ℕ × ℕ) (s : TouchInput Carrier) (w : W)
      → position (is_contact change) s.contacts ≡ none
      → (is_phase_down change.phase ≡ true → IsOutside change viewport video)
      → route f sink change viewport video s w ≡ (ok false, (s, w))
  unfolding route route_at press_down continue
  route_ignores change viewport video s w k out = elim (Bool-cases (is_phase_down change.phase)) [
    | inl d ↦ simp (d, k, out d)
    | inr o ↦ simp (o, k)
  ]

  settle_world :
      (ending : Bool) (i : ℕ) (p : Carrier × Carrier) (s : TouchInput Carrier)
      (r : Result InputError (Unit {0}) × W)
      → (settle sink ending i p s r).1.1 ≡ r.1
  unfolding settle
  settle_world ending i p s (ok u, w) = refl
  settle_world ending i p s (err e, w) = refl

  module _ (touching : W → ℕ → Bool) (pressed : W → Bool)
      (carries : Carries sink touching pressed) where
    open carries use {touch_plays, touch_keeps, button_plays, button_keeps, position_keeps_button}

    -- With no contact the host holds nothing.
    nothing_held :
        (s : TouchInput Carrier) (w : W)
        → is_empty s.contacts ≡ true
        → IsHeld s (touching w) (pressed w)
        → ((j : ℕ) → touching w j ≡ false) × (pressed w ≡ false) × (s.contacts ≡ [])
    nothing_held s w e h = (
      (λ j. none_touched s.contacts e j (λ k. (h.touches j k).1)),
      none_pressed s.contacts e (λ k. (h.button k).1),
      is_nil s.contacts e,
    )
      where
        none_touched :
            (cs : List (Contact Carrier))
            → is_empty cs ≡ true
            → (j : ℕ) → (touching w j ≡ true → uses j cs ≡ true)
            → touching w j ≡ false
        none_touched [] e j k = ground (arith, k)
        none_touched (c ∷ cs) e j k = absurd (ground (arith, e))

        none_pressed :
            (cs : List (Contact Carrier))
            → is_empty cs ≡ true
            → (pressed w ≡ true → 1 ≤ length cs)
            → pressed w ≡ false
        none_pressed [] e k = ground (arith, k)
        none_pressed (c ∷ cs) e k = absurd (ground (arith, e))

        is_nil : (cs : List (Contact Carrier)) → is_empty cs ≡ true → cs ≡ []
        is_nil [] e = refl
        is_nil (c ∷ cs) e = absurd (ground (arith, e))

    let_go_clears :
        (zero : Carrier) (known : Option Bool) (s : TouchInput Carrier) (w : W)
        → s.native ≡ known
        → IsHeld s (touching w) (pressed w)
        → (let_go sink zero known w).0 ≡ ok tt
        → ((j : ℕ) → touching (let_go sink zero known w).1 j ≡ false)
          × (pressed (let_go sink zero known w).1 ≡ false)
    unfolding let_go
    let_go_clears zero (some true) s w n h good = (
      (λ j. ground (arith, touch_plays cancel_all 0 zero zero w j, good)),
      ground (arith, touch_keeps cancel_all 0 zero zero w, h.button, n),
    )
    let_go_clears zero (some false) s w n h good = (
      (λ j. ground (arith, button_keeps false w j, h.touches j, n)),
      ground (arith, button_plays false w, good),
    )
    let_go_clears zero none s w n h good = (
      (λ j. ground (arith, button_keeps false w j, h.touches j, n)),
      ground (arith, button_plays false w, good),
    )

    -- Letting go without a refusal leaves nothing down at the host and no contact, if all that the host
    -- held down belonged to contacts.
    pub release_to_clears :
        (zero : Carrier) (s : TouchInput Carrier) (w : W)
        → IsHeld s (touching w) (pressed w)
        → (release_to sink zero s w).0 ≡ ok tt
        → ((j : ℕ) → touching (release_to sink zero s w).1.1 j ≡ false)
          × (pressed (release_to sink zero s w).1.1 ≡ false)
          × ((release_to sink zero s w).1.0.contacts ≡ [])
    unfolding release_to forgotten
    release_to_clears zero s w h good = elim (Bool-cases (is_empty s.contacts)) [
      | inl e ↦ rw e (nothing_held s w e h)
      | inr o ↦
          rw o (let (t, b) = let_go_clears zero s.native s w refl h (rw o at good) in (t, b, refl))
    ]

    and_release_frees :
        ((w' : W) → (sink.button false w').0 ≡ ok tt)
        → (r : Result InputError (Unit {0}) × W) → pressed (and_release sink r).1 ≡ false
    unfolding and_release
    and_release_frees works (ok u, w) = ground (arith, button_plays false w, works w)
    and_release_frees works (err e, w) = ground (arith, button_plays false w, works w)

    -- The end of a mouse contact lets the button go even where its last position is refused, as long as
    -- the button call itself is taken.
    pub ending_frees_button :
        (change : TouchChange) (viewport video : ℕ × ℕ) (s : TouchInput Carrier) (w : W) (i : ℕ)
        (c : Contact Carrier)
        → s.native ≡ some false
        → is_ending change.phase ≡ true
        → position (is_contact change) s.contacts ≡ some i
        → contact_at i s.contacts ≡ some c
        → ((w' : W) → (sink.button false w').0 ≡ ok tt)
        → pressed (route f sink change viewport video s w).1.1 ≡ false
    unfolding route route_at continue continue_with continue_at forward
    ending_frees_button change viewport video s w i c n e k at works =
        simp (not_down, n, k, at, e)
          (ap pressed (settle_world true i _ s _) ∙ and_release_frees works _)
      where
        not_down : is_phase_down change.phase ≡ false
        not_down = ground (arith, e)
