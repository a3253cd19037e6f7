-- ===== src/Touch/Tests.antt =====
-- The theorems on touches at concrete inputs, and runs of the code.
use moonlight_scarlet.Prelude.{
  ℕ, ◌≡◌, refl, Bool, true, false, none, some, [], ◌∷◌, Result, ok, err, ◌||◌, ◌==◌, arith, inr,
}
use moonlight_scarlet.Prelude.Int.{ℤ, pos}
use moonlight_scarlet.Sys.Samples.{thousandths}
use moonlight_scarlet.Sys.Floats.{in_unit, clamp_unit}
use moonlight_scarlet.Sys.Types.{InputError, connection_inactive}
use moonlight_scarlet.Video.{fit_size}
use moonlight_scarlet.Gamepad.Defs.{position}
use moonlight_scarlet.Touch.Defs.{
  TouchPhase, phase_down, phase_up, TouchChange, TouchSink, Contact, TouchInput, is_contact,
  video_position, relative, find_free, remove_at, move_at, contact_at,
}
use moonlight_scarlet.Touch.Route.{
  route, route_at, release_to, let_go, press_down, begin, begin_with, ask_native, learn, announce,
  push_contact, forward, settle, continue, continue_with, continue_at, and_release, button_after,
  forgotten,
}
use moonlight_scarlet.Touch.Surface.{play, Carries, IsHeld}
use moonlight_scarlet.Touch.Valid.{IsValid}
use moonlight_scarlet.Touch.Events

abbrev World : Type 0
World = (ℕ → Bool) × Bool

-- A host that plays every call, but takes no pointer position, and has touches or has not.
abbrev host : Bool → TouchSink ℕ World
host native = record {
  supports_touch = λ w. (ok native, w);
  touch = λ e id x y (t, b). (ok tt, ((λ j. play e id j (t j)), b));
  position = λ x y w. (err connection_inactive, w);
  button = λ b (t, _). (ok tt, (t, b));
}

abbrev touching : World → ℕ → Bool
touching w = w.0

abbrev pressed : World → Bool
pressed w = w.1

host-Carries : (native : Bool) → Carries (host native) touching pressed
host-Carries native = record {
  touch_plays = λ e id x y w j. refl;
  touch_keeps = λ e id x y w. refl;
  button_plays = λ b w. refl;
  button_keeps = λ b w j. refl;
  position_keeps = λ x y w j. refl;
  position_keeps_button = λ x y w. refl;
  asking_keeps = λ w j. refl;
  asking_keeps_button = λ w. refl;
}

abbrev at : TouchPhase → ℕ → ℤ → ℤ → TouchChange
at phase id x y = record { seat_id = 0; id = id; phase = phase; x = x; y = y }

abbrev contact : ℕ → ℕ → Contact ℕ
contact local remote = record {
  seat = 0;
  local_id = local;
  remote_id = remote;
  position = (500, 500);
}

-- Two touches of the surface are down at the host under 0 and 1.
abbrev two : TouchInput ℕ
two = record { native = some true; contacts = contact 77 0 ∷ contact 90 1 ∷ [] }

abbrev two_held : World
two_held = ((λ j. 0 == j || 1 == j), false)

two-IsHeld : IsHeld two (touching two_held) (pressed two_held)
two-IsHeld = record {
  touches = λ j e. (refl, ground (arith, e));
  button = λ e. absurd (ground (arith, e));
}

two-IsValid : IsValid two
two-IsValid = (
  (
    omega arith,
    (((λ e. omega (arith, e)), inr (λ e. omega (arith, e))), tt),
    (omega arith, tt, tt),
  ),
  (λ e. absurd (ground (arith, e))),
  λ e. absurd (ground (arith, e)),
)

run : Unit {0}
unfolding route route_at press_down begin begin_with ask_native learn announce push_contact forward
    settle continue continue_with continue_at and_release button_after forgotten release_to let_go
    video_position relative fit_size in_unit clamp_unit find_free remove_at move_at contact_at
    position
run = tt

-- A third touch gets the third id, and the first up frees the first.
third_down :
    (route thousandths
      (host true)
      (at phase_down 5 (pos 100) (pos 300))
      (800, 600)
      (1600, 1200)
      two
      two_held).0
    ≡ ok true
unfolding run
third_down = refl

route-IsValid_example :
    IsValid
      (route thousandths
        (host true)
        (at phase_down 5 (pos 100) (pos 300))
        (800, 600)
        (1600, 1200)
        two
        two_held).1.0
route-IsValid_example =
    Events.route-IsValid thousandths (host true) (at phase_down 5 (pos 100) (pos 300)) (800, 600)
      (1600, 1200) two two_held two-IsValid

abbrev after_up : Result InputError Bool × (TouchInput ℕ × World)
after_up =
    route thousandths (host true) (at phase_up 77 (pos 100) (pos 300)) (800, 600) (1600, 1200) two
      two_held

route-Holds_example : IsHeld after_up.1.0 (touching after_up.1.1) (pressed after_up.1.1)
route-Holds_example =
    Events.route-Holds thousandths (host true) touching pressed (host-Carries true)
      (at phase_up 77 (pos 100) (pos 300)) (800, 600) (1600, 1200) two two_held two-IsHeld

-- A wide picture in a square view leaves bars above and below.
in_bar :
    Events.IsOutside thousandths
      (host true)
      (at phase_down 5 (pos 400) (pos 790))
      (800, 800)
      (1600, 800)
unfolding run
in_bar = refl

unknown : position (is_contact (at phase_down 5 (pos 400) (pos 790))) two.contacts ≡ none
unfolding run
unknown = refl

released : (release_to (host true) 0 two two_held).0 ≡ ok tt
unfolding run
released = refl

release_to_clears_example :
    ((j : ℕ) → touching (release_to (host true) 0 two two_held).1.1 j ≡ false)
    × (pressed (release_to (host true) 0 two two_held).1.1 ≡ false)
    × ((release_to (host true) 0 two two_held).1.0.contacts ≡ [])
release_to_clears_example =
    Events.release_to_clears thousandths (host true) touching pressed (host-Carries true) 0 two
      two_held two-IsHeld released

abbrev dragged : TouchInput ℕ
dragged = record { native = some false; contacts = contact 3 0 ∷ [] }

found : position (is_contact (at phase_up 3 (pos 9) (pos 9))) dragged.contacts ≡ some 0
unfolding run
found = refl

first : contact_at 0 dragged.contacts ≡ some (contact 3 0)
unfolding run
first = refl

-- The host refuses the last position, and the button is up all the same.
ending_frees_button_example :
    pressed
      (route thousandths
        (host false)
        (at phase_up 3 (pos 9) (pos 9))
        (800, 600)
        (1600, 1200)
        dragged
        ((λ j. false), true)).1.1
    ≡ false
ending_frees_button_example =
    Events.ending_frees_button thousandths (host false) touching pressed (host-Carries false)
      (at phase_up 3 (pos 9) (pos 9)) (800, 600) (1600, 1200) dragged ((λ j. false), true) 0
      (contact 3 0) refl refl found first (λ w. refl)
