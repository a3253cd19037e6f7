-- ===== src/Touch/Defs.antt =====
-- The types and operations of moonlight/src/touch.rs. A sink acts on a world `W` of its own; of a
-- ScarletUI touch change only the fields that the code reads are kept.
use moonlight_scarlet.Prelude.{
  ℕ, zero, suc, ◌+◌, ◌-◌, Bool, true, false, not, ◌&&◌, ◌||◌, Option, none, some, List, [], ◌∷◌,
  if◌then◌else◌, ◌==◌, Result,
}
use moonlight_scarlet.Prelude.Int.{ℤ}
use moonlight_scarlet.Sys.Floats.{Float32, in_unit, clamp_unit}
use moonlight_scarlet.Sys.Types.{
  InputError, press, release, left, TouchEventType, down, up, move, cancel,
}
use moonlight_scarlet.Sys.Control.{
  Core, Link, supports_touch, send_touch, send_mouse_position, send_mouse_button,
}
use moonlight_scarlet.Video.{fit_size}

pub data TouchPhase : Type 0 where
  phase_down phase_move phase_up phase_cancel : TouchPhase

pub record TouchChange : Type 0 where
  pub seat_id : ℕ
  pub id : ℕ
  pub phase : TouchPhase
  pub x : ℤ
  pub y : ℤ

pub record TouchSink (F W : Type 0) : Type 0 where
  pub supports_touch : W → Result InputError Bool × W
  pub touch : TouchEventType → ℕ → F → F → W → Result InputError (Unit {0}) × W
  pub position : F → F → W → Result InputError (Unit {0}) × W
  pub button : Bool → W → Result InputError (Unit {0}) × W

-- `impl TouchSink for ConnectionControl`
unfoldable pub control_sink :
    (f : Float32) {C : Type 0} → Core f.Carrier C → TouchSink f.Carrier (Link C)
control_sink f c = record {
  supports_touch = supports_touch f c;
  touch = send_touch f c;
  position = send_mouse_position f c;
  button = λ pressed. send_mouse_button f c left (if pressed then press else release);
}

pub record Contact (F : Type 0) : Type 0 where
  pub seat : ℕ
  pub local_id : ℕ
  pub remote_id : ℕ
  pub position : F × F

pub record TouchInput (F : Type 0) : Type 0 where
  pub native : Option Bool
  pub contacts : List (Contact F)

-- `TouchInput::default`
abbrev pub untouched : {F : Type 0} → TouchInput F
untouched = record { native = none; contacts = [] }

abbrev pub is_phase_down : TouchPhase → Bool
is_phase_down phase_down = true
is_phase_down phase_move = false
is_phase_down phase_up = false
is_phase_down phase_cancel = false

abbrev pub is_phase_up : TouchPhase → Bool
is_phase_up phase_up = true
is_phase_up phase_down = false
is_phase_up phase_move = false
is_phase_up phase_cancel = false

-- `matches!(change.phase, Up | Cancel)`
abbrev pub is_ending : TouchPhase → Bool
is_ending phase_up = true
is_ending phase_cancel = true
is_ending phase_down = false
is_ending phase_move = false

-- The event of a phase that is no press; the first clause is unreachable in `route`.
abbrev pub event_of : TouchPhase → TouchEventType
event_of phase_down = down
event_of phase_move = move
event_of phase_up = up
event_of phase_cancel = cancel

module _ (f : Float32) where
  open f use {Carrier}

  -- One coordinate, relative to the fitted picture.
  unfoldable pub relative : ℤ → ℕ → ℕ → Carrier
  relative x viewport w =
      f.div (f.sub (f.of_int x) (f.mul (f.of_nat (viewport - w)) f.half)) (f.of_nat w)

  unfoldable pub video_position : ℤ → ℤ → ℕ × ℕ → ℕ × ℕ → Bool → Option (Carrier × Carrier)
  video_position x y viewport video clamp =
      let (w, h) = fit_size video.0 video.1 viewport.0 viewport.1 in
      let x' = relative x viewport.0 w in
      let y' = relative y viewport.1 h in
      if w == 0 || h == 0
      then none
      else if not clamp && (not (in_unit f x') || not (in_unit f y'))
      then none
      else some (clamp_unit f x', clamp_unit f y')

module _ {F : Type 0} where
  -- The test of `position`, and that of `any`.
  abbrev pub is_contact : TouchChange → Contact F → Bool
  is_contact change c = c.seat == change.seat_id && c.local_id == change.id

  abbrev pub uses : ℕ → List (Contact F) → Bool
  uses id [] = false
  uses id (c ∷ cs) = c.remote_id == id || uses id cs

  -- `(id..id + n).find(..)`
  unfoldable pub find_free : ℕ → ℕ → List (Contact F) → Option ℕ
  find_free zero id cs = none
  find_free (suc n) id cs =
      let rest = find_free n (id + 1) cs in if uses id cs then rest else some id

  abbrev pub is_empty : List (Contact F) → Bool
  is_empty [] = true
  is_empty (c ∷ cs) = false

  -- `contacts.remove(index)` and `contacts[index].position = p`
  unfoldable pub remove_at : ℕ → List (Contact F) → List (Contact F)
  remove_at i [] = []
  remove_at zero (c ∷ cs) = cs
  remove_at (suc i) (c ∷ cs) = c ∷ remove_at i cs

  unfoldable pub move_at : ℕ → F × F → List (Contact F) → List (Contact F)
  move_at i p [] = []
  move_at zero p (c ∷ cs) = record c { position = p } ∷ cs
  move_at (suc i) p (c ∷ cs) = c ∷ move_at i p cs

  unfoldable pub contact_at : ℕ → List (Contact F) → Option (Contact F)
  contact_at i [] = none
  contact_at zero (c ∷ cs) = some c
  contact_at (suc i) (c ∷ cs) = contact_at i cs
