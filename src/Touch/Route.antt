-- ===== src/Touch/Route.antt =====
-- `TouchInput::route` and `TouchInput::release_to` of moonlight/src/touch.rs. The state of the router
-- and the world of the sink are passed along, also where `?` returns early.
use moonlight_scarlet.Prelude.{
  ℕ, Bool, true, false, not, ◌&&◌, Option, none, some, [], ◌∷◌, ◌++◌, if◌then◌else◌, Result, ok,
  err,
}
use moonlight_scarlet.Sys.Floats.{Float32}
use moonlight_scarlet.Sys.Types.{InputError, down, cancel_all}
use moonlight_scarlet.Sys.Control.{Core, Link}
use moonlight_scarlet.Gamepad.Defs.{position}
use moonlight_scarlet.Touch.Defs.{
  TouchChange, TouchSink, control_sink, Contact, TouchInput, is_phase_down, is_phase_up, is_ending,
  event_of, video_position, is_contact, find_free, is_empty, remove_at, move_at, contact_at,
}

module _ {F W : Type 0} (sink : TouchSink F W) where
  -- What a handler leaves: its result, the router and the world.
  abbrev pub Outcome : Type 0 → Type 0
  Outcome A = Result InputError A × (TouchInput F × W)

  -- `self.native = Some(value)` after the question, unless it failed.
  unfoldable pub learn : TouchInput F → Result InputError Bool × W → Outcome Bool
  learn s (ok value, w) = (ok value, (record s { native = some value }, w))
  learn s (err e, w) = (err e, (s, w))

  -- `let native = match self.native`, on that field's value.
  unfoldable pub ask_native : Option Bool → TouchInput F → W → Outcome Bool
  ask_native (some value) s w = (ok value, (s, w))
  ask_native none s w = learn s (sink.supports_touch w)

  unfoldable pub button_after : Result InputError (Unit {0}) × W → Result InputError (Unit {0}) × W
  button_after (ok u, w) = sink.button true w
  button_after (err e, w) = (err e, w)

  -- The calls of a new contact.
  unfoldable pub announce : Bool → ℕ → F × F → W → Result InputError (Unit {0}) × W
  announce native id p w =
      if native then sink.touch down id p.0 p.1 w else button_after (sink.position p.0 p.1 w)

  -- `self.contacts.push(..)`, unless a call failed.
  unfoldable pub push_contact :
      TouchChange → ℕ → F × F → TouchInput F → Result InputError (Unit {0}) × W → Outcome Bool
  push_contact change id p s (ok u, w) = (
    ok true,
    (
      record s {
        contacts =
            s.contacts
            ++ (record { seat = change.seat_id; local_id = change.id; remote_id = id; position = p }
                ∷ []);
      },
      w,
    ),
  )
  push_contact change id p s (err e, w) = (err e, (s, w))

  -- The calls and the push, once an id is found.
  unfoldable pub begin_with :
      TouchChange → F × F → Bool → Option ℕ → TouchInput F → W → Outcome Bool
  begin_with change p native none s w = (ok false, (s, w))
  begin_with change p native (some id) s w = push_contact change id p s (announce native id p w)

  -- A press on the video once the input method is known.
  unfoldable pub begin : TouchChange → F × F → Outcome Bool → Outcome Bool
  begin change p (err e, (s, w)) = (err e, (s, w))
  begin change p (ok native, (s, w)) =
      if not native && not (is_empty s.contacts)
      then (ok false, (s, w))
      else begin_with change p native (find_free 10 0 s.contacts) s w

  -- The branch `change.phase == TouchPhase::Down`.
  unfoldable pub press_down :
      TouchChange → Option ℕ → Option (F × F) → TouchInput F → W → Outcome Bool
  press_down change (some i) point s w = (ok true, (s, w))
  press_down change none none s w = (ok false, (s, w))
  press_down change none (some p) s w = begin change p (ask_native s.native s w)

  -- `position.and(release)`, the release being called in either case.
  unfoldable pub and_release : Result InputError (Unit {0}) × W → Result InputError (Unit {0}) × W
  and_release (ok u, w) = sink.button false w
  and_release (err e, w) = (err e, (sink.button false w).1)

  -- The calls of a contact that is already known.
  unfoldable pub forward :
      TouchChange → Option Bool → Contact F → F × F → W → Result InputError (Unit {0}) × W
  forward change (some true) c p w = sink.touch (event_of change.phase) c.remote_id p.0 p.1 w
  forward change (some false) c p w =
      if is_ending change.phase
      then and_release (if is_phase_up change.phase then sink.position p.0 p.1 w else (ok tt, w))
      else sink.position p.0 p.1 w
  forward change none c p w =
      if is_ending change.phase
      then and_release (if is_phase_up change.phase then sink.position p.0 p.1 w else (ok tt, w))
      else sink.position p.0 p.1 w

  -- The contact is dropped or moved, and the result handed on.
  unfoldable pub settle :
      Bool → ℕ → F × F → TouchInput F → Result InputError (Unit {0}) × W → Outcome Bool
  settle ending i p s (ok u, w) = (
    ok true,
    (record s { contacts = if ending then remove_at i s.contacts else move_at i p s.contacts }, w),
  )
  settle ending i p s (err e, w) = (err e, (record s { contacts = move_at i p s.contacts }, w))

  abbrev pub or_last : Option (F × F) → Contact F → F × F
  or_last none c = c.position
  or_last (some p) c = p

  -- The rest of `route`, on a contact that was found at `i`.
  unfoldable pub continue_at :
      TouchChange → ℕ → Contact F → Option (F × F) → TouchInput F → W → Outcome Bool
  continue_at change i c point s w =
      settle (is_ending change.phase) i (or_last point c) s
        (forward change s.native c (or_last point c) w)

  -- On the contact at `i`; an index out of bounds, which `position` never returns, changes nothing.
  unfoldable pub continue_with :
      TouchChange → ℕ → Option (Contact F) → Option (F × F) → TouchInput F → W → Outcome Bool
  continue_with change i none point s w = (ok false, (s, w))
  continue_with change i (some c) point s w = continue_at change i c point s w

  unfoldable pub continue :
      TouchChange → Option ℕ → Option (F × F) → TouchInput F → W → Outcome Bool
  continue change none point s w = (ok false, (s, w))
  continue change (some i) point s w = continue_with change i (contact_at i s.contacts) point s w

  -- `route`, given the point on the video.
  unfoldable pub route_at : TouchChange → Option (F × F) → TouchInput F → W → Outcome Bool
  route_at change point s w =
      let existing = position (is_contact change) s.contacts in
      if is_phase_down change.phase
      then press_down change existing point s w
      else continue change existing point s w

  -- The call that gives everything up; `CancelAll` carries the coordinates `zero`.
  unfoldable pub let_go : F → Option Bool → W → Result InputError (Unit {0}) × W
  let_go zero (some true) w = sink.touch cancel_all 0 zero zero w
  let_go zero (some false) w = sink.button false w
  let_go zero none w = sink.button false w

  unfoldable pub forgotten : Result InputError (Unit {0}) × W → Outcome (Unit {0})
  forgotten (result, w) = (result, (record { native = none; contacts = [] }, w))

  unfoldable pub release_to : F → TouchInput F → W → Outcome (Unit {0})
  release_to zero s w =
      if is_empty s.contacts then (ok tt, (s, w)) else forgotten (let_go zero s.native w)

module _ (f : Float32) where
  open f use {Carrier}

  unfoldable pub route :
      {W : Type 0}
      → TouchSink Carrier W
      → TouchChange
      → ℕ × ℕ
      → ℕ × ℕ
      → TouchInput Carrier
      → W
      → Result InputError Bool × (TouchInput Carrier × W)
  route sink change viewport video =
      route_at sink change
        (video_position f change.x change.y viewport video (not (is_phase_down change.phase)))

  -- The entry points of the surface.
  unfoldable pub handle :
      {C : Type 0}
      → Core Carrier C
      → TouchChange
      → ℕ × ℕ
      → ℕ × ℕ
      → TouchInput Carrier
      → Link C
      → Result InputError Bool × (TouchInput Carrier × Link C)
  handle c = route (control_sink f c)

  unfoldable pub release :
      {C : Type 0}
      → Core Carrier C
      → TouchInput Carrier
      → Link C
      → Result InputError (Unit {0}) × (TouchInput Carrier × Link C)
  release c = release_to (control_sink f c) f.zero
