-- ===== src/Stream/Receive.antt =====
-- The loop that both variants of `consume_video` of moonlight/src/stream.rs are: it asks for a stop,
-- pulls a frame and handles it. A schedule tells, for each turn, whether another thread has requested
-- the stop before the loop looks.
use moonlight_scarlet.Prelude.{
  Bool, true, false, Option, none, some, List, [], ◌∷◌, if◌then◌else◌, Result, ok, err,
}
use moonlight_scarlet.Conn.Defs.{VideoFrame, Connection}
use moonlight_scarlet.Conn.Bridge.{Bridge, state_of}
use moonlight_scarlet.Conn.Start.{request_stop}
use moonlight_scarlet.Conn.Frames.{Waited, wait_for_video_frame}
use moonlight_scarlet.Stream.Defs.{StreamError, connection_failed, Worker}

-- How a turn of the loop ends.
pub data Turn : Type 0 where
  finished : Result StreamError (Unit {0}) → Turn
  again : Turn

-- What a variant does with a frame.
abbrev pub Handler : (R B V : Type 0) → Type 0
Handler R B V = VideoFrame → Worker R B V → Turn × Worker R B V

abbrev pub Outcome : (R B V : Type 0) → Type 0
Outcome R B V = Result StreamError (Unit {0}) × Worker R B V

module _ {R B V : Type 0} (bridge : Bridge R B) (c : Connection) where
  unfoldable pub after_pull : Handler R B V → Waited bridge → Worker R B V → Turn × Worker R B V
  after_pull handle (err e, p) w = (finished (err (connection_failed e)), record w { process = p })
  after_pull handle (ok none, p) w = (finished (ok tt), record w { process = p })
  after_pull handle (ok (some f), p) w = handle f (record w { process = p })

  abbrev pub requested : Bool → Worker R B V → Worker R B V
  requested true w = record w { process = request_stop bridge c.state w.process }
  requested false w = w

  unfoldable pub turn :
      (Worker R B V → Worker R B V) → Handler R B V → Bool → Worker R B V → Turn × Worker R B V
  unfolding after_pull
  turn before handle r w =
      if (state_of (requested r w).process c.state).stop_requested
      then (finished (ok tt), requested r w)
      else after_pull handle (wait_for_video_frame bridge c (before (requested r w)).process)
          (before (requested r w))

  abbrev pub proceed :
      (Worker R B V → Option (Outcome R B V)) → Turn × Worker R B V → Option (Outcome R B V)
  proceed k (finished r, w) = some (r, w)
  proceed k (again, w) = k w

  -- The schedule is over before the loop is: none.
  unfoldable pub receive_loop :
      (Worker R B V → Worker R B V)
      → Handler R B V
      → List Bool
      → Worker R B V
      → Option (Outcome R B V)
  unfolding turn
  receive_loop before handle [] w = none
  receive_loop before handle (r ∷ rs) w =
      proceed (receive_loop before handle rs) (turn before handle r w)
