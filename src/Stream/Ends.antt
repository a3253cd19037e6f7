-- ===== src/Stream/Ends.antt =====
-- The end of the loop of `consume_video`, moonlight/src/stream.rs.
use moonlight_scarlet.Prelude.{
  ℕ, ◌<◌, ◌≡◌, refl, ap, subst, ◌∙◌, sym, Bool, true, false, Option, none, some, List, [], ◌∷◌,
  Result, ok, err, if-cases, length, get_or-set_self, arith,
}
use moonlight_scarlet.Session.Defs.{Text}
use moonlight_scarlet.Conn.Defs.{VideoFrame, VideoSetup, Connection}
use moonlight_scarlet.Conn.Bridge.{Bridge, Process, state_of, gone}
use moonlight_scarlet.Conn.Start.{request_stop}
use moonlight_scarlet.Conn.Frames.{Waited, wait_for_video_frame, complete_frame, give_back}
use moonlight_scarlet.Conn.Owned.{shared}
use moonlight_scarlet.Conn.Waiting.{waited_shared}
use moonlight_scarlet.Stream.Defs.{Worker}
use moonlight_scarlet.Stream.Diagnostics.{receive}
use moonlight_scarlet.Stream.Receive.{
  Turn, finished, again, Handler, Outcome, requested, proceed, turn, after_pull, receive_loop,
}
use moonlight_scarlet.Stream.Handled.{
  IsReturned, count_or_check-IsReturned, decode_frame-IsReturned,
}
use moonlight_scarlet.Stream.Preview.{count_or_check, consume_video}
use moonlight_scarlet.Stream.Decode.{
  Platform, Scarlet, VideoWorker, Consumed, max_coded_access_unit, enter_stage, decode_frame,
  monitored, configured, opened, sized, consume_decoded,
}

abbrev pub has_request : List Bool → Bool
has_request [] = false
has_request (true ∷ rs) = true
has_request (false ∷ rs) = has_request rs

module _ {R B V : Type 0} where
  -- The worker has the flag, the wake registration and the states of another.
  abbrev pub Steady : Worker R B V → Worker R B V → Type 0
  Steady w w' = shared w'.process ≡ shared w.process

module _ {R B V : Type 0} (bridge : Bridge R B) (c : Connection)
    (before : Worker R B V → Worker R B V) (handle : Handler R B V)
    (before-Steady : (w : Worker R B V) → Steady w (before w))
    (handle-Steady : (f : VideoFrame) (w : Worker R B V) → Steady w (handle f w).1) where
  after_pull-Steady :
      (r : Waited bridge) (w : Worker R B V)
      → shared (after_pull bridge c handle r w).1.process ≡ shared r.1
  unfolding after_pull
  after_pull-Steady (err e, p) w = refl
  after_pull-Steady (ok none, p) w = refl
  after_pull-Steady (ok (some f), p) w = handle-Steady f (record w { process = p })

  quiet_turn-Steady : (w : Worker R B V) → Steady w (turn bridge c before handle false w).1
  unfolding turn
  quiet_turn-Steady w =
      if-cases (λ (t : Turn × Worker R B V). Steady w t.1)
        (state_of w.process c.state).stop_requested (λ h. refl)
        (λ h.
          after_pull-Steady (wait_for_video_frame bridge c (before w).process) (before w)
          ∙ waited_shared bridge c (before w).process
          ∙ before-Steady w)

  requested_stop :
      (w : Worker R B V)
      → c.state < length w.process.states
      → (state_of (requested bridge c true w).process c.state).stop_requested ≡ true
  unfolding request_stop
  requested_stop w inside =
      if-cases (λ (p : Process R B). (state_of p c.state).stop_requested ≡ true)
        (state_of w.process c.state).active
        (λ h.
          ap (λ s. s.stop_requested)
            (get_or-set_self w.process.states c.state
              (record (state_of w.process c.state) { stop_requested = true }) gone inside))
        (λ h.
          ap (λ s. s.stop_requested)
            (get_or-set_self w.process.states c.state
              (record (state_of w.process c.state) { stop_requested = true }) gone inside))

  requested-turn :
      (w : Worker R B V)
      → c.state < length w.process.states
      → turn bridge c before handle true w ≡ (finished (ok tt), requested bridge c true w)
  unfolding turn
  requested-turn w inside = rw (requested_stop w inside) refl

  -- A loop that is asked to stop ends.
  pub loop_ends :
      (schedule : List Bool) (w : Worker R B V)
      → c.state < length w.process.states
      → has_request schedule ≡ true
      → (o : Outcome R B V) × (receive_loop bridge c before handle schedule w ≡ some o)
  unfolding receive_loop
  loop_ends [] w inside asked = absurd (ground (arith, asked))
  loop_ends (true ∷ rs) w inside asked =
      ((ok tt, requested bridge c true w), rw (requested-turn w inside) refl)
  loop_ends (false ∷ rs) w inside asked =
      go (turn bridge c before handle false w) (quiet_turn-Steady w)
        (λ w' i. loop_ends rs w' i asked)
    where
      go :
          (t : Turn × Worker R B V)
          → Steady w t.1
          → ((w' : Worker R B V)
              → c.state < length w'.process.states
              → (o : Outcome R B V) × (receive_loop bridge c before handle rs w' ≡ some o))
          → (o : Outcome R B V) × (proceed bridge c (receive_loop bridge c before handle rs) t
              ≡ some o)
      go (finished r, w') h rest = ((r, w'), refl)
      go (again, w') h rest =
          rest w' (subst (λ n. c.state < n) (ap (λ s. length s.states) (sym h)) inside)

returned-Steady :
    {R B V : Type 0} (bridge : Bridge R B) (f : VideoFrame) (w w' : Worker R B V)
    → IsReturned bridge f w w'
    → Steady w w'
unfolding complete_frame give_back
returned-Steady bridge f w w' (status, e) = ap shared e

-- Once a stop is requested before some turn, the loop on a host that is not Scarlet ends with a
-- result.
pub consume_video_ends :
    {R B : Type 0} (bridge : Bridge R B) (c : Connection) (schedule : List Bool)
    (w : Worker R B (Unit {0}))
    → c.state < length w.process.states
    → has_request schedule ≡ true
    → (o : Outcome R B (Unit {0})) × (consume_video bridge c schedule w ≡ some o)
unfolding consume_video
consume_video_ends bridge c schedule w inside asked =
    loop_ends bridge c (λ v. v) (count_or_check bridge c) (λ v. refl)
      (λ f v.
        returned-Steady bridge f v (count_or_check bridge c f v).1
          (count_or_check-IsReturned bridge c f v))
      schedule (record w { frame_count = 0; audio_error_reported = false }) inside asked

module _ {R B V : Type 0} (bridge : Bridge R B) (platform : Platform V) (c : Connection)
    (schedule : List Bool) where
  abbrev Ends : Consumed R B V → Type 0
  Ends r = (o : Outcome R B (Scarlet V)) × (r ≡ some o)

  -- Once a stop is requested before some turn, the consumption of the video on Scarlet ends with a
  -- result, whether the decoder can be opened or not.
  pub consume_decoded_ends :
      (setup : VideoSetup) (w : VideoWorker R B V)
      → c.state < length w.process.states
      → has_request schedule ≡ true
      → (o : Outcome R B (Scarlet V)) × (consume_decoded bridge platform c setup schedule w
          ≡ some o)
  unfolding consume_decoded enter_stage
  consume_decoded_ends setup w inside asked =
      sized_ends (platform.input_buffer_len max_coded_access_unit)
        (platform.output_buffer_len setup.width setup.height)
    where
      monitored_ends :
          (r : Result Text (Unit {0}) × V) (v : VideoWorker R B V)
          → Steady w v
          → Ends (monitored bridge platform c schedule r v)
      monitored_ends (err e, s) v h = (_, refl)
      monitored_ends (ok u, s) v h =
          loop_ends bridge c (enter_stage bridge platform c receive)
            (decode_frame bridge platform c) (λ x. refl)
            (λ f x.
              returned-Steady bridge f x (decode_frame bridge platform c f x).1
                (decode_frame-IsReturned bridge platform c f x))
            schedule _ (subst (λ n. c.state < n) (ap (λ s. length s.states) (sym h)) inside) asked

      configured_ends :
          (r : Result Text (Unit {0}) × V) (v : VideoWorker R B V)
          → Steady w v
          → Ends (configured bridge platform c schedule r v)
      configured_ends (err e, s) v h = (_, refl)
      configured_ends (ok u, s) v h = monitored_ends (platform.start_monitor s) _ h

      opened_ends : (r : Result Text (Unit {0}) × V) → Ends (opened bridge platform c schedule r w)
      opened_ends (err e, s) = (_, refl)
      opened_ends (ok u, s) = configured_ends (platform.configure s) _ refl

      sized_ends : (i o : Option ℕ) → Ends (sized bridge platform c schedule i o w)
      sized_ends none o = (_, refl)
      sized_ends (some i) none = (_, refl)
      sized_ends (some i) (some o) = opened_ends (platform.open_decoder i o w.platform.video)
