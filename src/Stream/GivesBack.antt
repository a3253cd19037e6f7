-- ===== src/Stream/GivesBack.antt =====
-- The frames that the core has lent, over the loop of `consume_video`, moonlight/src/stream.rs.
use moonlight_scarlet.Prelude.{
  ℕ, ◌<◌, ◌≡◌, refl, ap, ◌∙◌, sym, Bool, true, false, not, ◌||◌, Option, none, some, List, [], ◌∷◌,
  Result, ok, err, if-cases, if◌then◌else◌, ◌==◌, ltb, is_some, length, arith,
}
use moonlight_scarlet.Prelude.Int.{ℤ, pos, negsuc}
use moonlight_scarlet.Audio.Callbacks.{AudioStatics}
use moonlight_scarlet.Conn.Defs.{VideoFrame, VideoSetup, Connection}
use moonlight_scarlet.Conn.Bridge.{Bridge, Pulled, Process, state_of}
use moonlight_scarlet.Conn.Start.{request_stop, termination_error}
use moonlight_scarlet.Conn.Frames.{
  Waited, max_access_unit_length, wait_for_video_frame, after_wait, check_pointers, check_length,
  complete_frame, give_back,
}
use moonlight_scarlet.Stream.Defs.{StreamError, Worker}
use moonlight_scarlet.Stream.Diagnostics.{receive}
use moonlight_scarlet.Stream.Receive.{
  Turn, finished, again, Handler, Outcome, requested, proceed, turn, after_pull, receive_loop,
}
use moonlight_scarlet.Stream.Preview.{count_or_check, consume_video}
use moonlight_scarlet.Session.Defs.{Text}
use moonlight_scarlet.Stream.Decode.{
  Platform, Scarlet, VideoWorker, Consumed, max_coded_access_unit, enter_stage, decode_frame,
  monitored, configured, opened, sized, consume_decoded,
}
use moonlight_scarlet.Stream.Handled.{
  IsReturned, count_or_check-IsReturned, decode_frame-IsReturned,
}
use moonlight_scarlet.Stream.Ends.{has_request, consume_video_ends}

-- The frames out after a pull.
abbrev pub lent : Bool → Option ℕ → List ℕ → List ℕ
lent true (some h) out = h ∷ out
lent true none out = out
lent false h out = out

-- What the bridge says of the frames that are out: a pull adds one, the completion of the last one
-- takes it off, and a wake leaves them.
pub record Lending {R B : Type 0} (bridge : Bridge R B) : Type 0 where
  pub out : B → List ℕ
  pub pulling :
      (a : AudioStatics R) (b : B)
      → out (bridge.wait_video_frame (a, b)).1.1
        ≡ lent
            (bridge.wait_video_frame (a, b)).0.available
            (bridge.wait_video_frame (a, b)).0.frame_handle
            (out b)
  pub completing :
      (h : ℕ) (status : ℤ) (b : B) (rest : List ℕ)
      → out b ≡ h ∷ rest
      → out (bridge.complete_video_frame h status b) ≡ rest
  pub waking : (b : B) → out (bridge.wake_video_frame b) ≡ out b

module _ {R B : Type 0} (bridge : Bridge R B) (lending : Lending bridge) (c : Connection) where
  -- Of a pull that ended: only a frame that is passed on is out.
  abbrev Passed : List ℕ → Waited bridge → Type 0
  Passed out (err e, p) = lending.out p.core ≡ out
  Passed out (ok none, p) = lending.out p.core ≡ out
  Passed out (ok (some f), p) = lending.out p.core ≡ f.frame_handle ∷ out

  length-Passed :
      (out : List ℕ) (handle unit : ℕ) (z : ℤ) (p : Process R B)
      → lending.out p.core ≡ handle ∷ out
      → Passed out (check_length bridge handle unit z p)
  unfolding check_length give_back
  length-Passed out handle unit (negsuc n) p h = lending.completing handle _ p.core out h
  length-Passed out handle unit (pos n) p h =
      if-cases (λ (r : Waited bridge). Passed out r) (n == 0 || ltb max_access_unit_length n)
        (λ _. lending.completing handle _ p.core out h) (λ _. h)

  pointers-Passed :
      (out : List ℕ) (h u : Option ℕ) (p : Process R B)
      → lending.out p.core ≡ lent true h out
      → Passed out (check_pointers bridge h u p)
  unfolding check_pointers give_back
  pointers-Passed out none u p e = e
  pointers-Passed out (some h) none p e = lending.completing h _ p.core out e
  pointers-Passed out (some h) (some u) p e =
      length-Passed out h u (bridge.full_length u p.core) p e

  after_wait-Passed :
      (out : List ℕ) (w : Pulled × (AudioStatics R × B)) (p : Process R B)
      → lending.out w.1.1 ≡ lent w.0.available w.0.frame_handle out
      → Passed out (after_wait bridge w p)
  unfolding after_wait
  after_wait-Passed out (w, (a, core)) p e = go w.available (record p { audio = a; core = core }) e
    where
      go :
          (b : Bool) (q : Process R B)
          → lending.out q.core ≡ lent b w.frame_handle out
          → Passed out
              (if not b then (ok none, q) else check_pointers bridge w.frame_handle w.decode_unit q)
      go true q e = pointers-Passed out w.frame_handle w.decode_unit q e
      go false q e = e

  wait-Passed : (p : Process R B) → Passed (lending.out p.core) (wait_for_video_frame bridge c p)
  unfolding wait_for_video_frame
  wait-Passed p =
      if-cases (λ (r : Waited bridge). Passed (lending.out p.core) r)
        (c.stopped || (state_of p c.state).stop_requested || is_some (termination_error bridge p))
        (λ _. refl)
        (λ _.
          after_wait-Passed (lending.out p.core) (bridge.wait_video_frame (p.audio, p.core)) p
            (lending.pulling p.audio p.core))

module _ {R B V : Type 0} (bridge : Bridge R B) (lending : Lending bridge) (c : Connection) where
  abbrev Level : Worker R B V → Worker R B V → Type 0
  Level w w' = lending.out w'.process.core ≡ lending.out w.process.core

  requested-Level : (r : Bool) (w : Worker R B V) → Level w (requested bridge c r w)
  unfolding request_stop
  requested-Level false w = refl
  requested-Level true w =
      if-cases (λ (p : Process R B). lending.out p.core ≡ lending.out w.process.core)
        (state_of w.process c.state).active (λ _. lending.waking w.process.core) (λ _. refl)

  module _ (before : Worker R B V → Worker R B V) (handle : Handler R B V)
      (before_process : (w : Worker R B V) → (before w).process ≡ w.process)
      (handle-IsReturned : (f : VideoFrame) (w : Worker R B V)
        → IsReturned bridge f w (handle f w).1) where
    after_pull-Level :
        (out : List ℕ) (r : Waited bridge) (w : Worker R B V)
        → Passed bridge lending c out r
        → lending.out (after_pull bridge c handle r w).1.process.core ≡ out
    unfolding after_pull complete_frame give_back
    after_pull-Level out (err e, p) w h = h
    after_pull-Level out (ok none, p) w h = h
    after_pull-Level out (ok (some f), p) w h =
        let (status, e) = handle-IsReturned f (record w { process = p }) in
        ap (λ q. lending.out q.core) e ∙ lending.completing f.frame_handle _ p.core out h

    turn-Level : (r : Bool) (w : Worker R B V) → Level w (turn bridge c before handle r w).1
    unfolding turn
    turn-Level r w =
        if-cases (λ (t : Turn × Worker R B V). Level w t.1)
          (state_of (requested bridge c r w).process c.state).stop_requested
          (λ _. requested-Level r w)
          (λ _.
            after_pull-Level (lending.out (before (requested bridge c r w)).process.core)
              (wait_for_video_frame bridge c (before (requested bridge c r w)).process)
              (before (requested bridge c r w))
              (wait-Passed bridge lending c (before (requested bridge c r w)).process)
            ∙ ap (λ q. lending.out q.core) (before_process (requested bridge c r w))
            ∙ requested-Level r w)

    -- A loop that ends leaves no frame out that it pulled.
    pub loop-Level :
        (schedule : List Bool) (w w' : Worker R B V) (r : Result StreamError (Unit {0}))
        → receive_loop bridge c before handle schedule w ≡ some (r, w')
        → Level w w'
    unfolding receive_loop
    loop-Level [] w w' r e = absurd (ground (arith, e))
    loop-Level (q ∷ qs) w w' r e =
        go (turn bridge c before handle q w) (turn-Level q w) (λ v. loop-Level qs v w' r) e
      where
        worker_of : Option (Outcome R B V) → Worker R B V
        worker_of none = w
        worker_of (some (x, v)) = v

        go :
            (t : Turn × Worker R B V)
            → Level w t.1
            → ((v : Worker R B V)
                → receive_loop bridge c before handle qs v ≡ some (r, w')
                → Level v w')
            → proceed bridge c (receive_loop bridge c before handle qs) t ≡ some (r, w')
            → Level w w'
        go (finished r', v) h rest e = ap (λ o. lending.out (worker_of o).process.core) (sym e) ∙ h
        go (again, v) h rest e = rest v e ∙ h

-- A consumption of the video on a host that is not Scarlet that was asked to stop ends, and leaves no
-- frame out that it pulled.
pub consume_video_gives_back :
    {R B : Type 0} (bridge : Bridge R B) (lending : Lending bridge) (c : Connection)
    (schedule : List Bool) (w : Worker R B (Unit {0}))
    → c.state < length w.process.states
    → has_request schedule ≡ true
    → (r : Result StreamError (Unit {0})) × (w' : Worker R B (Unit {0})) × (consume_video bridge c
          schedule w
        ≡ some (r, w'))
      × (lending.out w'.process.core ≡ lending.out w.process.core)
unfolding consume_video
consume_video_gives_back bridge lending c schedule w inside asked =
    let ((r, w'), e) = consume_video_ends bridge c schedule w inside asked in
    (
      r,
      w',
      e,
      loop-Level bridge lending c (λ v. v) (count_or_check bridge c) (λ v. refl)
          (count_or_check-IsReturned bridge c) schedule
          (record w { frame_count = 0; audio_error_reported = false }) w' r e,
    )

module _ {R B V : Type 0} (bridge : Bridge R B) (lending : Lending bridge) (platform : Platform V)
    (c : Connection) (schedule : List Bool) where
  abbrev Gave : Worker R B (Scarlet V) → Consumed R B V → Type 0
  Gave w o =
      (r : Result StreamError (Unit {0})) (w' : Worker R B (Scarlet V))
      → o ≡ some (r, w')
      → lending.out w'.process.core ≡ lending.out w.process.core

  -- A consumption of the video on Scarlet that ends leaves no frame out that it pulled, whatever the
  -- decoder and the video output answer.
  pub consume_decoded_gives_back :
      (setup : VideoSetup) (w : VideoWorker R B V) (r : Result StreamError (Unit {0}))
      (w' : VideoWorker R B V)
      → consume_decoded bridge platform c setup schedule w ≡ some (r, w')
      → lending.out w'.process.core ≡ lending.out w.process.core
  unfolding consume_decoded enter_stage
  consume_decoded_gives_back setup w =
      sized_Gave (platform.input_buffer_len max_coded_access_unit)
        (platform.output_buffer_len setup.width setup.height)
    where
      core_of : Worker R B (Scarlet V) → Consumed R B V → List ℕ
      core_of w none = lending.out w.process.core
      core_of w (some (x, v)) = lending.out v.process.core

      at_once :
          (v : VideoWorker R B V) (x : Result StreamError (Unit {0}))
          → v.process ≡ w.process
          → Gave w (some (x, v))
      at_once v x h r w' e = ap (core_of w) (sym e) ∙ ap (λ p. lending.out p.core) h

      monitored_Gave :
          (r : Result Text (Unit {0}) × V) (v : VideoWorker R B V)
          → v.process ≡ w.process
          → Gave w (monitored bridge platform c schedule r v)
      monitored_Gave (err e, s) v h = at_once _ _ h
      monitored_Gave (ok u, s) v h = λ r w' e.
          loop-Level bridge lending c (enter_stage bridge platform c receive)
            (decode_frame bridge platform c) (λ x. refl) (decode_frame-IsReturned bridge platform c)
            schedule _ w' r e
          ∙ ap (λ p. lending.out p.core) h

      configured_Gave :
          (r : Result Text (Unit {0}) × V) (v : VideoWorker R B V)
          → v.process ≡ w.process
          → Gave w (configured bridge platform c schedule r v)
      configured_Gave (err e, s) v h = at_once _ _ h
      configured_Gave (ok u, s) v h = monitored_Gave (platform.start_monitor s) _ h

      opened_Gave :
          (r : Result Text (Unit {0}) × V) → Gave w (opened bridge platform c schedule r w)
      opened_Gave (err e, s) = at_once _ _ refl
      opened_Gave (ok u, s) = configured_Gave (platform.configure s) _ refl

      sized_Gave : (i o : Option ℕ) → Gave w (sized bridge platform c schedule i o w)
      sized_Gave none o = at_once _ _ refl
      sized_Gave (some i) none = at_once _ _ refl
      sized_Gave (some i) (some o) = opened_Gave (platform.open_decoder i o w.platform.video)
