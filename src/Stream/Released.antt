-- ===== src/Stream/Released.antt =====
-- The core after `run` of moonlight/src/stream.rs.
use moonlight_scarlet.Prelude.{
  ◌≡◌, refl, ap, ◌∙◌, sym, Bool, true, false, not, Option, none, some, Result, ok, err, if-cases,
  arith,
}
use moonlight_scarlet.Prelude.Int.{ℤ}
use moonlight_scarlet.Session.Defs.{Text, StreamSession}
use moonlight_scarlet.Sys.Control.{is_zero}
use moonlight_scarlet.Audio.Callbacks.{AudioStatics, install_audio_renderer}
use moonlight_scarlet.Conn.Defs.{ConnectionError, HostStrings, VideoSetup, is_h264, Connection}
use moonlight_scarlet.Conn.Bridge.{Bridge, Process}
use moonlight_scarlet.Conn.Start.{
  Checked, start_with_audio, start_checked, after_start, check_arguments, video_setup, stop,
}
use moonlight_scarlet.Stream.Defs.{StreamError, Worker, streaming, connecting, progress}
use moonlight_scarlet.Stream.Run.{
  Ran, Consumer, host_of, stream_of, finish_run, run_connected, run_started, run,
}

module _ {R B : Type 0} (bridge : Bridge R B) where
  -- A start that fails leaves the flag free; one that succeeds hands out a connection that is not
  -- stopped.
  abbrev Fresh : Result ConnectionError Connection × Process R B → Type 0
  Fresh (err e, p) = p.connection_active ≡ false
  Fresh (ok c, p) = c.stopped ≡ false

  after_start-Fresh :
      (strings : HostStrings) (p : Process R B) (r : ℤ × (AudioStatics R × B))
      → Fresh (after_start bridge strings p r)
  unfolding after_start
  after_start-Fresh strings p (code, (statics, core)) =
      if-cases (λ (r : Result ConnectionError Connection × Process R B). Fresh r)
        (not (is_zero code)) (λ _. refl) (λ _. refl)

  start-Fresh :
      (renderer : Option R) (c : Result ConnectionError Checked) (p : Process R B)
      → p.connection_active ≡ false
      → Fresh (start_checked bridge renderer c p)
  unfolding start_checked
  start-Fresh renderer (err e) p free = free
  start-Fresh renderer (ok c) p free =
      if-cases (λ (r : Result ConnectionError Connection × Process R B). Fresh r)
        p.connection_active (λ _. free)
        (λ _.
          after_start-Fresh c.strings (record p { connection_active = true })
            (bridge.start_connection c.strings c.codec_support c.stream
              (install_audio_renderer renderer p.audio, p.core)))

module _ {R B V E : Type 0} (bridge : Bridge R B) (host_name : E → Text) (s : StreamSession E)
    (consume : Consumer R B V) where
  abbrev Free : Ran R B V → Type 0
  Free o =
      (r : Result StreamError (Unit {0})) (w : Worker R B V)
      → o ≡ some (r, w)
      → w.process.connection_active ≡ false

  at_end :
      (x : Result StreamError (Unit {0})) (v : Worker R B V)
      → v.process.connection_active ≡ false
      → Free (some (x, v))
  at_end x v free r w e = ap flag (sym e) ∙ free
    where
      flag : Ran R B V → Bool
      flag none = false
      flag (some (x, v)) = v.process.connection_active

  stopped_free :
      (c : Connection) (p : Process R B)
      → c.stopped ≡ false
      → (stop bridge c p).1.connection_active ≡ false
  unfolding stop
  stopped_free c p live = rw live refl

  finish-Free :
      (c : Connection) (o : Ran R B V) → c.stopped ≡ false → Free (finish_run bridge host_name c o)
  unfolding finish_run
  finish-Free c none live = λ r w e. absurd (ground (arith, e))
  finish-Free c (some (x, v)) live = at_end _ _ (stopped_free c v.process live)

  connected-Free :
      (c : Connection) (setup : Option VideoSetup) (w : Worker R B V)
      → c.stopped ≡ false
      → Free (run_connected bridge host_name s consume c setup w)
  unfolding run_connected
  connected-Free c none w live = at_end _ _ (stopped_free c w.process live)
  connected-Free c (some setup) w live =
      if-cases (λ (o : Ran R B V). Free o) (not (is_h264 setup))
        (λ _. at_end _ _ (stopped_free c w.process live))
        (λ _.
          finish-Free c
            (consume c setup
              (progress (streaming setup.width setup.height setup.fps s.config.bitrate_kbps) w))
            live)

  started-Free :
      (started : Result ConnectionError Connection × Process R B) (w : Worker R B V)
      → Fresh bridge started
      → Free (run_started bridge host_name s consume started w)
  unfolding run_started
  started-Free (err e, p) w free = at_end _ _ free
  started-Free (ok c, p) w live =
      connected-Free c (video_setup bridge p) (record w { process = p }) live

  -- A run that begins while no connection is active and ends leaves no connection active, whether it
  -- fails to start, has no usable video, fails on a frame or is stopped.
  pub run_released :
      (renderer : Option R) (w : Worker R B V) (r : Result StreamError (Unit {0}))
      (w' : Worker R B V)
      → w.process.connection_active ≡ false
      → run bridge host_name s renderer consume w ≡ some (r, w')
      → w'.process.connection_active ≡ false
  unfolding run start_with_audio
  run_released renderer w r w' free e =
      started-Free (start_with_audio bridge (host_of host_name s) (stream_of s) renderer w.process)
        (progress (connecting s.application.title) w)
        (start-Fresh bridge renderer (check_arguments (host_of host_name s) (stream_of s)) w.process
          free)
        r w' e
