-- ===== src/Stream/Run.antt =====
-- `run` of moonlight/src/stream.rs, over either variant of `consume_video`. The value that `started`
-- is given is the control of the new connection; what it does is left out.
use moonlight_scarlet.Prelude.{zero, suc, not, Option, none, some, if◌then◌else◌, Result, ok, err}
use moonlight_scarlet.Prelude.Int.{ℤ, pos, negsuc}
use moonlight_scarlet.Session.Defs.{Text, StreamSession}
use moonlight_scarlet.Sys.Stream.{StreamConfiguration, new_configuration, with_bitrate_kbps}
use moonlight_scarlet.Conn.Defs.{
  ConnectionError, HostConnectionInfo, VideoSetup, is_h264, Connection,
}
use moonlight_scarlet.Conn.Bridge.{Bridge, Process}
use moonlight_scarlet.Conn.Start.{start_with_audio, video_setup, termination_error, stop}
use moonlight_scarlet.Stream.Defs.{
  StreamError, connection_failed, no_video_parameters, unsupported_format, terminated, connecting,
  streaming, Worker, progress,
}

abbrev pub host_of : {E : Type 0} → (E → Text) → StreamSession E → HostConnectionInfo
host_of host_name s = record {
  address = host_name s.endpoint;
  app_version = s.server.app_version;
  gfe_version = s.server.gfe_version;
  rtsp_session_url = s.session_url;
  server_codec_mode_support = s.server.server_codec_mode_support;
}

abbrev pub stream_of : {E : Type 0} → StreamSession E → StreamConfiguration
stream_of s = with_bitrate_kbps s.config.bitrate_kbps (
    new_configuration s.config.width s.config.height s.config.fps s.remote_input_aes_key
      s.remote_input_aes_iv)

-- What the termination of a stream makes of its result.
unfoldable pub ended_with : Option ℤ → Result StreamError (Unit {0})
ended_with none = ok tt
ended_with (some (pos zero)) = ok tt
ended_with (some (pos (suc n))) = err (terminated (pos (suc n)))
ended_with (some (negsuc n)) = err (terminated (negsuc n))

-- `video_result?`, and then the termination.
abbrev pub combined : Result StreamError (Unit {0}) → Option ℤ → Result StreamError (Unit {0})
combined (err e) termination = err e
combined (ok u) termination = ended_with termination

abbrev pub Ran : (R B V : Type 0) → Type 0
Ran R B V = Option (Result StreamError (Unit {0}) × Worker R B V)

-- `consume_video`, with the schedule of the stop requests.
abbrev pub Consumer : (R B V : Type 0) → Type 0
Consumer R B V = Connection → VideoSetup → Worker R B V → Ran R B V

module _ {R B V E : Type 0} (bridge : Bridge R B) (host_name : E → Text) where
  abbrev pub stopped : Connection → Worker R B V → Worker R B V
  stopped c w = record w { process = (stop bridge c w.process).1 }

  unfoldable pub finish_run : Connection → Ran R B V → Ran R B V
  finish_run c none = none
  finish_run c (some (result, w)) =
      some (combined result (termination_error bridge w.process), stopped c w)

  -- On the negotiated setup; a return before the loop drops the connection.
  unfoldable pub run_connected :
      StreamSession E → Consumer R B V → Connection → Option VideoSetup → Worker R B V → Ran R B V
  unfolding finish_run
  run_connected s consume c none w = some (err no_video_parameters, stopped c w)
  run_connected s consume c (some setup) w =
      if not (is_h264 setup)
      then some (err (unsupported_format setup.video_format), stopped c w)
      else finish_run c (
          consume c setup
            (progress (streaming setup.width setup.height setup.fps s.config.bitrate_kbps) w))

  unfoldable pub run_started :
      StreamSession E
      → Consumer R B V
      → Result ConnectionError Connection × Process R B
      → Worker R B V
      → Ran R B V
  unfolding run_connected
  run_started s consume (err e, p) w = some (err (connection_failed e), record w { process = p })
  run_started s consume (ok c, p) w =
      run_connected s consume c (video_setup bridge p) (record w { process = p })

  unfoldable pub run : StreamSession E → Option R → Consumer R B V → Worker R B V → Ran R B V
  unfolding run_started
  run s renderer consume w =
      let w' = progress (connecting s.application.title) w in
      run_started s consume
        (start_with_audio bridge (host_of host_name s) (stream_of s) renderer w'.process) w'
