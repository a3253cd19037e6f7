-- ===== src/Conn/Start.antt =====
-- Starting, observing and stopping a connection, moonlight-sys/src/connection.rs. A start is two steps,
-- `reserve` and `finish`, since nothing is locked while the core starts; `start_with_audio` is a start
-- that no other call comes between. The other operations are one step each.
use moonlight_scarlet.Prelude.{
  ℕ, Bool, true, false, not, Option, none, some, [], ◌∷◌, ◌++◌, if◌then◌else◌, Result, ok, err,
  ◌>>=◌, length, is_some, set,
}
use moonlight_scarlet.Prelude.Int.{ℤ, pos, negsuc}
use moonlight_scarlet.Sys.Stream.{
  StreamConfiguration, RawStreamConfiguration, validated, positive_int, ConfigurationError,
}
use moonlight_scarlet.Sys.Control.{is_zero}
use moonlight_scarlet.Audio.Setup.{AudioError}
use moonlight_scarlet.Audio.Callbacks.{
  AudioStatics, install_audio_renderer, clear_audio_renderer, current_audio_error,
}
use moonlight_scarlet.Conn.Defs.{
  HostConnectionInfo, ConnectionError, already_active, invalid_configuration, start_failed, audio,
  HostStrings, host_strings, reported_error, VideoSetup, Connection,
}
use moonlight_scarlet.Conn.Bridge.{Bridge, Process, state_of, put_state}

-- What is checked before the process is touched.
pub record Checked : Type 0 where
  pub strings : HostStrings
  pub stream : RawStreamConfiguration
  pub codec_support : ℕ

abbrev pub as_connection_error :
    {A : Type 0} → Result ConfigurationError A → Result ConnectionError A
as_connection_error (ok a) = ok a
as_connection_error (err e) = err (invalid_configuration e)

unfoldable pub check_arguments :
    HostConnectionInfo → StreamConfiguration → Result ConnectionError Checked
check_arguments host stream = host_strings host >>= λ strings.
    as_connection_error (validated stream) >>= λ raw.
    as_connection_error (positive_int "server codec support" host.server_codec_mode_support)
    >>= λ codec_support.
        ok (record { strings = strings; stream = raw; codec_support = codec_support })

module _ {R B : Type 0} (bridge : Bridge R B) where
  -- The error of a start that failed.
  abbrev pub start_error : Option AudioError → ℤ → B → ConnectionError
  start_error (some e) code core = audio e
  start_error none code core =
      start_failed code (bridge.last_stage core) (reported_error (bridge.stage_error core))

  -- The rest of `start_with_audio`, on what `mls_start_connection` returned.
  unfoldable pub after_start :
      HostStrings
      → Process R B
      → ℤ × (AudioStatics R × B)
      → Result ConnectionError Connection × Process R B
  after_start strings p (code, (statics, core)) =
      if not (is_zero code)
      then (
        err (start_error (current_audio_error statics) code core),
        record p { connection_active = false; audio = clear_audio_renderer statics; core = core },
      )
      else (
        ok (record { strings = strings; state = length p.states; stopped = false }),
        record p {
          audio = statics;
          core = core;
          states = p.states ++ (record { active = true; stop_requested = false } ∷ []);
          wake_state = some (length p.states);
        },
      )

  -- The first step of a start that has got the flag: the flag is taken and the renderer installed.
  unfoldable pub reserve : Option R → Process R B → Process R B
  reserve renderer p = record p {
    connection_active = true;
    audio = install_audio_renderer renderer p.audio;
  }

  -- The second: the core is started, and the connection is made or everything given back.
  unfoldable pub finish : Checked → Process R B → Result ConnectionError Connection × Process R B
  unfolding after_start
  finish c p =
      after_start c.strings p
        (bridge.start_connection c.strings c.codec_support c.stream (p.audio, p.core))

  unfoldable pub start_checked :
      Option R
      → Result ConnectionError Checked
      → Process R B
      → Result ConnectionError Connection × Process R B
  unfolding reserve finish
  start_checked renderer (err e) p = (err e, p)
  start_checked renderer (ok c) p =
      if p.connection_active then (err already_active, p) else finish c (reserve renderer p)

  unfoldable pub start_with_audio :
      HostConnectionInfo
      → StreamConfiguration
      → Option R
      → Process R B
      → Result ConnectionError Connection × Process R B
  unfolding start_checked
  start_with_audio host stream renderer = start_checked renderer (check_arguments host stream)

  unfoldable pub start :
      HostConnectionInfo
      → StreamConfiguration
      → Process R B
      → Result ConnectionError Connection × Process R B
  unfolding start_with_audio
  start host stream = start_with_audio host stream none

  -- `try_from(..).ok()?` of each of the three.
  abbrev pub natural : ℤ → Option ℕ
  natural (pos n) = some n
  natural (negsuc n) = none

  abbrev pub setup_of : ℤ → Option ℕ → Option ℕ → Option ℕ → Option VideoSetup
  setup_of format (some w) (some h) (some fps) =
      some (record { video_format = format; width = w; height = h; fps = fps })
  setup_of format (some w) (some h) none = none
  setup_of format (some w) none fps = none
  setup_of format none h fps = none

  unfoldable pub video_setup : Process R B → Option VideoSetup
  video_setup p =
      if is_zero (bridge.video_format p.core)
      then none
      else setup_of (bridge.video_format p.core) (natural (bridge.video_width p.core))
          (natural (bridge.video_height p.core)) (natural (bridge.video_fps p.core))

  abbrev pub is_started : Process R B → Bool
  is_started p = bridge.connection_started p.core

  unfoldable pub termination_error : Process R B → Option ℤ
  termination_error p = reported_error (bridge.termination_error p.core)

  abbrev pub audio_error : Process R B → Option AudioError
  audio_error p = current_audio_error p.audio

  -- `ConnectionControl::request_stop` and `stop_requested`, of the control of state `id`.
  unfoldable pub request_stop : ℕ → Process R B → Process R B
  request_stop id p =
      let s = state_of p id in
      let q = put_state id (record s { stop_requested = true }) p in
      if s.active then record q { core = bridge.wake_video_frame q.core } else q

  abbrev pub stop_requested : ℕ → Process R B → Bool
  stop_requested id p = (state_of p id).stop_requested

  -- `mls_rust_connection_terminated`
  unfoldable pub connection_terminated : Process R B → Process R B
  connection_terminated p =
      if is_some p.wake_state then record p { core = bridge.wake_video_frame p.core } else p

  -- `Connection::stop`, which is also what dropping a connection does.
  unfoldable pub stop : Connection → Process R B → Connection × Process R B
  stop c p = if c.stopped then (c, p) else (
    record c { stopped = true },
    record p {
      states = set p.states c.state (record { active = false; stop_requested = true });
      connection_active = false;
      audio = clear_audio_renderer p.audio;
      wake_state = none;
      core = bridge.stop_connection p.core;
    },
  )
