-- ===== src/Stream/Tests.antt =====
-- The theorems on the stream worker at concrete inputs.
use moonlight_scarlet.Prelude.{
  ℕ, ◌≡◌, refl, ap, true, false, Bool, Option, none, some, List, [], ◌∷◌, Result, ok, arith,
}
use moonlight_scarlet.Prelude.Int.{pos}
use moonlight_scarlet.Session.Defs.{Text, StreamSession, default_config}
use moonlight_scarlet.Sys.Stream.{validated, positive_int, refresh_rate}
use moonlight_scarlet.Conn.Defs.{
  VideoSetup, Connection, host_strings, c_string, c_string_opt, reported_error, is_h264,
}
use moonlight_scarlet.Conn.Start.{
  start_with_audio, start_checked, after_start, check_arguments, video_setup, termination_error,
  stop, request_stop,
}
use moonlight_scarlet.Conn.Frames.{
  copy_access_unit, complete_frame, give_back, wait_for_video_frame, after_wait, check_pointers,
  check_length,
}
use moonlight_scarlet.Sys.Control.{is_zero}
use moonlight_scarlet.Audio.Callbacks.{install_audio_renderer}
use moonlight_scarlet.Conn.Bridge.{Process}
use moonlight_scarlet.Conn.Lifecycle.{closed}
use moonlight_scarlet.Conn.Samples.{lending_core, silent, less_one}
use moonlight_scarlet.Stream.Defs.{StreamError, Worker, report_audio_error}
use moonlight_scarlet.Stream.Diagnostics.{initial}
use moonlight_scarlet.Stream.Preview.{
  consume_video, count_or_check, first_frame, count_frame, is_annex_b,
}
use moonlight_scarlet.Stream.Decode.{Platform, Scarlet, image, consume_decoded}
use moonlight_scarlet.Stream.Run.{Consumer, run, run_started, run_connected, finish_run, ended_with}
use moonlight_scarlet.Stream.Receive.{receive_loop, turn, after_pull}
use moonlight_scarlet.Stream.Ends
use moonlight_scarlet.Stream.GivesBack.{Lending}
use moonlight_scarlet.Stream.GivesBack as GivesBack
use moonlight_scarlet.Stream.Released as Released

abbrev lending : Lending lending_core
lending = record {
  out = λ b. b;
  pulling = λ a b. refl;
  completing = λ h status b rest e. ap less_one e;
  waking = λ b. refl;
}

abbrev process : Process ℕ (List ℕ)
process = record {
  connection_active = true;
  audio = silent;
  wake_state = some 0;
  states = record { active = true; stop_requested = false } ∷ [];
  core = [];
}

abbrev connection : Connection
connection = record closed { stopped = false }

abbrev worker_with : {V : Type 0} → V → Process ℕ (List ℕ) → Worker ℕ (List ℕ) V
worker_with v p = record {
  process = p;
  messages = [];
  frame_count = 0;
  audio_error_reported = false;
  platform = v;
}

-- Two frames, then a stop.
abbrev schedule : List Bool
schedule = false ∷ false ∷ true ∷ []

consume_video_gives_back_example :
    (r : Result StreamError (Unit {0})) × (w' : Worker ℕ (List ℕ) (Unit {0})) × (consume_video
        lending_core connection schedule
        (worker_with tt process)
      ≡ some (r, w'))
    × (w'.process.core ≡ [])
consume_video_gives_back_example =
    GivesBack.consume_video_gives_back lending_core lending connection schedule
      (worker_with tt process) (omega arith) refl

abbrev platform : Platform ℕ
platform = record {
  input_buffer_len = λ n. some n;
  output_buffer_len = λ w h. some (w);
  open_decoder = λ i o v. (ok tt, v);
  configure = λ v. (ok tt, v);
  start_monitor = λ v. (ok tt, v);
  submit_unit = λ unit t v. (ok tt, v);
  dequeue_output = λ v. (ok (some (image (record { id = v; width = 1280; height = 720 }))), v);
  present_image = λ i v. (ok tt, v);
  now = λ v. (v, v);
}

abbrev setup : VideoSetup
setup = record { video_format = pos 1; width = 1280; height = 720; fps = 60 }

abbrev video_worker : Worker ℕ (List ℕ) (Scarlet ℕ)
video_worker = worker_with (record { video = 5; monitor = initial 0 }) process

consume_decoded_ends_example :
    (o : Result StreamError (Unit {0}) × Worker ℕ (List ℕ) (Scarlet ℕ)) × (consume_decoded
        lending_core platform connection setup schedule video_worker
      ≡ some o)
consume_decoded_ends_example =
    Ends.consume_decoded_ends lending_core platform connection schedule setup video_worker
      (omega arith) refl

abbrev ended :
    (o : Result StreamError (Unit {0}) × Worker ℕ (List ℕ) (Scarlet ℕ)) × (consume_decoded
        lending_core platform connection setup schedule video_worker
      ≡ some o)
ended =
    Ends.consume_decoded_ends lending_core platform connection schedule setup video_worker
      (omega arith) refl

consume_decoded_gives_back_example : ended.0.1.process.core ≡ []
consume_decoded_gives_back_example =
    GivesBack.consume_decoded_gives_back lending_core lending platform connection schedule setup
      video_worker ended.0.0 ended.0.1 ended.1

abbrev at_host : StreamSession Text
at_host = record {
  endpoint = 104 ∷ [];
  server = record {
    hostname = [];
    unique_id = [];
    app_version = 55 ∷ [];
    gfe_version = none;
    server_codec_mode_support = 1;
    https_port = 47984;
    paired = true;
    current_game = 42;
    state = [];
  };
  application = record { id = 42; title = [] };
  config = default_config;
  session_url = 114 ∷ [];
  remote_input_aes_key = 7 ∷ [];
  remote_input_aes_iv = 7 ∷ [];
  resumed = false;
}

abbrev idle : Process ℕ (List ℕ)
idle = record {
  connection_active = false;
  audio = silent;
  wake_state = none;
  states = [];
  core = [];
}

abbrev consumer : Consumer ℕ (List ℕ) (Unit {0})
consumer c s w = consume_video lending_core c schedule w

abbrev ran : Option (Result StreamError (Unit {0}) × Worker ℕ (List ℕ) (Unit {0}))
ran = run lending_core (λ e. e) at_host none consumer (worker_with tt idle)

abbrev worker_of :
    Option (Result StreamError (Unit {0}) × Worker ℕ (List ℕ) (Unit {0}))
    → Worker ℕ (List ℕ) (Unit {0})
worker_of none = worker_with tt process
worker_of (some (r, w)) = w

finished_well : ran ≡ some (ok tt, worker_of ran)
unfolding run run_started run_connected finish_run ended_with start_with_audio start_checked
    after_start check_arguments host_strings c_string_opt c_string validated positive_int
    refresh_rate video_setup termination_error reported_error is_h264 stop request_stop
    consume_video receive_loop turn after_pull count_or_check first_frame count_frame is_annex_b
    report_audio_error copy_access_unit complete_frame give_back wait_for_video_frame after_wait
    check_pointers check_length is_zero install_audio_renderer
finished_well = refl

run_released_example : (worker_of ran).process.connection_active ≡ false
run_released_example =
    Released.run_released lending_core (λ e. e) at_host consumer none (worker_with tt idle) (ok tt)
      (worker_of ran) refl finished_well
