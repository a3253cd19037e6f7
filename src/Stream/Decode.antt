-- ===== src/Stream/Decode.antt =====
-- `consume_video` of moonlight/src/stream.rs on Scarlet. The decoder, the video output, the clock and
-- the start of the monitor's thread are parameters; dropping the decoder and the monitor is left out.
use moonlight_scarlet.Prelude.{
  ℕ, ◌*◌, Bool, false, Option, none, some, List, if◌then◌else◌, ◌==◌, Result, ok, err,
}
use moonlight_scarlet.Session.Defs.{Text}
use moonlight_scarlet.Conn.Defs.{
  ConnectionError, VideoSetup, VideoFrame, complete, need_idr, Connection,
}
use moonlight_scarlet.Conn.Bridge.{Bridge}
use moonlight_scarlet.Conn.Frames.{copy_access_unit}
use moonlight_scarlet.Stream.Defs.{
  StreamError, connection_failed, no_input_size, no_output_size, needs_shared_output,
  platform_failed, decoder_ready, presented_first, Worker, saturating_succ, progress,
  report_audio_error, give_frame,
}
use moonlight_scarlet.Stream.Diagnostics.{
  Stage, receive, copy, submit, dequeue, present, Progress, initial, enter,
}
use moonlight_scarlet.Stream.Diagnostics as Diagnostics
use moonlight_scarlet.Stream.Receive.{Turn, finished, again, Outcome, receive_loop}

-- A picture of the decoder: its name and its visible size.
pub record Image : Type 0 where
  pub id : ℕ
  pub width : ℕ
  pub height : ℕ

pub data DecodedOutput : Type 0 where
  image : Image → DecodedOutput
  other_output : DecodedOutput

-- The video client and the video output, over their state `V`.
pub record Platform (V : Type 0) : Type 0 where
  pub input_buffer_len : ℕ → Option ℕ
  pub output_buffer_len : ℕ → ℕ → Option ℕ
  pub open_decoder : ℕ → ℕ → V → Result Text (Unit {0}) × V
  pub configure : V → Result Text (Unit {0}) × V
  pub start_monitor : V → Result Text (Unit {0}) × V
  pub submit_unit : List ℕ → ℕ → V → Result Text (Unit {0}) × V
  pub dequeue_output : V → Result Text (Option DecodedOutput) × V
  pub present_image : Image → V → Result Text (Unit {0}) × V
  pub now : V → ℕ × V

pub record Scarlet (V : Type 0) : Type 0 where
  pub video : V
  pub monitor : Progress

abbrev pub max_coded_access_unit : ℕ
max_coded_access_unit = 4 * 1024 * 1024

abbrev pub VideoWorker : (R B V : Type 0) → Type 0
VideoWorker R B V = Worker R B (Scarlet V)

abbrev pub Handled : (R B V : Type 0) → Type 0
Handled R B V = Turn × Worker R B (Scarlet V)

abbrev pub Consumed : (R B V : Type 0) → Type 0
Consumed R B V = Option (Outcome R B (Scarlet V))

module _ {R B V : Type 0} (bridge : Bridge R B) (platform : Platform V) (c : Connection) where
  abbrev pub with_video : V → VideoWorker R B V → VideoWorker R B V
  with_video v w = record w { platform = record w.platform { video = v } }

  -- `monitor.enter(stage)`
  unfoldable pub enter_stage : Stage → VideoWorker R B V → VideoWorker R B V
  unfolding enter
  enter_stage stage w =
      let (elapsed_at, v) = platform.now w.platform.video in
      let (now, v') = platform.now v in
      record w {
        platform = record { video = v'; monitor = enter elapsed_at now stage w.platform.monitor };
      }

  -- Giving the frame back for a new key frame, and the error.
  abbrev pub refuse_frame : VideoFrame → StreamError → VideoWorker R B V → Handled R B V
  refuse_frame f e w = (finished (err e), give_frame bridge f need_idr w)

  unfoldable pub complete_turn : VideoFrame → VideoWorker R B V → Handled R B V
  unfolding enter_stage
  complete_turn f w = (
    again,
    report_audio_error (give_frame bridge f complete (enter_stage Diagnostics.complete w)),
  )

  unfoldable pub count_presented : Image → VideoWorker R B V → VideoWorker R B V
  count_presented i w =
      let n = saturating_succ w.frame_count in
      let counted = record w { frame_count = n } in
      if n == 1 then progress (presented_first i.width i.height) counted else counted

  unfoldable pub presented :
      VideoFrame → Image → Result Text (Unit {0}) × V → VideoWorker R B V → Handled R B V
  unfolding complete_turn count_presented
  presented f i (err e, v) w = refuse_frame f (platform_failed e) (with_video v w)
  presented f i (ok u, v) w = complete_turn f (count_presented i (with_video v w))

  unfoldable pub present_output :
      VideoFrame → Option DecodedOutput → VideoWorker R B V → Handled R B V
  unfolding presented
  present_output f none w = complete_turn f w
  present_output f (some other_output) w = refuse_frame f needs_shared_output w
  present_output f (some (image i)) w = presented f i (platform.present_image i w.platform.video) w

  unfoldable pub dequeued :
      VideoFrame → Result Text (Option DecodedOutput) × V → VideoWorker R B V → Handled R B V
  unfolding present_output
  dequeued f (err e, v) w = refuse_frame f (platform_failed e) (with_video v w)
  dequeued f (ok decoded, v) w = present_output f decoded (enter_stage present (with_video v w))

  unfoldable pub submitted :
      VideoFrame → Result Text (Unit {0}) × V → VideoWorker R B V → Handled R B V
  unfolding dequeued
  submitted f (err e, v) w = refuse_frame f (platform_failed e) (with_video v w)
  submitted f (ok u, v) w =
      let w' = enter_stage dequeue (with_video v w) in
      dequeued f (platform.dequeue_output w'.platform.video) w'

  unfoldable pub submit_copied :
      VideoFrame → Result ConnectionError (List ℕ) → VideoWorker R B V → Handled R B V
  unfolding submitted
  submit_copied f (err e) w = refuse_frame f (connection_failed e) w
  submit_copied f (ok unit) w =
      let w' = enter_stage submit w in
      submitted f (platform.submit_unit unit f.presentation_time_us w'.platform.video) w'

  unfoldable pub decode_frame : VideoFrame → VideoWorker R B V → Handled R B V
  unfolding submit_copied
  decode_frame f w =
      let w' = enter_stage copy w in submit_copied f (copy_access_unit bridge f w'.process) w'

  -- The rest of `consume_video` after the monitor's start.
  abbrev pub monitored : List Bool → Result Text (Unit {0}) × V → VideoWorker R B V → Consumed R B V
  monitored schedule (err e, v) w = some (err (platform_failed e), with_video v w)
  monitored schedule (ok u, v) w =
      let (now, v') = platform.now v in
      receive_loop bridge c (enter_stage receive) decode_frame schedule (record w {
        frame_count = 0;
        audio_error_reported = false;
        platform = record { video = v'; monitor = initial now };
      })

  abbrev pub configured :
      List Bool → Result Text (Unit {0}) × V → VideoWorker R B V → Consumed R B V
  configured schedule (err e, v) w = some (err (platform_failed e), with_video v w)
  configured schedule (ok u, v) w =
      monitored schedule (platform.start_monitor v) (progress decoder_ready (with_video v w))

  abbrev pub opened : List Bool → Result Text (Unit {0}) × V → VideoWorker R B V → Consumed R B V
  opened schedule (err e, v) w = some (err (platform_failed e), with_video v w)
  opened schedule (ok u, v) w = configured schedule (platform.configure v) (with_video v w)

  abbrev pub sized : List Bool → Option ℕ → Option ℕ → VideoWorker R B V → Consumed R B V
  sized schedule none output w = some (err no_input_size, w)
  sized schedule (some input) none w = some (err no_output_size, w)
  sized schedule (some input) (some output) w =
      opened schedule (platform.open_decoder input output w.platform.video) w

  unfoldable pub consume_decoded : VideoSetup → List Bool → VideoWorker R B V → Consumed R B V
  unfolding receive_loop
  consume_decoded setup schedule w =
      sized schedule (platform.input_buffer_len max_coded_access_unit)
        (platform.output_buffer_len setup.width setup.height) w
