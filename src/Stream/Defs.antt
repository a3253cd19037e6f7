-- ===== src/Stream/Defs.antt =====
-- What the stream worker of moonlight/src/stream.rs reports and keeps. An error and a progress line
-- keep what they tell; their formatting is left out.
use moonlight_scarlet.Prelude.{
  ℕ, ◌-◌, ◌+◌, ◌^◌, Bool, true, false, Option, none, some, List, ◌∷◌, min,
}
use moonlight_scarlet.Prelude.Int.{ℤ}
use moonlight_scarlet.Session.Defs.{Text}
use moonlight_scarlet.Audio.Setup.{AudioError}
use moonlight_scarlet.Conn.Defs.{ConnectionError, VideoFrame, VideoFrameStatus}
use moonlight_scarlet.Conn.Bridge.{Bridge, Process}
use moonlight_scarlet.Audio.Callbacks.{current_audio_error}
use moonlight_scarlet.Conn.Frames.{complete_frame}

-- The `String` of an error; `platform_failed` is one of the decoder's, the output's or the monitor's.
pub data StreamError : Type 0 where
  connection_failed : ConnectionError → StreamError
  no_video_parameters : StreamError
  unsupported_format : ℤ → StreamError
  not_annex_b : StreamError
  no_input_size no_output_size : StreamError
  needs_shared_output : StreamError
  platform_failed : Text → StreamError
  terminated : ℤ → StreamError

pub data Message : Type 0 where
  connecting : Text → Message
  streaming : ℕ → ℕ → ℕ → ℕ → Message
  transport_active decoder_ready : Message
  presented_first : ℕ → ℕ → Message
  audio_disabled : AudioError → Message

-- The locals of `run` and `consume_video`, the process, what `progress` was given, newest first, and
-- the state `V` of the platform's decoder and video output.
pub record Worker (R B V : Type 0) : Type 0 where
  pub process : Process R B
  pub messages : List Message
  pub frame_count : ℕ
  pub audio_error_reported : Bool
  pub platform : V

-- `u64::saturating_add(1)`
abbrev pub saturating_succ : ℕ → ℕ
saturating_succ n = min (n + 1) (2 ^ 64 - 1)

module _ {R B V : Type 0} where
  abbrev pub progress : Message → Worker R B V → Worker R B V
  progress m w = record w { messages = m ∷ w.messages }

  abbrev pub reported : Bool → Option AudioError → Worker R B V → Worker R B V
  reported true error w = w
  reported false none w = w
  reported false (some e) w = record w {
    messages = audio_disabled e ∷ w.messages;
    audio_error_reported = true;
  }

  unfoldable pub report_audio_error : Worker R B V → Worker R B V
  report_audio_error w = reported w.audio_error_reported (current_audio_error w.process.audio) w

  -- `frame.complete(status)`
  abbrev pub give_frame : Bridge R B → VideoFrame → VideoFrameStatus → Worker R B V → Worker R B V
  give_frame bridge f status w = record w { process = complete_frame bridge f status w.process }
