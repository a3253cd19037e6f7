-- ===== src/Conn/Bridge.antt =====
-- The C bridge in front of the core, which connection.rs declares and calls, and the process that it
-- is part of.
use moonlight_scarlet.Prelude.{ℕ, Bool, false, Option, List, get_or, set}
use moonlight_scarlet.Prelude.Int.{ℤ}
use moonlight_scarlet.Sys.Stream.{RawStreamConfiguration}
use moonlight_scarlet.Audio.Callbacks.{AudioStatics}
use moonlight_scarlet.Conn.Defs.{HostStrings, ConnectionState}

-- What `mls_wait_video_frame` leaves: whether a frame is available, and the two pointers.
pub record Pulled : Type 0 where
  pub available : Bool
  pub frame_handle : Option ℕ
  pub decode_unit : Option ℕ

-- The functions of the bridge, over the state `B` of the core. While the core starts and while it
-- waits, its workers may call the audio callbacks, so these two also take the audio statics.
pub record Bridge (R B : Type 0) : Type 0 where
  pub start_connection :
      HostStrings → ℕ → RawStreamConfiguration → AudioStatics R × B → ℤ × (AudioStatics R × B)
  pub stop_connection : B → B
  pub wake_video_frame : B → B
  pub wait_video_frame : AudioStatics R × B → Pulled × (AudioStatics R × B)
  pub full_length : ℕ → B → ℤ
  pub frame_number : ℕ → B → ℤ
  pub frame_type : ℕ → B → ℤ
  pub presentation_time_us : ℕ → B → ℕ
  pub hdr_active : ℕ → B → Bool
  pub colorspace : ℕ → B → ℕ
  -- the count that was copied, and the bytes
  pub copy_video_frame : ℕ → ℕ → B → ℤ × List ℕ
  pub complete_video_frame : ℕ → ℤ → B → B
  pub last_stage : B → ℤ
  pub stage_error : B → ℤ
  pub termination_error : B → ℤ
  pub connection_started : B → Bool
  pub video_format : B → ℤ
  pub video_width : B → ℤ
  pub video_height : B → ℤ
  pub video_fps : B → ℤ

-- `CONNECTION_ACTIVE`, the audio statics, `VIDEO_WAKE_STATE`, every `ConnectionState` that was made,
-- each under its number, and the core.
pub record Process (R B : Type 0) : Type 0 where
  pub connection_active : Bool
  pub audio : AudioStatics R
  pub wake_state : Option ℕ
  pub states : List ConnectionState
  pub core : B

-- The state of no connection.
abbrev pub gone : ConnectionState
gone = record { active = false; stop_requested = false }

module _ {R B : Type 0} where
  abbrev pub state_of : Process R B → ℕ → ConnectionState
  state_of p id = get_or p.states id gone

  abbrev pub put_state : ℕ → ConnectionState → Process R B → Process R B
  put_state id s p = record p { states = set p.states id s }
