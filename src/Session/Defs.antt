-- ===== src/Session/Defs.antt =====
-- The types of moonlight-control/src/session.rs, and what it asks of the HTTP client. An error keeps
-- what its message tells and a request keeps the values of its arguments; their formatting is left
-- out.
use moonlight_scarlet.Prelude.{
  ℕ, ◌^◌, ◌-◌, Bool, true, false, ◌||◌, Option, List, if◌then◌else◌, ltb, ◌==◌, Result, ok, err,
}
use moonlight_scarlet.Prelude.Int.{ℤ}

-- A string, by its code points.
abbrev pub Text : Type 0
Text = List ℕ

pub data StartVerb : Type 0 where
  launch_verb resume_verb : StartVerb

-- The faults that session.rs reports; `upstream` is one of the client's own.
pub data ControlError : Type 0 where
  empty_mode invalid_bitrate zero_application : ControlError
  unknown_application : ℕ → ControlError
  already_running : ℕ → ControlError
  nothing_to_resume : ControlError
  running_other : ℕ → ControlError
  still_running : ℕ → ControlError
  not_paired : ControlError
  empty_session_url : ControlError
  unsuccessful : Text → ControlError
  upstream : ℕ → ControlError

pub record LaunchConfig : Type 0 where
  pub width : ℕ
  pub height : ℕ
  pub fps : ℕ
  pub bitrate_kbps : ℕ
  pub optimize_game_settings : Bool
  pub play_audio_on_host : Bool
  pub gamepad_mask : ℕ
  pub persist_gamepads : Bool

-- `LaunchConfig::default`
abbrev pub default_config : LaunchConfig
default_config = record {
  width = 1920;
  height = 1080;
  fps = 60;
  bitrate_kbps = 20000;
  optimize_game_settings = true;
  play_audio_on_host = false;
  gamepad_mask = 0;
  persist_gamepads = false;
}

-- `LaunchConfig::validate`
unfoldable pub validate : LaunchConfig → Result ControlError (Unit {0})
validate c =
    if c.width == 0 || c.height == 0 || c.fps == 0
    then err empty_mode
    else if c.bitrate_kbps == 0 || ltb (2 ^ 31 - 1) c.bitrate_kbps
    then err invalid_bitrate
    else ok tt

pub record Application : Type 0 where
  pub id : ℕ
  pub title : Text

pub record ServerInfo : Type 0 where
  pub hostname : Text
  pub unique_id : Text
  pub app_version : Text
  pub gfe_version : Option Text
  pub server_codec_mode_support : ℕ
  pub https_port : ℕ
  pub paired : Bool
  pub current_game : ℕ
  pub state : Text

-- `E` is the client's `Endpoint`.
pub record ConnectedHost (E : Type 0) : Type 0 where
  pub endpoint : E
  pub server : ServerInfo
  pub applications : List Application
  pub newly_paired : Bool

pub record StreamSession (E : Type 0) : Type 0 where
  pub endpoint : E
  pub server : ServerInfo
  pub application : Application
  pub config : LaunchConfig
  pub session_url : Text
  pub remote_input_aes_key : List ℕ
  pub remote_input_aes_iv : List ℕ
  pub resumed : Bool

-- An argument of a request, before it is printed.
pub data Value : Type 0 where
  decimal : ℕ → Value
  signed : ℤ → Value
  mode : ℕ → ℕ → ℕ → Value
  hex : List ℕ → Value

pub data Argument : Type 0 where
  appid mode_of additional_states sops rikey rikeyid local_audio_play_mode surround_audio_info :
      Value → Argument
  remote_controllers_bitmap gcmap gcpersist corever : Value → Argument

pub data Command : Type 0 where
  launch_command resume_command cancel_command : Command

-- What a session asks of the rest of the crate, over a world `W` that holds the network and the
-- source of random bytes.
pub record HttpClient (E W : Type 0) : Type 0 where
  pub authenticated_server_info : E → ℕ → W → Result ControlError ServerInfo × W
  pub get : E → ℕ → Command → List Argument → ℕ → W → Result ControlError Text × W
  pub response_text : Text → Text → Result ControlError Text
  pub random_bytes : ℕ → W → List ℕ × W
  -- `i32::from_be_bytes`
  pub key_id_of : List ℕ → ℤ
