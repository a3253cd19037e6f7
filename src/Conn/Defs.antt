-- ===== src/Conn/Defs.antt =====
-- The data of a connection, moonlight-sys/src/connection.rs. A text is the list of its code points and
-- holds a NUL where one of them is 0; an error keeps what its message tells.
use moonlight_scarlet.Prelude.{
  ℕ, ◌-◌, ◌^◌, ◌%◌, Bool, false, not, Option, none, some, [], ◌∷◌, ◌||◌, if◌then◌else◌, ◌==◌,
  Result, ok, err, ◌>>=◌, bit_and,
}
use moonlight_scarlet.Prelude.Int.{ℤ, pos, negsuc, pos_part}
use moonlight_scarlet.Session.Defs.{Text}
use moonlight_scarlet.Sys.Stream.{ConfigurationError}
use moonlight_scarlet.Audio.Setup.{AudioError}

pub record HostConnectionInfo : Type 0 where
  pub address : Text
  pub app_version : Text
  pub gfe_version : Option Text
  pub rtsp_session_url : Text
  pub server_codec_mode_support : ℕ

pub data ConnectionError : Type 0 where
  already_active : ConnectionError
  invalid_configuration : ConfigurationError → ConnectionError
  empty_text interior_nul : ConnectionError
  start_failed : ℤ → ℤ → Option ℤ → ConnectionError
  null_frame_pointer non_positive_length unsupported_length chain_mismatch : ConnectionError
  audio : AudioError → ConnectionError

abbrev pub has_nul : Text → Bool
has_nul [] = false
has_nul (c ∷ cs) = c == 0 || has_nul cs

unfoldable pub c_string : Text → Result ConnectionError Text
c_string [] = err empty_text
c_string (c ∷ cs) = if has_nul (c ∷ cs) then err interior_nul else ok (c ∷ cs)

pub record HostStrings : Type 0 where
  pub address : Text
  pub app_version : Text
  pub gfe_version : Option Text
  pub rtsp_session_url : Text

-- `map(c_string).transpose()`
unfoldable pub c_string_opt : Option Text → Result ConnectionError (Option Text)
unfolding c_string
c_string_opt none = ok none
c_string_opt (some t) = c_string t >>= λ s. ok (some s)

-- `HostStrings::new`
unfoldable pub host_strings : HostConnectionInfo → Result ConnectionError HostStrings
unfolding c_string_opt
host_strings host = c_string host.address >>= λ address.
    c_string host.app_version >>= λ app_version. c_string_opt host.gfe_version >>= λ gfe_version.
    c_string host.rtsp_session_url >>= λ rtsp_session_url. ok (record {
      address = address;
      app_version = app_version;
      gfe_version = gfe_version;
      rtsp_session_url = rtsp_session_url;
    })

-- `NO_REPORTED_ERROR` is the least C integer.
unfoldable pub reported_error : ℤ → Option ℤ
reported_error (pos n) = some (pos n)
reported_error (negsuc n) = if n == 2 ^ 31 - 1 then none else some (negsuc n)

pub record VideoSetup : Type 0 where
  pub video_format : ℤ
  pub width : ℕ
  pub height : ℕ
  pub fps : ℕ

-- The low bits of a C integer, in two's complement.
abbrev pub low_word : ℤ → ℕ
low_word (pos n) = n % 2 ^ 32
low_word (negsuc n) = 2 ^ 32 - 1 - n % 2 ^ 32

unfoldable pub is_h264 : VideoSetup → Bool
is_h264 s = not (bit_and (low_word s.video_format) 0x000f == 0)

pub data VideoFrameStatus : Type 0 where
  complete need_idr : VideoFrameStatus

-- `VideoFrameStatus::raw`
abbrev pub status_code : VideoFrameStatus → ℤ
status_code complete = pos 0
status_code need_idr = negsuc 0

-- A frame that is borrowed from the queue of the core. Its completion consumes it.
pub record VideoFrame : Type 0 where
  pub frame_handle : ℕ
  pub decode_unit : ℕ
  pub frame_number : ℤ
  pub frame_type : ℤ
  pub presentation_time_us : ℕ
  pub full_length : ℕ
  pub hdr_active : Bool
  pub colorspace : ℕ

unfoldable pub is_idr : VideoFrame → Bool
is_idr f = pos_part f.frame_type == 1

-- `ConnectionState`, and the `Connection` that shares it with its controls.
pub record ConnectionState : Type 0 where
  pub active : Bool
  pub stop_requested : Bool

pub record Connection : Type 0 where
  pub strings : HostStrings
  pub state : ℕ
  pub stopped : Bool
