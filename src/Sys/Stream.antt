-- ===== src/Sys/Stream.antt =====
-- `StreamConfiguration` of moonlight-sys/src/connection.rs and the check in front of the C core. Keys
-- are lists of bytes; an error keeps the name of the field, not the rest of its message.
use Prim.Native.String.{String}
use moonlight_scarlet.Prelude.{
  ℕ, ◌*◌, ◌^◌, ◌<◌, ◌≡◌, List, if◌then◌else◌, leb, ltb, ◌==◌, Result, ok, err, ◌>>=◌, arith,
}

pub record StreamConfiguration : Type 0 where
  pub width : ℕ
  pub height : ℕ
  pub fps : ℕ
  pub bitrate_kbps : ℕ
  pub packet_size : ℕ
  pub remote_input_aes_key : List ℕ
  pub remote_input_aes_iv : List ℕ

-- `StreamConfiguration::new`
abbrev pub new_configuration : ℕ → ℕ → ℕ → List ℕ → List ℕ → StreamConfiguration
new_configuration width height fps key iv = record {
  width = width;
  height = height;
  fps = fps;
  bitrate_kbps = 20000;
  packet_size = 1024;
  remote_input_aes_key = key;
  remote_input_aes_iv = iv;
}

abbrev pub with_bitrate_kbps : ℕ → StreamConfiguration → StreamConfiguration
with_bitrate_kbps bitrate c = record c { bitrate_kbps = bitrate }

abbrev pub with_packet_size : ℕ → StreamConfiguration → StreamConfiguration
with_packet_size size c = record c { packet_size = size }

pub record RawStreamConfiguration : Type 0 where
  pub width : ℕ
  pub height : ℕ
  pub fps : ℕ
  pub bitrate : ℕ
  pub packet_size : ℕ
  pub client_refresh_rate_x100 : ℕ
  pub remote_input_aes_key : List ℕ
  pub remote_input_aes_iv : List ℕ

pub data ConfigurationError : Type 0 where
  must_be_non_zero does_not_fit : String → ConfigurationError
  refresh_rate_too_large : ConfigurationError

unfoldable pub positive_int : String → ℕ → Result ConfigurationError ℕ
positive_int name value =
    if value == 0
    then err (must_be_non_zero name)
    else if leb (2 ^ 31) value
    then err (does_not_fit name)
    else ok value

-- `fps.checked_mul(100)` of a `u32`.
unfoldable pub refresh_rate : ℕ → Result ConfigurationError ℕ
refresh_rate fps = if ltb (fps * 100) (2 ^ 32) then ok (fps * 100) else err refresh_rate_too_large

unfoldable pub validated : StreamConfiguration → Result ConfigurationError RawStreamConfiguration
unfolding positive_int refresh_rate
validated c = positive_int "width" c.width >>= λ width. positive_int "height" c.height >>= λ height.
    positive_int "FPS" c.fps >>= λ fps. positive_int "bitrate" c.bitrate_kbps >>= λ bitrate.
    positive_int "packet size" c.packet_size >>= λ packet_size. refresh_rate c.fps >>= λ rate.
    positive_int "refresh rate" rate >>= λ client_refresh_rate. ok (record {
      width = width;
      height = height;
      fps = fps;
      bitrate = bitrate;
      packet_size = packet_size;
      client_refresh_rate_x100 = client_refresh_rate;
      remote_input_aes_key = c.remote_input_aes_key;
      remote_input_aes_iv = c.remote_input_aes_iv;
    })

-- A positive C integer.
abbrev pub IsInt : ℕ → Type 0
IsInt n = (0 < n) × (n < 2 ^ 31)

-- A configuration that is accepted has fields, and a rate in hundredths, that are positive C integers,
-- and they are what the core is given.
pub validated-IsInt :
    (c : StreamConfiguration) (raw : RawStreamConfiguration)
    → validated c ≡ ok raw
    → IsInt raw.width
      × IsInt raw.height
      × IsInt raw.bitrate
      × IsInt raw.packet_size
      × (raw.width ≡ c.width)
      × (raw.height ≡ c.height)
      × (raw.bitrate ≡ c.bitrate_kbps)
      × (raw.packet_size ≡ c.packet_size)
      × (raw.client_refresh_rate_x100 ≡ c.fps * 100)
      × (c.fps * 100 < 2 ^ 31)
      × (raw.fps ≡ c.fps)
unfolding validated
validated-IsInt c raw h = ground (arith, h)
