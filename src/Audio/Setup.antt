-- ===== src/Audio/Setup.antt =====
-- `AudioSetup` of moonlight-sys/src/audio.rs: the check of the parameters that the C core reports. A
-- pointer is null or the live array behind it.
use moonlight_scarlet.Prelude.{
  ℕ, ◌≤◌, ◌<◌, ◌-◌, ◌≡◌, Bool, not, ◌&&◌, Option, none, some, List, ◌++◌, if◌then◌else◌, leb, ◌==◌,
  Result, ok, err, ◌>>=◌, take, replicate, arith,
}
use moonlight_scarlet.Prelude.Int.{ℤ, pos, negsuc}

pub data AudioError : Type 0 where
  invalid_channel_count invalid_sample_rate invalid_stream_count invalid_coupled_count
        invalid_frame_size :
      AudioError
  missing_mapping invalid_packet_length missing_packet_data : AudioError
  panicked_initializing panicked_decoding : AudioError
  renderer_error : ℕ → AudioError

pub record AudioSetup : Type 0 where
  pub configuration : ℤ
  pub sample_rate : ℕ
  pub channel_count : ℕ
  pub streams : ℕ
  pub coupled_streams : ℕ
  pub samples_per_frame : ℕ
  -- `[u8; MAX_AUDIO_CHANNELS]`
  pub channels : List ℕ

-- `AudioSetup::mapping`
abbrev pub mapping : AudioSetup → List ℕ
mapping s = take s.channel_count s.channels

abbrev pub max_audio_channels : ℕ
max_audio_channels = 8

-- `try_from(value).ok().filter(test).ok_or_else(..)` for a type of the values up to `top`.
unfoldable pub checked_from : ℕ → (ℕ → Bool) → AudioError → ℤ → Result AudioError ℕ
checked_from top test e (negsuc n) = err e
checked_from top test e (pos n) = if leb n top && test n then ok n else err e

abbrev pub u32_max : ℕ
u32_max = 4294967295

-- `mapping.is_null()`, and the slice of the array.
unfoldable pub copied_mapping : ℕ → Option (List ℕ) → Result AudioError (List ℕ)
copied_mapping channel_count none = err missing_mapping
copied_mapping channel_count (some array) =
    ok (take channel_count array ++ replicate (max_audio_channels - channel_count) 0)

unfoldable pub from_raw : ℤ → ℤ → ℤ → ℤ → ℤ → ℤ → Option (List ℕ) → Result AudioError AudioSetup
unfolding checked_from copied_mapping
from_raw configuration sample_rate channel_count streams coupled_streams samples_per_frame array =
    checked_from u32_max (λ n. leb 1 n && leb n max_audio_channels) invalid_channel_count
      channel_count
    >>= λ channel_count'.
        checked_from u32_max (λ n. not (n == 0)) invalid_sample_rate sample_rate >>= λ sample_rate'.
        checked_from 255 (λ n. not (n == 0)) invalid_stream_count streams >>= λ streams'.
        checked_from 255 (λ n. leb n streams') invalid_coupled_count coupled_streams >>= λ coupled'.
        checked_from u32_max (λ n. not (n == 0)) invalid_frame_size samples_per_frame
        >>= λ samples'. copied_mapping channel_count' array >>= λ channels. ok (record {
          configuration = configuration;
          sample_rate = sample_rate';
          channel_count = channel_count';
          streams = streams';
          coupled_streams = coupled';
          samples_per_frame = samples';
          channels = channels;
        })

-- What an Opus decoder needs of its parameters.
pub record IsUsable (s : AudioSetup) : Type 0 where
  pub some_channel : (1 ≤ s.channel_count) × (s.channel_count ≤ 8)
  pub rate : (0 < s.sample_rate) × (s.sample_rate ≤ 4294967295)
  pub some_stream : (0 < s.streams) × (s.streams ≤ 255)
  pub coupled : s.coupled_streams ≤ s.streams
  pub frame : 0 < s.samples_per_frame

-- A setup that is accepted has one to eight channels, a rate, a frame size and a stream, and no more
-- coupled streams than streams.
pub from_raw-IsUsable :
    (configuration rate channels streams coupled samples : ℤ) (array : Option (List ℕ))
    (s : AudioSetup)
    → from_raw configuration rate channels streams coupled samples array ≡ ok s
    → IsUsable s
unfolding from_raw
from_raw-IsUsable configuration rate channels streams coupled samples array s h = record {
  some_channel = ground (arith, h);
  rate = ground (arith, h);
  some_stream = ground (arith, h);
  coupled = ground (arith, h);
  frame = ground (arith, h);
}
