-- ===== src/Sys/Tests.antt =====
-- The theorems on `ConnectionControl` at concrete inputs.
use moonlight_scarlet.Prelude.{ℕ, ◌+◌, ◌==◌, if◌then◌else◌, ◌≡◌, true, false, ok}
use moonlight_scarlet.Prelude.Int.{pos, negsuc}
use moonlight_scarlet.Sys.Control.{Core, Link}
use moonlight_scarlet.Sys.Stream.{
  StreamConfiguration, new_configuration, RawStreamConfiguration, validated,
}
use moonlight_scarlet.Prelude.{replicate, refl}

-- A core that counts its calls, and refuses the third.
counting : Core ℕ ℕ
counting = record {
  call = λ _ n. ((if n == 2 then negsuc 0 else pos 0), n + 1);
  host_feature_flags = λ _. 1;
}

abbrev live : Link ℕ
live = record { active = true; stop_requested = false; inner = 0 }

abbrev full_hd : StreamConfiguration
full_hd = new_configuration 1920 1080 60 (replicate 16 7) (replicate 16 0)

abbrev raw_full_hd : RawStreamConfiguration
raw_full_hd = record {
  width = 1920;
  height = 1080;
  fps = 60;
  bitrate = 20000;
  packet_size = 1024;
  client_refresh_rate_x100 = 6000;
  remote_input_aes_key = replicate 16 7;
  remote_input_aes_iv = replicate 16 0;
}

accepted : validated full_hd ≡ ok raw_full_hd
unfolding validated
accepted = refl
