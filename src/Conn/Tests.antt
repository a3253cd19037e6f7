-- ===== src/Conn/Tests.antt =====
-- The theorems on the life of connections at concrete inputs.
use moonlight_scarlet.Prelude.{ℕ, ◌≡◌, refl, none, some, List, [], ◌∷◌, ok, replicate}
use moonlight_scarlet.Sys.Stream.{
  StreamConfiguration, new_configuration, validated, positive_int, refresh_rate,
}
use moonlight_scarlet.Conn.Defs.{HostConnectionInfo, host_strings, c_string, c_string_opt}
use moonlight_scarlet.Conn.Start.{Checked, check_arguments, reserve, finish, start_with_audio}
use moonlight_scarlet.Conn.Lifecycle.{
  System, fresh_system, finished, reserving, finishing, at_first, then_step,
}
use moonlight_scarlet.Conn.Owned.{shared, IsOwned}
use moonlight_scarlet.Conn.Samples.{lending_core, silent}
use moonlight_scarlet.Conn.Unique as Unique

abbrev first_system : System ℕ (List ℕ)
first_system = fresh_system silent []

abbrev host : HostConnectionInfo
host = record {
  address = 104 ∷ [];
  app_version = 55 ∷ [];
  gfe_version = none;
  rtsp_session_url = 114 ∷ [];
  server_codec_mode_support = 1;
}

abbrev stream : StreamConfiguration
stream = new_configuration 1280 720 60 (replicate 16 7) (replicate 16 0)

abbrev arguments : Checked
arguments = record {
  strings = record {
    address = 104 ∷ [];
    app_version = 55 ∷ [];
    gfe_version = none;
    rtsp_session_url = 114 ∷ [];
  };
  stream = record {
    width = 1280;
    height = 720;
    fps = 60;
    bitrate = 20000;
    packet_size = 1024;
    client_refresh_rate_x100 = 6000;
    remote_input_aes_key = replicate 16 7;
    remote_input_aes_iv = replicate 16 0;
  };
  codec_support = 1;
}

accepted : check_arguments host stream ≡ ok arguments
unfolding check_arguments host_strings c_string_opt c_string validated positive_int refresh_rate
accepted = refl

-- A start that has the flag, and that has then finished.
abbrev starting_system : System ℕ (List ℕ)
starting_system = record first_system {
  process = reserve lending_core none first_system.process;
  pending = some arguments;
}

abbrev one_started : System ℕ (List ℕ)
one_started = finished starting_system (finish lending_core arguments starting_system.process)

Reachable-IsOwned_example : IsOwned (shared one_started.process) one_started.connections
Reachable-IsOwned_example = Unique.Reachable-IsOwned lending_core one_started (
    then_step (then_step (at_first silent []) (reserving host stream none arguments accepted refl))
      (finishing arguments refl))

start_available_example :
    start_with_audio lending_core host stream none first_system.process
    ≡ finish lending_core arguments (reserve lending_core none first_system.process)
start_available_example =
    Unique.start_available lending_core first_system (at_first silent []) refl (λ i. refl) host
      stream none arguments accepted
