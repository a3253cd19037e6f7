-- ===== src/Conn/Samples.antt =====
-- A core that lends frames, for the modules of tests.
use moonlight_scarlet.Prelude.{ℕ, ◌^◌, ◌-◌, false, true, none, some, List, [], ◌∷◌}
use moonlight_scarlet.Prelude.Int.{pos, negsuc}
use moonlight_scarlet.Audio.Callbacks.{AudioStatics}
use moonlight_scarlet.Conn.Bridge.{Bridge}

abbrev pub less_one : List ℕ → List ℕ
less_one [] = []
less_one (h ∷ rest) = rest

-- A core that has a frame of three bytes whenever it is asked, and keeps the handles of those out.
abbrev pub lending_core : Bridge ℕ (List ℕ)
lending_core = record {
  start_connection = λ strings codec stream s. (pos 0, s);
  stop_connection = λ b. b;
  wake_video_frame = λ b. b;
  wait_video_frame = λ s.
      (record { available = true; frame_handle = some 7; decode_unit = some 1 }, (s.0, 7 ∷ s.1));
  full_length = λ u b. pos 3;
  frame_number = λ u b. pos 0;
  frame_type = λ u b. pos 1;
  presentation_time_us = λ u b. 0;
  hdr_active = λ u b. false;
  colorspace = λ u b. 0;
  copy_video_frame = λ u n b. (pos 3, 0 ∷ 0 ∷ 1 ∷ []);
  complete_video_frame = λ h status b. less_one b;
  last_stage = λ b. pos 0;
  stage_error = λ b. pos 0;
  termination_error = λ b. negsuc (2 ^ 31 - 1);
  connection_started = λ b. true;
  video_format = λ b. pos 1;
  video_width = λ b. pos 1280;
  video_height = λ b. pos 720;
  video_fps = λ b. pos 60;
}

abbrev pub silent : AudioStatics ℕ
silent = record { renderer = none; error = none; failed = false }
