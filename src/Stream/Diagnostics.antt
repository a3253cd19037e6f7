-- ===== src/Stream/Diagnostics.antt =====
-- `Stage`, `Progress` and `Monitor::enter` of moonlight/src/stream_diagnostics.rs. Instants and
-- durations are numbers of one unit; an instant before `since` gives no duration.
use moonlight_scarlet.Prelude.{ℕ, ◌-◌, ◌+◌, ◌%◌, ◌^◌, List, [], ◌∷◌, set, get_or, max}

pub data Stage : Type 0 where
  receive copy submit dequeue present complete : Stage

-- `stage as usize`
abbrev pub index : Stage → ℕ
index receive = 0
index copy = 1
index submit = 2
index dequeue = 3
index present = 4
index complete = 5

pub record Progress : Type 0 where
  pub stage : Stage
  pub since : ℕ
  pub frames : ℕ
  pub longest : List ℕ

-- The state that `Monitor::start` makes.
abbrev pub initial : ℕ → Progress
initial now = record {
  stage = receive;
  since = now;
  frames = 0;
  longest = 0 ∷ 0 ∷ 0 ∷ 0 ∷ 0 ∷ 0 ∷ [];
}

abbrev pub frames_after : Stage → ℕ → ℕ
frames_after complete n = (n + 1) % 2 ^ 64
frames_after receive n = n
frames_after copy n = n
frames_after submit n = n
frames_after dequeue n = n
frames_after present n = n

-- `Monitor::enter`, which reads the clock twice.
unfoldable pub enter : ℕ → ℕ → Stage → Progress → Progress
enter elapsed_at now stage p = record {
  stage = stage;
  since = now;
  frames = frames_after p.stage p.frames;
  longest =
      set p.longest (index p.stage)
        (max (get_or p.longest (index p.stage) 0) (elapsed_at - p.since));
}
