-- ===== src/Conn/Lifecycle.antt =====
-- Connections over the life of the process: every order of starts, stops, requests, terminations,
-- frames and other moves of the core.
use moonlight_scarlet.Prelude.{
  ℕ, ◌<◌, ◌≡◌, true, false, Option, none, some, List, [], ◌∷◌, ◌++◌, Result, ok, err, length,
  get_or, set,
}
use moonlight_scarlet.Audio.Callbacks.{AudioStatics}
use moonlight_scarlet.Sys.Stream.{StreamConfiguration}
use moonlight_scarlet.Conn.Defs.{HostConnectionInfo, ConnectionError, HostStrings, Connection}
use moonlight_scarlet.Conn.Bridge.{Bridge, Process}
use moonlight_scarlet.Conn.Start.{
  Checked, check_arguments, reserve, finish, start_with_audio, stop, request_stop,
  connection_terminated,
}
use moonlight_scarlet.Conn.Frames.{wait_for_video_frame}

abbrev pub no_strings : HostStrings
no_strings = record { address = []; app_version = []; gfe_version = none; rtsp_session_url = [] }

-- The connection of an index that names none.
abbrev pub closed : Connection
closed = record { strings = no_strings; state = 0; stopped = true }

-- The process, the connections that were handed out, each under the order of its start, and the
-- arguments of the start that has the flag and has not finished, if there is one.
pub record System (R B : Type 0) : Type 0 where
  pub process : Process R B
  pub connections : List Connection
  pub pending : Option Checked

module _ {R B : Type 0} where
  abbrev pub connection_at : System R B → ℕ → Connection
  connection_at s i = get_or s.connections i closed

  abbrev pub IsLive : System R B → ℕ → Type 0
  IsLive s i = (connection_at s i).stopped ≡ false

  abbrev pub handed_out : System R B → Result ConnectionError Connection × Process R B → System R B
  handed_out s (ok c, p) = record s { process = p; connections = s.connections ++ (c ∷ []) }
  handed_out s (err e, p) = record s { process = p }

  abbrev pub stopped_at : ℕ → System R B → Connection × Process R B → System R B
  stopped_at i s (c, p) = record s { process = p; connections = set s.connections i c }

  abbrev pub finished : System R B → Result ConnectionError Connection × Process R B → System R B
  finished s r = record (handed_out s r) { pending = none }

  -- What happens to the process, in any order. A start runs in one step, or in two with steps of other
  -- threads between them.
  pub data Step (bridge : Bridge R B) (s : System R B) : System R B → Type 0 where
    starting :
        (host : HostConnectionInfo) (stream : StreamConfiguration) (renderer : Option R)
        → Step bridge s (handed_out s (start_with_audio bridge host stream renderer s.process))
    reserving :
        (host : HostConnectionInfo) (stream : StreamConfiguration) (renderer : Option R)
        (c : Checked)
        → check_arguments host stream ≡ ok c
        → s.process.connection_active ≡ false
        → Step bridge s (record s { process = reserve bridge renderer s.process; pending = some c })
    finishing :
        (c : Checked) → s.pending ≡ some c → Step bridge s (finished s (finish bridge c s.process))
    stopping :
        (i : ℕ)
        → i < length s.connections
        → Step bridge s (stopped_at i s (stop bridge (connection_at s i) s.process))
    requesting : (id : ℕ) → Step bridge s (record s { process = request_stop bridge id s.process })
    terminating : Step bridge s (record s { process = connection_terminated bridge s.process })
    waiting :
        (i : ℕ)
        → Step bridge s
            (record s { process = (wait_for_video_frame bridge (connection_at s i) s.process).1 })
    -- the core, its audio callbacks, and frames that are given back
    moving :
        (a : AudioStatics R) (core : B)
        → Step bridge s (record s { process = record s.process { audio = a; core = core } })

  -- The process before the first start.
  abbrev pub fresh_system : AudioStatics R → B → System R B
  fresh_system a core = record {
    process = record {
      connection_active = false;
      audio = a;
      wake_state = none;
      states = [];
      core = core;
    };
    connections = [];
    pending = none;
  }

  pub data Reachable (bridge : Bridge R B) : System R B → Type 0 where
    at_first : (a : AudioStatics R) (core : B) → Reachable bridge (fresh_system a core)
    then_step : {s t : System R B} → Reachable bridge s → Step bridge s t → Reachable bridge t
