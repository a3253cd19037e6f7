-- ===== src/Session/Tests.antt =====
-- The theorems on sessions at a concrete host.
use moonlight_scarlet.Prelude.{
  ℕ, ◌≡◌, ◌≢◌, refl, true, false, none, List, [], ◌∷◌, ◌++◌, if◌then◌else◌, ◌==◌, ok, err,
  replicate, arith,
}
use moonlight_scarlet.Prelude.Int.{pos}
use moonlight_scarlet.Session.Defs.{
  Text, ControlError, already_running, LaunchConfig, default_config, validate, Application,
  ServerInfo, ConnectedHost, StreamSession, Command, launch_command, resume_command, cancel_command,
  Argument, appid, decimal, HttpClient,
}
use moonlight_scarlet.Session.Start.{
  start_session, launch, resume, cancel, guarded, start_choice, request_session, prepared,
  session_server_info, require_success_flag,
}
use moonlight_scarlet.Session.Request.{validate_application, session_arguments}
use moonlight_scarlet.Session.Valid.{IsPlayable, IsOffered}
use moonlight_scarlet.Session.Ready
use moonlight_scarlet.Session.Outcome

-- The world is the application that the host runs, 0 for none; the host answers 1, and a URL.
abbrev obey : Command → List Argument → ℕ → ℕ
obey launch_command (appid (decimal n) ∷ rest) w = n
obey launch_command rest w = w
obey resume_command rest w = w
obey cancel_command rest w = 0

abbrev text_at : Text → Text
text_at [] = []
text_at (c ∷ rest) = if c == 0x73 then 0x72 ∷ 0x74 ∷ [] else 0x31 ∷ []

abbrev server_at : ℕ → ServerInfo
server_at game = record {
  hostname = [];
  unique_id = [];
  app_version = [];
  gfe_version = none;
  server_codec_mode_support = 1;
  https_port = 47984;
  paired = true;
  current_game = game;
  state = [];
}

abbrev client : HttpClient ℕ ℕ
client = record {
  authenticated_server_info = λ e port w. (ok (server_at w), w);
  get = λ e port command arguments timeout w. (ok [], obey command arguments w);
  response_text = λ xml tag. ok (text_at tag);
  random_bytes = λ n w. (replicate n 7, w);
  key_id_of = λ bytes. pos 7;
}

abbrev desktop : Application
desktop = record { id = 42; title = [] }

abbrev host : ConnectedHost ℕ
host = record {
  endpoint = 1;
  server = server_at 0;
  applications = record { id = 7; title = [] } ∷ desktop ∷ [];
  newly_paired = false;
}

program : Unit {0}
unfolding start_session launch resume cancel guarded start_choice request_session prepared
    session_server_info require_success_flag validate_application validate session_arguments
program = tt

abbrev busy : ServerInfo
busy = server_at 7

asked : session_server_info client host 7 ≡ (ok busy, 7)
unfolding program
asked = refl

start_session_cases_example :
    (busy.current_game ≡ 0
      → start_session client host desktop default_config 7
        ≡ launch client host desktop default_config 7)
    × (busy.current_game ≢ 0
        → busy.current_game ≡ 42
        → start_session client host desktop default_config 7
          ≡ resume client host desktop default_config 7)
    × (busy.current_game ≢ 0
        → busy.current_game ≢ 42
        → validate default_config ≡ ok tt
        → validate_application host desktop ≡ ok tt
        → start_session client host desktop default_config 7 ≡ (err (already_running 7), 7))
start_session_cases_example =
    Ready.start_session_cases client host desktop default_config 7 7 busy asked

abbrev no_width : LaunchConfig
no_width = record default_config { width = 0 }

no_width-unplayable : ¬ (IsPlayable no_width × IsOffered desktop host.applications)
no_width-unplayable h = ground (arith, h.0.width)

guarded_silent_example :
    (e : ControlError) × (start_session client host desktop no_width 0 ≡ (err e, 0))
    × (launch client host desktop no_width 0 ≡ (err e, 0))
    × (resume client host desktop no_width 0 ≡ (err e, 0))
guarded_silent_example = Ready.guarded_silent client host desktop no_width 0 no_width-unplayable

abbrev session : StreamSession ℕ
session = record {
  endpoint = 1;
  server = record busy { current_game = 42 };
  application = desktop;
  config = default_config;
  session_url = 0x72 ∷ 0x74 ∷ [];
  remote_input_aes_key = replicate 16 7;
  remote_input_aes_iv = replicate 4 7 ++ replicate 12 0;
  resumed = false;
}

launched : start_session client host desktop default_config 0 ≡ (ok session, 42)
unfolding program
launched = refl

start_session-IsReady_example :
    IsPlayable default_config
    × IsOffered desktop host.applications
    × (server : ServerInfo) × (asked_at : ℕ) × (client.authenticated_server_info host.endpoint
          host.server.https_port 0
        ≡ (ok server, asked_at))
    × (server.paired ≡ true)
    × Outcome.IsReady client host desktop default_config server asked_at session 42
start_session-IsReady_example =
    Outcome.start_session-IsReady client host desktop default_config 0 42 session launched

abbrev idle : ServerInfo
idle = record busy { current_game = 0 }

cancelled : cancel client host 42 ≡ (ok idle, 0)
unfolding program
cancelled = refl

cancel_confirms_example : Outcome.IsConfirmed client host 42 idle 0
cancel_confirms_example = Outcome.cancel_confirms client host 42 0 idle cancelled
