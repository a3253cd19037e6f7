-- ===== src/Session/Start.antt =====
-- The operations of moonlight-control/src/session.rs.
use moonlight_scarlet.Prelude.{
  ℕ, not, List, [], ◌++◌, if◌then◌else◌, ◌==◌, Result, ok, err, replicate,
}
use moonlight_scarlet.Session.Defs.{
  Text, StartVerb, launch_verb, resume_verb, ControlError, already_running, nothing_to_resume,
  running_other, still_running, not_paired, empty_session_url, unsuccessful, LaunchConfig, validate,
  Application, ServerInfo, ConnectedHost, StreamSession, cancel_command, HttpClient,
}
use moonlight_scarlet.Session.Request.{
  validate_application, cancel_tag, session_url_tag, is_one, verb_command, success_tag, timeout,
  is_resume, session_arguments, is_empty_text,
}

module _ {E W : Type 0} (client : HttpClient E W) where
  -- `m?; k` where `m` talks to the network.
  infixl 5 ◌|>◌
  abbrev pub ◌|>◌ :
      {A B : Type 0}
      → Result ControlError A × W
      → (A → W → Result ControlError B × W)
      → Result ControlError B × W
  (ok a, w) |> k = k a w
  (err e, w) |> k = (err e, w)

  -- `m?; k` where `m` does not.
  abbrev pub check :
      {A B : Type 0}
      → Result ControlError A
      → W
      → (A → W → Result ControlError B × W)
      → Result ControlError B × W
  check r w k = (r, w) |> k

  unfoldable pub require_success_flag : Text → Text → Result ControlError (Unit {0})
  require_success_flag xml tag =
      elim (client.response_text xml tag) as (λ _. Result ControlError (Unit {0})) [
        | ok text ↦ if is_one text then ok tt else err (unsuccessful tag)
        | err e ↦ err e
      ]

  unfoldable pub session_server_info : ConnectedHost E → W → Result ControlError ServerInfo × W
  session_server_info host w =
      client.authenticated_server_info host.endpoint host.server.https_port w |> λ server w'.
      if not server.paired then (err not_paired, w') else (ok server, w')

  -- The end of `request_session`, from the response on.
  unfoldable pub prepared :
      ConnectedHost E
      → ServerInfo
      → Application
      → LaunchConfig
      → StartVerb
      → List ℕ
      → List ℕ
      → Text
      → W
      → Result ControlError (StreamSession E) × W
  prepared host server application config verb key iv xml w =
      check (require_success_flag xml (success_tag verb)) w λ _ w₁.
        check (client.response_text xml session_url_tag) w₁ λ session_url w₂.
          if is_empty_text session_url then (err empty_session_url, w₂) else (
            ok (record {
              endpoint = host.endpoint;
              server = record server { current_game = application.id };
              application = application;
              config = config;
              session_url = session_url;
              remote_input_aes_key = key;
              remote_input_aes_iv = iv;
              resumed = is_resume verb;
            }),
            w₂,
          )

  unfoldable pub request_session :
      ConnectedHost E
      → ServerInfo
      → Application
      → LaunchConfig
      → StartVerb
      → W
      → Result ControlError (StreamSession E) × W
  request_session host server application config verb w =
      let (key, w₁) = client.random_bytes 16 w in
      let (start, w₂) = client.random_bytes 4 w₁ in
      client.get host.endpoint server.https_port (verb_command verb)
        (session_arguments application.id config key (client.key_id_of start)) (timeout verb) w₂
      |> prepared host server application config verb key (start ++ replicate 12 0)

  -- The choice of `start_session`, of `launch` and of `resume`, given the host's state.
  unfoldable pub start_choice :
      ConnectedHost E
      → Application
      → LaunchConfig
      → ServerInfo
      → W
      → Result ControlError (StreamSession E) × W
  start_choice host application config server w =
      if server.current_game == 0
      then request_session host server application config launch_verb w
      else if server.current_game == application.id
      then request_session host server application config resume_verb w
      else (err (already_running server.current_game), w)

  unfoldable pub launch_choice :
      ConnectedHost E
      → Application
      → LaunchConfig
      → ServerInfo
      → W
      → Result ControlError (StreamSession E) × W
  launch_choice host application config server w =
      if not (server.current_game == 0)
      then (err (already_running server.current_game), w)
      else request_session host server application config launch_verb w

  unfoldable pub resume_choice :
      ConnectedHost E
      → Application
      → LaunchConfig
      → ServerInfo
      → W
      → Result ControlError (StreamSession E) × W
  resume_choice host application config server w =
      if server.current_game == 0
      then (err nothing_to_resume, w)
      else if not (server.current_game == application.id)
      then (err (running_other server.current_game), w)
      else request_session host server application config resume_verb w

  -- The checks in front of each of the three.
  unfoldable pub guarded :
      (ConnectedHost E
        → Application
        → LaunchConfig
        → ServerInfo
        → W
        → Result ControlError (StreamSession E) × W)
      → ConnectedHost E
      → Application
      → LaunchConfig
      → W
      → Result ControlError (StreamSession E) × W
  guarded choice host application config w = check (validate config) w λ _ w₁.
      check (validate_application host application) w₁
        λ _ w₂. session_server_info host w₂ |> choice host application config

  unfoldable pub start_session :
      ConnectedHost E → Application → LaunchConfig → W → Result ControlError (StreamSession E) × W
  unfolding guarded
  start_session = guarded start_choice

  unfoldable pub launch :
      ConnectedHost E → Application → LaunchConfig → W → Result ControlError (StreamSession E) × W
  unfolding guarded
  launch = guarded launch_choice

  unfoldable pub resume :
      ConnectedHost E → Application → LaunchConfig → W → Result ControlError (StreamSession E) × W
  unfolding guarded
  resume = guarded resume_choice

  unfoldable pub cancel : ConnectedHost E → W → Result ControlError ServerInfo × W
  cancel host w = session_server_info host w |> λ server w₁.
      client.get host.endpoint server.https_port cancel_command [] 30 w₁ |> λ xml w₂.
      check (require_success_flag xml cancel_tag) w₂ λ _ w₃.
        session_server_info host w₃ |> λ after w₄.
        if not (after.current_game == 0)
        then (err (still_running after.current_game), w₄)
        else (ok after, w₄)
