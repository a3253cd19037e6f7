-- ===== src/Session/Outcome.antt =====
-- The session that moonlight-control/src/session.rs hands over, and the state that a cancellation
-- confirms.
use moonlight_scarlet.Prelude.{
  ℕ, ◌≡◌, refl, sym, ap, ◌∙◌, subst, [], ◌∷◌, inl, inr, true, false, List, ◌++◌, ◌==◌, ok,
  Bool-cases, replicate, arith,
}
use moonlight_scarlet.Session.Defs.{
  Text, StartVerb, launch_verb, resume_verb, LaunchConfig, validate, Application, ServerInfo,
  ConnectedHost, StreamSession, HttpClient, cancel_command,
}
use moonlight_scarlet.Session.Start.{
  guarded, require_success_flag, session_server_info, prepared, request_session, start_choice,
  start_session, cancel,
}
use moonlight_scarlet.Session.Request.{
  validate_application, is_empty_text, is_resume, success_tag, cancel_tag, verb_command,
  session_arguments, timeout, session_url_tag,
}
use moonlight_scarlet.Session.Valid.{
  IsPlayable, IsOffered, validate-IsPlayable, validate_application-IsOffered,
}
use moonlight_scarlet.Session.Steps.{first_ok, ok_injective, flagged, asked_paired}

module _ {E W : Type 0} (client : HttpClient E W) where
  -- A session for the application and the configuration that were asked for, on the host's endpoint
  -- and recorded as running in what the host said last, which was `server`. After that the key was
  -- drawn, the host was sent the request with it, and answered with the flag of success and the URL.
  pub record IsReady (host : ConnectedHost E) (a : Application) (c : LaunchConfig)
      (server : ServerInfo) (asked : W) (s : StreamSession E) (v : W) : Type 0 where
    pub endpoint : s.endpoint ≡ host.endpoint
    pub running : s.server ≡ record server { current_game = a.id }
    pub key : s.remote_input_aes_key ≡ (client.random_bytes 16 asked).0
    pub application : s.application ≡ a
    pub config : s.config ≡ c
    pub url : is_empty_text s.session_url ≡ false
    pub verb : StartVerb
    pub resumed : s.resumed ≡ is_resume verb
    pub start_bytes : List ℕ
    pub drawn : start_bytes ≡ (client.random_bytes 4 (client.random_bytes 16 asked).1).0
    pub iv : s.remote_input_aes_iv ≡ start_bytes ++ replicate 12 0
    pub xml : Text
    pub answered :
        client.get host.endpoint s.server.https_port
          (verb_command verb)
          (session_arguments a.id c s.remote_input_aes_key (client.key_id_of start_bytes))
          (timeout verb)
          (client.random_bytes 4 (client.random_bytes 16 asked).1).1
        ≡ (ok xml, v)
    pub success : client.response_text xml (success_tag verb) ≡ ok (0x31 ∷ [])
    pub reported : client.response_text xml session_url_tag ≡ ok s.session_url

  request_session-IsReady :
      (host : ConnectedHost E) (server : ServerInfo) (a : Application) (c : LaunchConfig)
      (verb : StartVerb) (w v : W) (s : StreamSession E)
      → request_session client host server a c verb w ≡ (ok s, v)
      → IsReady host a c server w s v
  unfolding request_session prepared
  request_session-IsReady host server a c verb w v s h =
      let (key, w₁) = client.random_bytes 16 w in
      let (start, w₂) = client.random_bytes 4 w₁ in
      let (xml, w₃, answered, k) =
        first_ok client
          (client.get host.endpoint server.https_port (verb_command verb)
            (session_arguments a.id c key (client.key_id_of start)) (timeout verb) w₂)
          (prepared client host server a c verb key (start ++ replicate 12 0)) s v h in
      let (u, w₄, good, h₁) =
        first_ok client (require_success_flag client xml (success_tag verb), w₃) _ s v k in
      let (url, w₅, found, h₂) =
        first_ok client (client.response_text xml session_url_tag, w₄) _ s v h₁ in
      elim (Bool-cases (is_empty_text url)) [
        | inl blank ↦ absurd (ground (arith, ap (λ r. r.0) (rw blank at h₂)))
        | inr full ↦
            let (same, there) = ok_injective client _ s w₅ v (rw full at h₂) in
            subst (λ x. IsReady host a c server w x v) same
              (record {
                endpoint = refl;
                running = refl;
                key = refl;
                application = refl;
                config = refl;
                url = full;
                verb = verb;
                resumed = refl;
                start_bytes = start;
                drawn = refl;
                iv = refl;
                xml = xml;
                answered =
                    answered
                    ∙ ap (λ x. (ok xml, x)) (ap (λ r. r.1) good ∙ ap (λ r. r.1) found ∙ there);
                success = flagged client xml (success_tag verb) u (ap (λ r. r.0) good);
                reported = ap (λ r. r.0) found;
              })
      ]

  start_choice-IsReady :
      (host : ConnectedHost E) (a : Application) (c : LaunchConfig) (server : ServerInfo) (w v : W)
      (s : StreamSession E)
      → start_choice client host a c server w ≡ (ok s, v)
      → IsReady host a c server w s v
  unfolding start_choice
  start_choice-IsReady host a c server w v s h = elim (Bool-cases (server.current_game == 0)) [
    | inl idle ↦ request_session-IsReady host server a c launch_verb w v s (rw idle at h)
    | inr busy ↦ elim (Bool-cases (server.current_game == a.id)) [
      | inl same ↦ request_session-IsReady host server a c resume_verb w v s (rw (busy, same) at h)
      | inr other ↦ absurd (ground (arith, ap (λ r. r.0) (rw (busy, other) at h)))
    ]
  ]

  -- Starting a session that succeeds was for a configuration with a mode and a bitrate in range and for
  -- an application of the host's list whose identifier is not 0. The host was asked and said that the
  -- client is paired. The session is for these on the endpoint of the host, records the application as
  -- running in that answer, and the host has then answered the request that carries the session's key
  -- with the flag of success and the session's URL.
  pub start_session-IsReady :
      (host : ConnectedHost E) (a : Application) (c : LaunchConfig) (w v : W) (s : StreamSession E)
      → start_session client host a c w ≡ (ok s, v)
      → IsPlayable c
        × IsOffered a host.applications
        × (server : ServerInfo) × (asked : W) × (client.authenticated_server_info host.endpoint
              host.server.https_port w
            ≡ (ok server, asked))
        × (server.paired ≡ true)
        × IsReady host a c server asked s v
  unfolding start_session guarded
  start_session-IsReady host a c w v s h =
      let (u, w₁, good, h₁) = first_ok client (validate c, w) _ s v h in
      let (u', w₂, known, h₂) = first_ok client (validate_application host a, w₁) _ s v h₁ in
      let (server, w₃, asked, h₃) = first_ok client (session_server_info client host w₂) _ s v h₂ in
      let (heard, paired) = asked_paired client host w₂ w₃ server asked in
      (
        validate-IsPlayable c u (ap (λ r. r.0) good),
        validate_application-IsOffered host a u' (ap (λ r. r.0) known),
        server,
        w₃,
        ap (client.authenticated_server_info host.endpoint host.server.https_port)
              (ap (λ r. r.1) good ∙ ap (λ r. r.1) known)
            ∙ heard,
        paired,
        start_choice-IsReady host a c server w₃ v s h₃,
      )

  -- The host was asked and said that the client is paired, the cancel request was sent and answered
  -- with the flag of success, and the host was asked again after it: the answer to that question is
  -- what the cancellation returns.
  pub record IsConfirmed (host : ConnectedHost E) (w : W) (after : ServerInfo) (v : W)
      : Type 0 where
    pub server : ServerInfo
    pub before : W
    pub first :
        client.authenticated_server_info host.endpoint host.server.https_port w
        ≡ (ok server, before)
    pub first_paired : server.paired ≡ true
    pub xml : Text
    pub sent : W
    pub cancelled :
        client.get host.endpoint server.https_port cancel_command [] 30 before ≡ (ok xml, sent)
    pub success : client.response_text xml cancel_tag ≡ ok (0x31 ∷ [])
    pub heard :
        client.authenticated_server_info host.endpoint host.server.https_port sent ≡ (ok after, v)
    pub paired : after.paired ≡ true
    pub idle : after.current_game ≡ 0

  -- A cancellation that succeeds was told that the client is paired, has then sent the cancel request
  -- and had the flag of success for it, and returns what the host answers when it is asked again after that: still paired, and nothing is
  -- running.
  pub cancel_confirms :
      (host : ConnectedHost E) (w v : W) (after : ServerInfo)
      → cancel client host w ≡ (ok after, v)
      → IsConfirmed host w after v
  unfolding cancel
  cancel_confirms host w v after h =
      let (server, w₁, begun, h₁) =
        first_ok client (session_server_info client host w) _ after v h in
      let (xml, w₂, cancelled, h₂) =
        first_ok client (client.get host.endpoint server.https_port cancel_command [] 30 w₁) _ after
          v h₁ in
      let (u, w₃, good, h₃) =
        first_ok client (require_success_flag client xml cancel_tag, w₂) _ after v h₂ in
      let (last, w₄, asked, h₄) =
        first_ok client (session_server_info client host w₃) _ after v h₃ in
      elim (Bool-cases (last.current_game == 0)) [
        | inl idle ↦
            let (same, there) = ok_injective client last after w₄ v (rw idle at h₄) in
            let (heard, paired) = asked_paired client host w₃ w₄ last asked in
            let kept = ap (λ r. r.1) good in
            record {
              server = server;
              first = (asked_paired client host w w₁ server begun).0;
              first_paired = (asked_paired client host w w₁ server begun).1;
              xml = xml;
              before = w₁;
              sent = w₂;
              cancelled = cancelled;
              success = flagged client xml cancel_tag u (ap (λ r. r.0) good);
              heard = rw (same, there, sym kept) at heard;
              paired = rw same at paired;
              idle = ground (arith, (rw same at idle));
            }
        | inr busy ↦ absurd (ground (arith, ap (λ r. r.0) (rw busy at h₄)))
      ]
