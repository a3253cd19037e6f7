-- ===== src/Session/Ready.antt =====
-- What moonlight-control/src/session.rs promises: the choice of the request and the checks in front
-- of it.
use moonlight_scarlet.Prelude.{
  ℕ, ◌≡◌, ◌≢◌, refl, inl, inr, true, false, ◌==◌, Result, ok, err, Result-cases, arith,
}
use moonlight_scarlet.Session.Defs.{
  ControlError, already_running, LaunchConfig, validate, Application, ServerInfo, ConnectedHost,
  StreamSession, HttpClient,
}
use moonlight_scarlet.Session.Start.{
  guarded, session_server_info, start_choice, launch_choice, resume_choice, start_session, launch,
  resume,
}
use moonlight_scarlet.Session.Request.{validate_application}
use moonlight_scarlet.Session.Valid.{
  IsPlayable, IsOffered, validate-IsPlayable, validate_application-IsOffered,
}

module _ {E W : Type 0} (client : HttpClient E W) where
  open client use {authenticated_server_info}

  abbrev pub Started : Type 0
  Started = Result ControlError (StreamSession E) × W

  abbrev Choice : Type 0
  Choice = ConnectedHost E → Application → LaunchConfig → ServerInfo → W → Started

  -- Two choices that agree on the host's answer agree behind the same checks.
  guarded_same :
      (one other : Choice) (host : ConnectedHost E) (a : Application) (c : LaunchConfig) (w w' : W)
      (server : ServerInfo)
      → session_server_info client host w ≡ (ok server, w')
      → one host a c server w' ≡ other host a c server w'
      → guarded client one host a c w ≡ guarded client other host a c w
  unfolding guarded
  guarded_same one other host a c w w' server asked same = elim (Result-cases (validate c)) [
    | inr (e, v) ↦ simp v refl
    | inl (u, v) ↦ elim (Result-cases (validate_application host a)) [
      | inr (e, k) ↦ simp (v, k) refl
      | inl (u', k) ↦ simp (v, k, asked) same
    ]
  ]

  -- Starting is launching on an idle host and resuming on a host that runs the application; on any
  -- other host it is refused, after the question and without a request.
  pub start_session_cases :
      (host : ConnectedHost E) (a : Application) (c : LaunchConfig) (w w' : W) (server : ServerInfo)
      → session_server_info client host w ≡ (ok server, w')
      → (server.current_game ≡ 0 → start_session client host a c w ≡ launch client host a c w)
        × (server.current_game ≢ 0
            → server.current_game ≡ a.id
            → start_session client host a c w ≡ resume client host a c w)
        × (server.current_game ≢ 0
            → server.current_game ≢ a.id
            → validate c ≡ ok tt
            → validate_application host a ≡ ok tt
            → start_session client host a c w ≡ (err (already_running server.current_game), w'))
  unfolding start_session launch resume guarded start_choice launch_choice resume_choice
  start_session_cases host a c w w' server asked = (
    (λ idle.
        guarded_same (start_choice client) (launch_choice client) host a c w w' server asked
          (simp (eqb idle) refl)),
    (λ busy same.
        guarded_same (start_choice client) (resume_choice client) host a c w w' server asked
          (simp (neb busy, eqb same) refl)),
    λ busy other v k. simp (v, k, asked, neb busy, neb other) refl,
  )
    where
      eqb : {n m : ℕ} → n ≡ m → (n == m) ≡ true
      eqb e = ground (arith, e)

      neb : {n m : ℕ} → n ≢ m → (n == m) ≡ false
      neb e = ground (arith, e)

  -- When the configuration has no mode or a bitrate out of range, or the application has the identifier
  -- 0 or is not in the host's list, then starting, launching and resuming all report the same error and
  -- leave the network as it was.
  pub guarded_silent :
      (host : ConnectedHost E) (a : Application) (c : LaunchConfig) (w : W)
      → ¬ (IsPlayable c × IsOffered a host.applications)
      → (e : ControlError) × (start_session client host a c w ≡ (err e, w))
        × (launch client host a c w ≡ (err e, w))
        × (resume client host a c w ≡ (err e, w))
  unfolding start_session launch resume guarded
  guarded_silent host a c w bad = elim (Result-cases (validate c)) [
    | inr (e, v) ↦ (e, simp v, simp v, simp v)
    | inl (u, v) ↦ elim (Result-cases (validate_application host a)) [
      | inr (e, k) ↦ (e, simp (v, k), simp (v, k), simp (v, k))
      | inl (u', k) ↦
          absurd (bad (validate-IsPlayable c u v, validate_application-IsOffered host a u' k))
    ]
  ]
