-- ===== src/Session/Steps.antt =====
-- The steps of the operations of moonlight-control/src/session.rs that end well.
use moonlight_scarlet.Prelude.{
  ◌≡◌, refl, ap, [], ◌∷◌, inl, inr, true, if◌then◌else◌, Result, ok, err, Bool-cases, arith,
}
use moonlight_scarlet.Session.Defs.{
  Text, ControlError, unsuccessful, ServerInfo, ConnectedHost, HttpClient,
}
use moonlight_scarlet.Session.Start.{◌|>◌, require_success_flag, session_server_info}
use moonlight_scarlet.Session.Request.{is_one}

is_one_text : (t : Text) → is_one t ≡ true → t ≡ 0x31 ∷ []
is_one_text [] h = absurd (ground (arith, h))
is_one_text (c ∷ []) h = ap (λ d. d ∷ []) (ground (arith, h))
is_one_text (c ∷ d ∷ cs) h = absurd (ground (arith, h))

module _ {E W : Type 0} (client : HttpClient E W) where
  -- A sequence that ends well went through its first part.
  pub first_ok :
      {A B : Type 0} (m : Result ControlError A × W) (k : A → W → Result ControlError B × W) (b : B)
      (v : W)
      → ◌|>◌ client m k ≡ (ok b, v)
      → (a : A) × (w : W) × (m ≡ (ok a, w)) × (k a w ≡ (ok b, v))
  first_ok (ok a, w) k b v h = (a, w, refl, h)
  first_ok (err e, w) k b v h = absurd (ground (arith, ap (λ r. r.0) h))

  pub ok_injective :
      {A : Type 0} (a b : A) (w v : W)
      → ◌≡◌ {A = Result ControlError A × W} (ok a, w) (ok b, v)
      → (a ≡ b) × (w ≡ v)
  ok_injective {A = A} a b w v e = (ap (λ r. value a r.0) e, ap (λ r. r.1) e)
    where
      value : A → Result ControlError A → A
      value d (ok x) = x
      value d (err x) = d

  pub flagged :
      (xml tag : Text) (u : Unit {0})
      → require_success_flag client xml tag ≡ ok u
      → client.response_text xml tag ≡ ok (0x31 ∷ [])
  unfolding require_success_flag
  flagged xml tag u h = go (client.response_text xml tag) h
    where
      one :
          (text : Text)
          → ◌≡◌ {A = Result ControlError (Unit {0})}
              (if is_one text then ok tt else err (unsuccessful tag))
              (ok u)
          → is_one text ≡ true
      one text h = ground (arith, h)

      go :
          (r : Result ControlError Text)
          → elim r as (λ _. Result ControlError (Unit {0})) [
            | ok text ↦ if is_one text then ok tt else err (unsuccessful tag)
            | err e ↦ err e
          ]
            ≡ ok u
          → r ≡ ok (0x31 ∷ [])
      go (ok text) h = ap (λ t. ok t) (is_one_text text (one text h))
      go (err e) h = absurd (ground (arith, h))

  -- What the host said of itself, and that it says the client is paired.
  pub asked_paired :
      (host : ConnectedHost E) (w v : W) (server : ServerInfo)
      → session_server_info client host w ≡ (ok server, v)
      → (client.authenticated_server_info host.endpoint host.server.https_port w ≡ (ok server, v))
        × (server.paired ≡ true)
  unfolding session_server_info
  asked_paired host w v server h =
      let (info, w₁, asked, k) =
        first_ok (client.authenticated_server_info host.endpoint host.server.https_port w) _ server
          v h in
      elim (Bool-cases info.paired) [
        | inl on ↦
            let (same, there) = ok_injective info server w₁ v (rw on at k) in
            (rw (same, there) at asked, rw same at on)
        | inr off ↦ absurd (ground (arith, ap (λ r. r.0) (rw off at k)))
      ]
