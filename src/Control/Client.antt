-- ===== src/Control/Client.antt =====
-- `GameStreamClient::server_info`, `connect` and `pair` of moonlight-control/src/client.rs.
use moonlight_scarlet.Prelude.{
  ℕ, ◌*◌, ◌+◌, ◌%◌, ◌/◌, Bool, true, false, not, List, [], ◌∷◌, if◌then◌else◌, ◌==◌, Result, ok,
  err, get_or,
}
use moonlight_scarlet.Session.Defs.{Text, ServerInfo, Application, ConnectedHost}
use moonlight_scarlet.Control.Defs.{
  ClientError, currently_streaming, not_reported_paired, Endpoint, parse_endpoint, ParsedUrl,
  fetching_server_info, waiting_for_pin, fetching_applications,
}
use moonlight_scarlet.Control.Calls.{World, Call, ◌>>=◌, lift, note_progress}
use moonlight_scarlet.Control.Xml.{XmlApi, parse_server_info, parse_applications}
use moonlight_scarlet.Control.Pairing.{
  Network, Crypto, http, https, serverinfo, applist, unpair, get, random, request_timeout,
  pair_inner,
}

-- `u16::from_be_bytes(..) % 10_000`, and the four digits of it.
abbrev pub pin_of : List ℕ → ℕ
pin_of bytes = (get_or bytes 0 0 * 256 + get_or bytes 1 0) % 10000

abbrev pub pin_digits : ℕ → List ℕ
pin_digits n = (48 + n / 1000 % 10) ∷ (48 + n / 100 % 10) ∷ (48 + n / 10 % 10) ∷ (48 + n % 10) ∷ []

module _ {N : Type 0} (net : Network N) (api : XmlApi) (crypto : Crypto)
    (parse_url : Text → Result Text ParsedUrl) where
  unfoldable pub server_info : Text → Call N (Endpoint × ServerInfo)
  server_info address = lift (parse_endpoint parse_url address) >>= λ endpoint.
      get net api crypto endpoint http endpoint.http_port serverinfo [] request_timeout
      >>= λ answer. lift (parse_server_info api answer) >>= λ server. lift (ok (endpoint, server))

  unfoldable pub authenticated_server_info : Endpoint → ℕ → Call N ServerInfo
  authenticated_server_info endpoint https_port =
      get net api crypto endpoint https https_port serverinfo [] request_timeout >>= λ answer.
      lift (parse_server_info api answer)

  unfoldable pub applications : Endpoint → ℕ → Call N (List Application)
  applications endpoint https_port =
      get net api crypto endpoint https https_port applist [] request_timeout >>= λ answer.
      lift (parse_applications api answer)

  -- A pairing that failed is taken back; whether that works is not looked at.
  abbrev pub unpaired :
      Endpoint → Result ClientError (Unit {0}) × World N → Result ClientError (Unit {0}) × World N
  unpaired endpoint (ok u, w) = (ok u, w)
  unpaired endpoint (err e, w) =
      (err e, (get net api crypto endpoint http endpoint.http_port unpair [] request_timeout w).1)

  unfoldable pub pair : Endpoint → ServerInfo → List ℕ → Call N (Unit {0})
  pair endpoint server pin w = unpaired endpoint (pair_inner net api crypto endpoint server pin w)

  -- The applications of a host that is paired.
  unfoldable pub listed : Endpoint → ServerInfo → Bool → Call N (ConnectedHost Endpoint)
  listed endpoint server newly = applications endpoint server.https_port >>= λ apps. lift (
      ok (record {
        endpoint = endpoint;
        server = server;
        applications = apps;
        newly_paired = newly;
      }))

  -- After a pairing.
  unfoldable pub confirm_paired : Endpoint → ServerInfo → Call N (ConnectedHost Endpoint)
  confirm_paired endpoint server = note_progress fetching_applications >>= λ _.
      authenticated_server_info endpoint server.https_port >>= λ after.
      lift (if not after.paired then err not_reported_paired else ok after) >>= λ s.
      listed endpoint s true

  unfoldable pub connect_unpaired : Endpoint → ServerInfo → Call N (ConnectedHost Endpoint)
  connect_unpaired endpoint server =
      lift (if not (server.current_game == 0) then err currently_streaming else ok tt) >>= λ _.
      random net api crypto 2 >>= λ bytes. note_progress (waiting_for_pin (pin_of bytes)) >>= λ _.
      pair endpoint server (pin_digits (pin_of bytes)) >>= λ _. confirm_paired endpoint server

  -- On the authenticated server information, which a client that is not paired may not get.
  unfoldable pub connect_known :
      Endpoint
      → ServerInfo
      → Result ClientError ServerInfo × World N
      → Result ClientError (ConnectedHost Endpoint) × World N
  connect_known endpoint server (err e, w) = connect_unpaired endpoint server w
  connect_known endpoint server (ok a, w) =
      if a.paired
      then (note_progress fetching_applications >>= λ _. listed endpoint a false) w
      else connect_unpaired endpoint server w

  unfoldable pub connect : Text → Call N (ConnectedHost Endpoint)
  unfolding server_info
  connect address = note_progress fetching_server_info >>= λ _. server_info address >>= λ found.
      λ w. connect_known found.0 found.1 (authenticated_server_info found.0 found.1.https_port w)
