-- ===== src/Control/Paired.antt =====
-- What a connected host has passed, `connect` of moonlight-control/src/client.rs.
use moonlight_scarlet.Prelude.{
  ℕ, ◌≡◌, refl, ap, subst, ◌∙◌, sym, Bool, true, false, not, List, [], if◌then◌else◌, ◌==◌, Result,
  ok, err, ok_injective, arith,
}
use moonlight_scarlet.Session.Defs.{Text, ServerInfo, ConnectedHost}
use moonlight_scarlet.Control.Defs.{
  ClientError, currently_streaming, not_reported_paired, Endpoint, ParsedUrl, fetching_server_info,
  fetching_applications, waiting_for_pin,
}
use moonlight_scarlet.Control.Calls.{World, ◌>>=◌, note_progress, call_ok, lift_ok, lifted_ok}
use moonlight_scarlet.Control.Xml.{XmlApi, parse_server_info}
use moonlight_scarlet.Control.Pairing.{
  Network, Crypto, https, serverinfo, get, request_timeout, pair_inner, random,
}
use moonlight_scarlet.Control.Client.{
  pin_of, pin_digits, applications, authenticated_server_info, server_info, pair, unpaired, listed,
  confirm_paired, connect_unpaired, connect_known, connect,
}
use moonlight_scarlet.Control.Accepted.{get_ok}
use moonlight_scarlet.Control.Proved.{IsAuthentic, pair_inner-IsAuthentic}

module _ {N : Type 0} (net : Network N) (api : XmlApi) (crypto : Crypto)
    (parse_url : Text → Result Text ParsedUrl) where
  -- The endpoint answers over HTTPS, the network going from `before` to `after`, with this server
  -- information.
  pub record IsReported (endpoint : Endpoint) (port : ℕ) (server : ServerInfo) (before after : N)
      : Type 0 where
    pub answer : Text
    pub sent :
        net.send_request endpoint https port serverinfo [] request_timeout before
        ≡ (ok answer, after)
    pub read : parse_server_info api answer ≡ ok server

  -- A pairing of the endpoint that begins at one state of the network and ends in another, on a PIN
  -- made of two random bytes.
  pub record IsPairing (endpoint : Endpoint) (server : ServerInfo) (before after : N) : Type 0 where
    pub idle : server.current_game ≡ 0
    pub start : World N
    pub done : World N
    pub drawn : start.network ≡ (net.random_bytes 2 before).1
    pub ended : done.network ≡ after
    pub authentic :
        IsAuthentic net api crypto endpoint server
          (pin_digits (pin_of (net.random_bytes 2 before).0))
          start
          done

  -- A run of `connect` on a host whose public server information was `public`, from `asked` on: the
  -- host's own word, got over HTTPS, is that the client is paired, and the applications were asked for
  -- after that. A newly paired one was asked for its word a second time, right after the pairing.
  pub record IsConnected (public : ServerInfo) (asked w' : World N) (h : ConnectedHost Endpoint)
      : Type 0 where
    pub paired : h.server.paired ≡ true
    pub before : N
    pub after : N
    pub reported : IsReported h.endpoint public.https_port h.server before after
    pub known : h.newly_paired ≡ false → before ≡ asked.network
    pub pairing :
        h.newly_paired ≡ true
        → IsPairing h.endpoint public
            (authenticated_server_info net api crypto parse_url h.endpoint public.https_port
              asked).1.network
            before
    pub fetching : World N
    pub fetched : fetching.network ≡ after
    pub applications :
        applications net api crypto parse_url h.endpoint h.server.https_port fetching
        ≡ (ok h.applications, w')

  listed_host :
      (endpoint : Endpoint) (server : ServerInfo) (newly : Bool) (w w' : World N)
      (h : ConnectedHost Endpoint)
      → listed net api crypto parse_url endpoint server newly w ≡ (ok h, w')
      → (apps : List _) × (applications net api crypto parse_url endpoint server.https_port w
          ≡ (ok apps, w'))
        × (record {
          endpoint = endpoint;
          server = server;
          applications = apps;
          newly_paired = newly;
        }
            ≡ h)
  unfolding listed
  listed_host endpoint server newly w w' h e =
      let (apps, v, found, e1) =
        call_ok (applications net api crypto parse_url endpoint server.https_port) _ w w' h e in
      (apps, found ∙ ap (λ r. (ok apps, r.1)) e1, ok_injective _ h (lifted_ok _ h v w' e1))

  reported_ok :
      (endpoint : Endpoint) (port : ℕ) (server : ServerInfo) (w v : World N)
      → authenticated_server_info net api crypto parse_url endpoint port w ≡ (ok server, v)
      → IsReported endpoint port server w.network v.network
  unfolding authenticated_server_info
  reported_ok endpoint port server w v e =
      let (answer, u, got, e1) =
        call_ok (get net api crypto endpoint https port serverinfo [] request_timeout) _ w v server
          e in
      record {
        answer = answer;
        sent =
            get_ok net api crypto endpoint https port serverinfo [] request_timeout w u answer got
            ∙ ap (λ r. (ok answer, r.1.network)) e1;
        read = ap (λ r. r.0) e1;
      }

  paired_checked :
      (s a : ServerInfo)
      → (if not s.paired then err not_reported_paired else ok s) ≡ ok a
      → (s.paired ≡ true) × (s ≡ a)
  paired_checked s a e = go s.paired refl e
    where
      go :
          (b : Bool)
          → s.paired ≡ b
          → ◌≡◌ {A = Result ClientError ServerInfo}
              (if not b then err not_reported_paired else ok s)
              (ok a)
          → (s.paired ≡ true) × (s ≡ a)
      go true h e = (h, ok_injective s a e)
      go false h e = absurd (ground (arith, e))

  pair_ok :
      (endpoint : Endpoint) (server : ServerInfo) (pin : List ℕ) (w w' : World N)
      → pair net api crypto parse_url endpoint server pin w ≡ (ok tt, w')
      → pair_inner net api crypto endpoint server pin w ≡ (ok tt, w')
  unfolding pair
  pair_ok endpoint server pin w w' e = go (pair_inner net api crypto endpoint server pin w) e
    where
      go :
          (r : Result ClientError (Unit {0}) × World N)
          → unpaired net api crypto parse_url endpoint r ≡ (ok tt, w')
          → r ≡ (ok tt, w')
      go (ok u, v) e = e
      go (err x, v) e = absurd (ground (arith, ap (λ r. r.0) e))

  -- What the two ways of connecting share: a word of the host, and the list after it.
  confirmed :
      (public : ServerInfo) (asked : World N) (endpoint : Endpoint) (server : ServerInfo)
      (newly : Bool) (before after : N) (fetching w' : World N) (h : ConnectedHost Endpoint)
      → listed net api crypto parse_url endpoint server newly fetching ≡ (ok h, w')
      → server.paired ≡ true
      → IsReported endpoint public.https_port server before after
      → fetching.network ≡ after
      → (newly ≡ false → before ≡ asked.network)
      → (newly ≡ true
          → IsPairing endpoint public
              (authenticated_server_info net api crypto parse_url endpoint public.https_port
                asked).1.network
              before)
      → (h.endpoint ≡ endpoint) × IsConnected public asked w' h
  confirmed public asked endpoint server newly before after fetching w' h e paired word same known
        pairing =
      let (apps, found, this) = listed_host endpoint server newly fetching w' h e in
      subst
        (λ (x : ConnectedHost Endpoint). (x.endpoint ≡ endpoint) × IsConnected public asked w' x)
        this
        (
          refl,
          record {
            paired = paired;
            before = before;
            after = after;
            reported = word;
            known = known;
            pairing = pairing;
            fetching = fetching;
            fetched = same;
            applications = found;
          },
        )

  unpaired_connects :
      (endpoint : Endpoint) (public : ServerInfo) (asked w w' : World N)
      (h : ConnectedHost Endpoint)
      → w.network
        ≡ (authenticated_server_info net api crypto parse_url endpoint public.https_port
            asked).1.network
      → connect_unpaired net api crypto parse_url endpoint public w ≡ (ok h, w')
      → (h.endpoint ≡ endpoint) × IsConnected public asked w' h
  unfolding connect_unpaired confirm_paired
  unpaired_connects endpoint public asked w w' h from e =
      let (u, idle, e1) =
        lift_ok (if not (public.current_game == 0) then err currently_streaming else ok tt) _ w w' h
          e in
      let bytes = (net.random_bytes 2 w.network).0 in
      let pin = pin_digits (pin_of bytes) in
      let v2 =
        (note_progress {N = N} (waiting_for_pin (pin_of bytes)) (random net api crypto 2 w).1).1 in
      let (u3, v3, paired, e4) =
        call_ok (pair net api crypto parse_url endpoint public pin) _ v2 w' h e1 in
      let v4 = (note_progress {N = N} fetching_applications v3).1 in
      let (s, v5, word, e5) =
        call_ok (authenticated_server_info net api crypto parse_url endpoint public.https_port) _ v4
          w' h e4 in
      let (a, checks, e6) =
        lift_ok (if not s.paired then err not_reported_paired else ok s) _ v5 w' h e5 in
      let (good, same) = paired_checked s a checks in
      confirmed public asked endpoint a true v3.network v5.network v5 w' h e6
        (ap (λ (x : ServerInfo). x.paired) (sym same) ∙ good)
        (subst (λ (x : ServerInfo). IsReported endpoint public.https_port x v3.network v5.network)
          same (reported_ok endpoint public.https_port s v4 v5 word))
        refl (λ n. absurd (ground (arith, n)))
        (λ _.
          subst (λ (n : N). IsPairing endpoint public n v3.network) from
            (record {
              idle = no_game u idle;
              start = v2;
              done = v3;
              drawn = refl;
              ended = refl;
              authentic =
                  pair_inner-IsAuthentic net api crypto endpoint public pin v2 v3
                    (pair_ok endpoint public pin v2 v3 paired);
            }))
    where
      no_game :
          (u : Unit {0})
          → ◌≡◌ {A = Result ClientError (Unit {0})}
              (if not (public.current_game == 0) then err currently_streaming else ok tt)
              (ok u)
          → public.current_game ≡ 0
      no_game u h = ground (arith, h)

  known_connects :
      (endpoint : Endpoint) (public : ServerInfo) (asked : World N)
      (r : Result ClientError ServerInfo × World N) (w' : World N) (h : ConnectedHost Endpoint)
      → authenticated_server_info net api crypto parse_url endpoint public.https_port asked ≡ r
      → connect_known net api crypto parse_url endpoint public r ≡ (ok h, w')
      → (h.endpoint ≡ endpoint) × IsConnected public asked w' h
  unfolding connect_known
  known_connects endpoint public asked (err x, w) w' h was e =
      unpaired_connects endpoint public asked w w' h (ap (λ r. r.1.network) (sym was)) e
  known_connects endpoint public asked (ok a, w) w' h was e = go a.paired refl e
    where
      go :
          (b : Bool)
          → a.paired ≡ b
          → (if b
              then (note_progress fetching_applications >>= λ _.
                    listed net api crypto parse_url endpoint a false)
                  w
              else connect_unpaired net api crypto parse_url endpoint public w)
            ≡ (ok h, w')
          → (h.endpoint ≡ endpoint) × IsConnected public asked w' h
      go false n e =
          unpaired_connects endpoint public asked w w' h (ap (λ r. r.1.network) (sym was)) e
      go true p e =
          confirmed public asked endpoint a false asked.network w.network
            (note_progress {N = N} fetching_applications w).1 w' h e p
            (reported_ok endpoint public.https_port a asked w was) refl (λ _. refl)
            (λ n. absurd (ground (arith, n)))

  -- A connection that succeeds has got the host's public server information, and has then been told by
  -- the endpoint over HTTPS that the client is paired: this answer is the host's server information
  -- that it returns, and the applications were asked for after it. One that is newly paired was not
  -- running a game, has first passed the whole pairing of the endpoint on a PIN of two random bytes,
  -- drawn after the first authenticated request of the same run, and the answer came right after the
  -- pairing.
  pub connect-IsConnected :
      (address : Text) (w w' : World N) (h : ConnectedHost Endpoint)
      → connect net api crypto parse_url address w ≡ (ok h, w')
      → (public : ServerInfo) × (asked : World N) × (server_info net api crypto parse_url address
            (note_progress {N = N} fetching_server_info w).1
          ≡ (ok (h.endpoint, public), asked))
        × IsConnected public asked w' h
  unfolding connect
  connect-IsConnected address w w' h e =
      let v = (note_progress {N = N} fetching_server_info w).1 in
      let (found, v1, got, e2) =
        call_ok (server_info net api crypto parse_url address) _ v w' h e in
      let (at, connected) =
        known_connects found.0 found.1 v1
          (authenticated_server_info net api crypto parse_url found.0 found.1.https_port v1) w' h
          refl e2 in
      (found.1, v1, got ∙ ap (λ x. (ok (x, found.1), v1)) (sym at), connected)
