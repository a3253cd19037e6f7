-- ===== src/Control/Proved.antt =====
-- What a pairing has passed, `pair_inner` of moonlight-control/src/client.rs.
use moonlight_scarlet.Prelude.{
  ℕ, ◌<◌, ◌≡◌, refl, Bool, true, false, List, ◌++◌, if◌then◌else◌, leb, Result, ok, err, length,
  take, drop, arith,
}
use moonlight_scarlet.Session.Defs.{Text, ServerInfo}
use moonlight_scarlet.Control.Defs.{short_secret, Endpoint, server_major_version}
use moonlight_scarlet.Control.Calls.{World, call_ok, lift_ok}
use moonlight_scarlet.Control.Xml.{XmlApi}
use moonlight_scarlet.Control.Accepted.{
  same_text_eq, IsAccepted, stage_one-IsAccepted, stage_two-IsAccepted, stage_three-IsAccepted,
  stage_four-IsAccepted, stage_five-IsAccepted,
}
use moonlight_scarlet.Control.Pairing.{
  Network, Crypto, http, https, request_timeout, pairing_timeout, Challenge, stage_one, stage_two,
  stage_three, expected_response, check_pin, checked_pin, check_signed, check_server, from_external,
  as_signature, stage_four, stage_five, run_stages, pair_inner, random,
}

module _ {N : Type 0} (net : Network N) (api : XmlApi) (crypto : Crypto) where
  -- What a server has shown: its pairing secret carries its signature, and its response to the
  -- client's challenge is the hash that only one with the PIN's key can give.
  pub record IsProved (version : ℕ) (certificate : List ℕ) (c : Challenge) (pairing_secret : List ℕ)
      : Type 0 where
    pub long : 16 < length pairing_secret
    pub signed :
        crypto.verify_signature certificate (take 16 pairing_secret) (drop 16 pairing_secret)
        ≡ ok tt
    pub answered :
        (signature : List ℕ) × (crypto.certificate_signature certificate ≡ ok signature)
        × (c.response
            ≡ expected_response net api crypto version c.challenge signature
                (take 16 pairing_secret))

  check_server-IsProved :
      (version : ℕ) (certificate : List ℕ) (c : Challenge) (secret : List ℕ)
      → check_server net api crypto version certificate c secret ≡ ok tt
      → IsProved version certificate c secret
  unfolding check_server
  check_server-IsProved version certificate c secret e =
      sized (leb (length secret) 16) (λ h. ground (arith, h)) e
    where
      matched :
          (signature : List ℕ)
          → check_pin net api crypto version c signature (take 16 secret) ≡ ok tt
          → c.response
            ≡ expected_response net api crypto version c.challenge signature (take 16 secret)
      matched signature h = same_text_eq _ _ (ground (arith, h))

      pinned :
          (r : Result Text (List ℕ))
          → checked_pin net api crypto version c (take 16 secret) (from_external r) ≡ ok tt
          → (signature : List ℕ) × (r ≡ ok signature)
            × (c.response
                ≡ expected_response net api crypto version c.challenge signature (take 16 secret))
      pinned (err x) h = absurd (ground (arith, h))
      pinned (ok signature) h = (signature, refl, matched signature h)

      checked :
          (r : Result Text (Unit {0}))
          → check_signed net api crypto version certificate c (take 16 secret) (as_signature r)
            ≡ ok tt
          → (r ≡ ok tt)
            × (checked_pin net api crypto version c
                  (take 16 secret)
                  (from_external (crypto.certificate_signature certificate))
                ≡ ok tt)
      checked (err x) h = absurd (ground (arith, h))
      checked (ok u) h = (refl, h)

      sized :
          (b : Bool)
          → (b ≡ false → 16 < length secret)
          → (if b
              then err short_secret
              else check_signed net api crypto version certificate c (take 16 secret) (
                  as_signature
                    (crypto.verify_signature certificate (take 16 secret) (drop 16 secret))))
            ≡ ok tt
          → IsProved version certificate c secret
      sized true h e = absurd (ground (arith, e))
      sized false h e =
          let (signed, rest) =
            checked (crypto.verify_signature certificate (take 16 secret) (drop 16 secret)) e in
          record {
            long = h refl;
            signed = signed;
            answered = pinned (crypto.certificate_signature certificate) rest;
          }

  -- A run of the stages that passed, with what each one found.
  pub record IsAuthentic (endpoint : Endpoint) (server : ServerInfo) (pin : List ℕ) (w w' : World N)
      : Type 0 where
    pub version : ℕ
    pub generation : server_major_version server ≡ ok version
    pub salt : List ℕ
    pub certificate : List ℕ
    pub challenge : Challenge
    pub secrets : List ℕ × List ℕ
    pub w1 : World N
    pub w2 : World N
    pub w3 : World N
    pub w4 : World N
    pub w5 : World N
    pub salted : random net api crypto 16 w ≡ (ok salt, w1)
    pub first : stage_one net api crypto endpoint salt w1 ≡ (ok certificate, w2)
    pub second :
        stage_two net api crypto endpoint version
          (take 16 (crypto.hash_for_server (salt ++ pin) version))
          w2
        ≡ (ok challenge, w3)
    pub third :
        stage_three net api crypto endpoint version
          (take 16 (crypto.hash_for_server (salt ++ pin) version))
          challenge.server_challenge
          w3
        ≡ (ok secrets, w4)
    pub proved : IsProved version certificate challenge secrets.1
    pub fourth : stage_four net api crypto endpoint secrets.0 w4 ≡ (ok tt, w5)
    pub fifth : stage_five net api crypto endpoint server w5 ≡ (ok tt, w')
    pub first_accepted :
        IsAccepted net api crypto endpoint http endpoint.http_port pairing_timeout w1.network
          w2.network
    pub second_accepted :
        IsAccepted net api crypto endpoint http endpoint.http_port request_timeout
          (net.random_bytes 16 w2.network).1
          w3.network
    pub third_accepted :
        IsAccepted net api crypto endpoint http endpoint.http_port request_timeout
          (net.random_bytes 16 w3.network).1
          w4.network
    pub fourth_accepted :
        IsAccepted net api crypto endpoint http endpoint.http_port request_timeout w4.network
          w5.network
    pub fifth_accepted :
        IsAccepted net api crypto endpoint https server.https_port request_timeout w5.network
          w'.network

  -- A pairing that ends well has passed all five stages on the key of the PIN, one after the other: each
  -- sent its request, the last one over HTTPS, and was given an answer that says paired. The server's
  -- signature of its secret is good, and its response to the challenge is the one of a server that has
  -- the PIN.
  pub pair_inner-IsAuthentic :
      (endpoint : Endpoint) (server : ServerInfo) (pin : List ℕ) (w w' : World N)
      → pair_inner net api crypto endpoint server pin w ≡ (ok tt, w')
      → IsAuthentic endpoint server pin w w'
  unfolding pair_inner run_stages
  pair_inner-IsAuthentic endpoint server pin w w' e =
      let (version, known, e1) = lift_ok (server_major_version server) _ w w' tt e in
      let salt = (net.random_bytes 16 w.network).0 in
      let w1 = (random net api crypto 16 w).1 in
      let key = take 16 (crypto.hash_for_server (salt ++ pin) version) in
      let (certificate, w2, first, e3) =
        call_ok (stage_one net api crypto endpoint salt) _ w1 w' tt e1 in
      let (challenge, w3, second, e4) =
        call_ok (stage_two net api crypto endpoint version key) _ w2 w' tt e3 in
      let (secrets, w4, third, e5) =
        call_ok (stage_three net api crypto endpoint version key challenge.server_challenge) _ w3 w'
          tt e4 in
      let (u, checks, e6) =
        lift_ok (check_server net api crypto version certificate challenge secrets.1) _ w4 w' tt
          e5 in
      let (u', w5, fourth, e7) =
        call_ok (stage_four net api crypto endpoint secrets.0) _ w4 w' tt e6 in
      record {
        version = version;
        generation = known;
        salt = salt;
        certificate = certificate;
        challenge = challenge;
        secrets = secrets;
        w1 = w1;
        w2 = w2;
        w3 = w3;
        w4 = w4;
        w5 = w5;
        salted = refl;
        first = first;
        second = second;
        third = third;
        proved = check_server-IsProved version certificate challenge secrets.1 checks;
        fourth = fourth;
        fifth = e7;
        first_accepted = stage_one-IsAccepted net api crypto endpoint salt certificate w1 w2 first;
        second_accepted =
            stage_two-IsAccepted net api crypto endpoint version key challenge w2 w3 second;
        third_accepted =
            stage_three-IsAccepted net api crypto endpoint version key challenge.server_challenge
              secrets w3 w4 third;
        fourth_accepted = stage_four-IsAccepted net api crypto endpoint secrets.0 w4 w5 fourth;
        fifth_accepted = stage_five-IsAccepted net api crypto endpoint server w5 w' e7;
      }

  -- A pairing whose first three stages have passed, and what they found.
  pub record IsUndecided (endpoint : Endpoint) (server : ServerInfo) (pin : List ℕ) (w w4 : World N)
      (version : ℕ) (certificate : List ℕ) (challenge : Challenge) (pairing_secret : List ℕ)
      : Type 0 where
    pub generation : server_major_version server ≡ ok version
    pub salt : List ℕ
    pub secret : List ℕ
    pub w1 : World N
    pub w2 : World N
    pub w3 : World N
    pub salted : random net api crypto 16 w ≡ (ok salt, w1)
    pub first : stage_one net api crypto endpoint salt w1 ≡ (ok certificate, w2)
    pub second :
        stage_two net api crypto endpoint version
          (take 16 (crypto.hash_for_server (salt ++ pin) version))
          w2
        ≡ (ok challenge, w3)
    pub third :
        stage_three net api crypto endpoint version
          (take 16 (crypto.hash_for_server (salt ++ pin) version))
          challenge.server_challenge
          w3
        ≡ (ok (secret, pairing_secret), w4)
