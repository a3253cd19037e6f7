-- ===== src/Control/Accepted.antt =====
-- The answers that the pairing requests of moonlight-control/src/client.rs are given.
use moonlight_scarlet.Prelude.{
  ℕ, ◌≡◌, refl, ap, subst, ◌∙◌, true, List, [], ◌∷◌, ◌++◌, if◌then◌else◌, Result, ok, err, bind_ok,
  arith,
}
use moonlight_scarlet.Session.Defs.{Text, ServerInfo}
use moonlight_scarlet.Control.Defs.{ClientError, rejected, Endpoint, pairing_stage, same_text}
use moonlight_scarlet.Control.Calls.{World, Call, ◌>>=◌, lift, note_progress, call_ok, lift_ok}
use moonlight_scarlet.Control.Xml.{
  XmlApi, one_text, paired, plaincert, challengeresponse, pairingsecret, response_text,
  response_hex, require_paired,
}
use moonlight_scarlet.Control.Pairing.{
  Network, Crypto, Challenge, Scheme, http, https, ClientCommand, pair_command, PairArgument,
  devicename, update_state, phrase_getservercert, phrase_pairchallenge, salt, clientcert,
  clientchallenge, serverchallengeresp, clientpairingsecret, from_external, get, random, resize,
  request_timeout, pairing_timeout, stage_one, stage_two, stage_three, stage_four, stage_five,
}

pub same_text_eq : (a b : Text) → same_text a b ≡ true → a ≡ b
same_text_eq [] [] h = refl
same_text_eq [] (d ∷ ds) h = absurd (ground (arith, h))
same_text_eq (c ∷ cs) [] h = absurd (ground (arith, h))
same_text_eq (c ∷ cs) (d ∷ ds) h = λ i. same_head i ∷ same_text_eq cs ds tails i
  where
    same_head : c ≡ d
    same_head = ground (arith, h)

    tails : same_text cs ds ≡ true
    tails = ground (arith, h)

module _ {N : Type 0} (net : Network N) (api : XmlApi) (crypto : Crypto) where
  -- A pairing request that was sent from one state of the network, answered in the next, and whose
  -- answer has 1 as the text of `paired`.
  pub record IsAccepted (endpoint : Endpoint) (scheme : Scheme) (port timeout : ℕ)
      (before after : N) : Type 0 where
    pub arguments : List PairArgument
    pub answer : Text
    pub sent :
        net.send_request endpoint scheme port pair_command arguments timeout before
        ≡ (ok answer, after)
    pub accepted : response_text api answer paired ≡ ok one_text

  pub get_ok :
      (endpoint : Endpoint) (scheme : Scheme) (port : ℕ) (command : ClientCommand)
      (arguments : List PairArgument) (timeout : ℕ) (w w' : World N) (answer : Text)
      → get net api crypto endpoint scheme port command arguments timeout w ≡ (ok answer, w')
      → net.send_request endpoint scheme port command arguments timeout w.network
        ≡ (ok answer, w'.network)
  get_ok endpoint scheme port command arguments timeout w w' answer e = λ i. (
    answered (net.send_request endpoint scheme port command arguments timeout w.network).0
        (ap (λ r. r.0) e) i,
    (e i).1.network,
  )
    where
      answered :
          (r : Result Text Text)
          → from_external r ≡ ok answer
          → ◌≡◌ {A = Result Text Text} r (ok answer)
      answered (ok t) h = ground (arith, h)
      answered (err x) h = absurd (ground (arith, h))

  paired_text :
      (answer : Text) (stage : ℕ) (u : Unit {0})
      → require_paired api answer stage ≡ ok u
      → response_text api answer paired ≡ ok one_text
  unfolding require_paired
  paired_text answer stage u h =
      let (value, read, k) = bind_ok (response_text api answer paired) _ u h in
      read ∙ ap (λ t. ok t) (same_text_eq value one_text (one value k))
    where
      one :
          (value : Text)
          → ◌≡◌ {A = Result ClientError (Unit {0})}
              (if same_text value one_text then ok tt else err (rejected stage))
              (ok u)
          → same_text value one_text ≡ true
      one value h = ground (arith, h)

  -- A request, the check on its answer, and what follows.
  asked_ok :
      {A : Type 0} (endpoint : Endpoint) (scheme : Scheme) (port : ℕ)
      (arguments : List PairArgument) (timeout stage : ℕ) (rest : Text → Call N A) (w w' : World N)
      (a : A)
      → (get net api crypto endpoint scheme port pair_command arguments timeout >>= λ answer.
            lift (require_paired api answer stage) >>= λ _. rest answer)
          w
        ≡ (ok a, w')
      → (answer : Text) × (v : World N) × IsAccepted endpoint scheme port timeout w.network
          v.network
        × (rest answer v ≡ (ok a, w'))
  asked_ok endpoint scheme port arguments timeout stage rest w w' a e =
      let (answer, v, got, e1) =
        call_ok (get net api crypto endpoint scheme port pair_command arguments timeout) _ w w' a
          e in
      let (u, good, e2) = lift_ok (require_paired api answer stage) _ v w' a e1 in
      (
        answer,
        v,
        record {
          arguments = arguments;
          answer = answer;
          sent = get_ok endpoint scheme port pair_command arguments timeout w v answer got;
          accepted = paired_text answer stage u good;
        },
        e2,
      )

  -- The request of a stage that ends with the check.
  last_ok :
      (endpoint : Endpoint) (scheme : Scheme) (port : ℕ) (arguments : List PairArgument)
      (timeout stage : ℕ) (w w' : World N)
      → (get net api crypto endpoint scheme port pair_command arguments timeout >>= λ answer.
            lift (require_paired api answer stage))
          w
        ≡ (ok tt, w')
      → IsAccepted endpoint scheme port timeout w.network w'.network
  last_ok endpoint scheme port arguments timeout stage w w' e =
      let (answer, v, got, e1) =
        call_ok (get net api crypto endpoint scheme port pair_command arguments timeout) _ w w' tt
          e in
      record {
        arguments = arguments;
        answer = answer;
        sent =
            get_ok endpoint scheme port pair_command arguments timeout w v answer got
            ∙ ap (λ r. (ok answer, r.1.network)) e1;
        accepted = paired_text answer stage tt (ap (λ r. r.0) e1);
      }

  pub stage_four-IsAccepted :
      (endpoint : Endpoint) (secret : List ℕ) (w w' : World N)
      → stage_four net api crypto endpoint secret w ≡ (ok tt, w')
      → IsAccepted endpoint http endpoint.http_port request_timeout w.network w'.network
  unfolding stage_four
  stage_four-IsAccepted endpoint secret w w' e =
      last_ok endpoint http endpoint.http_port
        (devicename ∷ update_state ∷ clientpairingsecret (secret ++ crypto.sign secret) ∷ [])
        request_timeout 4 (note_progress {N = N} (pairing_stage 4) w).1 w' e

  pub stage_five-IsAccepted :
      (endpoint : Endpoint) (server : ServerInfo) (w w' : World N)
      → stage_five net api crypto endpoint server w ≡ (ok tt, w')
      → IsAccepted endpoint https server.https_port request_timeout w.network w'.network
  unfolding stage_five
  stage_five-IsAccepted endpoint server w w' e =
      last_ok endpoint https server.https_port
        (devicename ∷ update_state ∷ phrase_pairchallenge ∷ []) request_timeout 5
        (note_progress {N = N} (pairing_stage 5) w).1 w' e

  pub stage_one-IsAccepted :
      (endpoint : Endpoint) (salt_bytes certificate : List ℕ) (w w' : World N)
      → stage_one net api crypto endpoint salt_bytes w ≡ (ok certificate, w')
      → IsAccepted endpoint http endpoint.http_port pairing_timeout w.network w'.network
  unfolding stage_one
  stage_one-IsAccepted endpoint salt_bytes certificate w w' e =
      let (answer, v, good, e1) =
        asked_ok endpoint http endpoint.http_port
          (devicename
            ∷ update_state
            ∷ phrase_getservercert
            ∷ salt salt_bytes
            ∷ clientcert crypto.own_certificate
            ∷ [])
          pairing_timeout 1 _ (note_progress {N = N} (pairing_stage 1) w).1 w' certificate e in
      let (bytes, _, e2) = lift_ok (response_hex api answer plaincert) _ v w' certificate e1 in
      subst
        (λ (n : World N).
          IsAccepted endpoint http endpoint.http_port pairing_timeout w.network n.network)
        (ap (λ r. r.1) e2) good

  pub stage_two-IsAccepted :
      (endpoint : Endpoint) (version : ℕ) (key : List ℕ) (c : Challenge) (w w' : World N)
      → stage_two net api crypto endpoint version key w ≡ (ok c, w')
      → IsAccepted endpoint http endpoint.http_port request_timeout
          (net.random_bytes 16 w.network).1
          w'.network
  unfolding stage_two
  stage_two-IsAccepted endpoint version key c w w' e =
      let v0 = (random net api crypto 16 (note_progress {N = N} (pairing_stage 2) w).1).1 in
      let challenge = (net.random_bytes 16 w.network).0 in
      let (encrypted, _, e1) =
        lift_ok (from_external (crypto.aes_encrypt challenge key)) _ v0 w' c e in
      let (answer, v, good, e2) =
        asked_ok endpoint http endpoint.http_port
          (devicename ∷ update_state ∷ clientchallenge encrypted ∷ []) request_timeout 2 _ v0 w' c
          e1 in
      let (response, _, e3) = lift_ok (response_hex api answer challengeresponse) _ v w' c e2 in
      let (decrypted, _, e4) =
        lift_ok (from_external (crypto.aes_decrypt response key)) _ v w' c e3 in
      subst
        (λ (n : World N).
          IsAccepted endpoint http endpoint.http_port request_timeout
            (net.random_bytes 16 w.network).1 n.network)
        (ap (λ r. r.1) e4) good

  pub stage_three-IsAccepted :
      (endpoint : Endpoint) (version : ℕ) (key challenge : List ℕ) (secrets : List ℕ × List ℕ)
      (w w' : World N)
      → stage_three net api crypto endpoint version key challenge w ≡ (ok secrets, w')
      → IsAccepted endpoint http endpoint.http_port request_timeout
          (net.random_bytes 16 w.network).1
          w'.network
  unfolding stage_three
  stage_three-IsAccepted endpoint version key challenge secrets w w' e =
      let v0 = (random net api crypto 16 (note_progress {N = N} (pairing_stage 3) w).1).1 in
      let secret = (net.random_bytes 16 w.network).0 in
      let (encrypted, _, e1) =
        lift_ok
          (from_external (
            crypto.aes_encrypt
              (resize 32
                (crypto.hash_for_server (challenge ++ crypto.own_signature ++ secret) version))
              key))
          _ v0 w' secrets e in
      let (answer, v, good, e2) =
        asked_ok endpoint http endpoint.http_port
          (devicename ∷ update_state ∷ serverchallengeresp encrypted ∷ []) request_timeout 3 _ v0 w'
          secrets e1 in
      let (response, _, e3) = lift_ok (response_hex api answer pairingsecret) _ v w' secrets e2 in
      subst
        (λ (n : World N).
          IsAccepted endpoint http endpoint.http_port request_timeout
            (net.random_bytes 16 w.network).1 n.network)
        (ap (λ r. r.1) e3) good
