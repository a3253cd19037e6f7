-- ===== src/Control/Pairing.antt =====
-- `GameStreamClient::get` and `pair_inner` of moonlight-control/src/client.rs, over the network, the
-- XML library and the functions of crypto.rs.
use moonlight_scarlet.Prelude.{
  ℕ, zero, suc, ◌+◌, List, [], ◌∷◌, ◌++◌, if◌then◌else◌, leb, ltb, Result, ok, err, length, take,
  drop,
}
use moonlight_scarlet.Session.Defs.{Text, ServerInfo}
use moonlight_scarlet.Control.Defs.{
  ClientError, external, already_pairing, short_response, short_secret, wrong_signature, wrong_pin,
  Endpoint, pairing_stage, same_text, is_blank, server_major_version,
}
use moonlight_scarlet.Control.Calls.{Call, ◌>>=◌, lift, note_progress}
use moonlight_scarlet.Control.Xml.{
  XmlApi, plaincert, challengeresponse, pairingsecret, require_paired, response_hex,
}

pub data Scheme : Type 0 where
  http https : Scheme

pub data ClientCommand : Type 0 where
  serverinfo applist pair_command unpair : ClientCommand

pub data PairArgument : Type 0 where
  devicename update_state phrase_getservercert phrase_pairchallenge : PairArgument
  salt clientcert clientchallenge serverchallengeresp clientpairingsecret : List ℕ → PairArgument

-- A request over a network `N`; its URL, its client and its transport are below.
pub record Network (N : Type 0) : Type 0 where
  pub send_request :
      Endpoint → Scheme → ℕ → ClientCommand → List PairArgument → ℕ → N → Result Text Text × N
  pub random_bytes : ℕ → N → List ℕ × N

-- What the client uses of crypto.rs: the hash of a server's generation, the cipher, signatures, and
-- its own identity.
pub record Crypto : Type 0 where
  pub hash_for_server : List ℕ → ℕ → List ℕ
  pub aes_encrypt : List ℕ → List ℕ → Result Text (List ℕ)
  pub aes_decrypt : List ℕ → List ℕ → Result Text (List ℕ)
  pub certificate_signature : List ℕ → Result Text (List ℕ)
  pub verify_signature : List ℕ → List ℕ → List ℕ → Result Text (Unit {0})
  pub own_certificate : List ℕ
  pub own_signature : List ℕ
  pub sign : List ℕ → List ℕ

-- `resize(n, 0)`
abbrev pub resize : ℕ → List ℕ → List ℕ
resize zero bs = []
resize (suc n) [] = 0 ∷ resize n []
resize (suc n) (b ∷ bs) = b ∷ resize n bs

abbrev pub from_external : {A : Type 0} → Result Text A → Result ClientError A
from_external (ok a) = ok a
from_external (err e) = err (external e)

abbrev pub as_signature : Result Text (Unit {0}) → Result ClientError (Unit {0})
as_signature (ok u) = ok tt
as_signature (err e) = err wrong_signature

abbrev pub request_timeout : ℕ
request_timeout = 5

abbrev pub pairing_timeout : ℕ
pairing_timeout = 120

-- What the two secrets of a server prove. The challenge is the client's; the response is what the
-- server answered to it.
pub record Challenge : Type 0 where
  pub challenge : List ℕ
  pub response : List ℕ
  pub server_challenge : List ℕ

module _ {N : Type 0} (net : Network N) (api : XmlApi) (crypto : Crypto) where
  abbrev pub get : Endpoint → Scheme → ℕ → ClientCommand → List PairArgument → ℕ → Call N Text
  get endpoint scheme port command arguments timeout w =
      let (r, n) = net.send_request endpoint scheme port command arguments timeout w.network in
      (from_external r, record w { network = n })

  abbrev pub random : ℕ → Call N (List ℕ)
  random count w =
      let (bytes, n) = net.random_bytes count w.network in (ok bytes, record w { network = n })

  abbrev pub hash_length : ℕ → ℕ
  hash_length version = if leb 7 version then 32 else 20

  abbrev pub pair_request : Endpoint → List PairArgument → ℕ → Call N Text
  pair_request endpoint arguments = get endpoint http endpoint.http_port pair_command arguments

  -- Up to the certificate of the server.
  unfoldable pub stage_one : Endpoint → List ℕ → Call N (List ℕ)
  stage_one endpoint salt_bytes = note_progress (pairing_stage 1) >>= λ _.
      pair_request endpoint
        (devicename
          ∷ update_state
          ∷ phrase_getservercert
          ∷ salt salt_bytes
          ∷ clientcert crypto.own_certificate
          ∷ [])
        pairing_timeout
      >>= λ answer. lift (require_paired api answer 1) >>= λ _.
          lift (response_hex api answer plaincert) >>= λ certificate.
          lift (if is_blank certificate then err already_pairing else ok certificate)

  -- The parts of the decrypted answer to the challenge.
  unfoldable pub split_response : ℕ → List ℕ → List ℕ → Result ClientError Challenge
  split_response version challenge decrypted =
      if ltb (length decrypted) (hash_length version + 16)
      then err short_response
      else ok (record {
        challenge = challenge;
        response = take (hash_length version) decrypted;
        server_challenge = take 16 (drop (hash_length version) decrypted);
      })

  unfoldable pub stage_two : Endpoint → ℕ → List ℕ → Call N Challenge
  unfolding split_response
  stage_two endpoint version key = note_progress (pairing_stage 2) >>= λ _.
      random 16 >>= λ challenge.
      lift (from_external (crypto.aes_encrypt challenge key)) >>= λ encrypted.
      pair_request endpoint (devicename ∷ update_state ∷ clientchallenge encrypted ∷ [])
        request_timeout
      >>= λ answer. lift (require_paired api answer 2) >>= λ _.
          lift (response_hex api answer challengeresponse) >>= λ encrypted_response.
          lift (from_external (crypto.aes_decrypt encrypted_response key)) >>= λ decrypted.
          lift (split_response version challenge decrypted)

  -- The client's secret, and the pairing secret of the server.
  unfoldable pub stage_three : Endpoint → ℕ → List ℕ → List ℕ → Call N (List ℕ × List ℕ)
  stage_three endpoint version key server_challenge = note_progress (pairing_stage 3) >>= λ _.
      random 16 >>= λ secret.
      lift (
        from_external (
          crypto.aes_encrypt
            (resize 32
              (crypto.hash_for_server (server_challenge ++ crypto.own_signature ++ secret) version))
            key))
      >>= λ encrypted.
          pair_request endpoint (devicename ∷ update_state ∷ serverchallengeresp encrypted ∷ [])
            request_timeout
          >>= λ answer. lift (require_paired api answer 3) >>= λ _.
              lift (response_hex api answer pairingsecret) >>= λ pairing_secret.
              lift (ok (secret, pairing_secret))

  -- The response that a server gives that has the PIN.
  abbrev pub expected_response : ℕ → List ℕ → List ℕ → List ℕ → List ℕ
  expected_response version challenge signature server_secret =
      take (hash_length version)
        (crypto.hash_for_server (challenge ++ signature ++ server_secret) version)

  abbrev pub check_pin : ℕ → Challenge → List ℕ → List ℕ → Result ClientError (Unit {0})
  check_pin version c signature server_secret =
      if same_text c.response (expected_response version c.challenge signature server_secret)
      then ok tt
      else err wrong_pin

  abbrev pub checked_pin :
      ℕ → Challenge → List ℕ → Result ClientError (List ℕ) → Result ClientError (Unit {0})
  checked_pin version c server_secret (err e) = err e
  checked_pin version c server_secret (ok signature) = check_pin version c signature server_secret

  abbrev pub check_signed :
      ℕ
      → List ℕ
      → Challenge
      → List ℕ
      → Result ClientError (Unit {0})
      → Result ClientError (Unit {0})
  check_signed version certificate c server_secret (err e) = err e
  check_signed version certificate c server_secret (ok u) =
      checked_pin version c server_secret (from_external (crypto.certificate_signature certificate))

  -- The checks on the pairing secret, between the third stage and the fourth.
  unfoldable pub check_server : ℕ → List ℕ → Challenge → List ℕ → Result ClientError (Unit {0})
  check_server version certificate c pairing_secret =
      if leb (length pairing_secret) 16
      then err short_secret
      else check_signed version certificate c (take 16 pairing_secret) (
          as_signature
            (crypto.verify_signature certificate (take 16 pairing_secret) (drop 16 pairing_secret)))

  unfoldable pub stage_four : Endpoint → List ℕ → Call N (Unit {0})
  stage_four endpoint secret = note_progress (pairing_stage 4) >>= λ _.
      pair_request endpoint
        (devicename ∷ update_state ∷ clientpairingsecret (secret ++ crypto.sign secret) ∷ [])
        request_timeout
      >>= λ answer. lift (require_paired api answer 4)

  unfoldable pub stage_five : Endpoint → ServerInfo → Call N (Unit {0})
  stage_five endpoint server = note_progress (pairing_stage 5) >>= λ _.
      get endpoint https server.https_port pair_command
        (devicename ∷ update_state ∷ phrase_pairchallenge ∷ []) request_timeout
      >>= λ answer. lift (require_paired api answer 5)

  -- From the key to the end.
  unfoldable pub run_stages : Endpoint → ServerInfo → ℕ → List ℕ → List ℕ → Call N (Unit {0})
  run_stages endpoint server version salt_bytes key =
      stage_one endpoint salt_bytes >>= λ certificate. stage_two endpoint version key >>= λ c.
      stage_three endpoint version key c.server_challenge >>= λ secrets.
      lift (check_server version certificate c secrets.1) >>= λ _.
      stage_four endpoint secrets.0 >>= λ _. stage_five endpoint server

  unfoldable pub pair_inner : Endpoint → ServerInfo → List ℕ → Call N (Unit {0})
  unfolding run_stages
  pair_inner endpoint server pin = lift (server_major_version server) >>= λ version.
      random 16 >>= λ salt_bytes.
      run_stages endpoint server version salt_bytes
        (take 16 (crypto.hash_for_server (salt_bytes ++ pin) version))
