-- ===== src/Control/Tests.antt =====
-- The theorems on connecting and pairing at a concrete host.
use moonlight_scarlet.Prelude.{
  ℕ, zero, suc, ◌≡◌, refl, true, none, some, List, [], ◌∷◌, Result, ok, err, replicate,
}
use moonlight_scarlet.Session.Defs.{Text, ServerInfo, ConnectedHost}
use moonlight_scarlet.Control.Defs.{
  Endpoint, fetching_server_info, ParsedUrl, parse_endpoint, server_major_version,
}
use moonlight_scarlet.Control.Calls.{World, note_progress}
use moonlight_scarlet.Control.Xml.{
  Tag, root, hostname, uniqueid, appversion, pair_status, state, paired, plaincert,
  challengeresponse, pairingsecret, Element, Document, XmlApi, checked_document, checked_root,
  required_text, server_info_of, parse_server_info, parse_applications, response_text, response_hex,
  require_paired,
}
use moonlight_scarlet.Control.Pairing.{
  Scheme, http, https, ClientCommand, serverinfo, applist, pair_command, unpair, Challenge, Network,
  Crypto, random, stage_one, stage_two, stage_three, split_response, check_server, stage_four,
  stage_five, run_stages, pair_inner,
}
use moonlight_scarlet.Control.Client.{
  server_info, authenticated_server_info, applications, listed, connect_known, connect_unpaired,
  pair, confirm_paired, connect,
}
use moonlight_scarlet.Control.Proved.{IsAuthentic}
use moonlight_scarlet.Control.Proved as Proved
use moonlight_scarlet.Control.Paired as Paired

abbrev element : Tag → Text → Element
element tag text = record { tag = tag; text = some text; children = [] }

-- An answer that has every field; the text of `PairStatus` is given.
abbrev answer : Text → Document
answer status = record {
  root_tag = root;
  status_code = some (50 ∷ 48 ∷ 48 ∷ []);
  status_message = none;
  descendants =
      element hostname (72 ∷ [])
      ∷ element uniqueid (65 ∷ [])
      ∷ element appversion (55 ∷ 46 ∷ 49 ∷ [])
      ∷ element pair_status status
      ∷ element state (70 ∷ [])
      ∷ element paired (49 ∷ [])
      ∷ element plaincert (1 ∷ [])
      ∷ element challengeresponse (replicate 48 0)
      ∷ element pairingsecret (replicate 20 0)
      ∷ [];
}

abbrev parsed_text : Text → Document
parsed_text [] = answer (49 ∷ [])
parsed_text (c ∷ cs) = answer (48 ∷ [])

abbrev api : XmlApi
api = record { parse = λ t. ok (parsed_text t); hex_decode = λ t. ok t }

-- Before the pairing the answer to an authenticated question says so.
abbrev answer_to : Scheme → ClientCommand → ℕ → Text
answer_to https serverinfo zero = 1 ∷ []
answer_to https serverinfo (suc n) = []
answer_to https applist n = []
answer_to https pair_command n = []
answer_to https unpair n = []
answer_to http command n = []

abbrev counted : ClientCommand → ℕ → ℕ
counted pair_command n = suc n
counted serverinfo n = n
counted applist n = n
counted unpair n = n

-- A host that counts the pairing requests.
abbrev net : Network ℕ
net = record {
  send_request = λ endpoint scheme port command arguments timeout n.
      (ok (answer_to scheme command n), counted command n);
  random_bytes = λ count n. (replicate count 0, n);
}

abbrev crypto : Crypto
crypto = record {
  hash_for_server = λ bytes version. replicate 32 0;
  aes_encrypt = λ bytes key. ok bytes;
  aes_decrypt = λ bytes key. ok bytes;
  certificate_signature = λ certificate. ok [];
  verify_signature = λ certificate message signature. ok tt;
  own_certificate = [];
  own_signature = [];
  sign = λ message. [];
}

abbrev start : World ℕ
start = record { network = 0; progress = [] }

abbrev endpoint : Endpoint
endpoint = record { host = 104 ∷ []; http_port = 47989 }

abbrev server : ServerInfo
server = record {
  hostname = 72 ∷ [];
  unique_id = 65 ∷ [];
  app_version = 55 ∷ 46 ∷ 49 ∷ [];
  gfe_version = none;
  server_codec_mode_support = 1;
  https_port = 47984;
  paired = true;
  current_game = 0;
  state = 70 ∷ [];
}

abbrev pin : List ℕ
pin = 49 ∷ 50 ∷ 51 ∷ 52 ∷ []

pair_ends :
    pair_inner net api crypto endpoint server pin start
    ≡ (ok tt, (pair_inner net api crypto endpoint server pin start).1)
unfolding pair_inner run_stages stage_one stage_two stage_three split_response check_server
    stage_four stage_five server_major_version require_paired response_hex response_text
    checked_document checked_root required_text
pair_ends = refl

pair_inner-IsAuthentic_example :
    IsAuthentic net api crypto endpoint server pin start
      (pair_inner net api crypto endpoint server pin start).1
pair_inner-IsAuthentic_example =
    Proved.pair_inner-IsAuthentic net api crypto endpoint server pin start
      (pair_inner net api crypto endpoint server pin start).1 pair_ends

abbrev parse_url : Text → Result Text ParsedUrl
parse_url t = ok (record {
  host = some (104 ∷ []);
  username = [];
  password = none;
  query = none;
  path = [];
  port = none;
})

abbrev address : Text
address = 104 ∷ []

abbrev connected : ConnectedHost Endpoint
connected = record { endpoint = endpoint; server = server; applications = []; newly_paired = true }

connects :
    connect net api crypto parse_url address start
    ≡ (ok connected, (connect net api crypto parse_url address start).1)
unfolding connect server_info parse_endpoint authenticated_server_info connect_known
    connect_unpaired pair confirm_paired listed applications parse_server_info parse_applications
    server_info_of pair_inner run_stages stage_one stage_two stage_three split_response check_server
    stage_four stage_five server_major_version require_paired response_hex response_text
    checked_document checked_root required_text
connects = refl

connect-IsConnected_example :
    (public : ServerInfo) × (asked : World ℕ) × (server_info net api crypto parse_url address
        (note_progress {N = ℕ} fetching_server_info start).1
      ≡ (ok (endpoint, public), asked))
    × Paired.IsConnected net api crypto parse_url public asked
        (connect net api crypto parse_url address start).1
        connected
connect-IsConnected_example =
    Paired.connect-IsConnected net api crypto parse_url address start
      (connect net api crypto parse_url address start).1 connected connects

-- Signatures are not good here.
abbrev doubting : Crypto
doubting = record crypto { verify_signature = λ certificate message signature. err [] }

abbrev salted : World ℕ
salted = (random net api doubting 16 start).1

abbrev certified : World ℕ
certified = (stage_one net api doubting endpoint (replicate 16 0) salted).1

abbrev challenged : World ℕ
challenged = (stage_two net api doubting endpoint 7 (replicate 16 0) certified).1

abbrev answered : World ℕ
answered = (stage_three net api doubting endpoint 7 (replicate 16 0) (replicate 16 0) challenged).1

abbrev zeros : Challenge
zeros = record {
  challenge = replicate 16 0;
  response = replicate 32 0;
  server_challenge = replicate 16 0;
}
