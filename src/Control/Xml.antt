-- ===== src/Control/Xml.antt =====
-- moonlight-control/src/xml.rs, over the XML library and the decoder of hex.
use moonlight_scarlet.Prelude.{
  ℕ, ◌≡◌, ◌≢◌, refl, subst, inl, inr, Bool-cases, bind_ok, ok_injective, Bool, true, not, Option,
  none, some, List, [], ◌∷◌, if◌then◌else◌, ◌==◌, Result, ok, err, ◌>>=◌, arith,
}
use moonlight_scarlet.Session.Defs.{Text, ServerInfo, Application}
use moonlight_scarlet.Control.Defs.{
  malformed, no_root, no_status, status_not_integer, missing_element, missing_child, id_not_integer,
  invalid_hex, ClientError, xml, protocol, rejected, same_text, ends_with, parse_unsigned,
  or_default,
}

-- The tags that the client looks for, and any other.
pub data Tag : Type 0 where
  root hostname uniqueid appversion gfe_version codec_mode_support https_port pair_status
        currentgame state :
      Tag
  app app_id app_title paired plaincert challengeresponse pairingsecret other_tag : Tag

abbrev pub code : Tag → ℕ
code root = 0
code hostname = 1
code uniqueid = 2
code appversion = 3
code gfe_version = 4
code codec_mode_support = 5
code https_port = 6
code pair_status = 7
code currentgame = 8
code state = 9
code app = 10
code app_id = 11
code app_title = 12
code paired = 13
code plaincert = 14
code challengeresponse = 15
code pairingsecret = 16
code other_tag = 17

abbrev pub has_tag : Tag → Tag → Bool
has_tag a b = code a == code b

-- An element with its text, and the elements right below it.
pub record Leaf : Type 0 where
  pub tag : Tag
  pub text : Option Text

pub record Element : Type 0 where
  pub tag : Tag
  pub text : Option Text
  pub children : List Leaf

-- A parsed document: its root element, and `descendants` in document order.
pub record Document : Type 0 where
  pub root_tag : Tag
  pub status_code : Option Text
  pub status_message : Option Text
  pub descendants : List Element

pub record XmlApi : Type 0 where
  pub parse : Text → Result Text Document
  pub hex_decode : Text → Result Text (List ℕ)

-- `find(..).and_then(|node| node.text())`, among elements and among leaves.
abbrev pub text_in : Tag → List Element → Option Text
text_in tag [] = none
text_in tag (e ∷ es) = let rest = text_in tag es in if has_tag e.tag tag then e.text else rest

abbrev pub text_below : Tag → List Leaf → Option Text
text_below tag [] = none
text_below tag (e ∷ es) = let rest = text_below tag es in if has_tag e.tag tag then e.text else rest

abbrev pub optional_text : Document → Tag → Option Text
optional_text document tag = text_in tag document.descendants

abbrev pub ok_or : {A : Type 0} → ClientError → Option A → Result ClientError A
ok_or e none = err e
ok_or e (some a) = ok a

unfoldable pub required_text : Document → Tag → Result ClientError Text
required_text document tag = ok_or (xml (missing_element (code tag))) (optional_text document tag)

unfoldable pub child_text : Element → Tag → Result ClientError Text
child_text parent tag = ok_or (xml (missing_child (code tag))) (text_below tag parent.children)

abbrev unknown_error : Text
unknown_error = 117 ∷ 110 ∷ 107 ∷ 110 ∷ 111 ∷ 119 ∷ 110 ∷ 32 ∷ 101 ∷ 114 ∷ 114 ∷ 111 ∷ 114 ∷ []

abbrev message_of : Option Text → Text
message_of none = unknown_error
message_of (some m) = m

-- The checks on a parsed document.
unfoldable pub checked_root : Document → Result ClientError Document
checked_root document =
    if not (has_tag document.root_tag root)
    then err (xml no_root)
    else ok_or (xml no_status) document.status_code >>= λ status.
        ok_or (xml status_not_integer) (parse_unsigned 32 status) >>= λ number.
        if not (number == 200)
        then err (protocol number (message_of document.status_message))
        else ok document

abbrev parsed : Result Text Document → Result ClientError Document
parsed (err e) = err (xml (malformed e))
parsed (ok document) = ok document

abbrev pub one_text : Text
one_text = 49 ∷ []

abbrev pub server_busy : Text
server_busy = 95 ∷ 83 ∷ 69 ∷ 82 ∷ 86 ∷ 69 ∷ 82 ∷ 95 ∷ 66 ∷ 85 ∷ 83 ∷ 89 ∷ []

abbrev pub number_in : ℕ → Option Text → Option ℕ
number_in w none = none
number_in w (some t) = parse_unsigned w t

-- `.filter(|port| *port != 0)`
abbrev pub not_zero : Option ℕ → Option ℕ
not_zero none = none
not_zero (some n) = if n == 0 then none else some n

abbrev pub game_of : Text → Option Text → ℕ
game_of host_state game =
    if ends_with host_state server_busy then or_default 0 (number_in 32 game) else 0

-- `parse_server_info`, on a checked document.
unfoldable pub server_info_of : Document → Result ClientError ServerInfo
unfolding required_text
server_info_of document = required_text document state >>= λ host_state.
    required_text document hostname >>= λ name. required_text document uniqueid >>= λ id.
    required_text document appversion >>= λ version.
    required_text document pair_status >>= λ status. ok (record {
      hostname = name;
      unique_id = id;
      app_version = version;
      gfe_version = optional_text document gfe_version;
      server_codec_mode_support =
          or_default 1 (number_in 32 (optional_text document codec_mode_support));
      https_port = or_default 47984 (not_zero (number_in 16 (optional_text document https_port)));
      paired = same_text status one_text;
      current_game = game_of host_state (optional_text document currentgame);
      state = host_state;
    })

abbrev pub application_of : Element → Result ClientError Application
application_of e = child_text e app_id >>= λ number.
    ok_or (xml id_not_integer) (parse_unsigned 32 number) >>= λ id.
    child_text e app_title >>= λ title. ok (record { id = id; title = title })

-- `filter`, `map` and `collect`: the first error ends it.
abbrev pub applications_in : List Element → Result ClientError (List Application)
applications_in [] = ok []
applications_in (e ∷ es) =
    let rest = applications_in es in
    if has_tag e.tag app
    then (application_of e >>= λ a. rest >>= λ as_read. ok (a ∷ as_read))
    else rest

module _ (api : XmlApi) where
  unfoldable pub checked_document : Text → Result ClientError Document
  unfolding checked_root
  checked_document t = parsed (api.parse t) >>= checked_root

  unfoldable pub parse_server_info : Text → Result ClientError ServerInfo
  unfolding checked_document
  parse_server_info t = checked_document t >>= server_info_of

  unfoldable pub parse_applications : Text → Result ClientError (List Application)
  unfolding checked_document
  parse_applications t = checked_document t >>= λ document. applications_in document.descendants

  unfoldable pub response_text : Text → Tag → Result ClientError Text
  unfolding checked_document
  response_text t tag = checked_document t >>= λ document. required_text document tag

  abbrev decoded : Result Text (List ℕ) → Result ClientError (List ℕ)
  decoded (err e) = err (xml (invalid_hex e))
  decoded (ok bytes) = ok bytes

  unfoldable pub response_hex : Text → Tag → Result ClientError (List ℕ)
  unfolding response_text
  response_hex t tag = response_text t tag >>= λ value. decoded (api.hex_decode value)

  unfoldable pub require_paired : Text → ℕ → Result ClientError (Unit {0})
  unfolding response_text
  require_paired t stage = response_text t paired >>= λ value.
      if same_text value one_text then ok tt else err (rejected stage)

-- What was read, with the state it was read from.
port_not_zero : (o : Option ℕ) → or_default 47984 (not_zero o) ≢ 0
port_not_zero none = λ h. ground (arith, h)
port_not_zero (some n) = λ h. ground (arith, h)

busy_game :
    (host_state : Text) (game : Option Text)
    → game_of host_state game ≢ 0
    → ends_with host_state server_busy ≡ true
busy_game host_state game h = elim (Bool-cases (ends_with host_state server_busy)) [
  | inl e ↦ e
  | inr n ↦ absurd (h (rw n refl))
]

-- Server information that is read has an HTTPS port that is not 0, and if it tells of a game, then its
-- state says that the host is busy, whatever the field of the game holds.
pub server_info_of_lem :
    (document : Document) (info : ServerInfo)
    → server_info_of document ≡ ok info
    → (info.https_port ≢ 0) × (info.current_game ≢ 0 → ends_with info.state server_busy ≡ true)
unfolding server_info_of
server_info_of_lem document info e =
    let (host_state, _, e1) = bind_ok (required_text document state) _ info e in
    let (name, _, e2) = bind_ok (required_text document hostname) _ info e1 in
    let (id, _, e3) = bind_ok (required_text document uniqueid) _ info e2 in
    let (version, _, e4) = bind_ok (required_text document appversion) _ info e3 in
    let (status, _, e5) = bind_ok (required_text document pair_status) _ info e4 in
    (
      subst (λ (i : ServerInfo). i.https_port ≢ 0) (ok_injective _ info e5)
          (port_not_zero (number_in 16 (optional_text document https_port))),
      subst (λ (i : ServerInfo). i.current_game ≢ 0 → ends_with i.state server_busy ≡ true)
          (ok_injective _ info e5) (busy_game host_state (optional_text document currentgame)),
    )
