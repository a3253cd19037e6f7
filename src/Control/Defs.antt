-- ===== src/Control/Defs.antt =====
-- The types of moonlight-control/src/client.rs, and calls that touch the network. An error keeps what
-- its message tells; an argument of a request keeps its bytes, which go out in hex.
use moonlight_scarlet.Prelude.{
  ℕ, ◌*◌, ◌+◌, ◌-◌, ◌^◌, Bool, true, false, not, ◌||◌, ◌&&◌, Option, none, some, [], ◌∷◌,
  if◌then◌else◌, ◌==◌, leb, Result, ok, err, is_some,
}
use moonlight_scarlet.Session.Defs.{Text, ServerInfo}

pub data XmlError : Type 0 where
  malformed : Text → XmlError
  no_root no_status status_not_integer : XmlError
  missing_element missing_child : ℕ → XmlError
  id_not_integer : XmlError
  invalid_hex : Text → XmlError
  invalid_app_version : Text → XmlError

-- The faults of client.rs and xml.rs; `external` is one of a library below, in its own words.
pub data ClientError : Type 0 where
  empty_host host_missing credentials_given path_given : ClientError
  xml : XmlError → ClientError
  protocol : ℕ → Text → ClientError
  rejected : ℕ → ClientError
  already_pairing short_response short_secret wrong_signature wrong_pin : ClientError
  currently_streaming not_reported_paired short_digest : ClientError
  external : Text → ClientError

pub record Endpoint : Type 0 where
  pub host : Text
  pub http_port : ℕ

pub data ConnectProgress : Type 0 where
  fetching_server_info : ConnectProgress
  waiting_for_pin : ℕ → ConnectProgress
  pairing_stage : ℕ → ConnectProgress
  fetching_applications : ConnectProgress

-- What the URL library tells of an address.
pub record ParsedUrl : Type 0 where
  pub host : Option Text
  pub username : Text
  pub password : Option Text
  pub query : Option Text
  pub path : Text
  pub port : Option ℕ

-- `char::is_whitespace`
abbrev is_space : ℕ → Bool
is_space c =
    leb 9 c && leb c 13
    || c == 32
    || c == 133
    || c == 160
    || c == 5760
    || leb 8192 c && leb c 8202
    || c == 8232
    || c == 8233
    || c == 8239
    || c == 8287
    || c == 12288

abbrev trim_start : Text → Text
trim_start [] = []
trim_start (c ∷ cs) = let rest = trim_start cs in if is_space c then rest else c ∷ cs

abbrev reversed : Text → Text → Text
reversed [] done = done
reversed (c ∷ cs) done = reversed cs (c ∷ done)

-- `str::trim`
abbrev pub trimmed : Text → Text
trimmed t = reversed (trim_start (reversed (trim_start t) [])) []

-- Equality, prefixes, suffixes and parts of texts.
abbrev pub same_text : Text → Text → Bool
same_text [] [] = true
same_text [] (d ∷ ds) = false
same_text (c ∷ cs) [] = false
same_text (c ∷ cs) (d ∷ ds) = c == d && same_text cs ds

abbrev pub starts_with : Text → Text → Bool
starts_with t [] = true
starts_with [] (d ∷ ds) = false
starts_with (c ∷ cs) (d ∷ ds) = c == d && starts_with cs ds

abbrev pub contains : Text → Text → Bool
contains [] part = same_text part []
contains (c ∷ cs) part = starts_with (c ∷ cs) part || contains cs part

abbrev pub ends_with : Text → Text → Bool
ends_with [] part = same_text part []
ends_with (c ∷ cs) part = same_text (c ∷ cs) part || ends_with cs part

abbrev pub is_blank : Text → Bool
is_blank [] = true
is_blank (c ∷ cs) = false

abbrev pub digit : ℕ → Option ℕ
digit c = if leb 48 c && leb c 57 then some (c - 48) else none

-- The value of a text of digits, on what was read before it.
abbrev pub digits_from : Text → ℕ → Option ℕ
digits_from [] n = some n
digits_from (c ∷ cs) n = elim (digit c) [ none ↦ none | some d ↦ digits_from cs (n * 10 + d) ]

abbrev pub at_most : ℕ → Option ℕ → Option ℕ
at_most bound none = none
at_most bound (some n) = if leb n bound then some n else none

abbrev unsigned : Text → Option ℕ
unsigned [] = none
unsigned (c ∷ cs) = digits_from (c ∷ cs) 0

-- `str::parse` of an unsigned integer of `w` bits, which takes one leading plus sign.
abbrev pub parse_unsigned : ℕ → Text → Option ℕ
parse_unsigned w [] = none
parse_unsigned w (c ∷ cs) = at_most (2 ^ w - 1) (if c == 43 then unsigned cs else unsigned (c ∷ cs))

abbrev scheme_mark : Text
scheme_mark = 58 ∷ 47 ∷ 47 ∷ []

abbrev slash : Text
slash = 47 ∷ []

abbrev http_prefix : Text → Text
http_prefix t = 104 ∷ 116 ∷ 116 ∷ 112 ∷ 58 ∷ 47 ∷ 47 ∷ t

abbrev pub or_default : ℕ → Option ℕ → ℕ
or_default d none = d
or_default d (some n) = n

abbrev checked_url : ParsedUrl → Option Text → Result ClientError Endpoint
checked_url url none = err host_missing
checked_url url (some host) =
    if not (is_blank url.username) || is_some url.password || is_some url.query
    then err credentials_given
    else if not (same_text url.path slash) && not (is_blank url.path)
    then err path_given
    else ok (record { host = host; http_port = or_default 47989 url.port })

abbrev url_result : Result Text ParsedUrl → Result ClientError Endpoint
url_result (err e) = err (external e)
url_result (ok url) = checked_url url url.host

-- `Endpoint::parse`, over the parser of the URL library.
unfoldable pub parse_endpoint : (Text → Result Text ParsedUrl) → Text → Result ClientError Endpoint
parse_endpoint parse_url input =
    let t = trimmed input in
    if is_blank t
    then err empty_host
    else url_result (parse_url (if contains t scheme_mark then t else http_prefix t))

abbrev first_component : Text → Text
first_component [] = []
first_component (c ∷ cs) = let rest = first_component cs in if c == 46 then [] else c ∷ rest

-- `ServerInfo::server_major_version`
unfoldable pub server_major_version : ServerInfo → Result ClientError ℕ
server_major_version s = elim (parse_unsigned 32 (first_component s.app_version)) [
  | none ↦ err (xml (invalid_app_version s.app_version))
  | some n ↦ ok n
]
