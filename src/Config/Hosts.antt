-- ===== src/Config/Hosts.antt =====
-- moonlight-control/src/hosts.rs. `Endpoint::parse` of client.rs is a parameter: it accepts an address
-- or reports an error. A string is the list of its code points.
use moonlight_scarlet.Prelude.{
  ℕ, Bool, true, false, not, ◌&&◌, ◌||◌, Option, none, some, List, [], ◌∷◌, ◌++◌, if◌then◌else◌,
  leb, ◌==◌, Result, ok, err, ◌>>=◌,
}
use moonlight_scarlet.Session.Defs.{Text}
use moonlight_scarlet.Config.Files.{ConfigFile, Json, save_document, load_document}

pub record SavedHosts : Type 0 where
  pub hosts : List Text
  pub last_connected : Option Text

-- `SavedHosts::default`
abbrev pub no_hosts : SavedHosts
no_hosts = record { hosts = []; last_connected = none }

pub record SavedHostsDocument : Type 0 where
  pub version : ℕ
  pub hosts : List Text
  pub last_connected : Option Text

pub data HostsError : Type 0 where
  invalid_host : Text → HostsError
  unsupported_version : ℕ → HostsError
  system : ℕ → HostsError

-- `saved == &host`
abbrev pub text_eq : Text → Text → Bool
text_eq [] [] = true
text_eq [] (d ∷ ds) = false
text_eq (c ∷ cs) [] = false
text_eq (c ∷ cs) (d ∷ ds) = c == d && text_eq cs ds

-- `char::is_whitespace`: the White_Space property of Unicode.
unfoldable pub is_whitespace : ℕ → Bool
is_whitespace c =
    (leb 0x09 c && leb c 0x0d)
    || c == 0x20
    || c == 0x85
    || c == 0xa0
    || c == 0x1680
    || (leb 0x2000 c && leb c 0x200a)
    || c == 0x2028
    || c == 0x2029
    || c == 0x202f
    || c == 0x205f
    || c == 0x3000

unfoldable pub trim_start : Text → Text
trim_start [] = []
trim_start (c ∷ cs) = let rest = trim_start cs in if is_whitespace c then rest else c ∷ cs

-- A character is put in front unless only spaces would follow it.
abbrev pub put : Bool → ℕ → Text → Text
put space c [] = if space then [] else c ∷ []
put space c (d ∷ ds) = c ∷ d ∷ ds

unfoldable pub trim_end : Text → Text
trim_end [] = []
trim_end (c ∷ cs) = put (is_whitespace c) c (trim_end cs)

unfoldable pub trim : Text → Text
unfolding trim_start trim_end
trim t = trim_end (trim_start t)

abbrev pub has_host : Text → List Text → Bool
has_host host [] = false
has_host host (saved ∷ rest) = text_eq saved host || has_host host rest

module _ (parse : Text → Result HostsError (Unit {0})) where
  unfoldable pub normalized_host : Text → Result HostsError Text
  normalized_host host = parse (trim host) >>= λ _. ok (trim host)

  abbrev pub add_host : Text → SavedHosts → SavedHosts
  add_host host s =
      if not (has_host host s.hosts) then record s { hosts = s.hosts ++ (host ∷ []) } else s

  -- A handler that fails leaves the history as it was.
  unfoldable pub remember_without_selecting : Text → SavedHosts → Result HostsError SavedHosts
  remember_without_selecting host s = normalized_host host >>= λ name. ok (add_host name s)

  unfoldable pub remember : Text → SavedHosts → Result HostsError SavedHosts
  unfolding remember_without_selecting
  remember host s = normalized_host host >>= λ name.
      remember_without_selecting name s >>= λ t. ok (record t { last_connected = some name })

  unfoldable pub remember_each : List Text → SavedHosts → Result HostsError SavedHosts
  remember_each [] s = ok s
  remember_each (host ∷ hosts) s = remember_without_selecting host s >>= remember_each hosts

  unfoldable pub select : Option Text → SavedHosts → Result HostsError SavedHosts
  select none s = ok s
  select (some host) s = remember host s

  unfoldable pub from_document : Option SavedHostsDocument → Result HostsError SavedHosts
  from_document none = ok no_hosts
  from_document (some d) =
      if not (d.version == 1)
      then err (unsupported_version d.version)
      else remember_each d.hosts no_hosts >>= select d.last_connected

  module _ {W : Type 0} (file : ConfigFile HostsError W)
      (json : Json HostsError SavedHostsDocument) where
    unfoldable pub load_hosts : W → Result HostsError SavedHosts
    unfolding from_document
    load_hosts w = load_document file json w >>= from_document

    unfoldable pub save_hosts : SavedHosts → W → Result HostsError (Unit {0}) × W
    save_hosts s =
        save_document file json
          (record { version = 1; hosts = s.hosts; last_connected = s.last_connected })
