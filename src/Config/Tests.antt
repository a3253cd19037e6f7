-- ===== src/Config/Tests.antt =====
-- The theorems on settings and hosts at concrete inputs.
use moonlight_scarlet.Prelude.{
  ℕ, ◌≡◌, refl, true, false, Option, none, some, List, [], ◌∷◌, ◌++◌, if◌then◌else◌, is_some,
  Result, ok, err, ◌==◌, arith,
}
use moonlight_scarlet.Session.Defs.{Text}
use moonlight_scarlet.Config.Files.{
  ConfigFile, Json, Keeps, RoundTrips, save_document, after_directory, write_document,
  load_document, parse_found,
}
use moonlight_scarlet.Config.Settings.{
  ClientSettings, SettingsError, system, load_settings, save_settings, checked, save_if,
  validate_settings,
}
use moonlight_scarlet.Config.Hosts.{
  SavedHosts, SavedHostsDocument, HostsError, invalid_host, remember, load_hosts, save_hosts, trim,
  trim_start, trim_end, is_whitespace,
}
use moonlight_scarlet.Config.Settings
use moonlight_scarlet.Config.History

-- A disk that holds one file.
abbrev disk : {E : Type 0} → ConfigFile E (Option (List ℕ))
disk = record {
  try_exists = λ w. ok (is_some w);
  read = λ w. ok w;
  create_dir_all = λ w. (ok tt, w);
  write = λ bytes w. (ok tt, some bytes);
}

disk-Keeps : {E : Type 0} → Keeps {E = E} disk
disk-Keeps = record { there = λ bytes w h. refl; same = λ bytes w h. refl }

-- A codec: the bitrate, then the flag.
abbrev parse_settings : List ℕ → Result SettingsError ClientSettings
parse_settings (rate ∷ swap ∷ rest) = ok (record { swap_ab = swap == 1; bitrate_mbps = rate })
parse_settings (rate ∷ []) = err (system 1)
parse_settings [] = err (system 1)

abbrev settings_json : Json SettingsError ClientSettings
settings_json = record {
  from_slice = parse_settings;
  to_vec_pretty = λ s. ok (s.bitrate_mbps ∷ (if s.swap_ab then 1 else 0) ∷ []);
}

settings_json-RoundTrips : RoundTrips settings_json
settings_json-RoundTrips = record { back = back }
  where
    back :
        (s : ClientSettings) (bytes : List ℕ)
        → settings_json.to_vec_pretty s ≡ ok bytes
        → parse_settings (bytes ++ (10 ∷ [])) ≡ ok s
    back s bytes e = ground (arith, e)

program : Unit {0}
unfolding load_settings save_settings checked save_if validate_settings save_document
    after_directory write_document load_document parse_found save_hosts trim trim_start trim_end
    is_whitespace
program = tt

abbrev swapped_30 : ClientSettings
swapped_30 = record { swap_ab = true; bitrate_mbps = 30 }

saved_30 : (save_settings disk settings_json swapped_30 none).0 ≡ ok tt
unfolding program
saved_30 = refl

load_settings-save_settings_example :
    load_settings disk settings_json (save_settings disk settings_json swapped_30 none).1
    ≡ ok swapped_30
load_settings-save_settings_example =
    Settings.load_settings-save_settings disk settings_json disk-Keeps settings_json-RoundTrips
      swapped_30 none saved_30

loaded_100 :
    load_settings disk settings_json (some (100 ∷ 0 ∷ []))
    ≡ ok (record { swap_ab = false; bitrate_mbps = 100 })
unfolding program
loaded_100 = refl

-- An address is refused if it is empty.
abbrev parse : Text → Result HostsError (Unit {0})
parse [] = err (invalid_host [])
parse (c ∷ cs) = ok tt

abbrev two_hosts : SavedHosts
two_hosts = record { hosts = (0x61 ∷ []) ∷ (0x62 ∷ []) ∷ []; last_connected = some (0x62 ∷ []) }

-- The address `a` between spaces is in the history already.
remember-AreUnique_example :
    History.AreUnique []
      (History.hosts_of parse two_hosts (remember parse (0x20 ∷ 0x61 ∷ 0x09 ∷ []) two_hosts))
remember-AreUnique_example =
    History.remember-AreUnique parse (0x20 ∷ 0x61 ∷ 0x09 ∷ []) two_hosts (refl, (refl, tt))

-- A codec for one host of one character, and one that is selected.
abbrev print_hosts : ℕ → List Text → Option Text → Result HostsError (List ℕ)
print_hosts version ((c ∷ []) ∷ []) (some (d ∷ [])) = ok (version ∷ c ∷ d ∷ [])
print_hosts version hosts last = err (HostsError.system 2)

abbrev parse_hosts : List ℕ → Result HostsError SavedHostsDocument
parse_hosts (version ∷ c ∷ d ∷ rest) =
    ok (record { version = version; hosts = (c ∷ []) ∷ []; last_connected = some (d ∷ []) })
parse_hosts bytes = err (HostsError.system 2)

abbrev hosts_json : Json HostsError SavedHostsDocument
hosts_json = record {
  from_slice = parse_hosts;
  to_vec_pretty = λ d. print_hosts d.version d.hosts d.last_connected;
}

hosts_json-RoundTrips : RoundTrips hosts_json
hosts_json-RoundTrips = record { back = λ d bytes e. go d.version d.hosts d.last_connected bytes e }
  where
    go :
        (version : ℕ) (hosts : List Text) (last : Option Text) (bytes : List ℕ)
        → print_hosts version hosts last ≡ ok bytes
        → parse_hosts (bytes ++ (10 ∷ []))
          ≡ ok (record { version = version; hosts = hosts; last_connected = last })
    go version hosts last bytes e = ground (arith, e)

abbrev one_host : SavedHosts
one_host = record { hosts = (0x61 ∷ []) ∷ []; last_connected = some (0x61 ∷ []) }

one_host-IsHistory : History.IsHistory parse one_host
unfolding program
one_host-IsHistory = record {
  unique = (refl, tt);
  normal = ((refl, refl), tt);
  selected = λ h e. ground (arith, e);
}

saved_host : (save_hosts parse disk hosts_json one_host none).0 ≡ ok tt
unfolding program
saved_host = refl

load_hosts-save_hosts_example :
    load_hosts parse disk hosts_json (save_hosts parse disk hosts_json one_host none).1
    ≡ ok one_host
load_hosts-save_hosts_example =
    History.load_hosts-save_hosts parse disk hosts_json disk-Keeps hosts_json-RoundTrips one_host
      none one_host-IsHistory saved_host
