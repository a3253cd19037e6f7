-- ===== src/Config/Settings.antt =====
-- moonlight-control/src/settings.rs. An error of the system or the codec is `system`.
use moonlight_scarlet.Prelude.{
  ℕ, ◌≤◌, ◌≡◌, refl, Bool, true, false, not, ◌&&◌, Option, none, some, if◌then◌else◌, leb, Result,
  ok, err, ◌>>=◌, ◌>>◌, arith, Bool-cases, inl, inr,
}
use moonlight_scarlet.Config.Files.{
  ConfigFile, Json, Keeps, RoundTrips, save_document, load_document, load-save,
}

pub record ClientSettings : Type 0 where
  pub swap_ab : Bool
  pub bitrate_mbps : ℕ

abbrev pub default_settings : ClientSettings
default_settings = record { swap_ab = false; bitrate_mbps = 20 }

pub data SettingsError : Type 0 where
  bitrate_out_of_range : SettingsError
  system : ℕ → SettingsError

unfoldable pub validate_settings : ClientSettings → Result SettingsError (Unit {0})
validate_settings s =
    if not (leb 1 s.bitrate_mbps && leb s.bitrate_mbps 100) then err bitrate_out_of_range else ok tt

module _ {W : Type 0} (file : ConfigFile SettingsError W)
    (json : Json SettingsError ClientSettings) where
  unfoldable pub checked : Option ClientSettings → Result SettingsError ClientSettings
  unfolding validate_settings
  checked none = ok default_settings
  checked (some s) = validate_settings s >> ok s

  unfoldable pub load_settings : W → Result SettingsError ClientSettings
  unfolding checked
  load_settings w = load_document file json w >>= checked

  unfoldable pub save_if :
      Result SettingsError (Unit {0}) → ClientSettings → W → Result SettingsError (Unit {0}) × W
  save_if (ok u) s w = save_document file json s w
  save_if (err e) s w = (err e, w)

  unfoldable pub save_settings : ClientSettings → W → Result SettingsError (Unit {0}) × W
  unfolding save_if validate_settings
  save_settings s w = save_if (validate_settings s) s w

  -- Settings that were saved are loaded again.
  pub load_settings-save_settings :
      Keeps file
      → RoundTrips json
      → (s : ClientSettings) (w : W) → (save_settings s w).0 ≡ ok tt
      → load_settings (save_settings s w).1 ≡ ok s
  unfolding save_settings load_settings
  load_settings-save_settings keeps trips s w h =
      elim (Bool-cases (leb 1 s.bitrate_mbps && leb s.bitrate_mbps 100)) [
        | inl valid ↦ saved valid
        | inr bad ↦ absurd (ground (arith, (rw bad at h)))
      ]
    where
      saved :
          (leb 1 s.bitrate_mbps && leb s.bitrate_mbps 100) ≡ true
          → load_settings (save_settings s w).1 ≡ ok s
      saved valid =
          rw valid (simp (load-save file json keeps trips s w (rw valid at h), valid) refl)

  -- Settings that are loaded have a bitrate between 1 and 100.
  pub load_settings_range :
      (s : ClientSettings) (w : W)
      → load_settings w ≡ ok s
      → (1 ≤ s.bitrate_mbps) × (s.bitrate_mbps ≤ 100)
  unfolding load_settings
  load_settings_range s w h = go (load_document file json w) h
    where
      go :
          (r : Result SettingsError (Option ClientSettings))
          → (r >>= checked) ≡ ok s
          → (1 ≤ s.bitrate_mbps) × (s.bitrate_mbps ≤ 100)
      go (err e) k = absurd (ground (arith, k))
      go (ok none) k = ground (arith, k)
      go (ok (some t)) k = ground (arith, k)
