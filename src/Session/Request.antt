-- ===== src/Session/Request.antt =====
-- The request of moonlight-control/src/session.rs: its arguments, and the checks that need no network.
use moonlight_scarlet.Prelude.{
  ℕ, ◌*◌, ◌^◌, Bool, true, false, not, ◌||◌, List, [], ◌∷◌, if◌then◌else◌, ◌==◌, Result, ok, err,
  bit_or,
}
use moonlight_scarlet.Prelude.Int.{ℤ}
use moonlight_scarlet.Session.Defs.{
  Text, StartVerb, launch_verb, resume_verb, ControlError, zero_application, unknown_application,
  LaunchConfig, Application, ConnectedHost, Argument, appid, mode_of, additional_states, sops,
  rikey, rikeyid, local_audio_play_mode, surround_audio_info, remote_controllers_bitmap, gcmap,
  gcpersist, corever, decimal, signed, mode, hex, Command, launch_command, resume_command,
}

abbrev pub has_application : ℕ → List Application → Bool
has_application id [] = false
has_application id (a ∷ rest) = a.id == id || has_application id rest

unfoldable pub validate_application :
    {E : Type 0} → ConnectedHost E → Application → Result ControlError (Unit {0})
validate_application host application =
    if application.id == 0
    then err zero_application
    else if not (has_application application.id host.applications)
    then err (unknown_application application.id)
    else ok tt

-- The tags `gamesession`, `resume`, `cancel` and `sessionUrl0`, and the text `1`.
abbrev pub gamesession_tag : Text
gamesession_tag = 0x67 ∷ 0x61 ∷ 0x6d ∷ 0x65 ∷ 0x73 ∷ 0x65 ∷ 0x73 ∷ 0x73 ∷ 0x69 ∷ 0x6f ∷ 0x6e ∷ []

abbrev pub resume_tag : Text
resume_tag = 0x72 ∷ 0x65 ∷ 0x73 ∷ 0x75 ∷ 0x6d ∷ 0x65 ∷ []

abbrev pub cancel_tag : Text
cancel_tag = 0x63 ∷ 0x61 ∷ 0x6e ∷ 0x63 ∷ 0x65 ∷ 0x6c ∷ []

abbrev pub session_url_tag : Text
session_url_tag = 0x73 ∷ 0x65 ∷ 0x73 ∷ 0x73 ∷ 0x69 ∷ 0x6f ∷ 0x6e ∷ 0x55 ∷ 0x72 ∷ 0x6c ∷ 0x30 ∷ []

abbrev pub is_one : Text → Bool
is_one [] = false
is_one (c ∷ []) = c == 0x31
is_one (c ∷ d ∷ cs) = false

abbrev pub verb_command : StartVerb → Command
verb_command launch_verb = launch_command
verb_command resume_verb = resume_command

abbrev pub success_tag : StartVerb → Text
success_tag launch_verb = gamesession_tag
success_tag resume_verb = resume_tag

-- Seconds.
abbrev pub timeout : StartVerb → ℕ
timeout launch_verb = 120
timeout resume_verb = 30

abbrev pub is_resume : StartVerb → Bool
is_resume launch_verb = false
is_resume resume_verb = true

-- `u8::from(b)`
abbrev pub flag : Bool → ℕ
flag true = 1
flag false = 0

unfoldable pub session_arguments : ℕ → LaunchConfig → List ℕ → ℤ → List Argument
session_arguments application_id c key key_id =
    appid (decimal application_id)
    ∷ mode_of (mode c.width c.height c.fps)
    ∷ additional_states (decimal 1)
    ∷ sops (decimal (flag c.optimize_game_settings))
    ∷ rikey (hex key)
    ∷ rikeyid (signed key_id)
    ∷ local_audio_play_mode (decimal (flag c.play_audio_on_host))
    ∷ surround_audio_info (decimal (bit_or (3 * 2 ^ 16) 2))
    ∷ remote_controllers_bitmap (decimal c.gamepad_mask)
    ∷ gcmap (decimal c.gamepad_mask)
    ∷ gcpersist (decimal (flag c.persist_gamepads))
    ∷ corever (decimal 1)
    ∷ []

abbrev pub is_empty_text : Text → Bool
is_empty_text [] = true
is_empty_text (c ∷ cs) = false
