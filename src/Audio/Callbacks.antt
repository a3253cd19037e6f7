-- ===== src/Audio/Callbacks.antt =====
-- The statics of moonlight-sys/src/audio.rs, the operations on them and the two callbacks of the core.
-- A renderer may return, fail or panic; a panic is caught, and a lock that it poisoned is taken anyway.
use moonlight_scarlet.Prelude.{
  ℕ, Bool, true, false, Option, none, some, List, if◌then◌else◌, leb, ◌==◌, Result, ok, err, take,
}
use moonlight_scarlet.Prelude.Int.{ℤ, pos, negsuc}
use moonlight_scarlet.Audio.Setup.{
  AudioError, invalid_packet_length, missing_packet_data, panicked_initializing, panicked_decoding,
  AudioSetup, from_raw,
}

-- How a call of a renderer ends.
pub data Ending : Type 0 where
  returned : Result AudioError (Unit {0}) → Ending
  panicked : Ending

-- `AudioRenderer`, on a state `R` of its own.
pub record AudioRenderer (R : Type 0) : Type 0 where
  pub initialize : AudioSetup → R → Ending × R
  pub decode_and_play : Option (List ℕ) → R → Ending × R

-- `AUDIO_RENDERER`, `AUDIO_ERROR` and `AUDIO_FAILED`.
pub record AudioStatics (R : Type 0) : Type 0 where
  pub renderer : Option R
  pub error : Option AudioError
  pub failed : Bool

-- An error after the first is dropped.
abbrev pub or_first : Option AudioError → AudioError → Option AudioError
or_first (some first) e = some first
or_first none e = some e

-- The packet of a callback: no length asks for concealment.
unfoldable pub packet_of : Option (List ℕ) → ℤ → Result AudioError (Option (List ℕ))
packet_of bytes (negsuc n) = err invalid_packet_length
packet_of bytes (pos n) =
    if n == 0
    then ok none
    else if leb n 65536
    then elim bytes as (λ _. Result AudioError (Option (List ℕ))) [
      | none ↦ err missing_packet_data
      | some array ↦ ok (some (take n array))
    ]
    else err invalid_packet_length

module _ {R : Type 0} where
  unfoldable pub install_audio_renderer : Option R → AudioStatics R → AudioStatics R
  install_audio_renderer renderer a = record { renderer = renderer; error = none; failed = false }

  unfoldable pub clear_audio_renderer : AudioStatics R → AudioStatics R
  clear_audio_renderer a = record a { renderer = none }

  abbrev pub current_audio_error : AudioStatics R → Option AudioError
  current_audio_error a = a.error

  unfoldable pub record_audio_error : AudioError → AudioStatics R → AudioStatics R
  record_audio_error e a = record a { failed = true; error = or_first a.error e }

  -- The `match` on what was caught: the return code of the callback, and the statics.
  unfoldable pub conclude : AudioError → Ending → AudioStatics R → ℤ × AudioStatics R
  unfolding record_audio_error
  conclude on_panic (returned (ok u)) a = (pos 0, a)
  conclude on_panic (returned (err e)) a = (negsuc 0, record_audio_error e a)
  conclude on_panic panicked a = (negsuc 0, record_audio_error on_panic a)

  abbrev pub with_renderer : AudioStatics R → Ending × R → Ending × AudioStatics R
  with_renderer a (ending, r) = (ending, record a { renderer = some r })

  -- `let Some(renderer) = installed.as_mut() else { return Ok(()) }`
  unfoldable pub on_renderer :
      (R → Ending × R) → Option R → AudioStatics R → Ending × AudioStatics R
  on_renderer call none a = (returned (ok tt), a)
  on_renderer call (some r) a = with_renderer a (call r)

  abbrev pub conclude_pair : AudioError → Ending × AudioStatics R → ℤ × AudioStatics R
  conclude_pair on_panic (ending, a) = conclude on_panic ending a

  module _ (renderer : AudioRenderer R) where
    unfoldable pub initialize_with :
        Result AudioError AudioSetup → AudioStatics R → ℤ × AudioStatics R
    unfolding conclude
    initialize_with (err e) a = conclude panicked_initializing (returned (err e)) a
    initialize_with (ok setup) a =
        conclude_pair panicked_initializing (on_renderer (renderer.initialize setup) a.renderer a)

    unfoldable pub audio_init :
        ℤ → ℤ → ℤ → ℤ → ℤ → ℤ → Option (List ℕ) → AudioStatics R → ℤ × AudioStatics R
    unfolding initialize_with
    audio_init configuration rate channels streams coupled samples mapping =
        initialize_with (from_raw configuration rate channels streams coupled samples mapping)

    unfoldable pub decode_with :
        Result AudioError (Option (List ℕ)) → AudioStatics R → ℤ × AudioStatics R
    unfolding conclude
    decode_with (err e) a = conclude panicked_decoding (returned (err e)) a
    decode_with (ok packet) a =
        conclude_pair panicked_decoding (on_renderer (renderer.decode_and_play packet) a.renderer a)

    -- The callback returns nothing.
    unfoldable pub audio_decode : Option (List ℕ) → ℤ → AudioStatics R → AudioStatics R
    unfolding decode_with
    audio_decode bytes sample_length a =
        let after = (decode_with (packet_of bytes sample_length) a).1 in
        if a.failed then a else after
