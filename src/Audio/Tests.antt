-- ===== src/Audio/Tests.antt =====
-- The theorems on the audio boundary at concrete inputs.
use moonlight_scarlet.Prelude.{
  ℕ, zero, suc, ◌≡◌, false, none, some, List, [], ◌∷◌, ok, err, is_some,
}
use moonlight_scarlet.Prelude.Int.{pos, negsuc}
use moonlight_scarlet.Audio.Setup.{renderer_error}
use moonlight_scarlet.Audio.Callbacks.{
  returned, AudioRenderer, AudioStatics, install_audio_renderer, audio_init,
}
use moonlight_scarlet.Audio.Latch.{CallbackPacket, decode_all}
use moonlight_scarlet.Audio.Latch as Latch

-- A renderer that counts its packets and fails on the second.
abbrev counting : AudioRenderer ℕ
counting = record {
  initialize = λ setup n. (returned (ok tt), n);
  decode_and_play = λ packet n.
      (elim n [ zero ↦ returned (ok tt) | suc m ↦ returned (err (renderer_error m)) ], 1);
}

abbrev unused : AudioStatics ℕ
unused = record { renderer = none; error = none; failed = false }

abbrev packets : List CallbackPacket
packets = (none, pos 0) ∷ (some (1 ∷ 2 ∷ []), pos 2) ∷ (none, negsuc 0) ∷ []

session-IsLatched_example :
    (decode_all counting packets
      (audio_init counting
        (pos 0)
        (pos 48000)
        (pos 2)
        (pos 1)
        (pos 1)
        (pos 240)
        (some (0 ∷ 1 ∷ []))
        (install_audio_renderer (some 0) unused)).1).failed
    ≡ is_some
        (decode_all counting packets
          (audio_init counting
            (pos 0)
            (pos 48000)
            (pos 2)
            (pos 1)
            (pos 1)
            (pos 240)
            (some (0 ∷ 1 ∷ []))
            (install_audio_renderer (some 0) unused)).1).error
session-IsLatched_example =
    Latch.session-IsLatched counting (pos 0) (pos 48000) (pos 2) (pos 1) (pos 1) (pos 240)
      (some (0 ∷ 1 ∷ [])) packets (some 0) unused
