-- ===== src/Audio/Latch.antt =====
-- The error that the audio boundary of moonlight-sys/src/audio.rs keeps.
use moonlight_scarlet.Prelude.{
  ℕ, ◌≡◌, ◌∙◌, sym, ap, refl, true, Option, none, some, List, [], ◌∷◌, Result, ok, err, is_some,
  arith, Bool-cases, inl, inr,
}
use moonlight_scarlet.Prelude.Int.{ℤ, pos, negsuc}
use moonlight_scarlet.Audio.Setup.{
  AudioError, AudioSetup, from_raw, panicked_initializing, panicked_decoding,
}
use moonlight_scarlet.Audio.Callbacks.{
  Ending, returned, panicked, AudioRenderer, AudioStatics, install_audio_renderer,
  record_audio_error, conclude, on_renderer, initialize_with, audio_init, packet_of, decode_with,
  audio_decode,
}

-- A packet callback of the core: the data and the length.
abbrev pub CallbackPacket : Type 0
CallbackPacket = Option (List ℕ) × ℤ

module _ {R : Type 0} (renderer : AudioRenderer R) where
  -- The flag says whether there is an error.
  abbrev pub IsLatched : AudioStatics R → Type 0
  IsLatched a = a.failed ≡ is_some a.error

  -- The callbacks of a session, in the order in which the core's worker makes them.
  unfoldable pub decode_all : List CallbackPacket → AudioStatics R → AudioStatics R
  decode_all [] a = a
  decode_all (p ∷ ps) a = decode_all ps (audio_decode renderer p.0 p.1 a)

  concludes :
      (e : AudioError) (ending : Ending) (a : AudioStatics R)
      → IsLatched a
      → IsLatched (conclude e ending a).1
        × (((conclude e ending a).0 ≡ pos 0) → (conclude e ending a).1.error ≡ a.error)
        × (((conclude e ending a).0 ≡ negsuc 0) → (conclude e ending a).1.failed ≡ true)
  unfolding conclude record_audio_error
  concludes e (returned (ok u)) a h = (h, (λ k. refl), λ k. absurd (ground (arith, k)))
  concludes e (returned (err x)) a h =
      (ground (arith, h), (λ k. absurd (ground (arith, k))), λ k. refl)
  concludes e panicked a h = (ground (arith, h), (λ k. absurd (ground (arith, k))), λ k. refl)

  on_renderer_latch :
      (call : R → Ending × R) (r : Option R) (a : AudioStatics R)
      → IsLatched a
      → IsLatched (on_renderer call r a).1
  unfolding on_renderer
  on_renderer_latch call none a h = h
  on_renderer_latch call (some r) a h = h

  decode_with-IsLatched :
      (p : Result AudioError (Option (List ℕ))) (a : AudioStatics R)
      → IsLatched a
      → IsLatched (decode_with renderer p a).1
  unfolding decode_with
  decode_with-IsLatched (err e) a h = (concludes panicked_decoding (returned (err e)) a h).0
  decode_with-IsLatched (ok packet) a h =
      let call = renderer.decode_and_play packet in
      (concludes panicked_decoding (on_renderer call a.renderer a).0
        (on_renderer call a.renderer a).1 (on_renderer_latch call a.renderer a h)).0

  decode-IsLatched :
      (p : CallbackPacket) (a : AudioStatics R)
      → IsLatched a
      → IsLatched (audio_decode renderer p.0 p.1 a)
  unfolding audio_decode
  decode-IsLatched p a h = elim (Bool-cases a.failed) [
    | inl f ↦ rw f (sym f ∙ h)
    | inr g ↦ simp g (decode_with-IsLatched (packet_of p.0 p.1) a h)
  ]

  initialize_with-IsLatched :
      (s : Result AudioError AudioSetup) (a : AudioStatics R)
      → IsLatched a
      → IsLatched (initialize_with renderer s a).1
  unfolding initialize_with
  initialize_with-IsLatched (err e) a h = (concludes panicked_initializing (returned (err e)) a h).0
  initialize_with-IsLatched (ok setup) a h =
      let call = renderer.initialize setup in
      (concludes panicked_initializing (on_renderer call a.renderer a).0
        (on_renderer call a.renderer a).1 (on_renderer_latch call a.renderer a h)).0

  decode_all-IsLatched :
      (ps : List CallbackPacket) (a : AudioStatics R) → IsLatched a → IsLatched (decode_all ps a)
  unfolding decode_all
  decode_all-IsLatched [] a h = h
  decode_all-IsLatched (p ∷ ps) a h =
      decode_all-IsLatched ps (audio_decode renderer p.0 p.1 a) (decode-IsLatched p a h)

  -- The error flag and the error agree through a setup and any packets after it.
  pub session-IsLatched :
      (configuration rate channels streams coupled samples : ℤ) (mapping : Option (List ℕ))
      (ps : List CallbackPacket) (installed : Option R) (before : AudioStatics R)
      → IsLatched (
          decode_all ps
            (audio_init renderer configuration rate channels streams coupled samples mapping
              (install_audio_renderer installed before)).1)
  unfolding audio_init install_audio_renderer
  session-IsLatched configuration rate channels streams coupled samples mapping ps installed
        before =
      decode_all-IsLatched ps _ (
        initialize_with-IsLatched
          (from_raw configuration rate channels streams coupled samples mapping)
          (install_audio_renderer installed before) refl)

  -- Once an error is recorded, packets change nothing: the renderer is not called again, and the error
  -- that is reported stays the first one.
  pub decode_all_after_failure :
      (ps : List CallbackPacket) (a : AudioStatics R) → a.failed ≡ true → decode_all ps a ≡ a
  unfolding decode_all audio_decode
  decode_all_after_failure [] a h = refl
  decode_all_after_failure (p ∷ ps) a h =
      ap (decode_all ps) (simp h refl) ∙ decode_all_after_failure ps a h
