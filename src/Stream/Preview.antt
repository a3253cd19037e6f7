-- ===== src/Stream/Preview.antt =====
-- `consume_video` and `is_annex_b` of moonlight/src/stream.rs on a host that is not Scarlet.
use moonlight_scarlet.Prelude.{
  ℕ, Bool, true, false, not, ◌&&◌, ◌||◌, Option, List, [], ◌∷◌, if◌then◌else◌, ◌==◌, Result, ok,
  err,
}
use moonlight_scarlet.Conn.Defs.{ConnectionError, VideoFrame, complete, need_idr, Connection}
use moonlight_scarlet.Conn.Bridge.{Bridge}
use moonlight_scarlet.Conn.Frames.{copy_access_unit, drop_frame}
use moonlight_scarlet.Stream.Defs.{
  connection_failed, not_annex_b, transport_active, Worker, saturating_succ, progress,
  report_audio_error, give_frame,
}
use moonlight_scarlet.Stream.Receive.{Turn, finished, again, Outcome, receive_loop}

abbrev pub starts_with : List ℕ → List ℕ → Bool
starts_with bytes [] = true
starts_with [] (x ∷ xs) = false
starts_with (b ∷ bs) (x ∷ xs) = b == x && starts_with bs xs

unfoldable pub is_annex_b : List ℕ → Bool
is_annex_b unit = starts_with unit (0 ∷ 0 ∷ 1 ∷ []) || starts_with unit (0 ∷ 0 ∷ 0 ∷ 1 ∷ [])

module _ {R B : Type 0} (bridge : Bridge R B) (c : Connection) where
  unfoldable pub count_frame : VideoFrame → Worker R B (Unit {0}) → Turn × Worker R B (Unit {0})
  count_frame f w = (
    again,
    report_audio_error
        (give_frame bridge f complete (record w { frame_count = saturating_succ w.frame_count })),
  )

  unfoldable pub first_frame :
      VideoFrame
      → Result ConnectionError (List ℕ)
      → Worker R B (Unit {0})
      → Turn × Worker R B (Unit {0})
  unfolding count_frame
  first_frame f (err e) w =
      (finished (err (connection_failed e)), record w { process = drop_frame bridge f w.process })
  first_frame f (ok unit) w =
      if not (is_annex_b unit)
      then (finished (err not_annex_b), give_frame bridge f need_idr w)
      else count_frame f (progress transport_active w)

  unfoldable pub count_or_check : VideoFrame → Worker R B (Unit {0}) → Turn × Worker R B (Unit {0})
  unfolding first_frame
  count_or_check f w =
      if w.frame_count == 0
      then first_frame f (copy_access_unit bridge f w.process) w
      else count_frame f w

  unfoldable pub consume_video : List Bool → Worker R B (Unit {0}) → Option (Outcome R B (Unit {0}))
  unfolding receive_loop
  consume_video schedule w =
      receive_loop bridge c (λ v. v) count_or_check schedule
        (record w { frame_count = 0; audio_error_reported = false })
