-- ===== src/Stream/Handled.antt =====
-- What the two variants of `consume_video`, moonlight/src/stream.rs, do with a frame.
use moonlight_scarlet.Prelude.{
  ℕ, ◌≡◌, refl, ap, ◌∙◌, Bool, true, false, not, Option, none, some, List, Result, ok, err,
  if-cases, ◌==◌,
}
use moonlight_scarlet.Session.Defs.{Text}
use moonlight_scarlet.Audio.Setup.{AudioError}
use moonlight_scarlet.Audio.Callbacks.{current_audio_error}
use moonlight_scarlet.Conn.Defs.{
  ConnectionError, VideoFrame, VideoFrameStatus, need_idr, Connection,
}
use moonlight_scarlet.Conn.Defs as Defs
use moonlight_scarlet.Conn.Bridge.{Bridge}
use moonlight_scarlet.Conn.Frames.{complete_frame, drop_frame, copy_access_unit}
use moonlight_scarlet.Stream.Defs.{Worker, saturating_succ, progress, reported, report_audio_error}
use moonlight_scarlet.Stream.Receive.{Turn}
use moonlight_scarlet.Stream.Preview.{count_frame, first_frame, count_or_check, is_annex_b}
use moonlight_scarlet.Stream.Decode.{
  Platform, Image, DecodedOutput, image, other_output, VideoWorker, enter_stage, with_video,
  complete_turn, count_presented, presented, present_output, dequeued, submitted, submit_copied,
  decode_frame,
}

reported_process : {R B V : Type 0} (w : Worker R B V) → (report_audio_error w).process ≡ w.process
unfolding report_audio_error
reported_process w = go w.audio_error_reported (current_audio_error w.process.audio) w
  where
    go :
        {R B V : Type 0} (b : Bool) (e : Option AudioError) (w : Worker R B V)
        → (reported b e w).process ≡ w.process
    go true e w = refl
    go false none w = refl
    go false (some e) w = refl

module _ {R B V : Type 0} (bridge : Bridge R B) where
  -- The process of the second worker is that of the first after the frame was given back, once.
  abbrev pub IsReturned : VideoFrame → Worker R B V → Worker R B V → Type 0
  IsReturned f w w' =
      (status : VideoFrameStatus) × (w'.process ≡ complete_frame bridge f status w.process)

module _ {R B : Type 0} (bridge : Bridge R B) (c : Connection) where
  counted-IsReturned :
      (f : VideoFrame) (w : Worker R B (Unit {0}))
      → IsReturned bridge f w (count_frame bridge c f w).1
  unfolding count_frame
  counted-IsReturned f w = (Defs.complete, reported_process _)

  first-IsReturned :
      (f : VideoFrame) (r : Result ConnectionError (List ℕ)) (w : Worker R B (Unit {0}))
      → IsReturned bridge f w (first_frame bridge c f r w).1
  unfolding first_frame drop_frame complete_frame
  first-IsReturned f (err e) w = (need_idr, refl)
  first-IsReturned f (ok unit) w =
      if-cases (λ (t : Turn × Worker R B (Unit {0})). IsReturned bridge f w t.1)
        (not (is_annex_b unit)) (λ h. (need_idr, refl)) (λ h. counted-IsReturned f (progress _ w))

  -- On a host that is not Scarlet, a frame that the loop handles is given back exactly once, whatever
  -- becomes of it, and the process is otherwise left.
  pub count_or_check-IsReturned :
      (f : VideoFrame) (w : Worker R B (Unit {0}))
      → IsReturned bridge f w (count_or_check bridge c f w).1
  unfolding count_or_check
  count_or_check-IsReturned f w =
      if-cases (λ (t : Turn × Worker R B (Unit {0})). IsReturned bridge f w t.1)
        (w.frame_count == 0) (λ h. first-IsReturned f (copy_access_unit bridge f w.process) w)
        (λ h. counted-IsReturned f w)

module _ {R B V : Type 0} (bridge : Bridge R B) (platform : Platform V) (c : Connection) where
  completed-IsReturned :
      (f : VideoFrame) (w : VideoWorker R B V)
      → IsReturned bridge f w (complete_turn bridge platform c f w).1
  unfolding complete_turn enter_stage
  completed-IsReturned f w = (Defs.complete, reported_process _)

  count_presented_process :
      (i : Image) (w : VideoWorker R B V)
      → (count_presented bridge platform c i w).process ≡ w.process
  unfolding count_presented
  count_presented_process i w =
      if-cases (λ (v : VideoWorker R B V). v.process ≡ w.process)
        (saturating_succ w.frame_count == 1) (λ h. refl) (λ h. refl)

  presented-IsReturned :
      (f : VideoFrame) (i : Image) (r : Result Text (Unit {0}) × V) (w : VideoWorker R B V)
      → IsReturned bridge f w (presented bridge platform c f i r w).1
  unfolding presented
  presented-IsReturned f i (err e, v) w = (need_idr, refl)
  presented-IsReturned f i (ok u, v) w =
      let (status, e) =
        completed-IsReturned f
          (count_presented bridge platform c i (with_video bridge platform c v w)) in
      (
        status,
        e
            ∙ ap (complete_frame bridge f status)
                (count_presented_process i (with_video bridge platform c v w)),
      )

  output-IsReturned :
      (f : VideoFrame) (o : Option DecodedOutput) (w : VideoWorker R B V)
      → IsReturned bridge f w (present_output bridge platform c f o w).1
  unfolding present_output
  output-IsReturned f none w = completed-IsReturned f w
  output-IsReturned f (some other_output) w = (need_idr, refl)
  output-IsReturned f (some (image i)) w =
      presented-IsReturned f i (platform.present_image i w.platform.video) w

  dequeued-IsReturned :
      (f : VideoFrame) (r : Result Text (Option DecodedOutput) × V) (w : VideoWorker R B V)
      → IsReturned bridge f w (dequeued bridge platform c f r w).1
  unfolding dequeued enter_stage
  dequeued-IsReturned f (err e, v) w = (need_idr, refl)
  dequeued-IsReturned f (ok o, v) w = output-IsReturned f o _

  submitted-IsReturned :
      (f : VideoFrame) (r : Result Text (Unit {0}) × V) (w : VideoWorker R B V)
      → IsReturned bridge f w (submitted bridge platform c f r w).1
  unfolding submitted enter_stage
  submitted-IsReturned f (err e, v) w = (need_idr, refl)
  submitted-IsReturned f (ok u, v) w = dequeued-IsReturned f _ _

  copied-IsReturned :
      (f : VideoFrame) (r : Result ConnectionError (List ℕ)) (w : VideoWorker R B V)
      → IsReturned bridge f w (submit_copied bridge platform c f r w).1
  unfolding submit_copied enter_stage
  copied-IsReturned f (err e) w = (need_idr, refl)
  copied-IsReturned f (ok unit) w = submitted-IsReturned f _ _

  -- On Scarlet, a frame that the loop handles is given back exactly once, whatever the copy, the
  -- decoder and the video output answer, and the process is otherwise left.
  pub decode_frame-IsReturned :
      (f : VideoFrame) (w : VideoWorker R B V)
      → IsReturned bridge f w (decode_frame bridge platform c f w).1
  unfolding decode_frame enter_stage
  decode_frame-IsReturned f w = copied-IsReturned f _ _
