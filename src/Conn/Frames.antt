-- ===== src/Conn/Frames.antt =====
-- Frames of a connection, moonlight-sys/src/connection.rs: pulling one, copying it and giving it back.
use moonlight_scarlet.Prelude.{
  ℕ, ◌*◌, not, ◌||◌, Option, none, some, List, if◌then◌else◌, ltb, ◌==◌, Result, ok, err, is_some,
}
use moonlight_scarlet.Prelude.Int.{ℤ, pos, negsuc}
use moonlight_scarlet.Audio.Callbacks.{AudioStatics}
use moonlight_scarlet.Conn.Defs.{
  ConnectionError, null_frame_pointer, non_positive_length, unsupported_length, chain_mismatch,
  VideoFrameStatus, need_idr, status_code, VideoFrame, Connection,
}
use moonlight_scarlet.Conn.Bridge.{Bridge, Pulled, Process, state_of}
use moonlight_scarlet.Conn.Start.{termination_error}

abbrev pub max_access_unit_length : ℕ
max_access_unit_length = 64 * 1024 * 1024

module _ {R B : Type 0} (bridge : Bridge R B) where
  abbrev pub Waited : Type 0
  Waited = Result ConnectionError (Option VideoFrame) × Process R B

  -- `mls_complete_video_frame`
  unfoldable pub give_back : ℕ → VideoFrameStatus → Process R B → Process R B
  give_back handle status p = record p {
    core = bridge.complete_video_frame handle (status_code status) p.core;
  }

  -- The frame of a live decode unit of an accepted length.
  abbrev pub frame_of : ℕ → ℕ → ℕ → Process R B → VideoFrame
  frame_of handle unit length p = record {
    frame_handle = handle;
    decode_unit = unit;
    frame_number = bridge.frame_number unit p.core;
    frame_type = bridge.frame_type unit p.core;
    presentation_time_us = bridge.presentation_time_us unit p.core;
    full_length = length;
    hdr_active = bridge.hdr_active unit p.core;
    colorspace = bridge.colorspace unit p.core;
  }

  unfoldable pub check_length : ℕ → ℕ → ℤ → Process R B → Waited
  check_length handle unit (negsuc n) p = (err non_positive_length, give_back handle need_idr p)
  check_length handle unit (pos n) p =
      if n == 0 || ltb max_access_unit_length n
      then (err unsupported_length, give_back handle need_idr p)
      else (ok (some (frame_of handle unit n p)), p)

  -- On the two pointers of an available frame.
  unfoldable pub check_pointers : Option ℕ → Option ℕ → Process R B → Waited
  unfolding check_length
  check_pointers none unit p = (err null_frame_pointer, p)
  check_pointers (some handle) none p = (err null_frame_pointer, give_back handle need_idr p)
  check_pointers (some handle) (some unit) p =
      check_length handle unit (bridge.full_length unit p.core) p

  unfoldable pub after_wait : Pulled × (AudioStatics R × B) → Process R B → Waited
  unfolding check_pointers
  after_wait (pulled, (statics, core)) p =
      let q = record p { audio = statics; core = core } in
      if not pulled.available
      then (ok none, q)
      else check_pointers pulled.frame_handle pulled.decode_unit q

  unfoldable pub wait_for_video_frame : Connection → Process R B → Waited
  unfolding after_wait
  wait_for_video_frame c p =
      if c.stopped || (state_of p c.state).stop_requested || is_some (termination_error bridge p)
      then (ok none, p)
      else after_wait (bridge.wait_video_frame (p.audio, p.core)) p

  -- `usize::try_from(copied).ok() != Some(access_unit.len())`
  unfoldable pub copy_access_unit : VideoFrame → Process R B → Result ConnectionError (List ℕ)
  copy_access_unit f p = checked_copy (bridge.copy_video_frame f.decode_unit f.full_length p.core)
    where
      checked_copy : ℤ × List ℕ → Result ConnectionError (List ℕ)
      checked_copy (pos n, bytes) = if n == f.full_length then ok bytes else err chain_mismatch
      checked_copy (negsuc n, bytes) = err chain_mismatch

  -- `VideoFrame::complete`, and the end of a frame that was not completed.
  unfoldable pub complete_frame : VideoFrame → VideoFrameStatus → Process R B → Process R B
  unfolding give_back
  complete_frame f status = give_back f.frame_handle status

  unfoldable pub drop_frame : VideoFrame → Process R B → Process R B
  unfolding give_back
  drop_frame f = give_back f.frame_handle need_idr
