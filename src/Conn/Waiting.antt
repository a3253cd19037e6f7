-- ===== src/Conn/Waiting.antt =====
-- What the connections share is left alone by the wait for a frame and by the end of the core.
use moonlight_scarlet.Prelude.{
  ℕ, ◌≡◌, ltb, ◌==◌, if-cases, refl, inl, inr, not, ◌||◌, Option, none, some, Bool-cases, is_some,
}
use moonlight_scarlet.Prelude.Int.{ℤ, pos, negsuc}
use moonlight_scarlet.Audio.Callbacks.{AudioStatics}
use moonlight_scarlet.Conn.Defs.{Connection}
use moonlight_scarlet.Conn.Bridge.{Bridge, Pulled, Process, state_of}
use moonlight_scarlet.Conn.Start.{connection_terminated, termination_error}
use moonlight_scarlet.Conn.Frames.{
  Waited, max_access_unit_length, wait_for_video_frame, after_wait, check_pointers, check_length,
  give_back,
}
use moonlight_scarlet.Conn.Owned.{shared}

module _ {R B : Type 0} (bridge : Bridge R B) where
  length_shared :
      (handle unit : ℕ) (z : ℤ) (p : Process R B)
      → shared (check_length bridge handle unit z p).1 ≡ shared p
  unfolding check_length give_back
  length_shared handle unit (negsuc n) p = refl
  length_shared handle unit (pos n) p =
      if-cases (λ (r : Waited bridge). shared r.1 ≡ shared p)
        (n == 0 || ltb max_access_unit_length n) (λ h. refl) (λ h. refl)

  pointers_shared :
      (h u : Option ℕ) (p : Process R B) → shared (check_pointers bridge h u p).1 ≡ shared p
  unfolding check_pointers give_back
  pointers_shared none u p = refl
  pointers_shared (some h) none p = refl
  pointers_shared (some h) (some u) p = length_shared h u (bridge.full_length u p.core) p

  shared-after_wait :
      (w : Pulled × (AudioStatics R × B)) (p : Process R B)
      → shared (after_wait bridge w p).1 ≡ shared p
  unfolding after_wait
  shared-after_wait (w, (a, core)) p =
      if-cases (λ (r : Waited bridge). shared r.1 ≡ shared p) (not w.available) (λ h. refl)
        (λ h. pointers_shared w.frame_handle w.decode_unit (record p { audio = a; core = core }))

  pub waited_shared :
      (c : Connection) (p : Process R B) → shared (wait_for_video_frame bridge c p).1 ≡ shared p
  unfolding wait_for_video_frame
  waited_shared c p =
      if-cases (λ (r : Waited bridge). shared r.1 ≡ shared p)
        (c.stopped || (state_of p c.state).stop_requested || is_some (termination_error bridge p))
        (λ h. refl) (λ h. shared-after_wait (bridge.wait_video_frame (p.audio, p.core)) p)

  pub terminated_shared : (p : Process R B) → shared (connection_terminated bridge p) ≡ shared p
  unfolding connection_terminated
  terminated_shared p = elim (Bool-cases (is_some p.wake_state)) [
    | inl e ↦ simp e refl
    | inr n ↦ simp n refl
  ]
