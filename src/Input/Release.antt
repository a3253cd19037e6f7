-- ===== src/Input/Release.antt =====
-- Theorems on `release_all` of moonlight/src/input.rs.
use moonlight_scarlet.Prelude.{
  ℕ, ◌<◌, ◌≡◌, ◌≢◌, refl, ◌∙◌, sym, Bool, true, false, Option, none, some, List, [], ◌∷◌, ◌==◌,
  arith, Bool-cases, inl, inr, Result, ok, is_some,
}
use moonlight_scarlet.Prelude.Bits.{test_bit}
use moonlight_scarlet.Sys.Types.{InputError, release, no_modifiers, cancel_all}
use moonlight_scarlet.Touch.Defs.{TouchInput, is_empty}
use moonlight_scarlet.Touch.Route.{release_to, let_go, forgotten}
use moonlight_scarlet.Input.Keys.{
  LocalButton, left_button, middle_button, right_button, remote_mouse_button,
}
use moonlight_scarlet.Input.Defs.{contains, PressedInput, Control}
use moonlight_scarlet.Input.Remote.{
  first_of, keep_first, release_button, release_buttons, release_keys, answer, release_all,
}
use moonlight_scarlet.Input.Shortcuts.{bit_place, held_bit}
use moonlight_scarlet.Input.Tracking.{Follows, IsTracked}

-- The calls with which the touches let go press nothing.
pub record LetsGo {F W : Type 0} (control : Control F W) (down : W → ℕ → Bool)
    (held : W → LocalButton → Bool) : Type 0 where
  pub cancel_down :
      (x y : F) (w : W) (k : ℕ) → down (control.touch_sink.touch cancel_all 0 x y w).1 k ≡ down w k
  pub cancel_held :
      (x y : F) (w : W) (b : LocalButton)
      → held (control.touch_sink.touch cancel_all 0 x y w).1 b ≡ held w b
  pub button_down : (w : W) (k : ℕ) → down (control.touch_sink.button false w).1 k ≡ down w k
  pub button_held :
      (w : W) (b : LocalButton)
      → held (control.touch_sink.button false w).1 b ≡ true
      → held w b ≡ true

module _ {F W : Type 0} (control : Control F W) (down : W → ℕ → Bool)
    (held : W → LocalButton → Bool) (follows : Follows control down held) where
  open follows use {keyboard_plays, keyboard_keeps, button_plays, button_keeps}

  -- What a run of releases leaves: nothing new, the buttons as they were, and for each key of the list
  -- an error where it is still down.
  keys_left :
      (ks : List ℕ) (first : Option InputError) (w : W)
      → ((j : ℕ) → contains j ks ≡ true → j < 256)
      → ((j : ℕ)
          → j < 256
          → down (release_keys control ks (first, w)).1 j ≡ true
          → (down w j ≡ true)
            × (contains j ks ≡ true → is_some (release_keys control ks (first, w)).0 ≡ true))
        × ((b : LocalButton) → held (release_keys control ks (first, w)).1 b ≡ held w b)
        × (is_some first ≡ true → is_some (release_keys control ks (first, w)).0 ≡ true)
  unfolding release_keys keep_first
  keys_left [] first w codes =
      ((λ j n e. (e, λ c. absurd (ground (arith, c)))), (λ b. refl), λ i. i)
  keys_left (k ∷ ks) first w codes =
      let r = control.keyboard k release no_modifiers w in
      let (d, h, s) =
        keys_left ks (first_of control first r.0) r.1 (λ j c. codes j (ground (arith, c))) in
      (
        (λ j n e. ground (
          arith,
          d j n e,
          keyboard_plays k release no_modifiers w j (codes k (ground arith)) n,
          sticks r.0,
          s,
        )),
        (λ b. h b ∙ keyboard_keeps k release no_modifiers w b),
        λ i. s (kept r.0 i),
      )
    where
      kept :
          (r : Result InputError (Unit {0}))
          → is_some first ≡ true
          → is_some (first_of control first r) ≡ true
      kept r i = ground (arith, i)

      sticks :
          (r : Result InputError (Unit {0})) → r ≢ ok tt → is_some (first_of control first r) ≡ true
      sticks r n = ground (arith, n)

  keep_sticks :
      (first : Option InputError) (r : Result InputError (Unit {0}))
      → (is_some first ≡ true → is_some (first_of control first r) ≡ true)
        × (r ≢ ok tt → is_some (first_of control first r) ≡ true)
  keep_sticks first r = ((λ i. ground (arith, i)), λ n. ground (arith, n))

  -- The same of one button.
  button_left :
      (n : ℕ) (b : LocalButton) (o : Option InputError × W)
      → ((k : ℕ) → down (release_button control n b o).1 k ≡ down o.1 k)
        × ((c : LocalButton)
            → held (release_button control n b o).1 c ≡ true
            → (held o.1 c ≡ true)
              × ((bit_place b == bit_place c) ≡ true
                  → test_bit n (bit_place b) ≡ true
                  → is_some (release_button control n b o).0 ≡ true))
        × (is_some o.0 ≡ true → is_some (release_button control n b o).0 ≡ true)
  unfolding release_button keep_first
  button_left n b (first, w) = elim (Bool-cases (test_bit n (bit_place b))) [
    | inr off ↦
        rw (held_bit n b, off)
          ((λ k. refl), (λ c e. (e, λ s t. absurd (ground (arith, off, t)))), λ i. i)
    | inl on ↦
        rw (held_bit n b, on)
          (let r = control.mouse_button (remote_mouse_button b) release w in
            (
              button_keeps b release w,
              (λ c e. ground (arith, e, button_plays b release w c, (keep_sticks first r.0).1)),
              (keep_sticks first r.0).0,
            ))
  ]

  -- And of all three.
  buttons_left :
      (n : ℕ) (o : Option InputError × W)
      → ((k : ℕ) → down (release_buttons control n o).1 k ≡ down o.1 k)
        × ((c : LocalButton)
            → held (release_buttons control n o).1 c ≡ true
            → (held o.1 c ≡ true)
              × (test_bit n (bit_place c) ≡ true → is_some (release_buttons control n o).0 ≡ true))
        × (is_some o.0 ≡ true → is_some (release_buttons control n o).0 ≡ true)
  unfolding release_buttons
  buttons_left n o =
      let o₁ = release_button control n left_button o in
      let o₂ = release_button control n middle_button o₁ in
      let (d₁, h₁, s₁) = button_left n left_button o in
      let (d₂, h₂, s₂) = button_left n middle_button o₁ in
      let (d₃, h₃, s₃) = button_left n right_button o₂ in
      (
        (λ k. d₃ k ∙ d₂ k ∙ d₁ k),
        (λ c e. let e₂ = (h₃ c e).0 in let e₁ = (h₂ c e₂).0 in ((h₁ c e₁).0, which c e₁ e₂ e)),
        λ i. s₃ (s₂ (s₁ i)),
      )
    where
      which :
          (c : LocalButton)
          → held (release_button control n left_button o).1 c ≡ true
          → held
              (release_button control n middle_button (release_button control n left_button o)).1
              c
            ≡ true
          → held
              (release_button control n right_button
                (release_button control n middle_button (release_button control n left_button o))).1
              c
            ≡ true
          → test_bit n (bit_place c) ≡ true
          → is_some
              (release_button control n right_button
                (release_button control n middle_button (release_button control n left_button o))).0
            ≡ true
      which left_button e₁ e₂ e t = (button_left n right_button _).2 (
          (button_left n middle_button _).2
            (((button_left n left_button o).1 left_button e₁).1 refl t))
      which middle_button e₁ e₂ e t =
          (button_left n right_button _).2
            (((button_left n middle_button _).1 middle_button e₂).1 refl t)
      which right_button e₁ e₂ e t = ((button_left n right_button _).1 right_button e).1 refl t

  module _ (lets_go : LetsGo control down held) where
    open lets_go use {cancel_down, cancel_held, button_down, button_held}

    touches_left :
        (zero : F) (s : TouchInput F) (w : W)
        → ((k : ℕ) → down (release_to control.touch_sink zero s w).1.1 k ≡ down w k)
          × ((b : LocalButton)
              → held (release_to control.touch_sink zero s w).1.1 b ≡ true
              → held w b ≡ true)
    unfolding release_to forgotten let_go
    touches_left zero s w = elim (Bool-cases (is_empty s.contacts)) [
      | inl e ↦ rw e ((λ k. refl), λ b h. h)
      | inr o ↦ rw o (let_go_left s.native)
    ]
      where
        let_go_left :
            (known : Option Bool)
            → ((k : ℕ) → down (let_go control.touch_sink zero known w).1 k ≡ down w k)
              × ((b : LocalButton)
                  → held (let_go control.touch_sink zero known w).1 b ≡ true
                  → held w b ≡ true)
        let_go_left (some true) =
            (cancel_down zero zero w, λ b h. sym (cancel_held zero zero w b) ∙ h)
        let_go_left (some false) = (button_down w, button_held w)
        let_go_left none = (button_down w, button_held w)

    -- With the record of the state exact, a release of everything that reports no error leaves no
    -- virtual key and no button down at the host, and the state without any, where a call that the core
    -- refuses leaves the host as it was and no other handler runs meanwhile.
    pub release_all_clears :
        (zero : F) (s : PressedInput F) (w : W)
        → IsTracked control down held follows s w
        → (release_all control zero true s w).0 ≡ ok tt
        → ((k : ℕ) → k < 256 → down (release_all control zero true s w).1.1 k ≡ false)
          × ((b : LocalButton) → held (release_all control zero true s w).1.1 b ≡ false)
          × ((release_all control zero true s w).1.0.keys ≡ [])
          × ((release_all control zero true s w).1.0.mouse_buttons ≡ 0)
    unfolding release_all answer
    release_all_clears zero s w t good = (keys, buttons, refl, refl)
      where
        touched : Result InputError (Unit {0}) × W
        touched = (
          (release_to control.touch_sink zero s.touches w).0,
          (release_to control.touch_sink zero s.touches w).1.1,
        )

        o₁ : Option InputError × W
        o₁ = (first_of control none touched.0, touched.1)

        o₂ : Option InputError × W
        o₂ = release_keys control s.keys o₁

        none_failed : is_some (release_buttons control s.mouse_buttons o₂).0 ≢ true
        none_failed i = ground (arith, i, good)

        keys : (k : ℕ) → k < 256 → down (release_all control zero true s w).1.1 k ≡ false
        keys k n = ground (
          arith,
          (buttons_left s.mouse_buttons o₂).0 k,
          (buttons_left s.mouse_buttons o₂).2,
          (keys_left s.keys o₁.0 o₁.1 t.codes).0 k n,
          (touches_left zero s.touches w).0 k,
          t.keys k n,
          none_failed,
        )

        buttons : (b : LocalButton) → held (release_all control zero true s w).1.1 b ≡ false
        buttons b = ground (
          arith,
          (buttons_left s.mouse_buttons o₂).1 b,
          (keys_left s.keys o₁.0 o₁.1 t.codes).1 b,
          (touches_left zero s.touches w).1 b,
          t.buttons b,
          none_failed,
        )
