-- ===== src/Scarlet/Sound.antt =====
-- What holds between the threads at a `RawMutex`, moonlight-sys/src/scarlet.rs, and a move of one.
use moonlight_scarlet.Prelude.{
  ℕ, ◌≡◌, ◌≢◌, refl, ap, subst, ◌∙◌, sym, ◌⊎◌, inl, inr, true, false, if◌then◌else◌, ◌==◌,
  Bool-cases, arith,
}
use moonlight_scarlet.Scarlet.Mutex.{
  Place, swapping, asleep, holding, waking, Lock, put, put_thread,
}

-- At most one thread holds the mutex, one does exactly when the word says so, and a thread sleeps only
-- while the word tells the holder to wake it or another thread is about to.
pub record IsSound (l : Lock) : Type 0 where
  pub one : (i j : ℕ) → l.place i ≡ holding → l.place j ≡ holding → i ≡ j
  pub free : l.word ≡ 0 → (i : ℕ) → l.place i ≢ holding
  pub held : l.word ≢ 0 → (i : ℕ) × (l.place i ≡ holding)
  pub heard :
      (i : ℕ)
      → l.place i ≡ asleep
      → (l.word ≡ 2) ⊎ ((j : ℕ) × ((l.place j ≡ waking) ⊎ (l.place j ≡ swapping)))

pub put_self : (i : ℕ) (p : Place) (f : ℕ → Place) → put i p f i ≡ p
put_self i p f = rw (show) refl
  where
    show : (i == i) ≡ true
    show = ground arith

pub put_other : (i j : ℕ) (p : Place) (f : ℕ → Place) → i ≢ j → put i p f j ≡ f j
put_other i j p f n = rw (show) refl
  where
    show : (i == j) ≡ false
    show = ground (arith, n)

-- What a move of a thread to a place does to who holds the mutex.
pub data Role (l : Lock) (i : ℕ) (p : Place) (word : ℕ) : Type 0 where
  takes : l.word ≡ 0 → word ≢ 0 → p ≡ holding → Role l i p word
  leaves : l.place i ≡ holding → word ≡ 0 → p ≢ holding → Role l i p word
  keeps :
      l.place i ≢ holding
      → p ≢ holding
      → (l.word ≡ 0 → word ≡ 0)
      → (word ≡ 0 → l.word ≡ 0)
      → Role l i p word

module _ (l : Lock) (i : ℕ) (p : Place) (word : ℕ) (s : IsSound l) where
  abbrev pub moved : Lock
  moved = put_thread i (p, word) l

  split : (j : ℕ) → ((i ≡ j) × (moved.place j ≡ p)) ⊎ ((i ≢ j) × (moved.place j ≡ l.place j))
  split j = elim (Bool-cases (i == j)) [
    | inl e ↦ inl (ground (arith, e), ap (λ b. if b then p else l.place j) e)
    | inr n ↦ inr (ground (arith, n), ap (λ b. if b then p else l.place j) n)
  ]

  -- Who holds it afterwards.
  holders :
      Role l i p word
      → (j : ℕ) → moved.place j ≡ holding
      → ((i ≡ j) × (l.word ≡ 0) × (word ≢ 0))
        ⊎ ((l.place j ≡ holding) × (l.place i ≢ holding) × (l.word ≢ 0) × (word ≢ 0))
  holders (takes z nz e) j h = elim (split j) [
    | inl (same, at) ↦ inl (same, z, nz)
    | inr (n, at) ↦ absurd (s.free z j (sym at ∙ h))
  ]
  holders (leaves e z np) j h = elim (split j) [
    | inl (same, at) ↦ absurd (np (sym at ∙ h))
    | inr (n, at) ↦ absurd (n (s.one i j e (sym at ∙ h)))
  ]
  holders (keeps ni np to from) j h = elim (split j) [
    | inl (same, at) ↦ absurd (np (sym at ∙ h))
    | inr (n, at) ↦
        inr (sym at ∙ h, ni, (λ z. s.free z j (sym at ∙ h)), (λ z. s.free (from z) j (sym at ∙ h)))
  ]

  held_after : Role l i p word → word ≢ 0 → (j : ℕ) × (moved.place j ≡ holding)
  held_after (takes z nz e) w = (i, put_self i p l.place ∙ e)
  held_after (leaves e z np) w = absurd (w z)
  held_after (keeps ni np to from) w =
      let (j, h) = s.held (λ z. w (to z)) in
      (j, put_other i j p l.place (λ e. ni (ap l.place e ∙ h)) ∙ h)

  abbrev pub Heard : Type 0
  Heard = (word ≡ 2) ⊎ ((k : ℕ) × ((moved.place k ≡ waking) ⊎ (moved.place k ≡ swapping)))

  pub heard_after :
      (p ≡ asleep → word ≡ 2)
      → (l.word ≡ 2 → (word ≡ 2) ⊎ ((p ≡ waking) ⊎ (p ≡ swapping)))
      → (((l.place i ≡ waking) ⊎ (l.place i ≡ swapping))
          → (j : ℕ) → i ≢ j
          → l.place j ≡ asleep
          → Heard)
      → (j : ℕ) → moved.place j ≡ asleep
      → Heard
  heard_after new marked mover j h = elim (split j) [
    | inl (same, at) ↦ inl (new (sym at ∙ h))
    | inr (n, at) ↦ elim (s.heard j (sym at ∙ h)) [
      | inl two ↦ elim (marked two) [
        | inl w ↦ inl w
        | inr q ↦ inr (
          i,
          elim q [
            | inl e ↦ inl (put_self i p l.place ∙ e)
            | inr e ↦ inr (put_self i p l.place ∙ e)
          ],
        )
      ]
      | inr (k, q) ↦ elim (split k) [
        | inl (same, at') ↦
            mover (subst (λ m. (l.place m ≡ waking) ⊎ (l.place m ≡ swapping)) (sym same) q) j n
              (sym at ∙ h)
        | inr (n', at') ↦ inr (k, elim q [ inl e ↦ inl (at' ∙ e) | inr e ↦ inr (at' ∙ e) ])
      ]
    ]
  ]

  pub move-IsSound : Role l i p word → ((j : ℕ) → moved.place j ≡ asleep → Heard) → IsSound moved
  move-IsSound role heard = record {
    one = λ j k h h'. elim (holders role j h) [
      | inl (e, z, nz) ↦ elim (holders role k h') [
        | inl (e', z', r) ↦ sym e ∙ e'
        | inr (h'', ni, nz', r) ↦ absurd (nz' z)
      ]
      | inr (g, ni, nz, r) ↦ elim (holders role k h') [
        | inl (e', z, r') ↦ absurd (nz z)
        | inr (g', ni', nw, r') ↦ s.one j k g g'
      ]
    ];
    free =
        λ z j h. elim (holders role j h) [ inl (e, z', nz) ↦ nz z | inr (g, ni, nz, nz') ↦ nz' z ];
    held = held_after role;
    heard = heard;
  }
