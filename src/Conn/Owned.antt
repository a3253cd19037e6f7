-- ===== src/Conn/Owned.antt =====
-- Who owns the core, in every reachable state of the process.
use moonlight_scarlet.Prelude.{
  ℕ, zero, suc, ◌<◌, ◌≡◌, refl, ap, ◌∙◌, sym, inl, inr, Bool, true, false, Option, none, some, List,
  [], ◌∷◌, ◌++◌, ◌==◌, Bool-cases, length, get_or, set, arith, get_or-append_last, get_or-append_ne,
  get_or-set_self, get_or-set_ne, length-append, length-set,
}
use moonlight_scarlet.Conn.Defs.{HostStrings, ConnectionState, Connection}
use moonlight_scarlet.Conn.Bridge.{Process, gone}
use moonlight_scarlet.Conn.Lifecycle.{closed}

-- What the connections share: the singleton flag, the wake registration and the states.
pub record Shared : Type 0 where
  pub taken : Bool
  pub wake : Option ℕ
  pub states : List ConnectionState

abbrev pub shared : {R B : Type 0} → Process R B → Shared
shared p = record { taken = p.connection_active; wake = p.wake_state; states = p.states }

abbrev IsLiveIn : List Connection → ℕ → Type 0
IsLiveIn cs i = (get_or cs i closed).stopped ≡ false

-- At most one connection is live; it has the singleton flag and the wake registration, which nothing
-- else has; and only its state is active.
pub record IsOwned (s : Shared) (cs : List Connection) : Type 0 where
  pub unique : (i j : ℕ) → IsLiveIn cs i → IsLiveIn cs j → i ≡ j
  pub held : (i : ℕ) → IsLiveIn cs i → (s.taken ≡ true) × (s.wake ≡ some (get_or cs i closed).state)
  pub placed : (i : ℕ) → IsLiveIn cs i → (get_or cs i closed).state < length s.states
  pub freed : s.taken ≡ true → (i : ℕ) × IsLiveIn cs i
  pub woken : (id : ℕ) → s.wake ≡ some id → (i : ℕ) × IsLiveIn cs i
  pub quiet : (id : ℕ) → (get_or s.states id gone).active ≡ true → s.wake ≡ some id

pub first-IsOwned : IsOwned (record { taken = false; wake = none; states = [] }) []
first-IsOwned = record {
  unique = λ i j h. absurd (ground (arith, h));
  held = λ i h. absurd (ground (arith, h));
  placed = λ i h. absurd (ground (arith, h));
  freed = λ h. absurd (ground (arith, h));
  woken = λ id h. absurd (ground (arith, h));
  quiet = λ id h. absurd (ground (arith, h));
}

-- With the flag free, nothing is live and nothing is registered.
module _ (s : Shared) (cs : List Connection) (o : IsOwned s cs) (free : s.taken ≡ false) where
  none_live : (i : ℕ) → IsLiveIn cs i → ⊥
  none_live i h = ground (arith, o.held i h, free)

  none_active : (id : ℕ) → (get_or s.states id gone).active ≡ true → ⊥
  none_active id h = let (i, l) = o.woken id (o.quiet id h) in none_live i l

  -- A start that the core refused leaves the flag free.
  pub refused-IsOwned : IsOwned (record s { taken = false }) cs
  refused-IsOwned = record {
    unique = o.unique;
    held = λ i h. absurd (none_live i h);
    placed = o.placed;
    freed = λ h. absurd (ground (arith, h));
    woken = o.woken;
    quiet = o.quiet;
  }

  module _ (strings : HostStrings) where
    abbrev opened : Connection
    opened = record { strings = strings; state = length s.states; stopped = false }

    abbrev fresh_state : ConnectionState
    fresh_state = record { active = true; stop_requested = false }

    only_new : (i : ℕ) → IsLiveIn (cs ++ (opened ∷ [])) i → i ≡ length cs
    only_new i h = elim (Bool-cases (i == length cs)) [
      | inl e ↦ ground (arith, e)
      | inr n ↦ absurd (
          none_live i (
            ap (λ c. c.stopped) (sym (get_or-append_ne cs opened closed i (ground (arith, n))))
            ∙ h))
    ]

    at_new : (i : ℕ) → i ≡ length cs → get_or (cs ++ (opened ∷ [])) i closed ≡ opened
    at_new i e =
        ap (λ j. get_or (cs ++ (opened ∷ [])) j closed) e ∙ get_or-append_last cs opened closed

    pub started-IsOwned :
        IsOwned
          (record {
            taken = true;
            wake = some (length s.states);
            states = s.states ++ (fresh_state ∷ []);
          })
          (cs ++ (opened ∷ []))
    started-IsOwned = record {
      unique = λ i j h k. omega (arith, only_new i h, only_new j k);
      held = λ i h. (refl, ap (λ c. some c.state) (sym (at_new i (only_new i h))));
      placed = λ i h. omega (
        arith,
        ap (λ c. c.state) (at_new i (only_new i h)),
        length-append s.states (fresh_state ∷ []),
      );
      freed = λ h. (length cs, ap (λ c. c.stopped) (at_new (length cs) refl));
      woken = λ id h. (length cs, ap (λ c. c.stopped) (at_new (length cs) refl));
      quiet = quiet_after;
    }
      where
        quiet_after :
            (id : ℕ)
            → (get_or (s.states ++ (fresh_state ∷ [])) id gone).active ≡ true
            → some (length s.states) ≡ some id
        quiet_after id h = elim (Bool-cases (id == length s.states)) [
          | inl e ↦ ground (arith, e)
          | inr n ↦ absurd (
              none_active id (
                ap (λ c. c.active)
                  (sym (get_or-append_ne s.states fresh_state gone id (ground (arith, n))))
                ∙ h))
        ]

-- Stopping the live connection gives everything back.
module _ (s : Shared) (cs : List Connection) (o : IsOwned s cs) (i : ℕ) (l : IsLiveIn cs i)
    (inside : i < length cs) where
  abbrev ended : Connection
  ended = record (get_or cs i closed) { stopped = true }

  abbrev ended_state : ConnectionState
  ended_state = record { active = false; stop_requested = true }

  all_ended : (j : ℕ) → IsLiveIn (set cs i ended) j → ⊥
  all_ended j h = elim (Bool-cases (i == j)) [
    | inl e ↦ ground (arith, ap (λ c. c.stopped) (sym (at j (ground (arith, e)))) ∙ h)
    | inr n ↦ ground (
      arith,
      o.unique i j l
          (ap (λ c. c.stopped) (sym (get_or-set_ne cs i j ended closed (ground (arith, n)))) ∙ h),
      n,
    )
  ]
    where
      at : (j : ℕ) → i ≡ j → get_or (set cs i ended) j closed ≡ ended
      at j e =
          ap (λ k. get_or (set cs i ended) k closed) (sym e)
          ∙ get_or-set_self cs i ended closed inside

  all_inactive :
      (id : ℕ)
      → (get_or (set s.states (get_or cs i closed).state ended_state) id gone).active ≡ true
      → ⊥
  all_inactive id h = elim (Bool-cases ((get_or cs i closed).state == id)) [
    | inl e ↦ ground (arith, ap (λ c. c.active) (sym (at id (ground (arith, e)))) ∙ h)
    | inr n ↦ ground (
      arith,
      n,
      o.quiet id (
          ap (λ c. c.active)
            (sym (
              get_or-set_ne s.states (get_or cs i closed).state id ended_state gone
                (ground (arith, n))))
          ∙ h),
      (o.held i l).1,
    )
  ]
    where
      at :
          (id : ℕ)
          → (get_or cs i closed).state ≡ id
          → get_or (set s.states (get_or cs i closed).state ended_state) id gone ≡ ended_state
      at id e =
          ap (λ k. get_or (set s.states (get_or cs i closed).state ended_state) k gone) (sym e)
          ∙ get_or-set_self s.states (get_or cs i closed).state ended_state gone (o.placed i l)

  pub ended-IsOwned :
      IsOwned
        (record {
          taken = false;
          wake = none;
          states = set s.states (get_or cs i closed).state ended_state;
        })
        (set cs i ended)
  ended-IsOwned = record {
    unique = λ j k h h'. absurd (all_ended j h);
    held = λ j h. absurd (all_ended j h);
    placed = λ j h. absurd (all_ended j h);
    freed = λ h. absurd (ground (arith, h));
    woken = λ id h. absurd (ground (arith, h));
    quiet = λ id h. absurd (all_inactive id h);
  }

requested_active :
    (ss : List ConnectionState) (id j : ℕ)
    → (get_or ss j gone).active
      ≡ (get_or (set ss id (record (get_or ss id gone) { stop_requested = true })) j gone).active
requested_active [] id j = refl
requested_active (s ∷ ss) zero zero = refl
requested_active (s ∷ ss) zero (suc j) = refl
requested_active (s ∷ ss) (suc id) zero = refl
requested_active (s ∷ ss) (suc id) (suc j) = requested_active ss id j

-- A request leaves the activity of every state.
pub request-IsOwned :
    (s : Shared) (cs : List Connection) (id : ℕ)
    → IsOwned s cs
    → IsOwned
        (record s {
          states = set s.states id (record (get_or s.states id gone) { stop_requested = true });
        })
        cs
request-IsOwned s cs id o = record {
  unique = o.unique;
  held = o.held;
  placed = λ i h. omega (arith, o.placed i h, length-set s.states id requested);
  freed = o.freed;
  woken = o.woken;
  quiet = λ j h. o.quiet j (requested_active s.states id j ∙ h);
}
  where
    requested : ConnectionState
    requested = record (get_or s.states id gone) { stop_requested = true }

-- While a start is in progress it has the flag, and but for the flag the process is as with the flag
-- free: nothing is live, registered or active.
pub record IsStarting (s : Shared) (cs : List Connection) : Type 0 where
  pub taken : s.taken ≡ true
  pub owned : IsOwned (record s { taken = false }) cs
  pub idle : (i : ℕ) → (get_or cs i closed).stopped ≡ true
  pub unregistered : s.wake ≡ none
  pub inactive : (id : ℕ) → (get_or s.states id gone).active ≡ false

abbrev pub IsHeld : {A : Type 0} → Option A → Shared → List Connection → Type 0
IsHeld none s cs = IsOwned s cs
IsHeld (some a) s cs = IsStarting s cs

pub IsOwned-IsStarting :
    (s : Shared) (cs : List Connection)
    → s.taken ≡ true
    → IsOwned (record s { taken = false }) cs
    → IsStarting s cs
IsOwned-IsStarting s cs taken o = record {
  taken = taken;
  owned = o;
  idle = λ i. elim (Bool-cases (get_or cs i closed).stopped) [
    | inl e ↦ e
    | inr n ↦ absurd (none_live (record s { taken = false }) cs o refl i n)
  ];
  unregistered = free s.wake refl;
  inactive = λ id. elim (Bool-cases (get_or s.states id gone).active) [
    | inr e ↦ e
    | inl a ↦ absurd (none_active (record s { taken = false }) cs o refl id a)
  ];
}
  where
    free : (w : Option ℕ) → s.wake ≡ w → s.wake ≡ none
    free none e = e
    free (some id) e =
        let (i, l) = o.woken id e in absurd (none_live (record s { taken = false }) cs o refl i l)
