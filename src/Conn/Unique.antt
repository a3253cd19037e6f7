-- ===== src/Conn/Unique.antt =====
-- The ownership of the core through every step of the process.
use moonlight_scarlet.Prelude.{
  ℕ, ◌<◌, ◌≡◌, List, [], ◌∷◌, ◌++◌, set, if-cases, refl, subst, sym, inl, inr, true, false, Option,
  none, some, Result, ok, err, Bool-cases, length, set-get_or, arith,
}
use moonlight_scarlet.Prelude.Int.{ℤ}
use moonlight_scarlet.Audio.Callbacks.{AudioStatics}
use moonlight_scarlet.Sys.Stream.{StreamConfiguration}
use moonlight_scarlet.Sys.Control.{is_zero}
use moonlight_scarlet.Conn.Defs.{HostConnectionInfo, ConnectionError, Connection}
use moonlight_scarlet.Conn.Bridge.{Bridge, Process, state_of}
use moonlight_scarlet.Conn.Start.{
  Checked, reserve, finish, start_with_audio, start_checked, after_start, check_arguments, stop,
  request_stop,
}
use moonlight_scarlet.Conn.Lifecycle.{
  System, closed, handed_out, stopped_at, connection_at, Step, starting, reserving, finishing,
  stopping, requesting, terminating, waiting, moving, Reachable, at_first, then_step,
}
use moonlight_scarlet.Conn.Owned.{
  Shared, shared, IsOwned, IsStarting, IsHeld, IsOwned-IsStarting, first-IsOwned, refused-IsOwned,
  started-IsOwned, ended-IsOwned, request-IsOwned,
}
use moonlight_scarlet.Conn.Waiting.{waited_shared, terminated_shared}

module _ {R B : Type 0} (bridge : Bridge R B) where
  abbrev Owns : System R B → Type 0
  Owns s = IsOwned (shared s.process) s.connections

  abbrev Holds : System R B → Type 0
  Holds s = IsHeld s.pending (shared s.process) s.connections

  -- The end of a start that has the flag, on a process that is owned but for the flag.
  finish-Owns :
      (c : Checked) (s : System R B) (p : Process R B)
      → p.connection_active ≡ true
      → IsOwned (record (shared p) { taken = false }) s.connections
      → Owns (handed_out s (finish bridge c p))
  unfolding finish after_start
  finish-Owns c s p taken o =
      after (bridge.start_connection c.strings c.codec_support c.stream (p.audio, p.core))
    where
      after :
          (r : ℤ × (AudioStatics R × B)) → Owns (handed_out s (after_start bridge c.strings p r))
      after (code, (statics, core)) = elim (Bool-cases (is_zero code)) [
        | inl z ↦ rw z (
            subst
              (λ b.
                IsOwned
                  (record {
                    taken = b;
                    wake = some (length p.states);
                    states = p.states ++ (record { active = true; stop_requested = false } ∷ []);
                  })
                  (s.connections
                    ++ (record { strings = c.strings; state = length p.states; stopped = false }
                        ∷ [])))
              (sym taken)
              (started-IsOwned (record (shared p) { taken = false }) s.connections o refl
                c.strings))
        | inr n ↦ rw n (refused-IsOwned (record (shared p) { taken = false }) s.connections o refl)
      ]

  -- With the flag free no start is in progress.
  free_held :
      (q : Option Checked) (sh : Shared) (cs : List Connection)
      → IsHeld q sh cs
      → sh.taken ≡ false
      → (q ≡ none) × IsOwned (record sh { taken = false }) cs
  free_held none sh cs o free = (refl, subst (λ b. IsOwned (record sh { taken = b }) cs) free o)
  free_held (some c) sh cs h free = absurd (ground (arith, h.taken, free))

  start-Holds :
      (renderer : Option R) (c : Result ConnectionError Checked) (s : System R B)
      → Holds s
      → Holds (handed_out s (start_checked bridge renderer c s.process))
  unfolding start_checked reserve
  start-Holds renderer (err e) s h = h
  start-Holds renderer (ok c) s h =
      if-cases (λ r. Holds (handed_out s r)) s.process.connection_active (λ busy. h)
        (λ free.
          let (over, o) = free_held s.pending (shared s.process) s.connections h free in
          same (finish bridge c (reserve bridge renderer s.process)) over
            (finish-Owns c s (reserve bridge renderer s.process) refl o))
    where
      same :
          (r : Result ConnectionError Connection × Process R B)
          → s.pending ≡ none
          → Owns (handed_out s r)
          → Holds (handed_out s r)
      same (ok x, p) over o =
          subst (λ q. IsHeld q (shared p) (s.connections ++ (x ∷ []))) (sym over) o
      same (err e, p) over o = subst (λ q. IsHeld q (shared p) s.connections) (sym over) o

  reserve-Holds :
      (renderer : Option R) (c : Checked) (s : System R B)
      → Holds s
      → s.process.connection_active ≡ false
      → IsStarting (shared (reserve bridge renderer s.process)) s.connections
  unfolding reserve
  reserve-Holds renderer c s h free =
      IsOwned-IsStarting (shared (reserve bridge renderer s.process)) s.connections refl
        (free_held s.pending (shared s.process) s.connections h free).1

  finish-Holds :
      (c : Checked) (s : System R B)
      → s.pending ≡ some c
      → Holds s
      → Owns (handed_out s (finish bridge c s.process))
  finish-Holds c s e h =
      let under = subst (λ q. IsHeld q (shared s.process) s.connections) e h in
      finish-Owns c s s.process under.taken under.owned

  stop-Holds :
      (i : ℕ) (s : System R B)
      → i < length s.connections
      → Holds s
      → Holds (stopped_at i s (stop bridge (connection_at s i) s.process))
  unfolding stop
  stop-Holds i s inside h =
      if-cases (λ r. Holds (stopped_at i s r)) (connection_at s i).stopped
        (λ over.
          subst (λ cs. IsHeld s.pending (shared s.process) cs)
            (sym (set-get_or s.connections i closed)) h)
        (λ live. ended s.pending h live)
    where
      ended :
          (q : Option Checked)
          → IsHeld q (shared s.process) s.connections
          → (connection_at s i).stopped ≡ false
          → IsHeld q
              (record {
                taken = false;
                wake = none;
                states =
                    set s.process.states
                      (connection_at s i).state
                      (record { active = false; stop_requested = true });
              })
              (set s.connections i (record (connection_at s i) { stopped = true }))
      ended none o live = ended-IsOwned (shared s.process) s.connections o i live inside
      ended (some c) u live = absurd (ground (arith, u.idle i, live))

  requested-Holds :
      (id : ℕ) (s : System R B)
      → Holds s
      → Holds (record s { process = request_stop bridge id s.process })
  unfolding request_stop
  requested-Holds id s h =
      if-cases (λ (q : Process R B). IsHeld s.pending (shared q) s.connections)
        (state_of s.process id).active (λ a. asked s.pending h) (λ a. asked s.pending h)
    where
      asked :
          (q : Option Checked)
          → IsHeld q (shared s.process) s.connections
          → IsHeld q
              (record (shared s.process) {
                states =
                    set s.process.states id
                      (record (state_of s.process id) { stop_requested = true });
              })
              s.connections
      asked none o = request-IsOwned (shared s.process) s.connections id o
      asked (some c) u =
          IsOwned-IsStarting _ s.connections u.taken
            (request-IsOwned (record (shared s.process) { taken = false }) s.connections id u.owned)

  -- Every step keeps the ownership.
  pub Step-IsHeld : (s t : System R B) → Step bridge s t → Holds s → Holds t
  unfolding start_with_audio
  Step-IsHeld s t (starting host stream renderer) h =
      start-Holds renderer (check_arguments host stream) s h
  Step-IsHeld s t (reserving host stream renderer c valid free) h =
      reserve-Holds renderer c s h free
  Step-IsHeld s t (finishing c e) h = finish-Holds c s e h
  Step-IsHeld s t (stopping i inside) h = stop-Holds i s inside h
  Step-IsHeld s t (requesting id) h = requested-Holds id s h
  Step-IsHeld s t terminating h =
      subst (λ x. IsHeld s.pending x s.connections) (sym (terminated_shared bridge s.process)) h
  Step-IsHeld s t (waiting i) h =
      subst (λ x. IsHeld s.pending x s.connections)
        (sym (waited_shared bridge (connection_at s i) s.process)) h
  Step-IsHeld s t (moving a core) h = h

  -- In every state that the process can reach in which no start is in progress, at most one connection
  -- is live; it has the singleton flag and the wake registration, no other state is active, and without
  -- a live connection the flag is free. While a start is in progress, and other threads start, stop,
  -- request and wait as they like, the start has the flag, and nothing is live, registered or active.
  pub Reachable-IsOwned :
      (s : System R B) → Reachable bridge s → IsHeld s.pending (shared s.process) s.connections
  Reachable-IsOwned s (at_first a core) = first-IsOwned
  Reachable-IsOwned s (then_step r m) = Step-IsHeld _ s m (Reachable-IsOwned _ r)

  -- Once every connection has been stopped, a start with valid arguments takes the flag and reaches the
  -- core, unless another start is in progress: it is not refused as a second connection.
  pub start_available :
      (s : System R B)
      → Reachable bridge s
      → s.pending ≡ none
      → ((i : ℕ) → (connection_at s i).stopped ≡ true)
      → (host : HostConnectionInfo) (stream : StreamConfiguration) (renderer : Option R)
        (c : Checked)
      → check_arguments host stream ≡ ok c
      → start_with_audio bridge host stream renderer s.process
        ≡ finish bridge c (reserve bridge renderer s.process)
  unfolding start_with_audio start_checked
  start_available s r calm ended host stream renderer c valid = simp (valid, free) refl
    where
      owned : Owns s
      owned = subst (λ q. IsHeld q (shared s.process) s.connections) calm (Reachable-IsOwned s r)

      free : s.process.connection_active ≡ false
      free = elim (Bool-cases s.process.connection_active) [
        | inr e ↦ e
        | inl taken ↦ let (i, l) = owned.freed taken in absurd (ground (arith, ended i, l))
      ]
