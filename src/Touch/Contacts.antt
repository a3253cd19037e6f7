-- ===== src/Touch/Contacts.antt =====
-- The contact list of `TouchInput`: which lists are in order, and the operations on them.
use moonlight_scarlet.Prelude.{
  ℕ, zero, suc, ◌+◌, ◌<◌, ◌≡◌, ◌≢◌, ◌⊎◌, inl, inr, false, none, some, List, [], ◌∷◌, ◌++◌, ◌==◌,
  arith,
}
use moonlight_scarlet.Gamepad.Defs.{position}
use moonlight_scarlet.Touch.Defs.{
  TouchChange, Contact, is_contact, uses, find_free, remove_at, move_at,
}

module _ {F : Type 0} where
  -- Two contacts differ at the host, and on the surface.
  abbrev pub AreApart : Contact F → Contact F → Type 0
  AreApart c d = (c.remote_id ≢ d.remote_id) × ((c.seat ≢ d.seat) ⊎ (c.local_id ≢ d.local_id))

  abbrev pub IsFresh : Contact F → List (Contact F) → Type 0
  IsFresh c [] = Unit
  IsFresh c (d ∷ ds) = AreApart c d × IsFresh c ds

  -- The ten remote ids are used once each, and so is each touch of the surface.
  abbrev pub AreDistinct : List (Contact F) → Type 0
  AreDistinct [] = Unit
  AreDistinct (c ∷ cs) = (c.remote_id < 10) × IsFresh c cs × AreDistinct cs

  move_at-IsFresh :
      (c : Contact F) (cs : List (Contact F)) (i : ℕ) (p : F × F)
      → IsFresh c cs
      → IsFresh c (move_at i p cs)
  unfolding move_at
  move_at-IsFresh c [] i p h = h
  move_at-IsFresh c (d ∷ ds) zero p h = h
  move_at-IsFresh c (d ∷ ds) (suc i) p h = (h.0, move_at-IsFresh c ds i p h.1)

  pub move_at-AreDistinct :
      (cs : List (Contact F)) (i : ℕ) (p : F × F) → AreDistinct cs → AreDistinct (move_at i p cs)
  unfolding move_at
  move_at-AreDistinct [] i p h = h
  move_at-AreDistinct (c ∷ cs) zero p h = h
  move_at-AreDistinct (c ∷ cs) (suc i) p (b, fr, rest) =
      (b, move_at-IsFresh c cs i p fr, move_at-AreDistinct cs i p rest)

  remove_at-IsFresh :
      (c : Contact F) (cs : List (Contact F)) (i : ℕ) → IsFresh c cs → IsFresh c (remove_at i cs)
  unfolding remove_at
  remove_at-IsFresh c [] i h = h
  remove_at-IsFresh c (d ∷ ds) zero h = h.1
  remove_at-IsFresh c (d ∷ ds) (suc i) h = (h.0, remove_at-IsFresh c ds i h.1)

  pub remove_at-AreDistinct :
      (cs : List (Contact F)) (i : ℕ) → AreDistinct cs → AreDistinct (remove_at i cs)
  unfolding remove_at
  remove_at-AreDistinct [] i h = h
  remove_at-AreDistinct (c ∷ cs) zero (b, fr, rest) = rest
  remove_at-AreDistinct (c ∷ cs) (suc i) (b, fr, rest) =
      (b, remove_at-IsFresh c cs i fr, remove_at-AreDistinct cs i rest)

  apart_sym : (c d : Contact F) → AreApart c d → AreApart d c
  apart_sym c d h = (
    (λ e. ground (arith, e, h.0)),
    elim h.1 [ inl n ↦ inl (λ e. ground (arith, e, n)) | inr n ↦ inr (λ e. ground (arith, e, n)) ],
  )

  append-IsFresh :
      (c d : Contact F) (cs : List (Contact F))
      → AreApart c d
      → IsFresh c cs
      → IsFresh c (cs ++ (d ∷ []))
  append-IsFresh c d [] a h = (a, tt)
  append-IsFresh c d (e ∷ es) a h = (h.0, append-IsFresh c d es a h.1)

  pub append-AreDistinct :
      (d : Contact F) (cs : List (Contact F))
      → d.remote_id < 10
      → IsFresh d cs
      → AreDistinct cs
      → AreDistinct (cs ++ (d ∷ []))
  append-AreDistinct d [] b fr h = (b, tt, tt)
  append-AreDistinct d (c ∷ cs) b fr (bc, frc, h) =
      (bc, append-IsFresh c d cs (apart_sym d c fr.0) frc, append-AreDistinct d cs b fr.1 h)

  apart_of :
      (change : TouchChange) (id : ℕ) (p : F × F) (c : Contact F)
      → is_contact change c ≡ false
      → (c.remote_id == id) ≡ false
      → AreApart
          (record { seat = change.seat_id; local_id = change.id; remote_id = id; position = p })
          c
  apart_of change id p c k u = ((λ e. ground arith), ground arith)

  -- A touch that is not in the list, under an id that is not in use, is fresh.
  pub unused-IsFresh :
      (change : TouchChange) (id : ℕ) (p : F × F) (cs : List (Contact F))
      → position (is_contact change) cs ≡ none
      → uses id cs ≡ false
      → IsFresh
          (record { seat = change.seat_id; local_id = change.id; remote_id = id; position = p })
          cs
  unfolding position
  unused-IsFresh change id p [] k u = tt
  unused-IsFresh change id p (c ∷ cs) k u = (
    apart_of change id p c (ground arith) (ground arith),
    unused-IsFresh change id p cs (ground arith) (ground arith),
  )

  -- An id that was found is in the range and not in use.
  pub find_free_unused :
      (n i : ℕ) (cs : List (Contact F)) (id : ℕ)
      → find_free n i cs ≡ some id
      → (id < i + n) × (uses id cs ≡ false)
  unfolding find_free
  find_free_unused zero i cs id e = absurd (ground arith)
  find_free_unused (suc n) i cs id e = ground (arith, find_free_unused n (i + 1) cs id)
