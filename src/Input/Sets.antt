-- ===== src/Input/Sets.antt =====
-- Sets of key codes, as moonlight/src/input.rs uses a `BTreeSet`.
use moonlight_scarlet.Prelude.{
  ℕ, ◌<◌, ◌≡◌, refl, sym, false, not, ◌&&◌, ◌||◌, List, [], ◌∷◌, ltb, ◌==◌, arith, Bool-cases, inl,
  inr,
}
use moonlight_scarlet.Input.Defs.{contains, insert, remove}

pub contains-insert : (k j : ℕ) (xs : List ℕ) → contains j (insert k xs) ≡ (j == k || contains j xs)
unfolding insert
contains-insert k j [] = ground arith
contains-insert k j (x ∷ xs) = ground (arith, contains-insert k j xs)

-- Taking out a key that was put in gives the set back.
pub remove-insert : (k : ℕ) (xs : List ℕ) → contains k xs ≡ false → remove k (insert k xs) ≡ xs
unfolding insert remove
remove-insert k [] h = ground arith
remove-insert k (x ∷ xs) h = ground (arith, h, remove-insert k xs)

-- A strictly ascending list, as a `BTreeSet` is.
abbrev pub AreAbove : ℕ → List ℕ → Type 0
AreAbove k [] = Unit
AreAbove k (x ∷ xs) = (k < x) × AreAbove k xs

abbrev pub IsAscending : List ℕ → Type 0
IsAscending [] = Unit
IsAscending (x ∷ xs) = AreAbove x xs × IsAscending xs

above-contains : (k : ℕ) (xs : List ℕ) → AreAbove k xs → contains k xs ≡ false
above-contains k [] h = refl
above-contains k (x ∷ xs) h = ground (arith, h, above-contains k xs h.1)

AreAbove-weaken : (j k : ℕ) (xs : List ℕ) → j < k → AreAbove k xs → AreAbove j xs
AreAbove-weaken j k [] l h = tt
AreAbove-weaken j k (x ∷ xs) l h = (omega (arith, l, h.0), AreAbove-weaken j k xs l h.1)

insert-AreAbove : (j k : ℕ) (xs : List ℕ) → j < k → AreAbove j xs → AreAbove j (insert k xs)
unfolding insert
insert-AreAbove j k [] l h = (l, tt)
insert-AreAbove j k (x ∷ xs) l h = elim (Bool-cases (ltb k x)) [
  | inl lt ↦ rw lt (l, h)
  | inr ge ↦ rw ge (elim (Bool-cases (k == x)) [
    | inl e ↦ rw e h
    | inr n ↦ rw n (h.0, insert-AreAbove j k xs l h.1)
  ])
]

pub insert-IsAscending : (k : ℕ) (xs : List ℕ) → IsAscending xs → IsAscending (insert k xs)
unfolding insert
insert-IsAscending k [] h = (tt, tt)
insert-IsAscending k (x ∷ xs) h = elim (Bool-cases (ltb k x)) [
  | inl lt ↦ rw lt ((ground (arith, lt), AreAbove-weaken k x xs (ground (arith, lt)) h.0), h)
  | inr ge ↦ rw ge (elim (Bool-cases (k == x)) [
    | inl e ↦ rw e h
    | inr n ↦ rw n (insert-AreAbove x k xs (ground (arith, ge, n)) h.0, insert-IsAscending k xs h.1)
  ])
]

remove-AreAbove :
    (j k : ℕ) (xs : List ℕ) → AreAbove j xs → IsAscending xs → AreAbove j (remove k xs)
unfolding remove
remove-AreAbove j k [] h a = tt
remove-AreAbove j k (x ∷ xs) h a = elim (Bool-cases (k == x)) [
  | inl e ↦ rw e h.1
  | inr n ↦ rw n (h.0, remove-AreAbove j k xs h.1 a.1)
]

pub remove-IsAscending : (k : ℕ) (xs : List ℕ) → IsAscending xs → IsAscending (remove k xs)
unfolding remove
remove-IsAscending k [] h = tt
remove-IsAscending k (x ∷ xs) h = elim (Bool-cases (k == x)) [
  | inl e ↦ rw e h.1
  | inr n ↦ rw n (remove-AreAbove x k xs h.0 h.1, remove-IsAscending k xs h.1)
]

pub contains-remove :
    (k j : ℕ) (xs : List ℕ)
    → IsAscending xs
    → contains j (remove k xs) ≡ (contains j xs && not (j == k))
unfolding remove
contains-remove k j [] h = refl
contains-remove k j (x ∷ xs) h =
    ground (arith, contains-remove k j xs h.1, above-contains x xs h.0, above)
  where
    above : x ≡ j → contains j xs ≡ false
    above e = rw (sym e) (above-contains x xs h.0)
