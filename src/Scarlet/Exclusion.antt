-- ===== src/Scarlet/Exclusion.antt =====
-- The threads at a `RawMutex`, moonlight-sys/src/scarlet.rs.
use moonlight_scarlet.Prelude.{ℕ, ◌≡◌, ◌≢◌, refl, ap, ◌∙◌, sym, inl, inr, ◌==◌, if-cases, arith}
use moonlight_scarlet.Scarlet.Mutex.{
  Place, outside, swapping, waiting, asleep, holding, waking, try_lock, swap_lock, futex_wait,
  unlock, Lock, put_thread, Step, trying, swap, wait, refused, woke_alone, unlocking, wake_one,
  wake_none, Reachable, at_new, then_step,
}
use moonlight_scarlet.Scarlet.Sound.{
  IsSound, takes, leaves, keeps, put_self, put_other, heard_after, move-IsSound,
}

tried-IsSound :
    (l : Lock) (i : ℕ)
    → IsSound l
    → l.place i ≡ outside
    → IsSound (put_thread i (try_lock l.word) l)
unfolding try_lock
tried-IsSound l i s e =
    if-cases (λ (r : Place × ℕ). IsSound (put_thread i r l)) (l.word == 0)
      (λ z. move-IsSound l i holding 1 s (takes (ground (arith, z)) (ground arith) refl) (
        heard_after l i holding 1 s (λ h. ground (arith, h)) (λ h. ground (arith, h, z))
          (λ q. ground (arith, e, q))))
      (λ nz.
        move-IsSound l i swapping l.word s
          (keeps (ground (arith, e)) (ground arith) (λ h. h) (λ h. h))
          (heard_after l i swapping l.word s (λ h. ground (arith, h)) (λ h. inl h)
            (λ q. ground (arith, e, q))))

-- The loop of `lock`, which marks the word before it looks.
swapped-IsSound :
    (l : Lock) (i : ℕ)
    → IsSound l
    → l.place i ≡ swapping
    → IsSound (put_thread i (swap_lock l.word) l)
unfolding swap_lock
swapped-IsSound l i s e =
    if-cases (λ (p : Place). IsSound (put_thread i (p, 2) l)) (l.word == 0)
      (λ z.
        move-IsSound l i holding 2 s (takes (ground (arith, z)) (ground arith) refl)
          (heard_after l i holding 2 s (λ h. refl) (λ h. inl refl) (λ q j n h. inl refl)))
      (λ nz.
        move-IsSound l i waiting 2 s
          (keeps (ground (arith, e)) (ground arith) (λ h. ground (arith, h, nz))
            (λ h. ground (arith, h)))
          (heard_after l i waiting 2 s (λ h. refl) (λ h. inl refl) (λ q j n h. inl refl)))

waited-IsSound :
    (l : Lock) (i : ℕ)
    → IsSound l
    → l.place i ≡ waiting
    → IsSound (put_thread i (futex_wait l.word) l)
unfolding futex_wait
waited-IsSound l i s e =
    if-cases (λ (p : Place). IsSound (put_thread i (p, l.word) l)) (l.word == 2)
      (λ two.
        move-IsSound l i asleep l.word s
          (keeps (ground (arith, e)) (ground arith) (λ h. h) (λ h. h))
          (heard_after l i asleep l.word s (λ h. ground (arith, two)) (λ h. inl h)
            (λ q. ground (arith, e, q))))
      (λ nt.
        move-IsSound l i swapping l.word s
          (keeps (ground (arith, e)) (ground arith) (λ h. h) (λ h. h))
          (heard_after l i swapping l.word s (λ h. ground (arith, h)) (λ h. inl h)
            (λ q. ground (arith, e, q))))

-- A thread that goes round the loop again.
round-IsSound :
    (l : Lock) (i : ℕ)
    → IsSound l
    → l.place i ≢ holding
    → IsSound (put_thread i (swapping, l.word) l)
round-IsSound l i s e =
    move-IsSound l i swapping l.word s (keeps e (ground arith) (λ h. h) (λ h. h)) (
      heard_after l i swapping l.word s (λ h. ground (arith, h)) (λ h. inl h)
        (λ q j n h. inr (i, inr (put_self i swapping l.place))))

unlocked-IsSound :
    (l : Lock) (i : ℕ) → IsSound l → l.place i ≡ holding → IsSound (put_thread i (unlock l.word) l)
unfolding unlock
unlocked-IsSound l i s e =
    if-cases (λ (p : Place). IsSound (put_thread i (p, 0) l)) (l.word == 2)
      (λ two. move-IsSound l i waking 0 s (leaves e refl (ground arith)) (
        heard_after l i waking 0 s (λ h. ground (arith, h)) (λ h. inr (inl refl))
          (λ q. ground (arith, e, q))))
      (λ nt. move-IsSound l i outside 0 s (leaves e refl (ground arith)) (
        heard_after l i outside 0 s (λ h. ground (arith, h)) (λ h. ground (arith, h, nt))
          (λ q. ground (arith, e, q))))

-- A thread that has woken another, or found none asleep.
woke-IsSound :
    (l : Lock) (i : ℕ)
    → IsSound l
    → l.place i ≡ waking
    → ((j : ℕ) → i ≢ j → l.place j ≡ asleep → (k : ℕ) × ((i ≢ k) × (l.place k ≡ swapping)))
    → IsSound (put_thread i (outside, l.word) l)
woke-IsSound l i s e other =
    move-IsSound l i outside l.word s (keeps (ground (arith, e)) (ground arith) (λ h. h) (λ h. h)) (
      heard_after l i outside l.word s (λ h. ground (arith, h)) (λ h. inl h)
        (λ q j n h.
          let (k, (n', at)) = other j n h in inr (k, inr (put_other i k outside l.place n' ∙ at))))

pub Step-IsSound : (l m : Lock) → Step l m → IsSound l → IsSound m
Step-IsSound l m (trying i e) s = tried-IsSound l i s e
Step-IsSound l m (swap i e) s = swapped-IsSound l i s e
Step-IsSound l m (wait i e) s = waited-IsSound l i s e
Step-IsSound l m (refused i e) s = round-IsSound l i s (ground (arith, e))
Step-IsSound l m (woke_alone i e) s = round-IsSound l i s (ground (arith, e))
Step-IsSound l m (unlocking i e) s = unlocked-IsSound l i s e
Step-IsSound l m (wake_one i j e e') s =
    woke-IsSound (put_thread j (swapping, l.word) l) i (round-IsSound l j s (ground (arith, e')))
      (put_other j i swapping l.place (λ q. ground (arith, sym e ∙ ap l.place (sym q) ∙ e')) ∙ e)
      (λ k n h.
        (j, ((λ q. ground (arith, sym e ∙ ap l.place q ∙ e')), put_self j swapping l.place)))
Step-IsSound l m (wake_none i e none_asleep) s =
    woke-IsSound l i s e (λ j n h. absurd (none_asleep j h))

-- In every state that the threads can bring the mutex to, at most one of them holds it, one does
-- exactly when the word is not 0, and while a thread sleeps in the kernel either the word is 2, which
-- tells the holder to wake it, or a thread that is awake is about to wake one or to mark the word.
pub Reachable-IsSound : (l : Lock) → Reachable l → IsSound l
Reachable-IsSound l at_new = record {
  one = λ i j h. ground (arith, h);
  free = λ z i h. ground (arith, h);
  held = λ h. absurd (h refl);
  heard = λ i h. ground (arith, h);
}
Reachable-IsSound l (then_step r m) = Step-IsSound _ l m (Reachable-IsSound _ r)
