-- ===== src/Scarlet/Mutex.antt =====
-- `RawMutex` of moonlight-sys/src/scarlet.rs: `lock` and `unlock` between their atomic operations, and
-- the futex calls. A thread that another value woke, that the kernel refused or that woke by itself
-- goes round the loop of `lock`.
use moonlight_scarlet.Prelude.{ℕ, ◌≡◌, ◌≢◌, if◌then◌else◌, ◌==◌}

-- Where a thread stands: outside, before the swap of the loop, before `FutexWait`, in it, past `lock`,
-- and before `FutexWake`.
pub data Place : Type 0 where
  outside swapping waiting asleep holding waking : Place

abbrev pub unlocked : ℕ
unlocked = 0

abbrev pub locked : ℕ
locked = 1

abbrev pub contended : ℕ
contended = 2

-- `compare_exchange(MUTEX_UNLOCKED, MUTEX_LOCKED)` of `lock`
unfoldable pub try_lock : ℕ → Place × ℕ
try_lock word = if word == unlocked then (holding, locked) else (swapping, word)

-- `swap(MUTEX_CONTENDED)` of the loop of `lock`
unfoldable pub swap_lock : ℕ → Place × ℕ
swap_lock word = (if word == unlocked then holding else waiting, contended)

-- `FutexWait` with the expected value MUTEX_CONTENDED: it sleeps only on that value.
unfoldable pub futex_wait : ℕ → Place × ℕ
futex_wait word = (if word == contended then asleep else swapping, word)

-- `swap(MUTEX_UNLOCKED)` of `unlock`
unfoldable pub unlock : ℕ → Place × ℕ
unlock word = (if word == contended then waking else outside, unlocked)

-- The word of the mutex, and where every thread stands.
pub record Lock : Type 0 where
  pub word : ℕ
  pub place : ℕ → Place

abbrev pub put : ℕ → Place → (ℕ → Place) → ℕ → Place
put i p f j = if i == j then p else f j

abbrev pub put_thread : ℕ → Place × ℕ → Lock → Lock
put_thread i (p, word) l = record { word = word; place = put i p l.place }

-- One atomic operation, of any thread.
pub data Step (l : Lock) : Lock → Type 0 where
  trying : (i : ℕ) → l.place i ≡ outside → Step l (put_thread i (try_lock l.word) l)
  swap : (i : ℕ) → l.place i ≡ swapping → Step l (put_thread i (swap_lock l.word) l)
  wait : (i : ℕ) → l.place i ≡ waiting → Step l (put_thread i (futex_wait l.word) l)
  -- the kernel refuses to wait, and the thread sleeps a millisecond
  refused : (i : ℕ) → l.place i ≡ waiting → Step l (put_thread i (swapping, l.word) l)
  woke_alone : (i : ℕ) → l.place i ≡ asleep → Step l (put_thread i (swapping, l.word) l)
  unlocking : (i : ℕ) → l.place i ≡ holding → Step l (put_thread i (unlock l.word) l)
  -- `FutexWake` of one thread, of the kernel's choice
  wake_one :
      (i j : ℕ)
      → l.place i ≡ waking
      → l.place j ≡ asleep
      → Step l (put_thread i (outside, l.word) (put_thread j (swapping, l.word) l))
  wake_none :
      (i : ℕ)
      → l.place i ≡ waking
      → ((j : ℕ) → l.place j ≢ asleep)
      → Step l (put_thread i (outside, l.word) l)

abbrev pub new_lock : Lock
new_lock = record { word = unlocked; place = λ i. outside }

pub data Reachable : Lock → Type 0 where
  at_new : Reachable new_lock
  then_step : {l m : Lock} → Reachable l → Step l m → Reachable m
