-- ===== src/Scarlet/Handles.antt =====
-- What the socket calls of moonlight-sys/src/scarlet.rs do with handles, errors and timeouts.
use moonlight_scarlet.Prelude.{
  ℕ, ◌*◌, ◌+◌, ◌-◌, ◌^◌, ◌≤◌, ◌<◌, ◌≡◌, refl, ap, ◌∙◌, ◌⊎◌, inl, inr, true, false, Option, none,
  some, List, ◌∷◌, if◌then◌else◌, ◌==◌, leb, Result, ok, err, arith,
}
use moonlight_scarlet.Prelude.Int.{ℤ, pos, negsuc}
use moonlight_scarlet.Scarlet.Os.{Os, to_c_int, as_usize, decode_syscall}
use moonlight_scarlet.Scarlet.Address.{SockAddrIn, Slot}
use moonlight_scarlet.Scarlet.Socket.{
  Kernel, query_socket_address, report_address, accept, accept_on, accept_with,
}
use moonlight_scarlet.Scarlet.Options.{saturating, timeout_millis}

small_c_int : (c : ℕ) → c < 2 ^ 31 → to_c_int c ≡ pos c
unfolding to_c_int
small_c_int c h = ground (arith, h)

-- The kernel's answers: a value below 2 ^ 63 is a result, and the last 4095 values are the errors 1 to
-- 4095, of which 1 is told as EIO.
pub decode_syscall_lem :
    ((r : ℕ) → r < 2 ^ 63 → decode_syscall r ≡ ok r)
    × ((c : ℕ)
        → 1 ≤ c
        → c ≤ 4095
        → decode_syscall (2 ^ 64 - c) ≡ err (if c == 1 then pos 5 else pos c))
unfolding decode_syscall
decode_syscall_lem = ((λ r h. ground (arith, h)), told)
  where
    told :
        (c : ℕ)
        → 1 ≤ c
        → c ≤ 4095
        → decode_syscall (2 ^ 64 - c) ≡ err (if c == 1 then pos 5 else pos c)
    told c h h' = rw (above, ap to_c_int rest ∙ small_c_int c (omega (arith, h'))) refl
      where
        above : leb (2 ^ 64 - c) (2 ^ 63 - 1) ≡ false
        above = ground (arith, h, h')

        rest : 2 ^ 64 - (2 ^ 64 - c) ≡ c
        rest = omega (arith, h')

-- A timeout that fits is rounded up to whole milliseconds.
pub timeout_millis_rounds :
    (s u : ℕ)
    → s * 1000 + u + 999 < 2 ^ 63
    → (s * 1000000 + u ≤ timeout_millis (record { seconds = pos s; microseconds = pos u }) * 1000)
      × (timeout_millis (record { seconds = pos s; microseconds = pos u }) * 1000
          < s * 1000000 + u + 1000)
unfolding timeout_millis saturating
timeout_millis_rounds s u h = (omega (arith, h), omega (arith, h))

-- The handles of the process: what the kernel says of them.
pub record Handles {K : Type 0} (kernel : Kernel K) : Type 0 where
  pub live : K → List ℕ
  pub accepting :
      (s n : ℕ) (k : K)
      → decode_syscall (kernel.socket_accept s k).0 ≡ ok n
      → live (kernel.socket_accept s k).1 ≡ n ∷ live k
  pub not_accepting :
      (s : ℕ) (e : ℤ) (k : K)
      → decode_syscall (kernel.socket_accept s k).0 ≡ err e
      → live (kernel.socket_accept s k).1 ≡ live k
  pub closing :
      (n : ℕ) (rest : List ℕ) (k : K) → live k ≡ n ∷ rest → live (kernel.handle_close n k).1 ≡ rest
  pub asking : (s : ℕ) (k : K) → live (kernel.socket_peer_address s k).1.1 ≡ live k

module _ {K : Type 0} (kernel : Kernel K) (handles : Handles kernel) where
  -- What an accept may leave.
  abbrev Accepted : List ℕ → ℤ × (Slot × Os K) → Type 0
  Accepted before (z, (slot, os)) =
      ((n : ℕ) × ((z ≡ to_c_int n) × (handles.live os.kernel ≡ n ∷ before)))
      ⊎ ((z ≡ negsuc 0) × (handles.live os.kernel ≡ before))

  reported-Accepted :
      (before : List ℕ) (n : ℕ) (r : Result ℤ (Unit {0}) × (Slot × Os K))
      → handles.live r.1.1.kernel ≡ n ∷ before
      → Accepted before (accept_with kernel n r)
  reported-Accepted before n (ok u, (slot, os)) h = inl (n, (refl, h))
  reported-Accepted before n (err e, (slot, os)) h =
      inr (refl, handles.closing n before os.kernel h)

  report_live :
      (r : Result ℤ (List ℕ) × Os K) (slot : Slot) → (report_address kernel r slot).1.1 ≡ r.1
  report_live (ok wire, os) slot = refl
  report_live (err e, os) slot = refl

  query_live :
      (s : ℤ) (os : Os K)
      → handles.live (query_socket_address kernel s true os).1.kernel ≡ handles.live os.kernel
  unfolding query_socket_address
  query_live s os = handles.asking (as_usize s) os.kernel

  on-Accepted :
      (before : List ℕ) (asked : Option SockAddrIn) (r : Result ℤ ℕ) (slot : Slot) (os : Os K)
      → ((n : ℕ) → r ≡ ok n → handles.live os.kernel ≡ n ∷ before)
      → ((e : ℤ) → r ≡ err e → handles.live os.kernel ≡ before)
      → Accepted before (accept_on kernel asked r slot os)
  on-Accepted before asked (err e) slot os good bad = inr (refl, bad e refl)
  on-Accepted before none (ok n) slot os good bad = inl (n, (refl, good n refl))
  on-Accepted before (some a) (ok n) slot os good bad =
      reported-Accepted before n
        (report_address kernel (query_socket_address kernel (to_c_int n) true os) slot)
        (ap (λ o. handles.live o.kernel)
            (report_live (query_socket_address kernel (to_c_int n) true os) slot)
          ∙ query_live (to_c_int n) os
          ∙ good n refl)

  -- An accept leaks no handle: it returns the handle of the connection, which is then the one that is
  -- new, or it returns -1 and every handle is what it was, even when the address could not be told.
  pub accept_leaks_nothing :
      (s : ℤ) (slot : Slot) (os : Os K)
      → Accepted (handles.live os.kernel) (accept kernel s slot os)
  unfolding accept
  accept_leaks_nothing s slot os =
      on-Accepted (handles.live os.kernel) slot.address
        (decode_syscall (kernel.socket_accept (as_usize s) os.kernel).0) slot _
        (λ n. handles.accepting (as_usize s) n os.kernel)
        (λ e. handles.not_accepting (as_usize s) e os.kernel)
