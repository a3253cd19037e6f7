-- ===== src/Scarlet/Options.antt =====
-- Socket options and `poll` of moonlight-sys/src/scarlet.rs. The value of an option is read as a time
-- or as a C integer, after the check of its length.
use moonlight_scarlet.Prelude.{
  ℕ, ◌*◌, ◌+◌, ◌-◌, ◌/◌, ◌^◌, min, Bool, true, false, not, ◌||◌, ◌&&◌, Option, none, some,
  if◌then◌else◌, ◌==◌, ltb, Result, ok, err,
}
use moonlight_scarlet.Prelude.Int.{ℤ, pos, negsuc}
use moonlight_scarlet.Scarlet.Os.{
  Os, einval, eopnotsupp, to_c_int, as_usize, set_errno, failed, return_int, with_kernel,
}
use moonlight_scarlet.Scarlet.Socket.{
  Control, set_nonblock, set_read_timeout_ms, set_write_timeout_ms, take_error, Kernel, is_set,
  int_call,
}

pub record TimeVal : Type 0 where
  pub seconds : ℤ
  pub microseconds : ℤ

-- The bytes behind the pointer of an option, read either way.
pub record OptionValue : Type 0 where
  pub time : TimeVal
  pub number : ℤ

abbrev pub is_number : ℕ → ℤ → Bool
is_number k (pos n) = n == k
is_number k (negsuc n) = false

-- `saturating_mul` and `saturating_add` of an `i64`, and its division, which rounds towards 0.
unfoldable pub saturating : ℤ → ℤ
saturating (pos n) = pos (min n (2 ^ 63 - 1))
saturating (negsuc n) = negsuc (min n (2 ^ 63 - 1))

abbrev pub times : ℤ → ℕ → ℤ
times (pos n) k = pos (n * k)
times (negsuc n) k = if k == 0 then pos 0 else negsuc ((n + 1) * k - 1)

abbrev pub plus : ℤ → ℤ → ℤ
plus (pos a) (pos b) = pos (a + b)
plus (negsuc a) (negsuc b) = negsuc (a + b + 1)
plus (pos a) (negsuc b) = if ltb b a then pos (a - (b + 1)) else negsuc (b - a)
plus (negsuc a) (pos b) = if ltb a b then pos (b - (a + 1)) else negsuc (a - b)

abbrev pub divided : ℤ → ℕ → ℤ
divided (pos n) k = pos (n / k)
divided (negsuc n) k = if (n + 1) / k == 0 then pos 0 else negsuc ((n + 1) / k - 1)

-- `.max(0) as usize`
abbrev pub at_least_zero : ℤ → ℕ
at_least_zero (pos n) = n
at_least_zero (negsuc n) = 0

unfoldable pub timeout_millis : TimeVal → ℕ
unfolding saturating
timeout_millis t = at_least_zero (
    saturating (
      plus (saturating (times t.seconds 1000))
        (divided (saturating (plus t.microseconds (pos 999))) 1000)))

module _ {K : Type 0} (kernel : Kernel K) where
  unfoldable pub set_socket_control : ℤ → Control → ℕ → Os K → Result ℤ ℕ × Os K
  set_socket_control s command value os =
      with_kernel (kernel.handle_control (as_usize s) command value os.kernel) os

  abbrev pub zero_result : Result ℤ ℕ × Os K → ℤ × Os K
  zero_result (ok n, os) = (pos 0, os)
  zero_result (err e, os) = failed e os

  abbrev pub bit : Bool → ℕ
  bit true = 1
  bit false = 0

  -- On a value that is not null.
  abbrev pub set_option : ℤ → ℤ → ℤ → OptionValue → ℕ → Os K → Result ℤ ℕ × Os K
  set_option s level option value length os =
      if is_number 1 level && (is_number 20 option || is_number 21 option)
      then (if ltb length 16
          then (err einval, os)
          else set_socket_control s
              (if is_number 20 option then set_read_timeout_ms else set_write_timeout_ms)
              (timeout_millis value.time) os)
      else if is_number 1 level && is_number 0x1001 option
      then (if ltb length 4
          then (err einval, os)
          else set_socket_control s set_nonblock (bit (is_set value.number)) os)
      else (ok 0, os)

  unfoldable pub setsockopt : ℤ → ℤ → ℤ → Option OptionValue → ℕ → Os K → ℤ × Os K
  unfolding set_socket_control
  setsockopt s level option none length os = failed einval os
  setsockopt s level option (some value) length os =
      zero_result (set_option s level option value length os)

  abbrev pub as_int : Result ℤ ℕ × Os K → Result ℤ ℤ × Os K
  as_int (ok n, os) = (ok (to_c_int n), os)
  as_int (err e, os) = (err e, os)

  abbrev pub get_option : ℤ → ℤ → ℤ → Os K → Result ℤ ℤ × Os K
  get_option s level option os =
      if is_number 1 level && is_number 4 option
      then as_int (set_socket_control s take_error 0 os)
      else if is_number 0 level && is_number 2 option
      then (ok (pos 64), os)
      else if is_number 1 level && (is_number 7 option || is_number 8 option)
      then (ok (pos (256 * 1024)), os)
      else (err eopnotsupp, os)

  -- What `getsockopt` leaves: its result, the value and the length, where they were written.
  abbrev pub got : Result ℤ ℤ × Os K → ℕ → ℤ × (Option ℤ × (ℕ × Os K))
  got (ok n, os) length = (pos 0, (some n, (4, os)))
  got (err e, os) length = (negsuc 0, (none, (length, set_errno e os)))

  -- On the value's pointer, whether it is null, and the length behind its pointer.
  unfoldable pub getsockopt : ℤ → ℤ → ℤ → Bool → Option ℕ → Os K → ℤ × (Option ℤ × (ℕ × Os K))
  unfolding set_socket_control
  getsockopt s level option null none os = (negsuc 0, (none, (0, set_errno einval os)))
  getsockopt s level option null (some length) os =
      if null || ltb length 4
      then (negsuc 0, (none, (length, set_errno einval os)))
      else got (get_option s level option os) length

  unfoldable pub scarlet_socket_set_nonblocking : ℤ → ℤ → Os K → ℤ × Os K
  unfolding set_socket_control
  scarlet_socket_set_nonblocking s enabled os =
      zero_result (set_socket_control s set_nonblock (bit (is_set enabled)) os)

  -- `i64::from(timeout_ms).saturating_mul(1_000_000)`; a C integer stays far below the bound.
  unfoldable pub timeout_ns : ℤ → ℤ
  unfolding saturating
  timeout_ns (pos n) = saturating (times (pos n) 1000000)
  timeout_ns (negsuc n) = negsuc 0

  unfoldable pub poll : ℕ → ℕ → ℤ → Os K → ℤ × Os K
  unfolding return_int timeout_ns
  poll descriptors count timeout_ms os =
      if descriptors == 0 && not (count == 0)
      then failed einval os
      else int_call kernel (kernel.poll_handles descriptors count (timeout_ns timeout_ms)) os
