-- ===== src/Scarlet/Os.antt =====
-- System calls and errno, moonlight-sys/src/scarlet.rs. A `usize` is a number below 2 ^ 64 and a
-- `c_int` an integer; a cast is written out.
use moonlight_scarlet.Prelude.{
  ℕ, ◌-◌, ◌%◌, ◌^◌, Bool, if◌then◌else◌, ◌==◌, leb, ltb, Result, ok, err,
}
use moonlight_scarlet.Prelude.Int.{ℤ, pos, negsuc}

abbrev pub eio : ℤ
eio = pos 5

abbrev pub enomem : ℤ
enomem = pos 12

abbrev pub einval : ℤ
einval = pos 22

abbrev pub emsgsize : ℤ
emsgsize = pos 90

abbrev pub eopnotsupp : ℤ
eopnotsupp = pos 95

abbrev pub eafnosupport : ℤ
eafnosupport = pos 97

-- The errno of the thread, and the kernel.
pub record Os (K : Type 0) : Type 0 where
  pub errno : ℤ
  pub kernel : K

-- `n as c_int`
unfoldable pub to_c_int : ℕ → ℤ
to_c_int n = signed (n % 2 ^ 32)
  where
    signed : ℕ → ℤ
    signed r = if ltb r (2 ^ 31) then pos r else negsuc (2 ^ 32 - 1 - r)

-- `n as isize`
unfoldable pub to_isize : ℕ → ℤ
to_isize n = if ltb n (2 ^ 63) then pos n else negsuc (2 ^ 64 - 1 - n)

-- `z as usize` of a `c_int`
unfoldable pub as_usize : ℤ → ℕ
as_usize (pos n) = n
as_usize (negsuc n) = 2 ^ 64 - 1 - n

abbrev pub is_eperm : ℤ → Bool
is_eperm (pos n) = n == 1
is_eperm (negsuc n) = Bool.false

-- `-(result as isize) as c_int`, in two's complement, is the cast of the rest up to 2 ^ 64.
unfoldable pub decode_syscall : ℕ → Result ℤ ℕ
unfolding to_c_int
decode_syscall result =
    if leb result (2 ^ 63 - 1)
    then ok result
    else err (if is_eperm (to_c_int (2 ^ 64 - result)) then eio else to_c_int (2 ^ 64 - result))

module _ {K : Type 0} where
  abbrev pub set_errno : ℤ → Os K → Os K
  set_errno e os = record os { errno = e }

  abbrev pub failed : ℤ → Os K → ℤ × Os K
  failed e os = (negsuc 0, set_errno e os)

  unfoldable pub return_int : Result ℤ ℕ → Os K → ℤ × Os K
  return_int (ok value) os = (to_c_int value, os)
  return_int (err e) os = failed e os

  unfoldable pub return_size : Result ℤ ℕ → Os K → ℤ × Os K
  return_size (ok value) os = (to_isize value, os)
  return_size (err e) os = failed e os

  -- A system call: what it returns, and the kernel afterwards.
  abbrev pub with_kernel : ℕ × K → Os K → Result ℤ ℕ × Os K
  with_kernel (result, kernel) os = (decode_syscall result, record os { kernel = kernel })
