-- ===== src/Scarlet/Socket.antt =====
-- The C socket calls of moonlight-sys/src/scarlet.rs, over the kernel. A buffer is its address, 0 for
-- the null pointer; what the kernel reads from it or writes to it is part of the kernel's state.
use moonlight_scarlet.Prelude.{
  ℕ, Bool, true, false, not, ◌||◌, ◌&&◌, Option, none, some, List, if◌then◌else◌, ◌==◌, Result, ok,
  err,
}
use moonlight_scarlet.Prelude.Int.{ℤ, pos, negsuc, pos_part}
use moonlight_scarlet.Scarlet.Os.{
  Os, einval, eopnotsupp, eafnosupport, to_c_int, to_isize, as_usize, decode_syscall, set_errno,
  failed, return_int, return_size, with_kernel,
}
use moonlight_scarlet.Scarlet.Address.{
  SockAddrIn, NativeInet4Address, sockaddr_v4, wire_address, Slot, write_sockaddr,
}

-- The commands of `HandleControl` that are used.
pub data Control : Type 0 where
  set_nonblock set_read_timeout_ms set_write_timeout_ms take_error : Control

-- The system calls, each with the value it returns. Those that fill an address return its bytes.
pub record Kernel (K : Type 0) : Type 0 where
  pub socket_create : ℕ → ℕ → ℕ → K → ℕ × K
  pub socket_bind : ℕ → NativeInet4Address → K → ℕ × K
  pub socket_connect : ℕ → NativeInet4Address → K → ℕ × K
  pub socket_listen : ℕ → ℕ → K → ℕ × K
  pub socket_accept : ℕ → K → ℕ × K
  pub socket_shutdown : ℕ → ℕ → K → ℕ × K
  pub socket_local_address : ℕ → K → List ℕ × (ℕ × K)
  pub socket_peer_address : ℕ → K → List ℕ × (ℕ × K)
  pub handle_close : ℕ → K → ℕ × K
  pub handle_control : ℕ → Control → ℕ → K → ℕ × K
  pub stream_write : ℕ → ℕ → ℕ → K → ℕ × K
  pub stream_read : ℕ → ℕ → ℕ → K → ℕ × K
  pub socket_send_to : ℕ → ℕ → ℕ → List ℕ → K → ℕ × K
  pub socket_recv_from : ℕ → ℕ → ℕ → Bool → K → List ℕ × (ℕ × K)
  pub poll_handles : ℕ → ℕ → ℤ → K → ℕ × K

abbrev pub is_af_inet : ℤ → Bool
is_af_inet (pos n) = n == 2
is_af_inet (negsuc n) = false

abbrev pub is_set : ℤ → Bool
is_set (pos n) = not (n == 0)
is_set (negsuc n) = true

-- `buffer.is_null() && length != 0 || flags != 0`
abbrev pub refuses : ℕ → ℕ → ℤ → Bool
refuses buffer length flags = buffer == 0 && not (length == 0) || is_set flags

module _ {K : Type 0} (kernel : Kernel K) where
  -- A call that ends in `return_int(decode_syscall(..))`, and one in `return_size`.
  abbrev pub int_call : (K → ℕ × K) → Os K → ℤ × Os K
  int_call call os = let (r, os') = with_kernel (call os.kernel) os in return_int r os'

  abbrev pub size_call : (K → ℕ × K) → Os K → ℤ × Os K
  size_call call os = let (r, os') = with_kernel (call os.kernel) os in return_size r os'

  unfoldable pub socket : ℤ → ℤ → ℤ → Os K → ℤ × Os K
  unfolding return_int
  socket domain kind protocol os =
      if not (is_af_inet domain)
      then failed eafnosupport os
      else int_call (kernel.socket_create (as_usize domain) (as_usize kind) (as_usize protocol)) os

  -- A call on a checked address.
  abbrev pub address_call :
      (NativeInet4Address → K → ℕ × K) → Result ℤ NativeInet4Address → Os K → ℤ × Os K
  address_call call (err e) os = failed e os
  address_call call (ok address) os = int_call (call address) os

  unfoldable pub bind : ℤ → Option SockAddrIn → ℕ → Os K → ℤ × Os K
  unfolding return_int
  bind s address length =
      address_call (kernel.socket_bind (as_usize s)) (sockaddr_v4 address length)

  unfoldable pub connect : ℤ → Option SockAddrIn → ℕ → Os K → ℤ × Os K
  unfolding return_int
  connect s address length =
      address_call (kernel.socket_connect (as_usize s)) (sockaddr_v4 address length)

  unfoldable pub listen : ℤ → ℤ → Os K → ℤ × Os K
  unfolding return_int
  listen s backlog = int_call (kernel.socket_listen (as_usize s) (pos_part backlog))

  unfoldable pub shutdown : ℤ → ℤ → Os K → ℤ × Os K
  unfolding return_int
  shutdown s how = int_call (kernel.socket_shutdown (as_usize s) (as_usize how))

  unfoldable pub close : ℤ → Os K → ℤ × Os K
  unfolding return_int
  close s = int_call (kernel.handle_close (as_usize s))

  unfoldable pub query_socket_address : ℤ → Bool → Os K → Result ℤ (List ℕ) × Os K
  query_socket_address s peer os = answered (
      if peer
      then kernel.socket_peer_address (as_usize s) os.kernel
      else kernel.socket_local_address (as_usize s) os.kernel)
    where
      named : List ℕ → Result ℤ ℕ → Result ℤ (List ℕ)
      named wire (ok n) = ok wire
      named wire (err e) = err e

      answered : List ℕ × (ℕ × K) → Result ℤ (List ℕ) × Os K
      answered (wire, (r, k)) = (named wire (decode_syscall r), record os { kernel = k })

  -- `query_socket_address(..).and_then(|wire| write_sockaddr(..))`
  abbrev pub report_address : Result ℤ (List ℕ) × Os K → Slot → Result ℤ (Unit {0}) × (Slot × Os K)
  report_address (err e, os) slot = (err e, (slot, os))
  report_address (ok wire, os) slot =
      ((write_sockaddr slot wire).0, ((write_sockaddr slot wire).1, os))

  abbrev pub zero_or : Result ℤ (Unit {0}) × (Slot × Os K) → ℤ × (Slot × Os K)
  zero_or (ok u, (slot, os)) = (pos 0, (slot, os))
  zero_or (err e, (slot, os)) = (negsuc 0, (slot, set_errno e os))

  unfoldable pub getsockname : ℤ → Slot → Os K → ℤ × (Slot × Os K)
  unfolding query_socket_address
  getsockname s slot os = zero_or (report_address (query_socket_address s false os) slot)

  unfoldable pub getpeername : ℤ → Slot → Os K → ℤ × (Slot × Os K)
  unfolding query_socket_address
  getpeername s slot os = zero_or (report_address (query_socket_address s true os) slot)

  -- An accepted connection whose address was asked for: one that cannot be told is closed.
  abbrev pub accept_with : ℕ → Result ℤ (Unit {0}) × (Slot × Os K) → ℤ × (Slot × Os K)
  accept_with accepted (ok u, (slot, os)) = (to_c_int accepted, (slot, os))
  accept_with accepted (err e, (slot, os)) =
      (negsuc 0, (slot, record { errno = e; kernel = (kernel.handle_close accepted os.kernel).1 }))

  abbrev pub accept_on : Option SockAddrIn → Result ℤ ℕ → Slot → Os K → ℤ × (Slot × Os K)
  accept_on asked (err e) slot os = (negsuc 0, (slot, set_errno e os))
  accept_on none (ok accepted) slot os = (to_c_int accepted, (slot, os))
  accept_on (some a) (ok accepted) slot os =
      accept_with accepted (report_address (query_socket_address (to_c_int accepted) true os) slot)

  unfoldable pub accept : ℤ → Slot → Os K → ℤ × (Slot × Os K)
  accept s slot os =
      let (r, os') = with_kernel (kernel.socket_accept (as_usize s) os.kernel) os in
      accept_on slot.address r slot os'

  unfoldable pub send : ℤ → ℕ → ℕ → ℤ → Os K → ℤ × Os K
  unfolding return_size
  send s buffer length flags os =
      if refuses buffer length flags
      then failed einval os
      else size_call (kernel.stream_write (as_usize s) buffer length) os

  unfoldable pub recv : ℤ → ℕ → ℕ → ℤ → Os K → ℤ × Os K
  unfolding return_size
  recv s buffer length flags os =
      if refuses buffer length flags
      then failed (if is_set flags then eopnotsupp else einval) os
      else size_call (kernel.stream_read (as_usize s) buffer length) os

  abbrev pub send_checked : ℤ → ℕ → ℕ → Result ℤ NativeInet4Address → Os K → ℤ × Os K
  send_checked s buffer length (err e) os = failed e os
  send_checked s buffer length (ok address) os =
      size_call (kernel.socket_send_to (as_usize s) buffer length (wire_address address)) os

  abbrev pub send_addressed : ℤ → ℕ → ℕ → Option SockAddrIn → ℕ → Os K → ℤ × Os K
  send_addressed s buffer length none address_length os = send s buffer length (pos 0) os
  send_addressed s buffer length (some a) address_length os =
      send_checked s buffer length (sockaddr_v4 (some a) address_length) os

  unfoldable pub sendto : ℤ → ℕ → ℕ → ℤ → Option SockAddrIn → ℕ → Os K → ℤ × Os K
  unfolding return_size send
  sendto s buffer length flags address address_length os =
      if refuses buffer length flags
      then failed einval os
      else send_addressed s buffer length address address_length os

  abbrev pub received : Result ℤ ℕ → List ℕ → Slot → Os K → ℤ × (Slot × Os K)
  received (err e) wire slot os = (negsuc 0, (slot, set_errno e os))
  received (ok n) wire slot os = told (write_sockaddr slot wire)
    where
      told : Result ℤ (Unit {0}) × Slot → ℤ × (Slot × Os K)
      told (ok u, slot') = (to_isize n, (slot', os))
      told (err e, slot') = (negsuc 0, (slot', set_errno e os))

  abbrev pub has_address : Slot → Bool
  has_address slot = elim slot.address [ none ↦ false | some a ↦ true ]

  unfoldable pub recvfrom : ℤ → ℕ → ℕ → ℤ → Slot → Os K → ℤ × (Slot × Os K)
  recvfrom s buffer length flags slot os =
      let (wire, (r, k)) =
        kernel.socket_recv_from (as_usize s) buffer length (has_address slot) os.kernel in
      if refuses buffer length flags
      then (negsuc 0, (slot, set_errno (if is_set flags then eopnotsupp else einval) os))
      else received (decode_syscall r) wire slot (record os { kernel = k })
