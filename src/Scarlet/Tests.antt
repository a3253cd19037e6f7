-- ===== src/Scarlet/Tests.antt =====
-- The theorems on the platform layer at concrete inputs.
use moonlight_scarlet.Prelude.{
  none, ℕ, ◌+◌, ◌*◌, ◌≤◌, ◌≡◌, ◌⊎◌, refl, ap, some, List, [], ◌∷◌, max, ok, err, arith,
}
use moonlight_scarlet.Prelude.Int.{ℤ, pos, negsuc}
use moonlight_scarlet.Scarlet.Mutex.{
  Lock, Reachable, at_new, then_step, trying, swap, wait, try_lock, swap_lock, futex_wait, new_lock,
  put_thread,
}
use moonlight_scarlet.Scarlet.Sound.{IsSound}
use moonlight_scarlet.Scarlet.Exclusion as Exclusion
use moonlight_scarlet.Scarlet.Os.{Os, decode_syscall, to_c_int}
use moonlight_scarlet.Scarlet.Alloc.{
  Layout, Allocator, Heap, allocation_layout, is_power_of_two, allocate_with_alignment, place,
  payload_address, free,
}
use moonlight_scarlet.Scarlet.Payload as Payload
use moonlight_scarlet.Scarlet.Address.{
  SockAddrIn, NativeInet4Address, Slot, sockaddr_v4, wire_address, write_sockaddr, no_padding,
}
use moonlight_scarlet.Scarlet.Address as Address
use moonlight_scarlet.Scarlet.Socket.{Kernel, accept}
use moonlight_scarlet.Scarlet.Lookup.{SocketAddr, v4, v6, no_hints, link_addresses}
use moonlight_scarlet.Scarlet.Chain.{IsLinked, v4_addresses}
use moonlight_scarlet.Scarlet.Chain as Chain
use moonlight_scarlet.Scarlet.Handles.{Handles}
use moonlight_scarlet.Scarlet.Handles as Handles

-- Thread 0 holds the mutex, and thread 1 sleeps.
abbrev taken : Lock
taken = put_thread 0 (try_lock 0) new_lock

abbrev tried : Lock
tried = put_thread 1 (try_lock taken.word) taken

abbrev marked : Lock
marked = put_thread 1 (swap_lock tried.word) tried

abbrev sleeping : Lock
sleeping = put_thread 1 (futex_wait marked.word) marked

reached : Reachable sleeping
unfolding try_lock swap_lock futex_wait
reached =
    then_step
      (then_step (then_step (then_step at_new (trying 0 refl)) (trying 1 refl)) (swap 1 refl))
      (wait 1 refl)

Reachable-IsSound_example : IsSound sleeping
Reachable-IsSound_example = Exclusion.Reachable-IsSound sleeping reached

-- An allocator that has one block.
abbrev below : Allocator ℕ
below = record {
  alloc = λ l a. (1000, a);
  dealloc = λ base l a. base;
  write_zeros = λ p n a. a;
  copy_bytes = λ p q n a. a;
}

abbrev heap : Heap ℕ
heap = record {
  errno = pos 0;
  allocator = 0;
  headers =
      λ a. record { base = 0; layout_size = 0; layout_align = 0; requested_size = 0; magic = 0 };
}

abbrev layout : Layout
layout = record { size = 179; align = 32 }

laid_out : allocation_layout 100 32 ≡ some layout
unfolding allocation_layout is_power_of_two
laid_out = refl

allocated :
    allocate_with_alignment below 100 32 heap
    ≡ (1056, (allocate_with_alignment below 100 32 heap).1)
unfolding allocate_with_alignment place payload_address allocation_layout is_power_of_two
allocated = refl

allocate_inside_example :
    (1048 ≤ 1056) × (1056 + max 100 1 ≤ 1179) × ((q : ℕ) × (1056 ≡ q * 32)) × (16 ≤ 32)
allocate_inside_example =
    Payload.allocate_inside below 100 32 heap (allocate_with_alignment below 100 32 heap).1 1056
      layout laid_out (omega arith) allocated (ground arith)

free-allocate_example :
    free below 1056 (allocate_with_alignment below 100 32 heap).1
    ≡ record (allocate_with_alignment below 100 32 heap).1 { allocator = 1000 }
free-allocate_example =
    Payload.free-allocate below 100 32 heap (allocate_with_alignment below 100 32 heap).1 1056
      layout laid_out allocated (ground arith)

abbrev local : SockAddrIn
local = record {
  family = 2;
  port_high = 187;
  port_low = 117;
  address = record { a = 192; b = 168; c = 0; d = 2 };
  padding = 9 ∷ [];
}

abbrev native : NativeInet4Address
native = record { address = record { a = 192; b = 168; c = 0; d = 2 }; port = 47989 }

read : sockaddr_v4 (some local) 16 ≡ ok native
unfolding sockaddr_v4
read = refl

write_sockaddr-wire_address_example :
    write_sockaddr (record { address = some local; length = some 28 }) (wire_address native)
    ≡ (ok tt, record { address = some (record local { padding = no_padding }); length = some 16 })
write_sockaddr-wire_address_example =
    Address.write_sockaddr-wire_address local local native 16 28 (omega arith, omega arith) read
      (omega arith)

abbrev less_one : List ℕ → List ℕ
less_one [] = []
less_one (h ∷ rest) = rest

-- A kernel that accepts every connection as handle 7, from a peer that is no IPv4 address.
abbrev kernel : Kernel (List ℕ)
kernel = record {
  socket_create = λ d t p k. (0, k);
  socket_bind = λ s a k. (0, k);
  socket_connect = λ s a k. (0, k);
  socket_listen = λ s b k. (0, k);
  socket_accept = λ s k. (7, 7 ∷ k);
  socket_shutdown = λ s h k. (0, k);
  socket_local_address = λ s k. ([], (0, k));
  socket_peer_address = λ s k. (10 ∷ [], (0, k));
  handle_close = λ h k. (0, less_one k);
  handle_control = λ s c v k. (0, k);
  stream_write = λ s b n k. (n, k);
  stream_read = λ s b n k. (0, k);
  socket_send_to = λ s b n a k. (n, k);
  socket_recv_from = λ s b n wants k. ([], (0, k));
  poll_handles = λ d n t k. (0, k);
}

told_seven : (n : ℕ) → decode_syscall 7 ≡ ok n → 7 ≡ n
unfolding decode_syscall
told_seven n e = ground (arith, e)

no_error : (e : ℤ) → decode_syscall 7 ≡ err e → ⊥
unfolding decode_syscall
no_error e h = ground (arith, h)

abbrev handles : Handles kernel
handles = record {
  live = λ k. k;
  accepting = λ s n k e. ap (λ m. m ∷ k) (told_seven n e);
  not_accepting = λ s e k h. absurd (no_error e h);
  closing = λ n rest k e. ap less_one e;
  asking = λ s k. refl;
}

abbrev slot : Slot
slot = record { address = some local; length = some 16 }

abbrev os : Os (List ℕ)
os = record { errno = pos 0; kernel = 3 ∷ [] }

accept_leaks_nothing_example :
    ((n : ℕ) × (((accept kernel (pos 3) slot os).0 ≡ to_c_int n)
        × ((accept kernel (pos 3) slot os).1.1.kernel ≡ n ∷ 3 ∷ [])))
    ⊎ (((accept kernel (pos 3) slot os).0 ≡ negsuc 0)
        × ((accept kernel (pos 3) slot os).1.1.kernel ≡ 3 ∷ []))
accept_leaks_nothing_example = Handles.accept_leaks_nothing kernel handles (pos 3) slot os

-- An answer with an IPv6 address between two others.
abbrev answers : List SocketAddr
answers =
    v4 (record { a = 10; b = 0; c = 0; d = 1 }) 80
    ∷ v6
    ∷ v4 (record { a = 10; b = 0; c = 0; d = 2 }) 80
    ∷ []

link_addresses-IsLinked_example :
    IsLinked
      (link_addresses no_hints answers none none []).1
      (link_addresses no_hints answers none none []).0
      (v4_addresses answers)
link_addresses-IsLinked_example = Chain.link_addresses-IsLinked no_hints answers []
