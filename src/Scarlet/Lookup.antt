-- ===== src/Scarlet/Lookup.antt =====
-- `getaddrinfo` and `freeaddrinfo` of moonlight-sys/src/scarlet.rs. The boxes are a list under their
-- pointers, in the order in which they were made; one that was dropped is none. The resolver is a
-- parameter, and a C string is null, not UTF-8, or a text.
use moonlight_scarlet.Prelude.{
  ℕ, zero, suc, ◌/◌, ◌%◌, Bool, false, ◌||◌, Option, none, some, List, [], ◌∷◌, ◌++◌, if◌then◌else◌,
  ◌==◌, Result, ok, err, length, get_or, set,
}
use moonlight_scarlet.Prelude.Int.{ℤ, pos, negsuc}
use moonlight_scarlet.Session.Defs.{Text}
use moonlight_scarlet.Control.Defs.{parse_unsigned}
use moonlight_scarlet.Scarlet.Address.{Octets, SockAddrIn, no_padding, sock_addr_in_size}

pub data CString : Type 0 where
  null not_text : CString
  text : Text → CString

pub data SocketAddr : Type 0 where
  v4 : Octets → ℕ → SocketAddr
  v6 : SocketAddr

pub record Hints : Type 0 where
  pub family : ℤ
  pub socket_type : ℤ
  pub protocol : ℤ

pub record AddrInfoNode : Type 0 where
  pub flags : ℤ
  pub family : ℤ
  pub socket_type : ℤ
  pub protocol : ℤ
  pub address_length : ℕ
  pub address : SockAddrIn
  pub next : Option ℕ

abbrev pub Boxes : Type 0
Boxes = List (Option AddrInfoNode)

abbrev pub no_hints : Hints
no_hints = record { family = pos 0; socket_type = pos 0; protocol = pos 0 }

abbrev pub or_none : Option Hints → Hints
or_none none = no_hints
or_none (some h) = h

abbrev pub socket_address : Octets → ℕ → SockAddrIn
socket_address ip port = record {
  family = 2;
  port_high = port / 256;
  port_low = port % 256;
  address = ip;
  padding = no_padding;
}

abbrev pub node_of : Hints → Octets → ℕ → AddrInfoNode
node_of hints ip port = record {
  flags = pos 0;
  family = pos 2;
  socket_type = hints.socket_type;
  protocol = hints.protocol;
  address_length = sock_addr_in_size;
  address = socket_address ip port;
  next = none;
}

-- `(*tail).next = current`
abbrev pub with_next : ℕ → Option AddrInfoNode → Option AddrInfoNode
with_next current none = none
with_next current (some n) = some (record n { next = some current })

abbrev pub attach : Option ℕ → ℕ → Boxes → Boxes
attach none current boxes = boxes
attach (some t) current boxes = set boxes t (with_next current (get_or boxes t none))

abbrev pub first_or : Option ℕ → ℕ → ℕ
first_or none current = current
first_or (some h) current = h

-- The loop over the addresses, with `head` and `tail`.
unfoldable pub link_addresses :
    Hints → List SocketAddr → Option ℕ → Option ℕ → Boxes → Option ℕ × Boxes
link_addresses hints [] head tail boxes = (head, boxes)
link_addresses hints (v6 ∷ rest) head tail boxes = link_addresses hints rest head tail boxes
link_addresses hints (v4 ip port ∷ rest) head tail boxes =
    link_addresses hints rest (some (first_or head (length boxes))) (some (length boxes))
      (attach tail (length boxes) (boxes ++ (some (node_of hints ip port) ∷ [])))

-- What `getaddrinfo` leaves: its code, the list that it wrote, if it wrote one, and the boxes.
abbrev pub Found : Type 0
Found = ℤ × (Option ℕ × Boxes)

abbrev pub refused : ℤ → Boxes → Found
refused code boxes = (code, (none, boxes))

abbrev pub found_list : Option ℕ × Boxes → Found
found_list (none, boxes) = refused (negsuc 1) boxes
found_list (some head, boxes) = (pos 0, (some head, boxes))

abbrev pub resolved : Option Hints → Result Text (List SocketAddr) → Boxes → Found
resolved hints (err e) boxes = refused (negsuc 3) boxes
resolved hints (ok addresses) boxes =
    found_list (link_addresses (or_none hints) addresses none none boxes)

abbrev pub is_inet_family : ℤ → Bool
is_inet_family (pos n) = n == 0 || n == 2
is_inet_family (negsuc n) = false

-- The port of a service.
abbrev pub port_of : CString → Option ℕ
port_of null = some 0
port_of not_text = none
port_of (text t) = parse_unsigned 16 t

module _ (to_socket_addrs : Text → ℕ → Result Text (List SocketAddr)) where
  abbrev pub lookup : Option Hints → Text → Option ℕ → Boxes → Found
  lookup hints name none boxes = refused (negsuc 1) boxes
  lookup hints name (some port) boxes =
      if is_inet_family (or_none hints).family
      then resolved hints (to_socket_addrs name port) boxes
      else refused (negsuc 1) boxes

  -- `result_null` says whether the pointer of the result is null.
  unfoldable pub getaddrinfo : CString → CString → Option Hints → Bool → Boxes → Found
  unfolding link_addresses
  getaddrinfo null service hints result_null boxes = refused (negsuc 1) boxes
  getaddrinfo not_text service hints result_null boxes = refused (negsuc 1) boxes
  getaddrinfo (text name) service hints result_null boxes =
      if result_null then refused (negsuc 1) boxes else lookup hints name (port_of service) boxes

-- Dropping a box that is not there, as freeing twice would, or running out of fuel is none.
abbrev pub dropped :
    (Option ℕ → Boxes → Option Boxes) → ℕ → Option AddrInfoNode → Boxes → Option Boxes
dropped rest i none boxes = none
dropped rest i (some n) boxes = rest n.next (set boxes i none)

unfoldable pub freeaddrinfo : ℕ → Option ℕ → Boxes → Option Boxes
freeaddrinfo fuel none boxes = some boxes
freeaddrinfo zero (some i) boxes = none
freeaddrinfo (suc fuel) (some i) boxes = dropped (freeaddrinfo fuel) i (get_or boxes i none) boxes
