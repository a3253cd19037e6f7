-- ===== src/Scarlet/Address.antt =====
-- Socket addresses, moonlight-sys/src/scarlet.rs. The fields of `SockAddrIn` that are in network order
-- are the bytes of the memory, so that no byte order of the machine matters.
use moonlight_scarlet.Prelude.{
  ℕ, ◌*◌, ◌+◌, ◌/◌, ◌%◌, ◌<◌, ◌≤◌, ◌≡◌, refl, ap, sym, Bool, true, false, not, Option, none, some,
  List, [], ◌∷◌, if◌then◌else◌, ◌==◌, ltb, get_or, Result, ok, err, arith,
}
use moonlight_scarlet.Prelude.Int.{ℤ}
use moonlight_scarlet.Scarlet.Os.{einval, emsgsize, eafnosupport}

pub record Octets : Type 0 where
  pub a : ℕ
  pub b : ℕ
  pub c : ℕ
  pub d : ℕ

pub record SockAddrIn : Type 0 where
  pub family : ℕ
  pub port_high : ℕ
  pub port_low : ℕ
  pub address : Octets
  pub padding : List ℕ

pub record NativeInet4Address : Type 0 where
  pub address : Octets
  pub port : ℕ

abbrev pub af_inet : ℕ
af_inet = 2

abbrev pub sock_addr_in_size : ℕ
sock_addr_in_size = 16

abbrev pub no_padding : List ℕ
no_padding = 0 ∷ 0 ∷ 0 ∷ 0 ∷ 0 ∷ 0 ∷ 0 ∷ 0 ∷ []

unfoldable pub sockaddr_v4 : Option SockAddrIn → ℕ → Result ℤ NativeInet4Address
sockaddr_v4 none length = err einval
sockaddr_v4 (some address) length =
    if ltb length sock_addr_in_size
    then err einval
    else if not (address.family == af_inet)
    then err eafnosupport
    else ok
        (record { address = address.address; port = address.port_high * 256 + address.port_low })

unfoldable pub wire_address : NativeInet4Address → List ℕ
wire_address n =
    af_inet
    ∷ 0
    ∷ n.address.a
    ∷ n.address.b
    ∷ n.address.c
    ∷ n.address.d
    ∷ n.port / 256
    ∷ n.port % 256
    ∷ []

-- The two pointers of a caller that wants an address: none is null.
pub record Slot : Type 0 where
  pub address : Option SockAddrIn
  pub length : Option ℕ

unfoldable pub address_of_wire : List ℕ → SockAddrIn
address_of_wire wire = record {
  family = af_inet;
  port_high = get_or wire 6 0;
  port_low = get_or wire 7 0;
  address = record {
    a = get_or wire 2 0;
    b = get_or wire 3 0;
    c = get_or wire 4 0;
    d = get_or wire 5 0;
  };
  padding = no_padding;
}

-- `write_sockaddr`, on the two pointers.
abbrev pub write_slot : Option SockAddrIn → Option ℕ → List ℕ → Result ℤ (Unit {0}) × Slot
write_slot none length wire = (ok tt, record { address = none; length = length })
write_slot (some a) none wire = (err einval, record { address = some a; length = none })
write_slot (some a) (some available) wire =
    if ltb available sock_addr_in_size
    then (err emsgsize, record { address = some a; length = some sock_addr_in_size })
    else if not (get_or wire 0 0 == af_inet)
    then (err eafnosupport, record { address = some a; length = some sock_addr_in_size })
    else (ok tt, record { address = some (address_of_wire wire); length = some sock_addr_in_size })

unfoldable pub write_sockaddr : Slot → List ℕ → Result ℤ (Unit {0}) × Slot
write_sockaddr slot wire = write_slot slot.address slot.length wire

-- An address that C can hold: its bytes are bytes.
abbrev pub HasBytes : SockAddrIn → Type 0
HasBytes a = (a.port_high < 256) × (a.port_low < 256)

-- What an accepted address is.
accepted :
    (a : SockAddrIn) (n : NativeInet4Address) (given : ℕ)
    → sockaddr_v4 (some a) given ≡ ok n
    → (a.family ≡ af_inet)
      × (n ≡ record { address = a.address; port = a.port_high * 256 + a.port_low })
unfolding sockaddr_v4
accepted a n given e =
    go (ltb given sock_addr_in_size) (a.family == af_inet) (λ h. ground (arith, h)) e
  where
    found : Result ℤ NativeInet4Address → NativeInet4Address
    found (ok m) = m
    found (err x) = n

    go :
        (short known : Bool)
        → (known ≡ true → a.family ≡ af_inet)
        → (if short
            then err einval
            else if not known
            then err eafnosupport
            else ok (record { address = a.address; port = a.port_high * 256 + a.port_low }))
          ≡ ok n
        → (a.family ≡ af_inet)
          × (n ≡ record { address = a.address; port = a.port_high * 256 + a.port_low })
    go true known h e = absurd (ground (arith, e))
    go false false h e = absurd (ground (arith, e))
    go false true h e = (h refl, sym (ap found e))

same_sockaddr :
    (a b : SockAddrIn)
    → a.family ≡ b.family
    → a.port_high ≡ b.port_high
    → a.port_low ≡ b.port_low
    → a.address ≡ b.address
    → a.padding ≡ b.padding
    → a ≡ b
same_sockaddr a b f h l o p =
    λ i. record { family = f i; port_high = h i; port_low = l i; address = o i; padding = p i }

-- An IPv4 address that C passes in and that comes back in the form of the kernel arrives in a buffer
-- that is large enough as the same family, port and address, over cleared padding.
pub write_sockaddr-wire_address :
    (a old : SockAddrIn) (n : NativeInet4Address) (given available : ℕ)
    → HasBytes a
    → sockaddr_v4 (some a) given ≡ ok n
    → sock_addr_in_size ≤ available
    → write_sockaddr (record { address = some old; length = some available }) (wire_address n) ≡ (
      ok tt,
      record {
        address = some (record a { padding = no_padding });
        length = some sock_addr_in_size;
      },
    )
unfolding sockaddr_v4 wire_address write_sockaddr address_of_wire
write_sockaddr-wire_address a old n given available bytes e enough =
    let (inet, at) = accepted a n given e in
    rw (long) (
      ap (λ x. (ok tt, record { address = some x; length = some sock_addr_in_size }))
        (same_sockaddr (address_of_wire (wire_address n)) (record a { padding = no_padding })
          (sym inet) (omega (arith, ap (λ m. m.port) at, bytes.0, bytes.1))
          (omega (arith, ap (λ m. m.port) at, bytes.0, bytes.1)) (ap (λ m. m.address) at) refl))
  where
    long : ltb available sock_addr_in_size ≡ false
    long = ground (arith, enough)
