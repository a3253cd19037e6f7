-- ===== src/Scarlet/Chain.antt =====
-- The list that `getaddrinfo` of moonlight-sys/src/scarlet.rs builds, and its release.
use moonlight_scarlet.Prelude.{
  ℕ, zero, suc, ◌<◌, ◌≤◌, ◌≡◌, refl, ap, subst, ◌∙◌, sym, Option, none, some, List, [], ◌∷◌, ◌++◌,
  length, get_or, set, get_or-append_last, get_or-append_ne, get_or-set_self, get_or-set_ne,
  length-append, length-set, arith,
}
use moonlight_scarlet.Scarlet.Address.{SockAddrIn}
use moonlight_scarlet.Scarlet.Lookup.{
  SocketAddr, v4, v6, Hints, AddrInfoNode, Boxes, socket_address, node_of, with_next, attach,
  link_addresses, dropped, freeaddrinfo,
}

-- The boxes from one pointer to another hold these addresses, and the last is the end of the list.
pub data IsChain (boxes : Boxes) : ℕ → ℕ → List SockAddrIn → Type 0 where
  ends :
      (i : ℕ) (n : AddrInfoNode)
      → get_or boxes i none ≡ some n
      → n.next ≡ none
      → i < length boxes
      → IsChain boxes i i (n.address ∷ [])
  goes :
      (i j t : ℕ) (n : AddrInfoNode) (rest : List SockAddrIn)
      → get_or boxes i none ≡ some n
      → n.next ≡ some j
      → i < j
      → IsChain boxes j t rest
      → IsChain boxes i t (n.address ∷ rest)

up_to :
    (boxes : Boxes) (i t : ℕ) (xs : List SockAddrIn)
    → IsChain boxes i t xs
    → (i ≤ t) × (t < length boxes)
up_to boxes _ _ _ (ends i n at last inside) = (omega arith, inside)
up_to boxes _ _ _ (goes i j t n rest at next lt chain) =
    let (le, inside) = up_to boxes j t rest chain in (omega (arith, lt, le), inside)

-- The box that another one is attached to, and the others.
module _ (boxes : Boxes) (t : ℕ) (inside : t < length boxes) (m : AddrInfoNode) where
  abbrev longer : Boxes
  longer = attach (some t) (length boxes) (boxes ++ (some m ∷ []))

  at_tail :
      (n : AddrInfoNode)
      → get_or boxes t none ≡ some n
      → get_or longer t none ≡ some (record n { next = some (length boxes) })
  at_tail n h =
      get_or-set_self (boxes ++ (some m ∷ [])) t
        (with_next (length boxes) (get_or (boxes ++ (some m ∷ [])) t none)) none
        (omega (arith, inside, length-append boxes (some m ∷ [])))
      ∙ ap (with_next (length boxes))
          (get_or-append_ne boxes (some m) none t (ground (arith, inside)) ∙ h)

  at_other : (i : ℕ) → i < t → get_or longer i none ≡ get_or boxes i none
  at_other i lt =
      get_or-set_ne (boxes ++ (some m ∷ [])) t i
        (with_next (length boxes) (get_or (boxes ++ (some m ∷ [])) t none)) none
        (ground (arith, lt))
      ∙ get_or-append_ne boxes (some m) none i (ground (arith, lt, inside))

  at_last : get_or longer (length boxes) none ≡ some m
  at_last =
      get_or-set_ne (boxes ++ (some m ∷ [])) t (length boxes)
        (with_next (length boxes) (get_or (boxes ++ (some m ∷ [])) t none)) none
        (ground (arith, inside))
      ∙ get_or-append_last boxes (some m) none

  long : length boxes < length longer
  long = omega (
    arith,
    length-set (boxes ++ (some m ∷ [])) t
        (with_next (length boxes) (get_or (boxes ++ (some m ∷ [])) t none)),
    length-append boxes (some m ∷ []),
  )

-- One more box at the end.
append-IsChain :
    (boxes : Boxes) (i t : ℕ) (xs : List SockAddrIn) (m : AddrInfoNode)
    → m.next ≡ none
    → IsChain boxes i t xs
    → IsChain
        (attach (some t) (length boxes) (boxes ++ (some m ∷ [])))
        i
        (length boxes)
        (xs ++ (m.address ∷ []))
append-IsChain boxes _ _ _ m last (ends i n at end inside) =
    goes i (length boxes) (length boxes) (record n { next = some (length boxes) }) (m.address ∷ [])
      (at_tail boxes i inside m n at) refl inside
      (ends (length boxes) m (at_last boxes i inside m) last (long boxes i inside m))
append-IsChain boxes _ _ _ m last (goes i j t n rest at next lt chain) =
    let (le, inside) = up_to boxes j t rest chain in
    goes i j (length boxes) n (rest ++ (m.address ∷ []))
      (at_other boxes t inside m i (omega (arith, lt, le)) ∙ at) next lt
      (append-IsChain boxes j t rest m last chain)

-- The IPv4 addresses of an answer, in order.
unfoldable pub v4_addresses : List SocketAddr → List SockAddrIn
v4_addresses [] = []
v4_addresses (v6 ∷ rest) = v4_addresses rest
v4_addresses (v4 ip port ∷ rest) = socket_address ip port ∷ v4_addresses rest

append_one :
    (xs : List SockAddrIn) (x : SockAddrIn) (ys : List SockAddrIn)
    → (xs ++ (x ∷ [])) ++ ys ≡ xs ++ (x ∷ ys)
append_one [] x ys = refl
append_one (z ∷ xs) x ys = ap (λ r. z ∷ r) (append_one xs x ys)

append_none : (xs : List SockAddrIn) → xs ++ [] ≡ xs
append_none [] = refl
append_none (z ∷ xs) = ap (λ r. z ∷ r) (append_none xs)

-- A loop that has a list goes on at its end.
extended :
    (hints : Hints) (as_left : List SocketAddr) (head tail : ℕ) (boxes : Boxes)
    (xs : List SockAddrIn)
    → IsChain boxes head tail xs
    → ((link_addresses hints as_left (some head) (some tail) boxes).0 ≡ some head)
      × ((t : ℕ) × IsChain
            (link_addresses hints as_left (some head) (some tail) boxes).1
            head
            t
            (xs ++ v4_addresses as_left))
unfolding link_addresses v4_addresses
extended hints [] head tail boxes xs chain =
    (refl, (tail, subst (IsChain boxes head tail) (sym (append_none xs)) chain))
extended hints (v6 ∷ rest) head tail boxes xs chain = extended hints rest head tail boxes xs chain
extended hints (v4 ip port ∷ rest) head tail boxes xs chain =
    let (h, (t, c)) =
      extended hints rest head (length boxes)
        (attach (some tail) (length boxes) (boxes ++ (some (node_of hints ip port) ∷ [])))
        (xs ++ (socket_address ip port ∷ []))
        (append-IsChain boxes head tail xs (node_of hints ip port) refl chain) in
    (
      h,
      (
        t,
        subst
            (λ r.
              IsChain (link_addresses hints (v4 ip port ∷ rest) (some head) (some tail) boxes).1
                head t r)
            (append_one xs (socket_address ip port) (v4_addresses rest)) c,
      ),
    )

-- What the loop gives: no list for no IPv4 address, else a list of all of them, in order.
pub data IsLinked (boxes : Boxes) : Option ℕ → List SockAddrIn → Type 0 where
  nothing : IsLinked boxes none []
  linked :
      (head t : ℕ) (xs : List SockAddrIn) → IsChain boxes head t xs → IsLinked boxes (some head) xs

-- The list that `getaddrinfo` builds by its tail pointer holds the IPv4 addresses of the resolver, each
-- once and in the order of the answer, ends with the last of them, and is no list where there is none.
pub link_addresses-IsLinked :
    (hints : Hints) (addresses : List SocketAddr) (boxes : Boxes)
    → IsLinked
        (link_addresses hints addresses none none boxes).1
        (link_addresses hints addresses none none boxes).0
        (v4_addresses addresses)
unfolding link_addresses v4_addresses
link_addresses-IsLinked hints [] boxes = nothing
link_addresses-IsLinked hints (v6 ∷ rest) boxes = link_addresses-IsLinked hints rest boxes
link_addresses-IsLinked hints (v4 ip port ∷ rest) boxes =
    let (h, (t, c)) =
      extended hints rest (length boxes) (length boxes)
        (boxes ++ (some (node_of hints ip port) ∷ [])) (socket_address ip port ∷ [])
        (ends (length boxes) (node_of hints ip port)
          (get_or-append_last boxes (some (node_of hints ip port)) none) refl
          (omega (arith, length-append boxes (some (node_of hints ip port) ∷ [])))) in
    subst
      (λ p.
        IsLinked (link_addresses hints (v4 ip port ∷ rest) none none boxes).1 p
          (v4_addresses (v4 ip port ∷ rest)))
      (sym h) (linked (length boxes) t _ c)

-- Dropping a box before a list leaves the list.
kept-IsChain :
    (boxes : Boxes) (k i t : ℕ) (xs : List SockAddrIn)
    → k < i
    → IsChain boxes i t xs
    → IsChain (set boxes k none) i t xs
kept-IsChain boxes k _ _ _ lt (ends i n at last inside) =
    ends i n (get_or-set_ne boxes k i none none (ground (arith, lt)) ∙ at) last
      (omega (arith, inside, length-set boxes k none))
kept-IsChain boxes k _ _ _ lt (goes i j t n rest at next lt' chain) =
    goes i j t n rest (get_or-set_ne boxes k i none none (ground (arith, lt)) ∙ at) next lt'
      (kept-IsChain boxes k j t rest (omega (arith, lt, lt')) chain)

frees :
    (k : ℕ) (boxes : Boxes) (i t : ℕ) (xs : List SockAddrIn)
    → length xs ≡ k
    → IsChain boxes i t xs
    → (after : Boxes) × (freeaddrinfo k (some i) boxes ≡ some after)
unfolding freeaddrinfo
frees zero boxes _ _ _ size (ends i n at last inside) = absurd (ground (arith, size))
frees zero boxes _ _ _ size (goes i j t n rest at next lt chain) = absurd (ground (arith, size))
frees (suc k) boxes _ _ _ size (ends i n at last inside) = (
  set boxes i none,
  ap (λ o. dropped (freeaddrinfo k) i o boxes) at
      ∙ ap (λ o. freeaddrinfo k o (set boxes i none)) last,
)
frees (suc k) boxes _ _ _ size (goes i j t n rest at next lt chain) =
    let (after, e) =
      frees k (set boxes i none) j t rest (omega (arith, size))
        (kept-IsChain boxes i j t rest lt chain) in
    (
      after,
      ap (λ o. dropped (freeaddrinfo k) i o boxes) at
          ∙ ap (λ o. freeaddrinfo k o (set boxes i none)) next
          ∙ e,
    )

-- A list is freed as a whole, with a turn for each of its boxes: no box is met that was freed before.
pub freeaddrinfo_frees :
    (boxes : Boxes) (i t : ℕ) (xs : List SockAddrIn)
    → IsChain boxes i t xs
    → (after : Boxes) × (freeaddrinfo (length xs) (some i) boxes ≡ some after)
freeaddrinfo_frees boxes i t xs chain = frees (length xs) boxes i t xs refl chain
