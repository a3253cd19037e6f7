-- ===== src/Scarlet/Payload.antt =====
-- Where the C allocator of moonlight-sys/src/scarlet.rs puts a payload, and what it gives back.
use moonlight_scarlet.Prelude.{
  ℕ, ◌+◌, ◌*◌, ◌-◌, ◌^◌, ◌≤◌, ◌<◌, ◌≡◌, ◌≢◌, refl, ap, ◌∙◌, sym, max, Bool, true, false, not, ◌&&◌,
  Option, none, some, if◌then◌else◌, ◌==◌, leb, bit_and, arith,
}
use native.Mathlib.Nat.{one-le-pow}
use moonlight_scarlet.Scarlet.Rounding.{IsRounded, cleared-IsRounded, power_of}
use moonlight_scarlet.Scarlet.Alloc.{
  Layout, AllocationHeader, header_size, allocation_magic, is_power_below, is_power_of_two,
  checked_add, from_size_align, allocation_layout, payload_address, Allocator, Heap, write_header,
  place, allocate_in, allocate_with_alignment, release, free, out_of_memory,
}

-- A layout that is made.
record IsPadded (size alignment : ℕ) (l : Layout) : Type 0 where
  sized : l.size ≡ max size 1 + header_size + (l.align - 1)
  aligned : l.align ≡ max alignment 16
  power : (k : ℕ) × (k < 64) × (l.align ≡ 2 ^ k)
  accepted : from_size_align l.align (some l.size) ≡ some l

power_at : (a b : ℕ) → is_power_of_two a ≡ true → b ≡ a → (k : ℕ) × (k < 64) × (b ≡ 2 ^ k)
unfolding is_power_of_two
power_at a b p e = power_of 64 b (ap (is_power_below 64) e ∙ p)

accepted_power :
    (b : Bool) (o : Option Layout) (l : Layout) → (if not b then none else o) ≡ some l → o ≡ some l
accepted_power true o l e = e
accepted_power false o l e = absurd (ground (arith, e))

sealed :
    (align : ℕ) (o : Option ℕ) (l : Layout)
    → from_size_align align o ≡ some l
    → (is_power_of_two align ≡ true) × (o ≡ some l.size) × (l.align ≡ align)
sealed align none l e = absurd (ground (arith, e))
sealed align (some size) l e =
    go (is_power_of_two align && leb (size + (align - 1)) (2 ^ 63 - 1)) (ground arith) e
  where
    sized_of : Option Layout → Option ℕ
    sized_of none = none
    sized_of (some l) = some l.size

    align_of : Option Layout → ℕ
    align_of none = align
    align_of (some l) = l.align

    go :
        (b : Bool)
        → (b ≡ true → is_power_of_two align ≡ true)
        → (if b then some (record { size = size; align = align }) else none) ≡ some l
        → (is_power_of_two align ≡ true) × (some size ≡ some l.size) × (l.align ≡ align)
    go true h e = (h refl, ap (λ o. sized_of o) e, ap (λ o. align_of o) (sym e))
    go false h e = absurd (ground (arith, e))

added : (o : Option ℕ) (b s : ℕ) → checked_add o b ≡ some s → (a : ℕ) × (o ≡ some a) × (s ≡ a + b)
added none b s e = absurd (ground (arith, e))
added (some a) b s e = (a, refl, ground (arith, e))

layout_size :
    (c b s : ℕ)
    → checked_add (checked_add (some c) header_size) b ≡ some s
    → s ≡ c + header_size + b
layout_size c b s e =
    let (m, o, f) = added (checked_add (some c) header_size) b s e in omega (arith, f, inner m o)
  where
    inner : (m : ℕ) → checked_add (some c) header_size ≡ some m → m ≡ c + header_size
    inner m o = ground (arith, o)

layout-IsPadded :
    (size alignment : ℕ) (l : Layout)
    → allocation_layout size alignment ≡ some l
    → IsPadded size alignment l
unfolding allocation_layout
layout-IsPadded size alignment l e = padded (
    accepted_power (is_power_of_two (max alignment 16)) (from_size_align (max alignment 16) asked) l
      e)
  where
    asked : Option ℕ
    asked = checked_add (checked_add (some (max size 1)) header_size) (max alignment 16 - 1)

    padded : from_size_align (max alignment 16) asked ≡ some l → IsPadded size alignment l
    padded f =
        let (p, o, al) = sealed (max alignment 16) asked l f in
        record {
          sized =
              layout_size (max size 1) (max alignment 16 - 1) l.size o
              ∙ ap (λ a. max size 1 + header_size + (a - 1)) (sym al);
          aligned = al;
          power = power_at (max alignment 16) l.align p al;
          accepted =
              ap (λ a. from_size_align a (some l.size)) al
              ∙ ap (from_size_align (max alignment 16)) (sym o)
              ∙ f;
        }

-- The payload of a block lies past the header, ends inside the block, and is aligned.
payload_inside :
    (size alignment base : ℕ) (l : Layout)
    → IsPadded size alignment l
    → base + l.size ≤ 2 ^ 64
    → (base + header_size ≤ payload_address base l.align)
      × (payload_address base l.align + max size 1 ≤ base + l.size)
      × ((q : ℕ) × (payload_address base l.align ≡ q * l.align))
unfolding payload_address
payload_inside size alignment base l h fits = let (k, lt, e) = h.power in go k lt e
  where
    go :
        (k : ℕ)
        → k < 64
        → l.align ≡ 2 ^ k
        → (base + header_size ≤ payload_address base l.align)
          × (payload_address base l.align + max size 1 ≤ base + l.size)
          × ((q : ℕ) × (payload_address base l.align ≡ q * l.align))
    go k lt e = (
      omega (arith, masked, r.below, r.near, e),
      omega (arith, masked, r.below, r.near, h.sized, e),
      (r.multiple.0, masked ∙ r.multiple.1 ∙ ap (λ m. r.multiple.0 * m) (sym e)),
    )
      where
        positive : 1 ≤ 2 ^ k
        positive = one-le-pow k 2 (omega arith)

        masked :
            payload_address base l.align
            ≡ bit_and (base + header_size + l.align - 1) (2 ^ 64 - 2 ^ k)
        masked = ap (bit_and (base + header_size + l.align - 1)) (omega (arith, e, positive))

        r :
            IsRounded k
              (base + header_size + l.align - 1)
              (bit_and (base + header_size + l.align - 1) (2 ^ 64 - 2 ^ k))
        r =
            cleared-IsRounded 64 k (base + header_size + l.align - 1) (omega (arith, lt))
              (omega (arith, h.sized, fits, e, positive))

-- A block that the allocator below gave.
module _ {A : Type 0} (below : Allocator A) (size : ℕ) (l : Layout) (base : ℕ) (a : A)
    (h : Heap A) where
  abbrev written : Heap A
  written =
      write_header (payload_address base l.align - header_size)
        (record {
          base = base;
          layout_size = l.size;
          layout_align = l.align;
          requested_size = size;
          magic = allocation_magic;
        })
        (record h { allocator = a })

  placed :
      (p : ℕ) (h' : Heap A)
      → place below size l (base, a) h ≡ (p, h')
      → p ≢ 0
      → (p ≡ payload_address base l.align) × (h' ≡ written)
  unfolding place
  placed p h' e nz = go (base == 0) e
    where
      go :
          (b : Bool)
          → (if b
              then out_of_memory (record h { allocator = a })
              else (payload_address base l.align, written))
            ≡ (p, h')
          → (p ≡ payload_address base l.align) × (h' ≡ written)
      go true e = absurd (nz (sym (ap (λ r. r.0) e)))
      go false e = (sym (ap (λ r. r.0) e), sym (ap (λ r. r.1) e))

freed :
    {A : Type 0} (below : Allocator A) (p : ℕ) (h : Heap A) (header : AllocationHeader) (l : Layout)
    → h.headers (p - header_size) ≡ header
    → p ≢ 0
    → header.magic ≡ allocation_magic
    → from_size_align header.layout_align (some header.layout_size) ≡ some l
    → free below p h ≡ record h { allocator = below.dealloc header.base l h.allocator }
unfolding free
freed below p h header l at nz magic made = rw at (
    go (p == 0) (header.magic == allocation_magic)
      (from_size_align header.layout_align (some header.layout_size)) (ground (arith, nz))
      (ground (arith, magic)) made)
  where
    go :
        (z m : Bool) (o : Option Layout)
        → z ≡ false
        → m ≡ true
        → o ≡ some l
        → (if z then h else if not m then h else release below header.base o h)
          ≡ record h { allocator = below.dealloc header.base l h.allocator }
    go true m o zf mt e = absurd (ground (arith, zf))
    go false true o zf mt e = ap (λ x. release below header.base x h) e
    go false false o zf mt e = absurd (ground (arith, mt))

-- Whenever the request has a layout and the allocator below places that block in the address space,
-- the address that C gets is a multiple of the alignment, which is at least 16, the header lies
-- before it in the block, and the bytes asked for, at least one, end inside the block.
pub allocate_inside :
    {A : Type 0} (below : Allocator A) (size alignment : ℕ) (h h' : Heap A) (p : ℕ) (l : Layout)
    → allocation_layout size alignment ≡ some l
    → (below.alloc l h.allocator).0 + l.size ≤ 2 ^ 64
    → allocate_with_alignment below size alignment h ≡ (p, h')
    → p ≢ 0
    → ((below.alloc l h.allocator).0 + header_size ≤ p)
      × (p + max size 1 ≤ (below.alloc l h.allocator).0 + l.size)
      × ((q : ℕ) × (p ≡ q * l.align))
      × (16 ≤ l.align)
unfolding allocate_with_alignment place
allocate_inside below size alignment h h' p l made fits e nz =
    let (at, h_at) =
      placed below size l (below.alloc l h.allocator).0 (below.alloc l h.allocator).1 h p h'
        (ap (λ o. allocate_in below size o h) (sym made) ∙ e) nz in
    let padded = layout-IsPadded size alignment l made in
    let (past, ends, (q, m)) =
      payload_inside size alignment (below.alloc l h.allocator).0 l padded fits in
    (omega (arith, at, past), omega (arith, at, ends), (q, at ∙ m), omega (arith, padded.aligned))

-- What C gets from an allocation, it can free: the block goes back to the allocator below at the
-- address and with the layout it was allocated with, and nothing else changes.
pub free-allocate :
    {A : Type 0} (below : Allocator A) (size alignment : ℕ) (h h' : Heap A) (p : ℕ) (l : Layout)
    → allocation_layout size alignment ≡ some l
    → allocate_with_alignment below size alignment h ≡ (p, h')
    → p ≢ 0
    → free below p h'
      ≡ record h' { allocator = below.dealloc (below.alloc l h.allocator).0 l h'.allocator }
unfolding allocate_with_alignment place free
free-allocate below size alignment h h' p l made e nz =
    let (at, h_at) =
      placed below size l (below.alloc l h.allocator).0 (below.alloc l h.allocator).1 h p h'
        (ap (λ o. allocate_in below size o h) (sym made) ∙ e) nz in
    freed below p h' _ l (ap (λ x. x.headers (p - header_size)) h_at ∙ found p at) nz refl
      (layout-IsPadded size alignment l made).accepted
  where
    same :
        (q : ℕ)
        → q ≡ payload_address (below.alloc l h.allocator).0 l.align
        → (q - header_size == payload_address (below.alloc l h.allocator).0 l.align - header_size)
          ≡ true
    same q e = ground (arith, e)

    found :
        (q : ℕ)
        → q ≡ payload_address (below.alloc l h.allocator).0 l.align
        → (written below size l
              (below.alloc l h.allocator).0
              (below.alloc l h.allocator).1
              h).headers
            (q - header_size)
          ≡ record {
            base = (below.alloc l h.allocator).0;
            layout_size = l.size;
            layout_align = l.align;
            requested_size = size;
            magic = allocation_magic;
          }
    found q e = rw (same q e) refl
