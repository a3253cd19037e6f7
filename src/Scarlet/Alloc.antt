-- ===== src/Scarlet/Alloc.antt =====
-- The C allocator of moonlight-sys/src/scarlet.rs, over the allocator of Rust's library. An address is
-- a number, 0 is the null pointer; the memory keeps what header was last written at an address.
use moonlight_scarlet.Prelude.{
  ℕ, zero, suc, ◌+◌, ◌*◌, ◌-◌, ◌%◌, ◌^◌, max, min, Bool, false, not, ◌||◌, ◌&&◌, Option, none, some,
  if◌then◌else◌, ◌==◌, leb, ltb, bit_and,
}
use moonlight_scarlet.Prelude.Int.{ℤ}
use moonlight_scarlet.Scarlet.Os.{enomem, einval}

pub record Layout : Type 0 where
  pub size : ℕ
  pub align : ℕ

-- `AllocationHeader`, five words at an alignment of 16.
pub record AllocationHeader : Type 0 where
  pub base : ℕ
  pub layout_size : ℕ
  pub layout_align : ℕ
  pub requested_size : ℕ
  pub magic : ℕ

abbrev pub header_size : ℕ
header_size = 48

abbrev pub allocation_magic : ℕ
allocation_magic = 0x5343_4152_4c45_544d

-- `usize::is_power_of_two`: 2 ^ k for some k below 64, looked for from `k` down.
abbrev pub is_power_below : ℕ → ℕ → Bool
is_power_below zero n = false
is_power_below (suc k) n = n == 2 ^ k || is_power_below k n

unfoldable pub is_power_of_two : ℕ → Bool
is_power_of_two n = is_power_below 64 n

abbrev pub checked_add : Option ℕ → ℕ → Option ℕ
checked_add none b = none
checked_add (some a) b = if ltb (a + b) (2 ^ 64) then some (a + b) else none

-- `Layout::from_size_align`, which wants the size rounded up to the alignment to be an `isize`.
abbrev pub from_size_align : ℕ → Option ℕ → Option Layout
from_size_align align none = none
from_size_align align (some size) =
    if is_power_of_two align && leb (size + (align - 1)) (2 ^ 63 - 1)
    then some (record { size = size; align = align })
    else none

unfoldable pub allocation_layout : ℕ → ℕ → Option Layout
allocation_layout size alignment =
    let align = max alignment 16 in
    if not (is_power_of_two align)
    then none
    else from_size_align align
        (checked_add (checked_add (some (max size 1)) header_size) (align - 1))

-- `(base + header_size + align - 1) & !(align - 1)`
unfoldable pub payload_address : ℕ → ℕ → ℕ
payload_address base align = bit_and (base + header_size + align - 1) (2 ^ 64 - 1 - (align - 1))

-- The allocator below, and the bytes of the memory.
pub record Allocator (A : Type 0) : Type 0 where
  pub alloc : Layout → A → ℕ × A
  pub dealloc : ℕ → Layout → A → A
  pub write_zeros : ℕ → ℕ → A → A
  pub copy_bytes : ℕ → ℕ → ℕ → A → A

pub record Heap (A : Type 0) : Type 0 where
  pub errno : ℤ
  pub allocator : A
  pub headers : ℕ → AllocationHeader

module _ {A : Type 0} where
  abbrev pub write_header : ℕ → AllocationHeader → Heap A → Heap A
  write_header at header h = record h { headers = λ a. if a == at then header else h.headers a }

  abbrev pub out_of_memory : Heap A → ℕ × Heap A
  out_of_memory h = (0, record h { errno = enomem })

module _ {A : Type 0} (below : Allocator A) where
  -- On what `alloc` returned.
  unfoldable pub place : ℕ → Layout → ℕ × A → Heap A → ℕ × Heap A
  place size layout (base, a) h =
      let h' = record h { allocator = a } in
      if base == 0 then out_of_memory h' else (
        payload_address base layout.align,
        write_header (payload_address base layout.align - header_size)
            (record {
              base = base;
              layout_size = layout.size;
              layout_align = layout.align;
              requested_size = size;
              magic = allocation_magic;
            })
            h',
      )

  abbrev pub allocate_in : ℕ → Option Layout → Heap A → ℕ × Heap A
  allocate_in size none h = out_of_memory h
  allocate_in size (some layout) h = place size layout (below.alloc layout h.allocator) h

  unfoldable pub allocate_with_alignment : ℕ → ℕ → Heap A → ℕ × Heap A
  unfolding place
  allocate_with_alignment size alignment h = allocate_in size (allocation_layout size alignment) h

  unfoldable pub malloc : ℕ → Heap A → ℕ × Heap A
  unfolding allocate_with_alignment
  malloc size = allocate_with_alignment size 16

  unfoldable pub aligned_alloc : ℕ → ℕ → Heap A → ℕ × Heap A
  unfolding allocate_with_alignment
  aligned_alloc alignment size h =
      if alignment == 0 || not (is_power_of_two alignment) || not (size % alignment == 0)
      then (0, record h { errno = einval })
      else allocate_with_alignment size alignment h

  abbrev pub zeroed : ℕ → ℕ × Heap A → ℕ × Heap A
  zeroed total (p, h) =
      if p == 0 then (p, h) else (p, record h { allocator = below.write_zeros p total h.allocator })

  unfoldable pub calloc : ℕ → ℕ → Heap A → ℕ × Heap A
  unfolding malloc
  calloc count size h =
      if ltb (count * size) (2 ^ 64)
      then zeroed (count * size) (malloc (count * size) h)
      else out_of_memory h

  abbrev pub release : ℕ → Option Layout → Heap A → Heap A
  release base none h = h
  release base (some layout) h = record h { allocator = below.dealloc base layout h.allocator }

  unfoldable pub free : ℕ → Heap A → Heap A
  free p h =
      let header = h.headers (p - header_size) in
      if p == 0
      then h
      else if not (header.magic == allocation_magic)
      then h
      else release header.base (from_size_align header.layout_align (some header.layout_size)) h

  -- The move into the replacement.
  abbrev pub replaced : ℕ → ℕ → ℕ × Heap A → ℕ × Heap A
  replaced p count (q, h) =
      if q == 0
      then (0, h)
      else (q, free p (record h { allocator = below.copy_bytes p q count h.allocator }))

  unfoldable pub realloc_c : ℕ → ℕ → Heap A → ℕ × Heap A
  unfolding malloc free allocate_with_alignment
  realloc_c p size h =
      let header = h.headers (p - header_size) in
      if p == 0
      then malloc size h
      else if size == 0
      then (0, free p h)
      else if not (header.magic == allocation_magic)
      then (0, record h { errno = einval })
      else replaced p (min header.requested_size size)
          (allocate_with_alignment size header.layout_align h)
